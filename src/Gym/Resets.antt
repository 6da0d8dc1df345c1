-- ===== src/Gym/Resets.antt =====
-- Resets and closings: the episode is recorded, the old replica ends, and a new one is observed.
use shinken.Prelude.{
  ℕ, ◌≡◌, inl, inr, refl, sym, subst, String, Bool, true, false, Option, none, some, [], length,
  arith, Result, ok, raised,
}
use shinken.Errors.{Exc}
use shinken.Gym.Make.{Base, Calls, Config, resolved}
use shinken.Gym.Env.{
  Env, finalize, teardown, with_world, first_observation, ready, connected, provisioned, provision,
  made, replayed, is_recreate,
}
use shinken.Gym.Steps.{close}
use shinken.Gym.Episodes.{
  HasRoom, IsChain, IsNumbered, AreEpisodes, IsSound, IsFinal, IsOpen-IsRecordable, finalize_open,
  finalize_closed,
}

module _ {H C E O A V N W : Type 0} (calls : Calls H C E O A V N W) (cfg : Config) where
  abbrev G : Type 0
  G = Env H C E O A V N W

  pub finalize-IsFinal :
      (terminal : Option String) (reward : Option N) (reason error : Option String) (env : G)
      → IsSound cfg.max_steps env
      → IsFinal cfg.max_steps (finalize terminal reward reason error env)
  finalize-IsFinal terminal reward reason error env s = elim s.phase [
    | inl c ↦ finalize_closed cfg.max_steps terminal reward reason error env s.recorded c
    | inr o ↦
        finalize_open cfg.max_steps terminal reward reason error env
          (IsOpen-IsRecordable cfg.max_steps env s.recorded o) o.opened
  ]

  -- The calls of the world touch nothing that soundness is about.
  pub with_base-IsSound :
      (b : Base C W) (env : G)
      → IsSound cfg.max_steps env
      → IsSound cfg.max_steps (record env { base = b })
  with_base-IsSound b env s = record {
    recorded = s.recorded;
    phase = elim s.phase [
      | inl c ↦ inl (record { closed = c.closed; no_steps = c.no_steps; idle = c.idle })
      | inr o ↦ inr (record {
        opened = o.opened;
        going = o.going;
        sess = o.sess;
        live = o.live;
        now = o.now;
        seen = o.seen;
        numbered = o.numbered;
        chain = o.chain;
        room = o.room;
      })
    ];
  }

  pub with_world-IsSound :
      (w : W) (env : G)
      → IsSound cfg.max_steps env
      → IsSound cfg.max_steps (with_world calls cfg w env)
  unfolding with_world
  with_world-IsSound w env s = with_base-IsSound (record env.base { world = w }) env s

  -- Without a session no step is taken.
  pub teardown-IsSound :
      (env : G)
      → AreEpisodes cfg.max_steps 0 env.episodes
      → env.is_open ≡ false
      → env.steps ≡ []
      → IsSound cfg.max_steps (teardown calls cfg env)
  unfolding teardown
  teardown-IsSound env r c n = record {
    recorded = r;
    phase = inl (record { closed = c; no_steps = n; idle = inr refl });
  }

  -- A replica under provision: closed, and done until it is connected.
  record IsProvisioning (env : G) : Type 0 where
    recorded : AreEpisodes cfg.max_steps 0 env.episodes
    closed : env.is_open ≡ false
    no_steps : env.steps ≡ []

  no_room : (l : Option ℕ) → HasRoom l 0
  no_room none = tt
  no_room (some m) = omega arith

  first_observation-IsSound :
      (r : Result Exc O) (sess : E) (env : G)
      → IsProvisioning env
      → env.session ≡ some sess
      → env.done ≡ false
      → IsSound cfg.max_steps (first_observation calls cfg r env).1
  unfolding first_observation with_world
  first_observation-IsSound (raised e) sess env p l d =
      teardown-IsSound env p.recorded p.closed p.no_steps
  first_observation-IsSound (ok obs) sess env p l d = record {
    recorded = p.recorded;
    phase = inr (record {
      opened = refl;
      going = d;
      sess = sess;
      live = l;
      now = obs;
      seen = refl;
      numbered = subst (λ steps. IsNumbered 0 steps) (sym p.no_steps) tt;
      chain = subst (λ steps. IsChain steps obs) (sym p.no_steps) tt;
      room =
          subst (λ steps. HasRoom cfg.max_steps (length steps)) (sym p.no_steps)
            (no_room cfg.max_steps);
    });
  }

  ready-IsSound :
      (r : Result Exc Unit) (sess : E) (env : G)
      → IsProvisioning env
      → env.session ≡ some sess
      → env.done ≡ false
      → IsSound cfg.max_steps (ready calls cfg sess r env).1
  unfolding ready with_world
  ready-IsSound (raised e) sess env p l d = teardown-IsSound env p.recorded p.closed p.no_steps
  ready-IsSound (ok _) sess env p l d =
      let (r, w) = calls.observe sess env.base.world in
      first_observation-IsSound r sess (with_world calls cfg w env)
        (record { recorded = p.recorded; closed = p.closed; no_steps = p.no_steps }) l d

  connected-IsSound :
      (again : Bool) (h : H) (r : Result Exc E) (env : G)
      → IsProvisioning env
      → IsSound cfg.max_steps env
      → IsSound cfg.max_steps (connected calls cfg again h r env).1
  unfolding connected with_world
  connected-IsSound again h (raised e) env p s =
      with_world-IsSound (calls.destroy h env.base.world) env s
  connected-IsSound again h (ok sess) env p s =
      let (r, w) = replayed calls cfg again sess env.base.world in
      let env' = with_world calls cfg w env in
      ready-IsSound r sess
        (record env' { handle = some h; session = some sess; steps = []; done = false })
        (record { recorded = p.recorded; closed = p.closed; no_steps = refl }) refl refl

  provisioned-IsSound :
      (again : Bool) (r : Result Exc H) (env : G)
      → IsProvisioning env
      → IsSound cfg.max_steps env
      → IsSound cfg.max_steps (provisioned calls cfg again r env).1
  unfolding provisioned with_world
  provisioned-IsSound again (raised e) env p s = s
  provisioned-IsSound again (ok h) env p s =
      let (r, w) = calls.connect h env.base.world in
      connected-IsSound again h r (with_world calls cfg w env)
        (record { recorded = p.recorded; closed = p.closed; no_steps = p.no_steps })
        (with_world-IsSound w env s)

  provision-IsSound :
      (again : Bool) (env : G)
      → IsProvisioning env
      → IsSound cfg.max_steps env
      → IsSound cfg.max_steps (provision calls cfg again env).1
  unfolding provision with_world
  provision-IsSound true env p s =
      let (r, w) = calls.create env.base.world in
      provisioned-IsSound true r (with_world calls cfg w env)
        (record { recorded = p.recorded; closed = p.closed; no_steps = p.no_steps })
        (with_world-IsSound w env s)
  provision-IsSound false env p s =
      let (r, w) = calls.resume env.base.golden env.base.world in
      provisioned-IsSound false r (with_world calls cfg w env)
        (record { recorded = p.recorded; closed = p.closed; no_steps = p.no_steps })
        (with_world-IsSound w env s)

  pub close-IsSound :
      (env : G) → IsSound cfg.max_steps env → IsSound cfg.max_steps (close calls cfg env)
  unfolding close
  close-IsSound env s =
      let f = finalize-IsFinal (some "stopped") none none none env s in
      teardown-IsSound (finalize (some "stopped") none none none env) f.recorded f.closed f.no_steps

  pub made-IsSound :
      (r : Result Exc Unit) (env : G)
      → IsSound cfg.max_steps env
      → IsSound cfg.max_steps (made calls cfg r env).1
  unfolding made teardown
  made-IsSound (raised e) env s = s
  made-IsSound (ok _) env s =
      let f = finalize-IsFinal (some "stopped") none none none env s in
      let env' = finalize (some "stopped") none none none env in
      provision-IsSound (is_recreate calls cfg (resolved env'.base)) (teardown calls cfg env')
        (record { recorded = f.recorded; closed = f.closed; no_steps = f.no_steps })
        (teardown-IsSound env' f.recorded f.closed f.no_steps)
