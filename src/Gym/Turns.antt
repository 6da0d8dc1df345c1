-- ===== src/Gym/Turns.antt =====
-- Turns: a transition is added to the chain, or the episode is recorded.
use shinken.Prelude.{
  ℕ, ◌+◌, ◌≡◌, inl, inr, refl, sym, subst, String, ◌<>◌, false, Option, none, some, List, [], ◌∷◌,
  ◌++◌, length, arith, length-append, Bool-cases, if_true, if_false, Result, ok, raised,
  if◌then◌else◌,
}
use shinken.Errors.{Exc, is_infra_death, sandbox_died}
use shinken.Gym.Make.{Calls, Config, Batch}
use shinken.Gym.Env.{Env, Action, Turn, aborted, with_world, split_control}
use shinken.Gym.Steps.{
  evaluate_for_done, ended, turned, recorded, answered, acted, controlled, coerced, guarded,
  terminal_of, is_spent, step_of, has_died, death_of, dispatch_and_observe, raw_text,
  coerce_actions,
}
use shinken.Gym.Episodes.{
  IsWithin, HasRoom, IsChain, append-IsChain, append-IsNumbered, AreEpisodes, IsOpen, IsSound,
  IsFinal-IsSound,
}
use shinken.Gym.Resets.{finalize-IsFinal}
use shinken.Gym.Verdicts.{if-both, IsTurned, evaluate_for_done-AfterVerdict, ended-IsSound}

module _ {H C E O A V N W : Type 0} (calls : Calls H C E O A V N W) (cfg : Config) where
  abbrev G : Type 0
  G = Env H C E O A V N W

  room_left : (l : Option ℕ) (n : ℕ) → is_spent l n ≡ false → HasRoom l n
  unfolding is_spent
  room_left none n h = tt
  room_left (some m) n h = ground (arith, h)

  turned-IsSound :
      (obs : O) (index : ℕ) (control : Option A) (sess : E) (env : G)
      → IsTurned calls cfg env
      → env.done ≡ false
      → env.session ≡ some sess
      → env.current ≡ some obs
      → IsChain env.steps obs
      → IsSound cfg.max_steps (turned calls cfg obs index control env).1
  unfolding turned
  turned-IsSound obs index (some control) sess env t d l c chain =
      ended-IsSound calls cfg obs index (terminal_of (calls.verb control))
        (evaluate_for_done calls cfg env) (evaluate_for_done-AfterVerdict calls cfg env t)
  turned-IsSound obs index none sess env t d l c chain =
      let spent = ended calls cfg obs index (some "max_steps") (evaluate_for_done calls cfg env) in
      let on : Result Exc (Turn O N) × G = (
        ok (record {
          observation = obs;
          reward = none;
          done = false;
          terminal = none;
          index = index;
        }),
        env,
      ) in
      elim (Bool-cases (is_spent cfg.max_steps (length env.steps))) [
        | inl e ↦
            subst (λ r. IsSound cfg.max_steps r.1)
              (sym (if_true (is_spent cfg.max_steps (length env.steps)) spent on e))
              (ended-IsSound calls cfg obs index (some "max_steps")
                (evaluate_for_done calls cfg env) (evaluate_for_done-AfterVerdict calls cfg env t))
        | inr e ↦
            subst (λ r. IsSound cfg.max_steps r.1)
              (sym (if_false (is_spent cfg.max_steps (length env.steps)) spent on e))
              (record {
                recorded = t.recordable.recorded;
                phase = inr (record {
                  opened = t.opened;
                  going = d;
                  sess = sess;
                  live = l;
                  now = obs;
                  seen = c;
                  numbered = t.recordable.numbered;
                  chain = chain;
                  room = room_left cfg.max_steps (length env.steps) e;
                });
              })
      ]

  one_more : (l : Option ℕ) (n k : ℕ) → k ≡ n + 1 → HasRoom l n → IsWithin l k
  one_more none n k e h = tt
  one_more (some m) n k e h = omega (arith, e, h)

  recorded-IsSound :
      (obs : O) (raw : Option String) (dispatch : List A) (control : Option A)
      (result : O × Option Batch) (env : G)
      → AreEpisodes cfg.max_steps 0 env.episodes
      → (o : IsOpen cfg.max_steps env) → obs ≡ o.now
      → IsSound cfg.max_steps (recorded calls cfg obs raw dispatch control result env).1
  unfolding recorded aborted step_of
  recorded-IsSound obs raw dispatch control (next, results) env r o e =
      let died = "sandbox_died: " <> death_of results in
      let exc : Exc = record {
        class = sandbox_died;
        message = "replica died mid-step: " <> death_of results;
      } in
      let s = step_of calls cfg env obs raw dispatch control next in
      let env' : G = record env { current = some next; steps = env.steps ++ s ∷ [] } in
      let chain = append-IsChain env.steps s o.now next o.chain e refl in
      let f =
        finalize-IsFinal calls cfg (some "aborted") none (some "sandbox_died") (some died) env
          (record { recorded = r; phase = inr o }) in
      if-both (λ t. IsSound cfg.max_steps t.1) (has_died results)
        (raised exc, aborted "sandbox_died" died env)
        (turned calls cfg next (length env.steps) control env')
        (IsFinal-IsSound cfg.max_steps (aborted "sandbox_died" died env) f)
        (turned-IsSound next (length env.steps) control o.sess env'
          (record {
            recordable = record {
              recorded = r;
              numbered = append-IsNumbered env.steps s 0 o.numbered (omega arith);
              last = next;
              chain = chain;
              within =
                  one_more cfg.max_steps (length env.steps) (length (env.steps ++ s ∷ []))
                    (omega (arith, length-append env.steps (s ∷ []))) o.room;
            };
            opened = o.opened;
          })
          o.going o.live refl chain)

  answered-IsSound :
      (obs : O) (raw : Option String) (dispatch : List A) (control : Option A)
      (r : Result Exc (O × Option Batch)) (env : G)
      → AreEpisodes cfg.max_steps 0 env.episodes
      → (o : IsOpen cfg.max_steps env) → obs ≡ o.now
      → IsSound cfg.max_steps (answered calls cfg obs raw dispatch control r env).1
  unfolding answered aborted
  answered-IsSound obs raw dispatch control (raised exc) env r o e =
      let reason = if is_infra_death exc then "sandbox_died" else "agent_error" in
      let error = reason <> (": " <> exc.message) in
      IsFinal-IsSound cfg.max_steps (aborted reason error env) (
        finalize-IsFinal calls cfg (some "aborted") none (some reason) (some error) env
          (record { recorded = r; phase = inr o }))
  answered-IsSound obs raw dispatch control (ok result) env r o e =
      recorded-IsSound obs raw dispatch control result env r o e

  acted-IsSound :
      (sess : E) (obs : O) (raw : Option String) (dispatch : List A) (control : Option A) (env : G)
      → AreEpisodes cfg.max_steps 0 env.episodes
      → (o : IsOpen cfg.max_steps env) → obs ≡ o.now
      → IsSound cfg.max_steps (acted calls cfg sess obs raw dispatch control env).1
  unfolding acted with_world
  acted-IsSound sess obs raw dispatch control env r o e =
      let (answer, w) = dispatch_and_observe calls cfg sess dispatch env.base.world in
      answered-IsSound obs raw dispatch control answer (with_world calls cfg w env) r
        (record {
          opened = o.opened;
          going = o.going;
          sess = o.sess;
          live = o.live;
          now = o.now;
          seen = o.seen;
          numbered = o.numbered;
          chain = o.chain;
          room = o.room;
        })
        e

  controlled-IsSound :
      (sess : E) (obs : O) (raw : Option String) (parts : List A × List A) (env : G)
      → AreEpisodes cfg.max_steps 0 env.episodes
      → (o : IsOpen cfg.max_steps env) → obs ≡ o.now
      → IsSound cfg.max_steps (controlled calls cfg sess obs raw parts env).1
  unfolding controlled
  controlled-IsSound sess obs raw (dispatch, []) env r o e =
      acted-IsSound sess obs raw dispatch none env r o e
  controlled-IsSound sess obs raw (dispatch, control ∷ []) env r o e =
      acted-IsSound sess obs raw dispatch (some control) env r o e
  controlled-IsSound sess obs raw (dispatch, control ∷ after ∷ rest) env r o e = record {
    recorded = r;
    phase = inr o;
  }

  coerced-IsSound :
      (sess : E) (obs : O) (raw : Option String) (actions : Result Exc (List A)) (env : G)
      → AreEpisodes cfg.max_steps 0 env.episodes
      → (o : IsOpen cfg.max_steps env) → obs ≡ o.now
      → IsSound cfg.max_steps (coerced calls cfg sess obs raw actions env).1
  unfolding coerced
  coerced-IsSound sess obs raw (raised exc) env r o e = record { recorded = r; phase = inr o }
  coerced-IsSound sess obs raw (ok actions) env r o e =
      controlled-IsSound sess obs raw (split_control calls.verb actions) env r o e

  -- A live replica of an environment that is not done has an open episode.
  live-IsOpen :
      (env : G) (sess : E)
      → IsSound cfg.max_steps env
      → env.session ≡ some sess
      → env.done ≡ false
      → IsOpen cfg.max_steps env
  live-IsOpen env sess s l d = elim s.phase [
    | inl c ↦ elim c.idle [ inl done ↦ absurd (ground arith) | inr gone ↦ absurd (ground arith) ]
    | inr o ↦ o
  ]

  now_unique : (a b : O) (c : Option O) → c ≡ some a → c ≡ some b → a ≡ b
  now_unique a b c ha hb = grind arith

  pub guarded-IsSound :
      (se : Option E) (cu : Option O) (action : Action A) (env : G)
      → env.session ≡ se
      → env.current ≡ cu
      → IsSound cfg.max_steps env
      → IsSound cfg.max_steps (guarded calls cfg se cu action env).1
  unfolding guarded
  guarded-IsSound none cu action env l c s = s
  guarded-IsSound (some sess) none action env l c s = s
  guarded-IsSound (some sess) (some obs) action env l c s =
      let turn =
        coerced calls cfg sess obs (raw_text action) (coerce_actions calls cfg action) env in
      elim (Bool-cases env.done) [
        | inl d ↦ subst (λ r. IsSound cfg.max_steps r.1) (sym (if_true env.done _ turn d)) s
        | inr d ↦
            let o = live-IsOpen env sess s l d in
            subst (λ r. IsSound cfg.max_steps r.1) (sym (if_false env.done _ turn d))
              (coerced-IsSound sess obs (raw_text action) (coerce_actions calls cfg action) env
                s.recorded o (now_unique obs o.now env.current c o.seen))
      ]
