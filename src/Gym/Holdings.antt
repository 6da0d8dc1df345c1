-- ===== src/Gym/Holdings.antt =====
-- Resets: whatever raises, a sandbox that an environment obtained is its replica or has been given back.
use shinken.Prelude.{
  ℕ, ◌+◌, ◌-◌, ◌≡◌, refl, sym, ap, ◌∙◌, String, Bool, true, false, not, ◌&&◌, Option, none, some,
  [], arith, Result, ok, raised,
}
use shinken.Errors.{Exc}
use shinken.Gym.Make.{Calls, Config, resolved}
use shinken.Gym.Env.{
  Env, finalize, is_nil, is_none, teardown, close_all, with_world, first_observation, ready,
  connected, provisioned, provision, made, replayed, is_recreate,
}
use shinken.Gym.Verdicts.{if-both}
use shinken.Gym.Replicas.{Counts, made_count, held_count, run_setup-live}

module _ {H C E O A V N W : Type 0} (calls : Calls H C E O A V N W) (cfg : Config) (live : W → ℕ)
    (counts : Counts calls live) (start : ℕ) where
  abbrev G : Type 0
  G = Env H C E O A V N W

  -- Beside `start` only the current replica is out.
  unfoldable pub IsHeld : G → Type 0
  IsHeld env = live env.base.world ≡ start + held_count env.handle

  pub finalize-IsHeld :
      (terminal : Option String) (reward : Option N) (reason error : Option String) (env : G)
      → IsHeld env
      → IsHeld (finalize terminal reward reason error env)
  unfolding finalize IsHeld
  finalize-IsHeld terminal reward reason error env h =
      if-both IsHeld (not env.is_open) _ _ h
        (if-both IsHeld (is_nil env.steps && is_none error) _ _ h h)

  close_all-live :
      (sess : Option E) (handle : Option H) (w : W)
      → live (close_all calls cfg sess handle w) ≡ live w - held_count handle
  unfolding close_all
  close_all-live none none w = omega arith
  close_all-live none (some h) w = counts.destroy h w
  close_all-live (some sess) none w = omega (arith, counts.close sess w)
  close_all-live (some sess) (some h) w =
      counts.destroy h (calls.close sess w) ∙ ap (λ n. n - 1) (counts.close sess w)

  teardown-IsHeld : (env : G) → IsHeld env → live (teardown calls cfg env).base.world ≡ start
  unfolding teardown IsHeld
  teardown-IsHeld env h = close_all-live env.session env.handle env.base.world ∙ omega (arith, h)

  pub torn : (env : G) → IsHeld env → IsHeld (teardown calls cfg env)
  unfolding IsHeld
  torn env h = teardown-IsHeld env h ∙ at_teardown
    where
      at_teardown : start ≡ start + held_count (teardown calls cfg env).handle
      at_teardown = unfold teardown in omega arith

  first_observation-IsHeld :
      (r : Result Exc O) (env : G) → IsHeld env → IsHeld (first_observation calls cfg r env).1
  unfolding first_observation with_world IsHeld
  first_observation-IsHeld (raised e) env h = torn env h
  first_observation-IsHeld (ok obs) env h = counts.fresh_id env.base.world ∙ h

  ready-IsHeld :
      (sess : E) (r : Result Exc Unit) (env : G)
      → IsHeld env
      → IsHeld (ready calls cfg sess r env).1
  unfolding ready with_world
  ready-IsHeld sess (raised e) env h = torn env h
  ready-IsHeld sess (ok _) env h =
      let (r, w) = calls.observe sess env.base.world in
      first_observation-IsHeld r (with_world calls cfg w env)
        (unfold IsHeld in counts.observe sess env.base.world ∙ h)

  replayed-live :
      (again : Bool) (sess : E) (w : W) → live (replayed calls cfg again sess w).1 ≡ live w
  unfolding replayed
  replayed-live true sess w = run_setup-live calls cfg live counts sess w
  replayed-live false sess w = refl

  connected-IsHeld :
      (again : Bool) (h : H) (r : Result Exc E) (env : G)
      → env.handle ≡ none
      → live env.base.world ≡ start + 1
      → IsHeld (connected calls cfg again h r env).1
  unfolding connected with_world IsHeld
  connected-IsHeld again h (raised e) env n l =
      counts.destroy h env.base.world ∙ (omega (arith, l) ∙ ap (λ x. start + held_count x) (sym n))
  connected-IsHeld again h (ok sess) env n l =
      let (r, w) = replayed calls cfg again sess env.base.world in
      let env' = with_world calls cfg w env in
      ready-IsHeld sess r
        (record env' { handle = some h; session = some sess; steps = []; done = false })
        (replayed-live again sess env.base.world ∙ l)

  provisioned-IsHeld :
      (again : Bool) (r : Result Exc H) (env : G)
      → env.handle ≡ none
      → live env.base.world ≡ start + made_count r
      → IsHeld (provisioned calls cfg again r env).1
  unfolding provisioned with_world IsHeld
  provisioned-IsHeld again (raised e) env n l = l ∙ ap (λ x. start + held_count x) (sym n)
  provisioned-IsHeld again (ok h) env n l =
      let (r, w) = calls.connect h env.base.world in
      connected-IsHeld again h r (with_world calls cfg w env) n
        (counts.connect h env.base.world ∙ l)

  provision-IsHeld :
      (again : Bool) (env : G)
      → env.handle ≡ none
      → live env.base.world ≡ start
      → IsHeld (provision calls cfg again env).1
  unfolding provision with_world
  provision-IsHeld true env n l =
      let (r, w) = calls.create env.base.world in
      provisioned-IsHeld true r (with_world calls cfg w env) n
        (counts.create env.base.world ∙ ap (λ k. k + made_count r) l)
  provision-IsHeld false env n l =
      let (r, w) = calls.resume env.base.golden env.base.world in
      provisioned-IsHeld false r (with_world calls cfg w env) n
        (counts.resume env.base.golden env.base.world ∙ ap (λ k. k + made_count r) l)

  pub made-IsHeld : (r : Result Exc Unit) (env : G) → IsHeld env → IsHeld (made calls cfg r env).1
  unfolding made
  made-IsHeld (raised e) env h = h
  made-IsHeld (ok _) env h =
      let env' = finalize (some "stopped") none none none env in
      provision-IsHeld (is_recreate calls cfg (resolved (teardown calls cfg env').base))
        (teardown calls cfg env') (unfold teardown in refl)
        (teardown-IsHeld env' (finalize-IsHeld (some "stopped") none none none env h))
