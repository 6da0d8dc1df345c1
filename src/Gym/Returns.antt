-- ===== src/Gym/Returns.antt =====
-- Over any use of an environment, the sandboxes that it obtained are given back, but for the current
-- replica.
use shinken.Prelude.{
  ℕ, ◌+◌, ◌≡◌, refl, ◌∙◌, Bool, true, false, Option, none, some, List, [], ◌∷◌, arith,
}
use shinken.Gym.Make.{Calls, Config, make}
use shinken.Gym.Env.{Env, finalize, aborted, teardown, reset}
use shinken.Gym.Steps.{
  step, close, dispose, abort, apply, run, new_env, Op, make_op, reset_op, evaluate_op, close_op,
  dispose_op, step_op, abort_op, share_op, delete_golden,
}
use shinken.Gym.Replicas.{Counts, held_count, make-live}
use shinken.Gym.Holdings.{IsHeld, finalize-IsHeld, torn, made-IsHeld}
use shinken.Gym.Turning.{evaluate-IsHeld, guarded-IsHeld}

module _ {H C E O A V N W : Type 0} (calls : Calls H C E O A V N W) (cfg : Config) (live : W → ℕ)
    (counts : Counts calls live) (start : ℕ) where
  abbrev G : Type 0
  G = Env H C E O A V N W

  close-IsHeld :
      (env : G)
      → IsHeld calls cfg live counts start env
      → IsHeld calls cfg live counts start (close calls cfg env)
  unfolding close
  close-IsHeld env h =
      torn calls cfg live counts start (finalize (some "stopped") none none none env)
        (finalize-IsHeld calls cfg live counts start (some "stopped") none none none env h)

  delete_golden-live :
      (owns : Bool) (golden : Option C) (w : W)
      → live (delete_golden calls cfg owns golden w) ≡ live w
  unfolding delete_golden
  delete_golden-live true (some c) w = by_delete calls.delete_snapshot refl
    where
      by_delete :
          (f : Option (C → W → W))
          → calls.delete_snapshot ≡ f
          → live (elim f as (λ x. W) [ none ↦ w | some delete ↦ delete c w ]) ≡ live w
      by_delete none e = refl
      by_delete (some f) e = counts.delete_snapshot f e c w
  delete_golden-live true none w = refl
  delete_golden-live false golden w = refl

  apply-IsHeld :
      (op : Op C A) (env : G)
      → IsHeld calls cfg live counts start env
      → IsHeld calls cfg live counts start (apply calls cfg op env)
  unfolding apply reset step dispose abort aborted IsHeld
  apply-IsHeld make_op env h = make-live calls cfg live counts env.base ∙ h
  apply-IsHeld reset_op env h =
      let (r, b) = make calls cfg env.base in
      made-IsHeld calls cfg live counts start r (record env { base = b })
        (make-live calls cfg live counts env.base ∙ h)
  apply-IsHeld evaluate_op env h = evaluate-IsHeld calls cfg live counts start env h
  apply-IsHeld close_op env h = close-IsHeld env h
  apply-IsHeld dispose_op env h =
      let b = (close calls cfg env).base in
      delete_golden-live b.owns_checkpoint b.golden b.world ∙ close-IsHeld env h
  apply-IsHeld (step_op action) env h =
      guarded-IsHeld calls cfg live counts start env.session env.current action env h
  apply-IsHeld (abort_op error reason) env h =
      finalize-IsHeld calls cfg live counts start (some "aborted") none (some reason) (some error)
        env h
  apply-IsHeld (share_op c) env h = h

  run-keeps :
      (ops : List (Op C A)) (env : G)
      → IsHeld calls cfg live counts start env
      → IsHeld calls cfg live counts start (run calls cfg ops env)
  unfolding run
  run-keeps [] env h = h
  run-keeps (op ∷ ops) env h = run-keeps ops (apply calls cfg op env) (apply-IsHeld op env h)

module _ {H C E O A V N W : Type 0} (calls : Calls H C E O A V N W) (cfg : Config) (live : W → ℕ)
    (counts : Counts calls live) where
  -- If `live` counts the sandboxes that the provider has given out and was not asked to destroy: whatever
  -- a consumer does with a new environment and whichever calls raise, of all sandboxes that the
  -- environment obtained at most its current replica is out, and none once it is closed.
  pub run-live :
      (ops : List (Op C A)) (w : W)
      → (live (run calls cfg ops (new_env calls cfg w)).base.world
          ≡ live w + held_count (run calls cfg ops (new_env calls cfg w)).handle)
        × (live (close calls cfg (run calls cfg ops (new_env calls cfg w))).base.world ≡ live w)
  unfolding IsHeld
  run-live ops w =
      let env = run calls cfg ops (new_env calls cfg w) in
      let held = run-keeps calls cfg live counts (live w) ops (new_env calls cfg w) (fresh w) in
      (held, close-IsHeld calls cfg live counts (live w) env held ∙ gone env)
    where
      fresh : (w : W) → IsHeld calls cfg live counts (live w) (new_env calls cfg w)
      fresh w = unfold new_env in omega arith

      gone : (env : Env H C E O A V N W) → live w + held_count (close calls cfg env).handle ≡ live w
      gone env = unfold close teardown in omega arith
