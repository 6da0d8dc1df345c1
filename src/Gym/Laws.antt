-- ===== src/Gym/Laws.antt =====
-- Whatever a consumer does with an environment, and whichever calls raise, its episodes stay sound.
use shinken.Prelude.{inl, inr, refl, false, none, some, List, [], ◌∷◌}
use shinken.Gym.Make.{Calls, Config, make}
use shinken.Gym.Env.{Env, aborted, reset}
use shinken.Gym.Steps.{
  step, close, dispose, abort, apply, run, new_env, Op, make_op, reset_op, evaluate_op, close_op,
  dispose_op, step_op, abort_op, share_op,
}
use shinken.Gym.Episodes.{IsSound, IsFinal-IsSound}
use shinken.Gym.Resets.{finalize-IsFinal, with_base-IsSound, close-IsSound, made-IsSound}
use shinken.Gym.Verdicts.{evaluate-IsSound}
use shinken.Gym.Turns.{guarded-IsSound}

module _ {H C E O A V N W : Type 0} (calls : Calls H C E O A V N W) (cfg : Config) where
  abbrev G : Type 0
  G = Env H C E O A V N W

  apply-IsSound :
      (op : Op C A) (env : G)
      → IsSound cfg.max_steps env
      → IsSound cfg.max_steps (apply calls cfg op env)
  unfolding apply reset step dispose abort aborted
  apply-IsSound make_op env s = with_base-IsSound calls cfg (make calls cfg env.base).1 env s
  apply-IsSound reset_op env s =
      let (r, b) = make calls cfg env.base in
      made-IsSound calls cfg r (record env { base = b }) (with_base-IsSound calls cfg b env s)
  apply-IsSound evaluate_op env s = evaluate-IsSound calls cfg env s
  apply-IsSound close_op env s = close-IsSound calls cfg env s
  apply-IsSound dispose_op env s =
      with_base-IsSound calls cfg _ (close calls cfg env) (close-IsSound calls cfg env s)
  apply-IsSound (step_op action) env s =
      guarded-IsSound calls cfg env.session env.current action env refl refl s
  apply-IsSound (abort_op error reason) env s =
      IsFinal-IsSound cfg.max_steps (aborted reason error env)
        (finalize-IsFinal calls cfg (some "aborted") none (some reason) (some error) env s)
  apply-IsSound (share_op c) env s =
      with_base-IsSound calls cfg (record env.base { golden = some c; owns_checkpoint = false }) env
        s

  run-keeps :
      (ops : List (Op C A)) (env : G)
      → IsSound cfg.max_steps env
      → IsSound cfg.max_steps (run calls cfg ops env)
  unfolding run
  run-keeps [] env s = s
  run-keeps (op ∷ ops) env s = run-keeps ops (apply calls cfg op env) (apply-IsSound op env s)

  -- Whatever a consumer does with a new environment, and whichever calls raise or lose the sandbox:
  -- every recorded episode has its place as its index, tells a step or an error, has its steps
  -- numbered from 0, at most max_steps of them (one at least is allowed), and each step's next
  -- observation is the one that the policy saw at the next; and a live replica that is not done has
  -- an open episode with a turn left, whose steps lead to the current observation.
  pub run-IsSound :
      (ops : List (Op C A)) (w : W)
      → IsSound cfg.max_steps (run calls cfg ops (new_env calls cfg w))
  unfolding new_env
  run-IsSound ops w = run-keeps ops (new_env calls cfg w) (record {
    recorded = tt;
    phase = inl (record { closed = refl; no_steps = refl; idle = inr refl });
  })
