-- ===== src/Gym/Turning.antt =====
-- Turns and verdicts neither obtain nor give back a sandbox.
use shinken.Prelude.{
  ℕ, ◌≡◌, refl, sym, ◌∙◌, subst, String, ◌<>◌, false, Option, none, some, List, [], ◌∷◌, ◌++◌,
  length, Result, ok, raised, if◌then◌else◌,
}
use shinken.Errors.{Exc, is_infra_death, sandbox_died}
use shinken.Gym.Make.{Calls, Config, Batch}
use shinken.Gym.Env.{Env, Action, Turn, aborted, with_world, split_control}
use shinken.Gym.Steps.{
  evaluate, judged, verified, evaluate_with, scored, evaluate_for_done, ended, turned, recorded,
  answered, acted, controlled, coerced, guarded, terminal_of, is_spent, step_of, has_died, death_of,
  dispatch_and_observe, raw_text, coerce_actions, observed, fused, batched, idle,
}
use shinken.Gym.Verdicts.{if-both}
use shinken.Gym.Replicas.{Counts}
use shinken.Gym.Holdings.{IsHeld, finalize-IsHeld}

module _ {H C E O A V N W : Type 0} (calls : Calls H C E O A V N W) (cfg : Config) (live : W → ℕ)
    (counts : Counts calls live) (start : ℕ) where
  abbrev G : Type 0
  G = Env H C E O A V N W

  judged-IsHeld :
      (r : Result Exc V) (env : G)
      → IsHeld calls cfg live counts start env
      → IsHeld calls cfg live counts start (judged calls cfg r env).1
  unfolding judged IsHeld
  judged-IsHeld (raised e) env h = h
  judged-IsHeld (ok v) env h = h

  evaluate_with-IsHeld :
      (f : Option (E → W → Result Exc V × W)) (sess : Option E) (env : G)
      → calls.verify ≡ f
      → env.session ≡ sess
      → IsHeld calls cfg live counts start env
      → IsHeld calls cfg live counts start (evaluate_with calls cfg f env).1
  unfolding evaluate_with verified with_world IsHeld
  evaluate_with-IsHeld none sess env c s h = h
  evaluate_with-IsHeld (some f) none env c s h =
      subst (λ x. IsHeld calls cfg live counts start (verified calls cfg f x env).1) (sym s) h
  evaluate_with-IsHeld (some f) (some sess) env c s h =
      subst (λ x. IsHeld calls cfg live counts start (verified calls cfg f x env).1) (sym s)
        (judged-IsHeld (f sess env.base.world).0
          (with_world calls cfg (f sess env.base.world).1 env)
          (counts.verify f c sess env.base.world ∙ h))

  pub evaluate-IsHeld :
      (env : G)
      → IsHeld calls cfg live counts start env
      → IsHeld calls cfg live counts start (evaluate calls cfg env).1
  unfolding evaluate
  evaluate-IsHeld env h = evaluate_with-IsHeld calls.verify env.session env refl refl h

  scored-IsHeld :
      (r : Result Exc N) (env : G)
      → IsHeld calls cfg live counts start env
      → IsHeld calls cfg live counts start (scored calls cfg (r, env)).1
  unfolding scored aborted
  scored-IsHeld (ok reward) env h = h
  scored-IsHeld (raised e) env h =
      let died = "sandbox_died: " <> e.message in
      if-both
        (λ (x : Result Exc (Option N × Option String) × G). IsHeld calls cfg live counts start x.1)
        (is_infra_death e) (raised e, aborted "sandbox_died" died env)
        (ok (none, some ("scorer_error: " <> e.message)), env)
        (finalize-IsHeld calls cfg live counts start (some "aborted") none (some "sandbox_died")
          (some died) env h)
        h

  evaluate_for_done-IsHeld :
      (env : G)
      → IsHeld calls cfg live counts start env
      → IsHeld calls cfg live counts start (evaluate_for_done calls cfg env).1
  unfolding evaluate_for_done
  evaluate_for_done-IsHeld env h = by_verifier calls.verify
    where
      by_verifier :
          (verify : Option (E → W → Result Exc V × W))
          → IsHeld calls cfg live counts start
              (elim verify as (λ x. Result Exc (Option N × Option String) × G) [
                | none ↦ (ok (none, none), env)
                | some verify ↦ scored calls cfg (evaluate calls cfg env)
              ]).1
      by_verifier none = h
      by_verifier (some verify) =
          scored-IsHeld (evaluate calls cfg env).0 (evaluate calls cfg env).1
            (evaluate-IsHeld env h)

  ended-IsHeld :
      (obs : O) (index : ℕ) (terminal : Option String)
      (v : Result Exc (Option N × Option String) × G)
      → IsHeld calls cfg live counts start v.1
      → IsHeld calls cfg live counts start (ended calls cfg obs index terminal v).1
  unfolding ended
  ended-IsHeld obs index terminal (raised e, env) h = h
  ended-IsHeld obs index terminal (ok (reward, failure), env) h =
      let reason = elim failure as (λ x. Option String) [
        | none ↦ none
        | some f ↦ some "scorer_error"
      ] in
      finalize-IsHeld calls cfg live counts start terminal reward reason failure env h

  turned-IsHeld :
      (obs : O) (index : ℕ) (control : Option A) (env : G)
      → IsHeld calls cfg live counts start env
      → IsHeld calls cfg live counts start (turned calls cfg obs index control env).1
  unfolding turned
  turned-IsHeld obs index (some control) env h =
      ended-IsHeld obs index (terminal_of (calls.verb control)) (evaluate_for_done calls cfg env)
        (evaluate_for_done-IsHeld env h)
  turned-IsHeld obs index none env h =
      if-both (λ (x : Result Exc (Turn O N) × G). IsHeld calls cfg live counts start x.1)
        (is_spent cfg.max_steps (length env.steps))
        (ended calls cfg obs index (some "max_steps") (evaluate_for_done calls cfg env))
        (
          ok (record {
            observation = obs;
            reward = none;
            done = false;
            terminal = none;
            index = index;
          }),
          env,
        )
        (ended-IsHeld obs index (some "max_steps") (evaluate_for_done calls cfg env)
          (evaluate_for_done-IsHeld env h))
        h

  observed-live : (b : Batch) (x : Result Exc O × W) → live (observed calls cfg b x).1 ≡ live x.1
  unfolding observed
  observed-live b (raised e, w) = refl
  observed-live b (ok obs, w) = refl

  idle-live : (x : Result Exc O × W) → live (idle calls cfg x).1 ≡ live x.1
  unfolding idle
  idle-live (raised e, w) = refl
  idle-live (ok obs, w) = refl

  fused-live :
      (sess : E) (x : Result Exc (Batch × Option O) × W)
      → live (fused calls cfg sess x).1 ≡ live x.1
  unfolding fused
  fused-live sess (raised e, w) = refl
  fused-live sess (ok (b, some obs), w) = refl
  fused-live sess (ok (b, none), w) = observed-live b (calls.observe sess w) ∙ counts.observe sess w

  batched-live :
      (sess : E) (x : Result Exc Batch × W) → live (batched calls cfg sess x).1 ≡ live x.1
  unfolding batched
  batched-live sess (raised e, w) = refl
  batched-live sess (ok b, w) = observed-live b (calls.observe sess w) ∙ counts.observe sess w

  dispatch_and_observe-live :
      (sess : E) (actions : List A) (w : W)
      → live (dispatch_and_observe calls cfg sess actions w).1 ≡ live w
  unfolding dispatch_and_observe
  dispatch_and_observe-live sess [] w = idle-live (calls.observe sess w) ∙ counts.observe sess w
  dispatch_and_observe-live sess (a ∷ actions) w =
      if-both (λ (x : Result Exc (O × Option Batch) × W). live x.1 ≡ live w) cfg.structured
        (batched calls cfg sess (calls.act_batch sess (a ∷ actions) w))
        (fused calls cfg sess (calls.act_and_observe sess (a ∷ actions) w))
        (batched-live sess (calls.act_batch sess (a ∷ actions) w)
          ∙ counts.act_batch sess (a ∷ actions) w)
        (fused-live sess (calls.act_and_observe sess (a ∷ actions) w)
          ∙ counts.act_and_observe sess (a ∷ actions) w)

  answered-IsHeld :
      (obs : O) (raw : Option String) (dispatch : List A) (control : Option A)
      (r : Result Exc (O × Option Batch)) (env : G)
      → IsHeld calls cfg live counts start env
      → IsHeld calls cfg live counts start (answered calls cfg obs raw dispatch control r env).1
  unfolding answered recorded aborted
  answered-IsHeld obs raw dispatch control (raised exc) env h =
      let reason = if is_infra_death exc then "sandbox_died" else "agent_error" in
      finalize-IsHeld calls cfg live counts start (some "aborted") none (some reason)
        (some (reason <> (": " <> exc.message))) env h
  answered-IsHeld obs raw dispatch control (ok (next, results)) env h =
      let died = "sandbox_died: " <> death_of results in
      let exc : Exc = record {
        class = sandbox_died;
        message = "replica died mid-step: " <> death_of results;
      } in
      let s = step_of calls cfg env obs raw dispatch control next in
      let env' : G = record env { current = some next; steps = env.steps ++ s ∷ [] } in
      if-both (λ (x : Result Exc (Turn O N) × G). IsHeld calls cfg live counts start x.1)
        (has_died results) (raised exc, aborted "sandbox_died" died env)
        (turned calls cfg next (length env.steps) control env')
        (finalize-IsHeld calls cfg live counts start (some "aborted") none (some "sandbox_died")
          (some died) env h)
        (turned-IsHeld next (length env.steps) control env' (unfold IsHeld in h))

  acted-IsHeld :
      (sess : E) (obs : O) (raw : Option String) (dispatch : List A) (control : Option A) (env : G)
      → IsHeld calls cfg live counts start env
      → IsHeld calls cfg live counts start (acted calls cfg sess obs raw dispatch control env).1
  unfolding acted with_world
  acted-IsHeld sess obs raw dispatch control env h =
      let (answer, w) = dispatch_and_observe calls cfg sess dispatch env.base.world in
      answered-IsHeld obs raw dispatch control answer (with_world calls cfg w env)
        (unfold IsHeld in dispatch_and_observe-live sess dispatch env.base.world ∙ h)

  coerced-IsHeld :
      (sess : E) (obs : O) (raw : Option String) (actions : Result Exc (List A)) (env : G)
      → IsHeld calls cfg live counts start env
      → IsHeld calls cfg live counts start (coerced calls cfg sess obs raw actions env).1
  unfolding coerced
  coerced-IsHeld sess obs raw (raised e) env h = h
  coerced-IsHeld sess obs raw (ok actions) env h = by_parts (split_control calls.verb actions)
    where
      by_parts :
          (parts : List A × List A)
          → IsHeld calls cfg live counts start (controlled calls cfg sess obs raw parts env).1
      by_parts (dispatch, []) = unfold controlled in acted-IsHeld sess obs raw dispatch none env h
      by_parts (dispatch, control ∷ []) =
          unfold controlled in acted-IsHeld sess obs raw dispatch (some control) env h
      by_parts (dispatch, control ∷ after ∷ rest) = unfold controlled in h

  pub guarded-IsHeld :
      (se : Option E) (cu : Option O) (action : Action A) (env : G)
      → IsHeld calls cfg live counts start env
      → IsHeld calls cfg live counts start (guarded calls cfg se cu action env).1
  unfolding guarded
  guarded-IsHeld none cu action env h = h
  guarded-IsHeld (some sess) none action env h = h
  guarded-IsHeld (some sess) (some obs) action env h =
      let turn =
        coerced calls cfg sess obs (raw_text action) (coerce_actions calls cfg action) env in
      if-both (λ (x : Result Exc (Turn O N) × G). IsHeld calls cfg live counts start x.1) env.done _
        turn h (coerced-IsHeld sess obs (raw_text action) (coerce_actions calls cfg action) env h)
