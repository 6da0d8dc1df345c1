-- ===== src/Eval/Replica/Laws.antt =====
-- What each run's result says agrees with itself, and the summary counts what the results say.
use shinken.Prelude.{
  string_eq, ℕ, zero, suc, String, ◌≡◌, ◌≢◌, ◌⊎◌, inl, inr, refl, Bool, true, false, Option, none,
  some, List, Result, ok, raised, length, Result-cases, ◌-◌, ◌<>◌, if◌then◌else◌, arith, All,
}
use shinken.Prelude.Dict
use shinken.Prelude.Dict.{Dict}
use shinken.Errors.{
  Exc, ExcClass, setup_error, sandbox_died, connect_error, connection_error, connection_closed,
  scorer_error, is_infra_death,
}
use shinken.Eval.Receipt.{Verdict, VerifierReceipt, coerce_verifier_receipt}
use shinken.Eval.Receipt.Laws.{IsReceipt, coerce_verifier_receipt-IsReceipt}
use shinken.Eval.Replica.{
  Task, RunResult, failed_run, judged, verdict, after_run, score, prepared, connected, set_up,
  replica, replicas, run_result, classify_run_failure, failure_exit_reason,
  classify_verifier_failure, exit_reason_for_kind, no_verdict_receipt, summarize, run_eval,
  is_setup_error, is_scorer_error,
}

-- A verdict: a receipt in form, whose outcome the kind repeats.
abbrev pub IsVerdict : RunResult → Type 0
IsVerdict r =
    (r.error ≡ none)
    × (r.exit_reason ≡ some "task_complete")
    × IsReceipt r.receipt
    × (r.receipt.passed ≡ r.passed)
    × (((r.kind ≡ "pass") × (r.passed ≡ true)) ⊎ ((r.kind ≡ "fail") × (r.passed ≡ false)))

-- A failure that is no verdict: never a pass, with an error and the exit reason of its kind.
abbrev pub IsFailure : RunResult → Type 0
IsFailure r =
    (r.passed ≡ false)
    × (r.error ≢ none)
    × (((r.kind ≡ "setup") × (r.exit_reason ≡ some "setup_error"))
        ⊎ ((r.kind ≡ "sandbox_died") × (r.exit_reason ≡ some "sandbox_died"))
        ⊎ ((r.kind ≡ "error")
            × ((r.exit_reason ≡ some "agent_error") ⊎ (r.exit_reason ≡ some "scorer_error"))))

abbrev pub IsCoherent : RunResult → Type 0
IsCoherent r = IsVerdict r ⊎ IsFailure r

pub some-ne : {A : Type 0} (a : A) → some a ≢ none
some-ne a h = ground (arith, h)

abbrev Reasons : String → Option String → Type 0
Reasons kind reason =
    ((kind ≡ "setup") × (reason ≡ some "setup_error"))
    ⊎ ((kind ≡ "sandbox_died") × (reason ≡ some "sandbox_died"))
    ⊎ ((kind ≡ "error") × ((reason ≡ some "agent_error") ⊎ (reason ≡ some "scorer_error")))

abbrev exc_of : ExcClass → String → Exc
exc_of c m = record { class = c; message = m }

failure-Reasons :
    (c : ExcClass) (m : String)
    → let kind = classify_run_failure (exc_of c m) in
      Reasons kind (failure_exit_reason (exc_of c m) kind)
unfolding classify_run_failure failure_exit_reason is_setup_error is_scorer_error is_infra_death
    Dict.lookup
failure-Reasons setup_error m = inl (refl, refl)
failure-Reasons sandbox_died m = inr (inl (refl, refl))
failure-Reasons connect_error m = inr (inl (refl, refl))
failure-Reasons connection_error m = inr (inl (refl, refl))
failure-Reasons connection_closed m = inr (inl (refl, refl))
failure-Reasons scorer_error m = inr (inr (refl, inr refl))
failure-Reasons _ m = inr (inr (refl, inl refl))

verifier-Reasons :
    (exc : Exc)
    → (classify_verifier_failure exc ≡ ("sandbox_died", "sandbox_died"))
      ⊎ (classify_verifier_failure exc ≡ ("error", "scorer_error"))
unfolding classify_verifier_failure
verifier-Reasons exc = ground arith

run_result_reason :
    (i : ℕ) (passed : Bool) (steps : ℕ) (r : VerifierReceipt) (error : Option String)
    (kind : String) (reason : Option String) (x : String)
    → reason ≡ some x
    → (run_result i passed steps r error kind reason).exit_reason ≡ some x
unfolding run_result
run_result_reason i passed steps r error kind none x h = absurd (ground (arith, h))
run_result_reason i passed steps r error kind (some y) x h = h

pub failed_run-IsFailure : (i : ℕ) (exc : Exc) → IsFailure (failed_run i exc)
unfolding failed_run run_result
failed_run-IsFailure i exc =
    let kind = classify_run_failure exc in
    let reason : (x : String)
        → failure_exit_reason exc kind ≡ some x
        → (failed_run i exc).exit_reason ≡ some x =
      λ x h.
        run_result_reason i false 0 no_verdict_receipt (some (kind <> ": " <> exc.message)) kind
          (failure_exit_reason exc kind) x h in
    (
      refl,
      some-ne _,
      elim (failure-Reasons exc.class exc.message) [
        | inl (k, r) ↦ inl (k, reason "setup_error" r)
        | inr (inl (k, r)) ↦ inr (inl (k, reason "sandbox_died" r))
        | inr (inr (k, inl r)) ↦ inr (inr (k, inl (reason "agent_error" r)))
        | inr (inr (k, inr r)) ↦ inr (inr (k, inr (reason "scorer_error" r)))
      ],
    )

judged_raised : (i steps : ℕ) (exc : Exc) → IsFailure (judged i steps (raised exc))
unfolding judged run_result
judged_raised i steps exc = elim (verifier-Reasons exc) [
  | inl d ↦ rw d (refl, some-ne _, inr (inl (refl, refl)))
  | inr e ↦ rw e (refl, some-ne _, inr (inr (refl, inr refl)))
]

abbrev verdict_kind : Bool → String
verdict_kind b = if b then "pass" else "fail"

scored_reason :
    (b : Bool) → Dict.lookup (verdict_kind b) exit_reason_for_kind ≡ some "task_complete"
unfolding Dict.lookup
scored_reason true = refl
scored_reason false = refl

scored_kind :
    (b : Bool)
    → ((verdict_kind b ≡ "pass") × (b ≡ true)) ⊎ ((verdict_kind b ≡ "fail") × (b ≡ false))
scored_kind true = inl (refl, refl)
scored_kind false = inr (refl, refl)

judged-IsVerdict :
    (i steps : ℕ) (r : VerifierReceipt) → IsReceipt r → IsVerdict (judged i steps (ok r))
unfolding judged run_result
judged-IsVerdict i steps r h = (refl, scored_reason r.passed, h, refl, scored_kind r.passed)

module _ (str : ℕ → String) (show_names : List String → String) (show_bool : Bool → String)
    {E W : Type 0} (task : Task E W) where
  judged-IsCoherent :
      (i steps : ℕ) (answer : Result Exc Verdict)
      → IsCoherent (judged i steps (verdict str show_names show_bool task answer))
  unfolding verdict
  judged-IsCoherent i steps (raised exc) = inr (judged_raised i steps exc)
  judged-IsCoherent i steps (ok v) =
      elim (Result-cases (coerce_verifier_receipt str show_names show_bool v)) [
        | inl (r, h) ↦ rw h (
            inl (
              judged-IsVerdict i steps r
                (coerce_verifier_receipt-IsReceipt str show_names show_bool v r h)))
        | inr (e, h) ↦ rw h (inr (judged_raised i steps e))
      ]

  after_run-IsCoherent :
      (i : ℕ) (env : E) (before : ℕ) (ran : Result Exc Unit) (w : W)
      → IsCoherent (after_run str show_names show_bool task i env before ran w).0
  unfolding after_run
  after_run-IsCoherent i env before (raised exc) w = inr (failed_run-IsFailure i exc)
  after_run-IsCoherent i env before (ok _) w =
      judged-IsCoherent i (task.actions_dispatched env w - before) (task.verify env w).0

  pub score-IsCoherent :
      (i : ℕ) (env : E) (w : W) → IsCoherent (score str show_names show_bool task i env w).0
  unfolding score
  score-IsCoherent i env w =
      let (ran, w') = task.run env w in
      after_run-IsCoherent i env (task.actions_dispatched env w) ran w'

  prepared-IsCoherent :
      (i : ℕ) (env : E) (ready : Result Exc Unit) (w : W)
      → IsCoherent (prepared str show_names show_bool task i env ready w).0
  unfolding prepared
  prepared-IsCoherent i env (raised exc) w = inr (failed_run-IsFailure i exc)
  prepared-IsCoherent i env (ok _) w = score-IsCoherent i env w

  connected-IsCoherent :
      (i : ℕ) (env : Result Exc E) (w : W)
      → IsCoherent (connected str show_names show_bool task i env w).0
  unfolding connected
  connected-IsCoherent i (raised exc) w = inr (failed_run-IsFailure i exc)
  connected-IsCoherent i (ok env) w =
      let (ready, w1) = set_up str show_names show_bool task env w in
      prepared-IsCoherent i env ready w1

  replicas-All : (n i : ℕ) (w : W) → All IsCoherent (replicas str show_names show_bool task n i w).0
  unfolding replicas replica
  replicas-All zero i w = tt
  replicas-All (suc n) i w =
      let (env, w0) = task.connect w in
      (
        connected-IsCoherent i env w0,
        replicas-All n (suc i) (replica str show_names show_bool task i w).1,
      )

  length-replicas : (n i : ℕ) (w : W) → length (replicas str show_names show_bool task n i w).0 ≡ n
  unfolding replicas
  length-replicas zero i w = refl
  length-replicas (suc n) i w =
      omega (arith, length-replicas n (suc i) (replica str show_names show_bool task i w).1)

  -- Every result of an evaluation is coherent: either a verdict, with a receipt in form whose
  -- outcome is the result's and the kind's, no error and exit reason "task_complete", or a failure,
  -- which never passes, has an error, and has the exit reason that belongs to its kind. There is
  -- one result for each of the `n` runs, whatever they raise.
  pub run_eval-IsCoherent :
      (n : ℕ) (w : W)
      → let s = (run_eval str show_names show_bool task n w).0 in
        All IsCoherent s.results × (length s.results ≡ n)
  unfolding run_eval summarize
  run_eval-IsCoherent n w = (replicas-All n 0 w, length-replicas n 0 w)
