-- ===== src/Eval/Replica.antt =====
-- Runs and their scores in eval.py: the kinds of failure, RunResult, run_eval with its replicas, and
-- EvalSummary. A task's steps and the session are calls, each of which may raise and changes the
-- state `W` that stands for everything outside; `E` is a session. Wall times are left out, and a
-- mean is the pair of a sum and a count.
pub mod Laws
pub mod Summary
mod Tests
use shinken.Prelude.{
  string_eq, ℕ, zero, suc, ◌+◌, ◌-◌, String, ◌==◌, Bool, true, false, not, ◌||◌, Option, none, some,
  List, [], ◌∷◌, Result, ok, raised, length, filter, if◌then◌else◌, ◌<>◌,
}
use shinken.Prelude.Dict
use shinken.Prelude.Dict.{Dict}
use shinken.Errors.{Exc, ExcClass, setup_error, scorer_error, is_infra_death}
use shinken.Eval.Receipt.{flag, text, object, Verdict, VerifierReceipt, coerce_verifier_receipt}

abbrev pub exit_reason_for_kind : Dict String String
exit_reason_for_kind =
    ("pass", "task_complete")
    ∷ ("fail", "task_complete")
    ∷ ("setup", "setup_error")
    ∷ ("sandbox_died", "sandbox_died")
    ∷ ("error", "agent_error")
    ∷ []

is_setup_error : ExcClass → Bool
is_setup_error setup_error = true
is_setup_error _ = false

is_scorer_error : ExcClass → Bool
is_scorer_error scorer_error = true
is_scorer_error _ = false

unfoldable pub classify_run_failure : Exc → String
unfolding is_setup_error
classify_run_failure exc =
    if is_setup_error exc.class
    then "setup"
    else if is_infra_death exc
    then "sandbox_died"
    else "error"

failure_exit_reason : Exc → String → Option String
unfolding is_scorer_error Dict.lookup
failure_exit_reason exc kind =
    if is_scorer_error exc.class then some "scorer_error" else Dict.lookup kind exit_reason_for_kind

unfoldable pub classify_verifier_failure : Exc → String × String
unfolding classify_run_failure
classify_verifier_failure exc =
    if classify_run_failure exc == "sandbox_died"
    then ("sandbox_died", "sandbox_died")
    else ("error", "scorer_error")

pub record RunResult : Type 0 where
  pub run : ℕ
  pub passed : Bool
  pub steps : ℕ
  pub receipt : VerifierReceipt
  pub error : Option String
  pub kind : String
  pub exit_reason : Option String

-- __post_init__, for the runs, which always give a kind: a missing exit reason is that of the kind.
unfoldable pub run_result :
    ℕ → Bool → ℕ → VerifierReceipt → Option String → String → Option String → RunResult
unfolding Dict.lookup
run_result i passed steps receipt error kind reason = record {
  run = i;
  passed = passed;
  steps = steps;
  receipt = receipt;
  error = error;
  kind = kind;
  exit_reason = elim reason [ none ↦ Dict.lookup kind exit_reason_for_kind | some r ↦ some r ];
}

-- The placeholder's evidence is not kept.
abbrev pub no_verdict_receipt : VerifierReceipt
no_verdict_receipt = record {
  passed = false;
  checks = object (("name", text "verifier produced a verdict") ∷ ("ok", flag false) ∷ []) ∷ [];
}

unfoldable pub infra_failure : RunResult → Bool
infra_failure r = r.kind == "setup" || r.kind == "sandbox_died"

-- An exception while the run is set up or under way.
unfoldable pub failed_run : ℕ → Exc → RunResult
unfolding run_result classify_run_failure failure_exit_reason
failed_run i exc =
    let kind = classify_run_failure exc in
    run_result i false 0 no_verdict_receipt (some (kind <> ": " <> exc.message)) kind
      (failure_exit_reason exc kind)

-- What the verifier stage makes of a run of `steps` actions.
judged : ℕ → ℕ → Result Exc VerifierReceipt → RunResult
unfolding run_result classify_verifier_failure
judged i steps (ok r) =
    run_result i r.passed steps r none (if r.passed then "pass" else "fail") none
judged i steps (raised exc) =
    let (kind, reason) = classify_verifier_failure exc in
    run_result i false steps no_verdict_receipt (some (kind <> ": " <> exc.message)) kind
      (some reason)

pub record Task (E W : Type 0) : Type 0 where
  pub connect : W → Result Exc E × W
  pub setup : Option (E → W → Result Exc Unit × W)
  pub run : E → W → Result Exc Unit × W
  pub verify : E → W → Result Exc Verdict × W
  pub actions_dispatched : E → W → ℕ
  pub close : E → W → W

module _ (str : ℕ → String) (show_names : List String → String) (show_bool : Bool → String)
    {E W : Type 0} (task : Task E W) where
  verdict : Result Exc Verdict → Result Exc VerifierReceipt
  verdict (ok v) = coerce_verifier_receipt str show_names show_bool v
  verdict (raised exc) = raised exc

  after_run : ℕ → E → ℕ → Result Exc Unit → W → RunResult × W
  unfolding judged failed_run verdict
  after_run i env before (raised exc) w = (failed_run i exc, w)
  after_run i env before (ok _) w =
      let steps = task.actions_dispatched env w - before in
      let (answer, w') = task.verify env w in (judged i steps (verdict answer), w')

  -- From an environment that is set up on.
  unfoldable pub score : ℕ → E → W → RunResult × W
  unfolding after_run
  score i env w =
      let (ran, w') = task.run env w in after_run i env (task.actions_dispatched env w) ran w'

  prepared : ℕ → E → Result Exc Unit → W → RunResult × W
  unfolding score failed_run
  prepared i env (raised exc) w = (failed_run i exc, w)
  prepared i env (ok _) w = score i env w

  unfoldable pub set_up : E → W → Result Exc Unit × W
  set_up env w = elim task.setup [ none ↦ (ok tt, w) | some call ↦ call env w ]

  connected : ℕ → Result Exc E → W → RunResult × W
  unfolding prepared set_up failed_run
  connected i (raised exc) w = (failed_run i exc, w)
  connected i (ok env) w =
      let (ready, w1) = set_up env w in
      let (result, w2) = prepared i env ready w1 in (result, task.close env w2)

  -- One pass of run_eval's loop.
  unfoldable pub replica : ℕ → W → RunResult × W
  unfolding connected
  replica i w = let (env, w') = task.connect w in connected i env w'

  -- `n` passes, the first of which has index `i`.
  unfoldable pub replicas : ℕ → ℕ → W → List RunResult × W
  unfolding replica
  replicas zero i w = ([], w)
  replicas (suc n) i w =
      let (result, w1) = replica i w in
      let (rest, w2) = replicas n (suc i) w1 in (result ∷ rest, w2)

pub record EvalSummary : Type 0 where
  pub n : ℕ
  pub passed : ℕ
  pub setup_errors : ℕ
  pub pass_rate : ℕ × ℕ
  pub mean_steps : ℕ × ℕ
  pub results : List RunResult
  pub kinds : Dict String ℕ

-- `error is None`
is_none : Option String → Bool
is_none none = true
is_none (some e) = false

is_completed : RunResult → Bool
unfolding is_none
is_completed r = is_none r.error

total_steps : List RunResult → ℕ
total_steps [] = 0
total_steps (r ∷ results) = r.steps + total_steps results

-- `kinds.get(kind, 0)`
unfoldable pub count_of : String → Dict String ℕ → ℕ
unfolding Dict.lookup
count_of kind kinds = elim (Dict.lookup kind kinds) [ none ↦ 0 | some c ↦ c ]

tally : List RunResult → Dict String ℕ → Dict String ℕ
unfolding count_of
tally [] kinds = kinds
tally (r ∷ results) kinds = tally results (Dict.insert r.kind (count_of r.kind kinds + 1) kinds)

unfoldable pub summarize : ℕ → List RunResult → EvalSummary
unfolding is_completed total_steps tally
summarize n results =
    let passed = length (filter (λ r. r.passed) results) in
    let completed = filter is_completed results in
    record {
      n = n;
      passed = passed;
      setup_errors = length (filter (λ r. not (is_completed r)) results);
      pass_rate = (passed, n);
      mean_steps = (total_steps completed, length completed);
      results = results;
      kinds = tally results [];
    }

unfoldable pub infra_errors : EvalSummary → ℕ
unfolding infra_failure
infra_errors s = length (filter infra_failure s.results)

module _ (str : ℕ → String) (show_names : List String → String) (show_bool : Bool → String)
    {E W : Type 0} (task : Task E W) where
  unfoldable pub run_eval : ℕ → W → EvalSummary × W
  unfolding replicas summarize
  run_eval n w =
      let (results, w') = replicas str show_names show_bool task n 0 w in (summarize n results, w')
