-- ===== src/Eval/Replica/Tests.antt =====
-- run_eval of a task whose second run raises a lost connection.
use shinken.Prelude.{
  ℕ, suc, nat_eq, string_eq, String, ◌≡◌, ◌≤◌, ◌+◌, refl, Bool, true, none, some, List, [], ◌∷◌, ok,
  raised, length, ◌==◌, if◌then◌else◌, All,
}
use shinken.Errors.{connection_error}
use shinken.Eval.Receipt.{flag, text, object, shaped}
use shinken.Eval.Replica.{Task, run_eval, count_of, infra_errors}
use shinken.Eval.Replica.Laws.{IsCoherent, run_eval-IsCoherent}
use shinken.Eval.Replica.Summary.{run_eval_counts}

abbrev digits : ℕ → String
digits i = "0"

abbrev names : List String → String
names ks = "[]"

abbrev word : Bool → String
word b = "False"

-- The state counts the sessions.
abbrev task : Task ℕ ℕ
task = record {
  connect = λ w. (ok w, suc w);
  setup = none;
  run = λ env w. (
    if env == 1 then raised (record { class = connection_error; message = "lost" }) else ok tt,
    w,
  );
  verify = λ env w. (
    ok (
        shaped "dict" (flag true)
          (some (object (("name", text "done") ∷ ("ok", flag true) ∷ []) ∷ []))),
    w,
  );
  actions_dispatched = λ env w. 0;
  close = λ env w. w;
}

two_of_three :
    ((run_eval digits names word task 3 0).0.passed ≡ 2)
    × ((run_eval digits names word task 3 0).0.setup_errors ≡ 1)
    × (infra_errors (run_eval digits names word task 3 0).0 ≡ 1)
    × ((run_eval digits names word task 3 0).1 ≡ 3)
unfolding run_eval infra_errors shinken.Eval.Receipt.coerce_verifier_receipt
    shinken.Eval.Receipt.make_receipt shinken.Errors.is_infra_death
two_of_three = (refl, refl, refl, refl)

run_eval-IsCoherent_example :
    let s = (run_eval digits names word task 3 0).0 in
    All IsCoherent s.results × (length s.results ≡ 3)
run_eval-IsCoherent_example = run_eval-IsCoherent digits names word task 3 0

run_eval_counts_example :
    let s = (run_eval digits names word task 3 0).0 in
    (s.passed ≡ count_of "pass" s.kinds)
    × (s.passed ≤ s.mean_steps.1)
    × (s.mean_steps.1 + s.setup_errors ≡ 3)
    × (infra_errors s ≤ s.setup_errors)
run_eval_counts_example = run_eval_counts digits names word task 3 0
