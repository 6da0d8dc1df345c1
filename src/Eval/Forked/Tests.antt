-- ===== src/Eval/Forked/Tests.antt =====
-- run_eval_forked over a provider whose third sandbox is dead: its session is lost, and the provider
-- confirms why.
use shinken.Prelude.{
  ℕ, suc, nat_eq, string_eq, String, ◌≡◌, refl, Bool, true, false, none, some, List, [], ◌∷◌,
  Result, ok, raised, ◌==◌, if◌then◌else◌,
}
use shinken.Errors.{Exc, connection_error, sandbox_died}
use shinken.Eval.Receipt.{flag, text, object, shaped}
use shinken.Eval.Replica.{Task, RunResult, EvalSummary, summarize}
use shinken.Eval.Forked.{Provider, run_eval_forked}

abbrev digits : ℕ → String
digits i = "0"

abbrev names : List String → String
names ks = "[]"

abbrev word : Bool → String
word b = "False"

abbrev task : Task ℕ ℕ
task = record {
  connect = λ w. (ok w, w);
  setup = none;
  run = λ env w. (
    if env == 2 then raised (record { class = connection_error; message = "lost" }) else ok tt,
    w,
  );
  verify = λ env w. (
    ok (
        shaped "dict" (flag true)
          (some (object (("name", text "done") ∷ ("ok", flag true) ∷ []) ∷ []))),
    w,
  );
  actions_dispatched = λ env w. 0;
  close = λ env w. w;
}

-- The state counts the sandboxes; a handle is the number of its sandbox.
abbrev provider : Provider ℕ Unit ℕ ℕ
provider = record {
  create = λ w. (ok w, suc w);
  connect = λ handle w. (ok handle, w);
  checkpoint = λ handle w. (ok tt, w);
  resume = λ ckpt w. (ok w, suc w);
  check_alive =
      some (λ handle w. (raised (record { class = sandbox_died; message = "exit 137" }), w));
  destroy = λ handle w. w;
  delete_snapshot = none;
}

abbrev make_out_dir : ℕ → Result Exc Unit × ℕ
make_out_dir w = (ok tt, w)

abbrev errors : Result Exc EvalSummary → List (String × ℕ)
errors (raised exc) = []
errors (ok s) = ("passed", s.passed) ∷ s.kinds

one_dies :
    errors (run_eval_forked digits names word provider make_out_dir "form" (some task) 3 0).0
    ≡ ("passed", 2) ∷ ("pass", 2) ∷ ("sandbox_died", 1) ∷ []
unfolding run_eval_forked summarize shinken.Eval.Replica.score
    shinken.Eval.Receipt.coerce_verifier_receipt shinken.Eval.Receipt.make_receipt
    shinken.Prelude.Dict.insert shinken.Errors.is_infra_death
one_dies = refl
