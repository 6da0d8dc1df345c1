-- ===== src/Eval/Forked/Laws.antt =====
-- run_eval_forked answers with coherent results, and destroys what it creates.
use shinken.Prelude.{
  ℕ, String, ◌≡◌, ◌⊎◌, Bool, Option, none, some, List, Result, raised, length, All, string_eq,
}
use shinken.Errors.{Exc, value_error}
use shinken.Eval.Replica.{Task, RunResult}
use shinken.Eval.Replica.Laws.{IsCoherent}
use shinken.Eval.Forked.{Provider}

module _ (str : ℕ → String) (show_names : List String → String) (show_bool : Bool → String)
    {H C E W : Type 0} (provider : Provider H C E W) (task : Task E W) where
  abbrev Answers : ℕ → List RunResult → Type 0
  Answers n results = All IsCoherent results × (length results ≡ n)

module _ (str : ℕ → String) (show_names : List String → String) (show_bool : Bool → String)
    {H C E W : Type 0} (provider : Provider H C E W) (make_out_dir : W → Result Exc Unit × W) where
  -- Why a forked evaluation raises: the task lacks its run or its verify, the output directory cannot
  -- be made, or the base sandbox cannot be created in the state that making the directory leaves.
  abbrev pub Fails : Option (Task E W) → W → Exc → Type 0
  Fails none w exc = exc.class ≡ value_error
  Fails (some task) w exc =
      ((make_out_dir w).0 ≡ raised exc) ⊎ ((provider.create (make_out_dir w).1).0 ≡ raised exc)
