-- ===== src/Runtime/Trajectory/Tests.antt =====
-- resolve_exit_reason on concrete causes.
use shinken.Prelude.{
  string_eq, String, ◌≡◌, ◌≢◌, refl, true, arith, ◌≤◌, Option, none, some, List, [], ◌∷◌, ok, All,
}
use shinken.Prelude.Keyed.{elem}
use shinken.Runtime.Trajectory.{causes, resolve_exit_reason}
use shinken.Runtime.Trajectory.Laws.{rank, resolve_best}

abbrev two_causes : List (Option String)
two_causes = some "task_complete" ∷ none ∷ some "sandbox_died" ∷ []

died_first : resolve_exit_reason two_causes ≡ ok (some "sandbox_died")
unfolding resolve_exit_reason
died_first = refl

two_causes_some : causes two_causes ≢ []
unfolding causes
two_causes_some = ground arith

resolve_best_example :
    (r : String) × (resolve_exit_reason two_causes ≡ ok (some r))
    × (elem r (causes two_causes) ≡ true)
    × All (λ c. rank r ≤ rank c) (causes two_causes)
unfolding causes
resolve_best_example = resolve_best two_causes (refl, (refl, tt)) two_causes_some
