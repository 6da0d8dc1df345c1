-- ===== src/Runtime/Trajectory.antt =====
-- sdk/python/src/shinken/runtime/trajectory.py: exit reasons and their precedence, Step and
-- Trajectory. The token fields of a step, which no code path fills, are left out. The observation, an action and the raw info of a step are parameters.
pub mod Laws
mod Tests
use shinken.Prelude.{
  ℕ, suc, ◌+◌, string_eq, String, Bool, true, false, not, Option, none, some, List, [], ◌∷◌, Result,
  ok, raised, ltb, length, ◌==◌, if◌then◌else◌, ◌<>◌,
}
use shinken.Prelude.Dict.{Dict}
use shinken.Prelude.Keyed.{elem}
use shinken.Errors.{Exc, value_error}

-- EXIT_REASONS, highest precedence first.
abbrev pub exit_reasons : List String
exit_reasons =
    "sandbox_died" ∷ "setup_error" ∷ "agent_error" ∷ "scorer_error" ∷ "max_steps" ∷ "task_complete"
    ∷ []

-- `EXIT_REASONS.index`, for a reason that is there.
unfoldable pub index_of : String → List String → ℕ
index_of r [] = 0
index_of r (s ∷ reasons) = if s == r then 0 else suc (index_of r reasons)

-- `[c for c in candidates if c is not None]`
unfoldable pub causes : List (Option String) → List String
causes [] = []
causes (none ∷ rest) = causes rest
causes (some c ∷ rest) = c ∷ causes rest

-- The first candidate that is no exit reason.
first_unknown : List String → Option String
first_unknown [] = none
first_unknown (c ∷ found) = if elem c exit_reasons then first_unknown found else some c

-- Of two reasons the one that EXIT_REASONS names first; of equal ones the earlier.
better : String → String → String
unfolding index_of
better best c = if ltb (index_of c exit_reasons) (index_of best exit_reasons) then c else best

-- `min(found, key=EXIT_REASONS.index)`
best_of : String → List String → String
unfolding better
best_of best [] = best
best_of best (c ∷ found) = best_of (better best c) found

choose : Option String → List String → Result Exc (Option String)
unfolding best_of
choose (some c) found =
    raised (record { class = value_error; message = "unknown exit_reason " <> c })
choose none [] = ok none
choose none (c ∷ found) = ok (some (best_of c found))

unfoldable pub resolve_exit_reason : List (Option String) → Result Exc (Option String)
unfolding choose causes first_unknown index_of
resolve_exit_reason candidates = let found = causes candidates in choose (first_unknown found) found

pub record Step (O A I : Type 0) : Type 0 where
  pub index : ℕ
  pub observation : O
  pub actions : List A
  pub note : Option String
  pub info : I
  pub next_observation : Option O
  pub control : Option A

pub record Trajectory (O A I : Type 0) : Type 0 where
  pub steps : List (Step O A I)
  pub terminal : Option String
  pub exit_reason : Option String
  pub metadata : Dict String String

count_actions : {O A I : Type 0} → List (Step O A I) → ℕ
count_actions [] = 0
count_actions (s ∷ steps) = length s.actions + count_actions steps

unfoldable pub num_actions : {O A I : Type 0} → Trajectory O A I → ℕ
unfolding count_actions
num_actions t = count_actions t.steps
