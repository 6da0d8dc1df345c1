-- ===== src/Runtime/Rollout.antt =====
-- sdk/python/src/shinken/runtime/loop.py: rollout. The session, the agent and the caller's hooks
-- are a record of calls, each of which may raise and changes the state `S` that stands for all of
-- them. What a decision lacks has its default: no actions, no note, not done.
pub mod Passes
pub mod Laws
mod Tests
use shinken.Prelude.{
  ℕ, zero, suc, string_eq, String, Bool, true, false, Option, none, some, List, [], ◌∷◌, ◌++◌,
  Result, ok, raised, if◌then◌else◌, ◌<>◌,
}
use shinken.Prelude.Dict
use shinken.Prelude.Dict.{Dict}
use shinken.Errors.{Exc, is_infra_death}
use shinken.Runtime.Trajectory.{Step, Trajectory}

pub record Decision (A : Type 0) : Type 0 where
  pub actions : List A
  pub note : Option String
  pub done : Bool

abbrev pub RolloutStep : Type 0 → Type 0 → Type 0
RolloutStep O A = Step O A Unit

pub record Harness (S O A : Type 0) : Type 0 where
  pub observe : S → Result Exc O × S
  pub decide : O → S → Result Exc (Decision A) × S
  pub act_batch : List A → S → Result Exc Unit × S
  pub on_step : Option (RolloutStep O A → S → Result Exc Unit × S)
  pub stop : Option (List (RolloutStep O A) → S → Result Exc Bool × S)

-- How one pass of the loop's body ends.
pub data Turn : Type 0 where
  next : Turn
  ends : String → Turn
  fails : Exc → Turn

abbrev pub exit_reason_for_terminal : Dict String String
exit_reason_for_terminal =
    ("done", "task_complete")
    ∷ ("stopped", "task_complete")
    ∷ ("stuck", "agent_error")
    ∷ ("max_steps", "max_steps")
    ∷ []

module _ {S O A : Type 0} (h : Harness S O A) where
  abbrev Pass : Type 0
  Pass = Turn × List (RolloutStep O A) × S

  -- `if actions: session.act_batch(actions)`
  send : List A → S → Result Exc Unit × S
  send [] s = (ok tt, s)
  send (a ∷ actions) s = h.act_batch (a ∷ actions) s

  -- `if on_step is not None: on_step(step)`
  notify : RolloutStep O A → S → Result Exc Unit × S
  notify step s = elim h.on_step [ none ↦ (ok tt, s) | some hook ↦ hook step s ]

  -- `stop is not None and stop(session, steps)`
  asked_to_stop : List (RolloutStep O A) → S → Result Exc Bool × S
  asked_to_stop steps s = elim h.stop [ none ↦ (ok false, s) | some hook ↦ hook steps s ]

  stopped_by : Result Exc Bool → List (RolloutStep O A) → S → Pass
  stopped_by (raised e) steps s = (fails e, steps, s)
  stopped_by (ok true) steps s = (ends "stopped", steps, s)
  stopped_by (ok false) steps s = (next, steps, s)

  judge : Bool → List A → List (RolloutStep O A) → S → Pass
  unfolding stopped_by asked_to_stop
  judge true actions steps s = (ends "done", steps, s)
  judge false [] steps s = (ends "stuck", steps, s)
  judge false (a ∷ actions) steps s =
      let (answer, s') = asked_to_stop steps s in stopped_by answer steps s'

  told : Result Exc Unit → Decision A → List (RolloutStep O A) → S → Pass
  unfolding judge
  told (raised e) d steps s = (fails e, steps, s)
  told (ok _) d steps s = judge d.done d.actions steps s

  abbrev step_of : ℕ → O → Decision A → RolloutStep O A
  step_of i obs d = record {
    index = i;
    observation = obs;
    actions = d.actions;
    note = d.note;
    info = tt;
    next_observation = none;
    control = none;
  }

  sent : Result Exc Unit → ℕ → O → Decision A → List (RolloutStep O A) → S → Pass
  unfolding told notify
  sent (raised e) i obs d steps s = (fails e, steps, s)
  sent (ok _) i obs d steps s =
      let (heard, s') = notify (step_of i obs d) s in
      told heard d (steps ++ step_of i obs d ∷ []) s'

  decided : Result Exc (Decision A) → ℕ → O → List (RolloutStep O A) → S → Pass
  unfolding sent send
  decided (raised e) i obs steps s = (fails e, steps, s)
  decided (ok d) i obs steps s = let (done, s') = send d.actions s in sent done i obs d steps s'

  observed : Result Exc O → ℕ → List (RolloutStep O A) → S → Pass
  unfolding decided
  observed (raised e) i steps s = (fails e, steps, s)
  observed (ok obs) i steps s = let (d, s') = h.decide obs s in decided d i obs steps s'

  -- The body of the `try`.
  pub take_turn : ℕ → List (RolloutStep O A) → S → Pass
  unfolding observed
  take_turn i steps s = let (obs, s') = h.observe s in observed obs i steps s'

  -- What the loop leaves: the steps, the terminal sentinel and the exception that aborted it.
  pub record Outcome : Type 0 where
    pub steps : List (RolloutStep O A)
    pub terminal : String
    pub failure : Option Exc
    pub state : S

  -- What becomes of the loop after a pass; `rest` is what the remaining rounds leave.
  after_turn : Turn → Outcome → List (RolloutStep O A) → S → Outcome
  after_turn next rest steps s = rest
  after_turn (ends terminal) rest steps s = record {
    steps = steps;
    terminal = terminal;
    failure = none;
    state = s;
  }
  after_turn (fails e) rest steps s = record {
    steps = steps;
    terminal = "aborted";
    failure = some e;
    state = s;
  }

  -- The loop over `range(max_steps)`: `n` rounds are left, the next one has index `i`.
  loop : ℕ → ℕ → List (RolloutStep O A) → S → Outcome
  unfolding after_turn take_turn
  loop zero i steps s = record { steps = steps; terminal = "max_steps"; failure = none; state = s }
  loop (suc n) i steps s =
      let (turn, steps', s') = take_turn i steps s in
      let rest = loop n (suc i) steps' s' in after_turn turn rest steps' s'

abort_reason : Exc → String
abort_reason e = if is_infra_death e then "sandbox_died" else "agent_error"

final_reason : Option Exc → String → Option String
unfolding abort_reason Dict.lookup
final_reason none terminal = Dict.lookup terminal exit_reason_for_terminal
final_reason (some e) terminal = some (abort_reason e)

final_metadata : Option Exc → Dict String String → Dict String String
unfolding abort_reason
final_metadata none metadata = metadata
final_metadata (some e) metadata =
    Dict.insert "error" (abort_reason e <> ": " <> e.message) metadata

module _ {S O A : Type 0} (h : Harness S O A) where
  unfoldable pub rollout : ℕ → Dict String String → S → Trajectory O A Unit × S
  unfolding loop take_turn final_reason final_metadata
  rollout max_steps metadata s =
      let o = loop h max_steps 0 [] s in
      (
        record {
          steps = o.steps;
          terminal = some o.terminal;
          exit_reason = final_reason o.failure o.terminal;
          metadata = final_metadata o.failure metadata;
        },
        o.state,
      )
