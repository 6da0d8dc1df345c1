-- ===== src/Session/Batch.antt =====
-- AsyncSandbox.act_batch of client.py, over the session's `act`: an argument, with the state that
-- it changes. `Action` is an action's dict without its verb, `Reply` what the runtime answered
-- besides its ids.
pub mod Laws
mod Tests
use shinken.Prelude.{
  string_eq, ℕ, suc, ◌+◌, String, Bool, true, false, not, ◌||◌, Option, none, some, List, [], ◌∷◌,
  ◌++◌, Result, ok, raised, length, ◌==◌, if◌then◌else◌,
}
use shinken.Errors.{
  Exc, value_error, Status, ok_status, skipped_status, died_status, classify_exception,
}

pub record Action (A : Type 0) : Type 0 where
  pub verb : Option String
  pub body : A

pub record Reply (R : Type 0) : Type 0 where
  pub call_id : Option String
  pub cause : Option String
  pub rest : R

pub record Row (R : Type 0) : Type 0 where
  pub index : ℕ
  pub verb : Option String
  pub is_ok : Bool
  pub status : Status
  pub action_id : Option String
  pub ack : Option (Reply R)
  pub error : Option String

pub record BatchResult (R : Type 0) : Type 0 where
  pub batch_id : String
  pub completed : Bool
  pub stopped_at : Option ℕ
  pub failure_kind : Option Status
  pub results : List (Row R)

-- The verb as a truth value: None and "" are not.
unfoldable pub truthy_text : Option String → Bool
truthy_text none = false
truthy_text (some s) = not (s == "")

-- `reply.get("call_id") or reply.get("cause")`
unfoldable pub reply_id : {R : Type 0} → Reply R → Option String
unfolding truthy_text
reply_id reply = if truthy_text reply.call_id then reply.call_id else reply.cause

-- `batch_id or f"batch-{…}"`
unfoldable pub id_or : Option String → String → String
id_or none fresh = fresh
id_or (some given) fresh = if given == "" then fresh else given

-- The test that ends a batch.
unfoldable pub is_fatal : Bool → Status → Bool
is_fatal stop_on_error died_status = true
is_fatal stop_on_error _ = stop_on_error

-- `next((r["status"] for r in results if not r["ok"]), None)`
unfoldable pub first_failure : {R : Type 0} → List (Row R) → Option Status
first_failure [] = none
first_failure (r ∷ rows) = if r.is_ok then first_failure rows else some r.status

-- What the loop appends to `results`, and the index and status that stopped it.
record Trail (R : Type 0) : Type 0 where
  pub rows : List (Row R)
  pub stopped : Option (ℕ × Status)

extend : {R : Type 0} → Row R → Trail R → Trail R
extend row t = record t { rows = row ∷ t.rows }

-- The two `return` statements.
report : {R : Type 0} → String → Option (ℕ × Status) → List (Row R) → BatchResult R
unfolding first_failure
report batch_id none rows = record {
  batch_id = batch_id;
  completed = true;
  stopped_at = none;
  failure_kind = first_failure rows;
  results = rows;
}
report batch_id (some (i, status)) rows = record {
  batch_id = batch_id;
  completed = false;
  stopped_at = some i;
  failure_kind = some status;
  results = rows;
}

module _ {A R : Type 0} where
  ok_row : ℕ → Action A → Reply R → Row R
  unfolding reply_id
  ok_row i a reply = record {
    index = i;
    verb = a.verb;
    is_ok = true;
    status = ok_status;
    action_id = reply_id reply;
    ack = some reply;
    error = none;
  }

  failed_row : ℕ → Action A → Status → String → Row R
  failed_row i a status message = record {
    index = i;
    verb = a.verb;
    is_ok = false;
    status = status;
    action_id = none;
    ack = none;
    error = some message;
  }

  -- The rows of the actions that are not run.
  skip : ℕ → List (Action A) → List (Row R)
  unfolding failed_row
  skip j [] = []
  skip j (a ∷ actions) =
      failed_row j a skipped_status "skipped: a prior action in the batch failed"
      ∷ skip (suc j) actions

  module _ {W : Type 0} (act : String → A → W → Result Exc (Reply R) × W) where
    -- One action: an action with no verb raises before anything is sent.
    unfoldable pub attempt : Action A → W → Result Exc (Reply R) × W
    attempt a w = elim a.verb [
      | none ↦ (raised (record { class = value_error; message = "action has no 'verb'" }), w)
      | some verb ↦
          if verb == ""
          then (raised (record { class = value_error; message = "action has no 'verb'" }), w)
          else act verb a.body w
    ]

    -- The loop from action `i` on: the rows that it appends, where it stopped with what status,
    -- and the state that the calls leave.
    module _ (stop_on_error : Bool) where
      loop : ℕ → List (Action A) → W → Trail R × W
      loop i [] w = (record { rows = []; stopped = none }, w)
      loop i (a ∷ actions) w =
          let (outcome, w') = attempt a w in
          elim outcome [
            | ok reply ↦
                let (t, last) = loop (suc i) actions w' in (extend (ok_row i a reply) t, last)
            | raised exc ↦
                let status = classify_exception exc in
                let row : Row R = failed_row i a status exc.message in
                elim (is_fatal stop_on_error status) [
                  | true ↦
                      (record { rows = row ∷ skip (suc i) actions; stopped = some (i, status) }, w')
                  | false ↦ let (t, last) = loop (suc i) actions w' in (extend row t, last)
                ]
          ]

    -- `fresh` is the id that is drawn when the caller gives none.
    unfoldable pub act_batch :
        Bool → Option String → String → List (Action A) → W → BatchResult R × W
    unfolding attempt loop report extend failed_row skip ok_row is_fatal classify_exception
    act_batch stop_on_error batch_id fresh actions w =
        let (t, last) = loop stop_on_error 0 actions w in
        (report (id_or batch_id fresh) t.stopped t.rows, last)
