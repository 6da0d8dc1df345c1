-- ===== src/Eval/Receipt.antt =====
-- VerifierReceipt and coerce_verifier_receipt of eval.py. A verdict comes from a task's own code, so
-- its parts are values of any type until they are validated. The texts of numbers and of lists of
-- names are Python's, parameters.
pub mod Laws
mod Tests
use shinken.Prelude.{
  string_eq, ℕ, suc, String, Bool, true, false, not, ◌&&◌, Option, none, some, List, [], ◌∷◌,
  Result, ok, raised, filter, ◌<>◌,
}
use shinken.Prelude.Dict
use shinken.Prelude.Dict.{Dict}
use shinken.Prelude.Keyed.{elem}
use shinken.Errors.{Exc, value_error, scorer_error}

-- A field's value, as far as the validation looks into it.
pub data Value : Type 0 where
  null : Value
  flag : Bool → Value
  text : String → Value
  other : Value

-- An entry of `checks`: a dict, or something else.
pub data Item : Type 0 where
  object : Dict String Value → Item
  no_object : Item

pub record VerifierReceipt : Type 0 where
  pub passed : Bool
  pub checks : List Item

-- What a verifier returns: a receipt, which may have been changed since its construction, or any
-- object, of which the name of its type and its `passed` and `checks` are read; `checks` is
-- `none` if it is no list or tuple.
pub data Verdict : Type 0 where
  receipt : Value → List Item → Verdict
  shaped : String → Value → Option (List Item) → Verdict

-- `item.get(key)`
pub field : String → Dict String Value → Value
unfolding Dict.lookup
field key d = elim (Dict.lookup key d) [ none ↦ null | some v ↦ v ]

pub is_text : Value → Bool
is_text (text s) = true
is_text _ = false

pub is_flag : Value → Bool
is_flag (flag b) = true
is_flag _ = false

is_true : Value → Bool
is_true (flag b) = b
is_true _ = false

abbrev pub check_fields : List String
check_fields = "name" ∷ "ok" ∷ "evidence" ∷ []

-- `set(item) - {"name", "ok", "evidence"}`
pub unknown_fields : Dict String Value → List String
unknown_fields d = filter (λ k. not (elem k check_fields)) (Dict.keys d)

-- `c.get("ok") is True`, of a dict.
item_ok : Item → Bool
unfolding field is_true
item_ok no_object = false
item_ok (object d) = is_true (field "ok" d)

-- `all(item["ok"] for item in self.checks)`, and the same test of from_checks.
pub all_ok : List Item → Bool
unfolding item_ok
all_ok [] = true
all_ok (item ∷ items) = item_ok item && all_ok items

invalid : String → Exc
invalid message = record { class = value_error; message = message }

garbage : String → Exc
garbage message = record { class = scorer_error; message = message }

-- `except ValueError as exc: raise ScorerError(…)`
as_scorer_error : Result Exc VerifierReceipt → Result Exc VerifierReceipt
unfolding garbage
as_scorer_error (ok r) = ok r
as_scorer_error (raised e) = raised (garbage ("invalid verifier receipt: " <> e.message))

module _ (str : ℕ → String) (show_names : List String → String) (show_bool : Bool → String) where
  check_ok : ℕ → Dict String Value → Result Exc Unit
  unfolding invalid field is_flag
  check_ok i d = elim (is_flag (field "ok" d)) [
    | true ↦ ok tt
    | false ↦ raised (invalid ("verifier check " <> (str i <> " needs a boolean `ok`")))
  ]

  check_name : ℕ → Dict String Value → Result Exc Unit
  unfolding invalid check_ok is_text
  check_name i d = elim (is_text (field "name" d)) [
    | true ↦ check_ok i d
    | false ↦ raised (invalid ("verifier check " <> (str i <> " needs a string `name`")))
  ]

  check_unknown : List String → ℕ → Dict String Value → Result Exc Unit
  unfolding invalid check_name
  check_unknown [] i d = check_name i d
  check_unknown (k ∷ ks) i d =
      raised
        (invalid ("verifier check " <> (str i <> (" has unknown fields: " <> show_names (k ∷ ks)))))

  -- The body of the loop of __post_init__.
  check_item : ℕ → Item → Result Exc Unit
  unfolding invalid check_unknown unknown_fields
  check_item i no_object = raised (invalid ("verifier check " <> (str i <> " must be an object")))
  check_item i (object d) = check_unknown (unknown_fields d) i d

  check_items : ℕ → List Item → Result Exc Unit
  unfolding check_item
  check_items i [] = ok tt
  check_items i (item ∷ items) =
      let rest = check_items (suc i) items in
      elim (check_item i item) [ raised e ↦ raised e | ok _ ↦ rest ]

  agreed : Bool → List Item → Result Exc VerifierReceipt
  unfolding invalid all_ok
  agreed passed checks =
      let derived = all_ok checks in
      let fine : Result Exc VerifierReceipt = ok (record { passed = passed; checks = checks }) in
      let differs : Result Exc VerifierReceipt = raised (
        invalid (
          "verifier receipt `passed` disagrees with its checks (passed="
          <> (show_bool passed <> (", all(check.ok)=" <> (show_bool derived <> ")"))))) in
      elim passed [
        | true ↦ elim derived [ true ↦ fine | false ↦ differs ]
        | false ↦ elim derived [ true ↦ differs | false ↦ fine ]
      ]

  checked : Bool → List Item → Result Exc VerifierReceipt
  unfolding invalid check_items agreed
  checked passed [] = raised (invalid "a verifier receipt must contain at least one check")
  checked passed (item ∷ items) = elim (check_items 0 (item ∷ items)) [
    | raised e ↦ raised e
    | ok _ ↦ agreed passed (item ∷ items)
  ]

  -- The constructor with its __post_init__.
  unfoldable pub make_receipt : Value → List Item → Result Exc VerifierReceipt
  unfolding invalid checked
  make_receipt (flag passed) checks = checked passed checks
  make_receipt _ checks = raised (invalid "verifier receipt `passed` must be a boolean")

  unfoldable pub from_checks : List Item → Result Exc VerifierReceipt
  unfolding all_ok
  from_checks checks = make_receipt (flag (all_ok checks)) checks

  unfoldable pub coerce_verifier_receipt : Verdict → Result Exc VerifierReceipt
  unfolding garbage as_scorer_error
  coerce_verifier_receipt (receipt passed checks) = as_scorer_error (make_receipt passed checks)
  coerce_verifier_receipt (shaped type_name (flag passed) (some (item ∷ items))) =
      as_scorer_error (make_receipt (flag passed) (item ∷ items))
  coerce_verifier_receipt (shaped type_name (flag passed) _) =
      raised (garbage "verifier returned a receipt with no checks")
  coerce_verifier_receipt (shaped type_name _ checks) = raised (
      garbage (
        "verifier returned "
        <> (type_name
            <> "; expected a VerifierReceipt (or a receipt-shaped object/dict with a boolean `passed`)")))
