-- ===== src/Eval/Receipt/Laws.antt =====
-- Which verdicts are accepted, and what an accepted one says.
use shinken.Prelude.{
  none, some, string_eq, ℕ, suc, String, ◌≡◌, ◌≢◌, refl, Bool, true, false, List, [], ◌∷◌, Result,
  ok, raised, arith, All,
}
use shinken.Errors.{Exc, scorer_error}
use shinken.Eval.Receipt.{
  Value, null, flag, text, other, Item, object, no_object, VerifierReceipt, Verdict, receipt,
  shaped, field, is_text, is_flag, unknown_fields, all_ok, as_scorer_error, garbage, check_ok,
  check_name, check_unknown, check_item, check_items, agreed, checked, make_receipt,
  coerce_verifier_receipt,
}

-- An entry of `checks` in the form of the receipt's schema: a name, a truth value and no other key
-- but the evidence.
abbrev pub IsCheck : Item → Type 0
IsCheck no_object = ⊥
IsCheck (object d) =
    (unknown_fields d ≡ []) × (is_text (field "name" d) ≡ true) × (is_flag (field "ok" d) ≡ true)

-- At least one check, each in form, and a verdict that is the conjunction of the checks'.
abbrev pub IsReceipt : VerifierReceipt → Type 0
IsReceipt r = (r.checks ≢ []) × All IsCheck r.checks × (r.passed ≡ all_ok r.checks)

module _ (str : ℕ → String) (show_names : List String → String) (show_bool : Bool → String) where
  check_item-IsCheck :
      (i : ℕ) (item : Item) → check_item str show_names show_bool i item ≡ ok tt → IsCheck item
  unfolding check_item check_unknown check_name check_ok
  check_item-IsCheck i no_object h = ground (arith, h)
  check_item-IsCheck i (object d) h = ground (arith, h)

  IsCheck-check_item :
      (i : ℕ) (item : Item) → IsCheck item → check_item str show_names show_bool i item ≡ ok tt
  unfolding check_item check_unknown check_name check_ok
  IsCheck-check_item i no_object h = elim h [ ]
  IsCheck-check_item i (object d) (u, n, o) = ground (arith, u, n, o)

  check_items-All :
      (i : ℕ) (items : List Item)
      → check_items str show_names show_bool i items ≡ ok tt
      → All IsCheck items
  unfolding check_items
  check_items-All i [] h = tt
  check_items-All i (item ∷ items) h =
      ground (arith, h, check_item-IsCheck i item, check_items-All (suc i) items)

  All-check_items :
      (i : ℕ) (items : List Item)
      → All IsCheck items
      → check_items str show_names show_bool i items ≡ ok tt
  unfolding check_items
  All-check_items i [] h = refl
  All-check_items i (item ∷ items) (h, hs) =
      ground (arith, IsCheck-check_item i item h, All-check_items (suc i) items hs)

  agreed-passed :
      (passed : Bool) (checks : List Item) (r : VerifierReceipt)
      → agreed str show_names show_bool passed checks ≡ ok r
      → (r.passed ≡ all_ok checks) × (r.checks ≡ checks)
  unfolding agreed
  agreed-passed true checks r h = ground (arith, h)
  agreed-passed false checks r h = ground (arith, h)

  agreed_lem :
      (passed : Bool) (checks : List Item)
      → passed ≡ all_ok checks
      → agreed str show_names show_bool passed checks
        ≡ ok (record { passed = passed; checks = checks })
  unfolding agreed
  agreed_lem true checks h = ground (arith, h)
  agreed_lem false checks h = ground (arith, h)

  checked-agreed :
      (passed : Bool) (item : Item) (items : List Item) (r : VerifierReceipt)
      → checked str show_names show_bool passed (item ∷ items) ≡ ok r
      → (check_items str show_names show_bool 0 (item ∷ items) ≡ ok tt)
        × (agreed str show_names show_bool passed (item ∷ items) ≡ ok r)
  unfolding checked
  checked-agreed passed item items r h = ground (arith, h)

  checked-IsReceipt :
      (passed : Bool) (checks : List Item) (r : VerifierReceipt)
      → checked str show_names show_bool passed checks ≡ ok r
      → IsReceipt r
  unfolding checked
  checked-IsReceipt passed [] r h = absurd (ground (arith, h))
  checked-IsReceipt passed (item ∷ items) r h =
      let (fine, verdict) = checked-agreed passed item items r h in
      let (p, c) = agreed-passed passed (item ∷ items) r verdict in
      let every = check_items-All 0 (item ∷ items) fine in rw c ((λ e. ground (arith, e)), every, p)

  make_receipt-IsReceipt :
      (passed : Value) (checks : List Item) (r : VerifierReceipt)
      → make_receipt str show_names show_bool passed checks ≡ ok r
      → IsReceipt r
  unfolding make_receipt
  make_receipt-IsReceipt (flag b) checks r h = checked-IsReceipt b checks r h
  make_receipt-IsReceipt null checks r h = absurd (ground (arith, h))
  make_receipt-IsReceipt (text s) checks r h = absurd (ground (arith, h))
  make_receipt-IsReceipt other checks r h = absurd (ground (arith, h))

  as_scorer_error-ok :
      (made : Result Exc VerifierReceipt) (r : VerifierReceipt)
      → as_scorer_error made ≡ ok r
      → made ≡ ok r
  unfolding as_scorer_error
  as_scorer_error-ok (ok s) r h = h
  as_scorer_error-ok (raised e) r h = absurd (ground (arith, h))

  as_scorer_error-class :
      (made : Result Exc VerifierReceipt) (e : Exc)
      → as_scorer_error made ≡ raised e
      → e.class ≡ scorer_error
  unfolding as_scorer_error garbage
  as_scorer_error-class (ok s) e h = absurd (ground (arith, h))
  as_scorer_error-class (raised f) e h = ground (arith, h)

  -- A verdict is accepted only as a receipt with at least one check, each of them in form, whose
  -- `passed` is the conjunction of its checks: no verdict is made up or contradicts its evidence.
  pub coerce_verifier_receipt-IsReceipt :
      (v : Verdict) (r : VerifierReceipt)
      → coerce_verifier_receipt str show_names show_bool v ≡ ok r
      → IsReceipt r
  unfolding coerce_verifier_receipt
  coerce_verifier_receipt-IsReceipt (receipt passed checks) r h =
      make_receipt-IsReceipt passed checks r (as_scorer_error-ok _ r h)
  coerce_verifier_receipt-IsReceipt (shaped t (flag b) (some (item ∷ items))) r h =
      make_receipt-IsReceipt (flag b) (item ∷ items) r (as_scorer_error-ok _ r h)
  coerce_verifier_receipt-IsReceipt (shaped t (flag b) (some [])) r h = absurd (ground (arith, h))
  coerce_verifier_receipt-IsReceipt (shaped t (flag b) none) r h = absurd (ground (arith, h))
  coerce_verifier_receipt-IsReceipt (shaped t null c) r h = absurd (ground (arith, h))
  coerce_verifier_receipt-IsReceipt (shaped t (text s) c) r h = absurd (ground (arith, h))
  coerce_verifier_receipt-IsReceipt (shaped t other c) r h = absurd (ground (arith, h))

  -- A verdict that is not accepted raises a ScorerError, whatever is wrong with it.
  pub coerce_verifier_receipt_raises :
      (v : Verdict) (e : Exc)
      → coerce_verifier_receipt str show_names show_bool v ≡ raised e
      → e.class ≡ scorer_error
  unfolding coerce_verifier_receipt garbage
  coerce_verifier_receipt_raises (receipt passed checks) e h = as_scorer_error-class _ e h
  coerce_verifier_receipt_raises (shaped t (flag b) (some (item ∷ items))) e h =
      as_scorer_error-class _ e h
  coerce_verifier_receipt_raises (shaped t (flag b) (some [])) e h = ground (arith, h)
  coerce_verifier_receipt_raises (shaped t (flag b) none) e h = ground (arith, h)
  coerce_verifier_receipt_raises (shaped t null c) e h = ground (arith, h)
  coerce_verifier_receipt_raises (shaped t (text s) c) e h = ground (arith, h)
  coerce_verifier_receipt_raises (shaped t other c) e h = ground (arith, h)

  -- The converse: every receipt in form, whose `passed` is the conjunction of its checks, is
  -- accepted unchanged.
  pub coerce_verifier_receipt_accepts :
      (item : Item) (items : List Item)
      → All IsCheck (item ∷ items)
      → let passed = all_ok (item ∷ items) in
        coerce_verifier_receipt str show_names show_bool (receipt (flag passed) (item ∷ items))
        ≡ ok (record { passed = passed; checks = item ∷ items })
  unfolding coerce_verifier_receipt make_receipt checked as_scorer_error
  coerce_verifier_receipt_accepts item items every = ground (
    arith,
    All-check_items 0 (item ∷ items) every,
    agreed_lem (all_ok (item ∷ items)) (item ∷ items) refl,
  )
