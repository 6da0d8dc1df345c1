-- ===== src/Eval/Receipt/Tests.antt =====
-- Verdicts with one and with two checks.
use shinken.Prelude.{
  string_eq, ℕ, String, ◌≡◌, refl, Bool, true, false, some, List, [], ◌∷◌, ok, raised, All,
}
use shinken.Errors.{Exc, scorer_error}
use shinken.Eval.Receipt.{
  flag, text, Item, object, VerifierReceipt, Verdict, receipt, shaped, all_ok,
  coerce_verifier_receipt,
}
use shinken.Eval.Receipt.Laws.{
  IsCheck, IsReceipt, coerce_verifier_receipt-IsReceipt, coerce_verifier_receipt_accepts,
}

abbrev saved : Item
saved = object (("name", text "saved") ∷ ("ok", flag true) ∷ [])

abbrev named : Item
named = object (("ok", flag false) ∷ ("name", text "named") ∷ [])

abbrev good : VerifierReceipt
good = record { passed = false; checks = saved ∷ named ∷ [] }

abbrev lying : Verdict
lying = shaped "dict" (flag true) (some (saved ∷ named ∷ []))

module _ (str : ℕ → String) (show_names : List String → String) (show_bool : Bool → String) where
  accepted :
      coerce_verifier_receipt str show_names show_bool
        (shaped "dict" (flag false) (some (saved ∷ named ∷ [])))
      ≡ ok good
  unfolding coerce_verifier_receipt shinken.Eval.Receipt.make_receipt
  accepted = refl

abbrev digits : ℕ → String
digits i = "0"

abbrev names : List String → String
names ks = "[]"

abbrev word : Bool → String
word b = "False"

abbrev lie : Exc
lie = record {
  class = scorer_error;
  message =
      "invalid verifier receipt: verifier receipt `passed` disagrees with its checks (passed=False, all(check.ok)=False)";
}

coerce_verifier_receipt-IsReceipt_example : IsReceipt good
coerce_verifier_receipt-IsReceipt_example =
    coerce_verifier_receipt-IsReceipt digits names word
      (shaped "dict" (flag false) (some (saved ∷ named ∷ []))) good (accepted digits names word)

lying_raises : coerce_verifier_receipt digits names word lying ≡ raised lie
unfolding coerce_verifier_receipt shinken.Eval.Receipt.make_receipt
lying_raises = refl

in_form : All IsCheck (saved ∷ named ∷ [])
unfolding shinken.Eval.Receipt.unknown_fields shinken.Eval.Receipt.is_text
    shinken.Eval.Receipt.field shinken.Eval.Receipt.is_flag
in_form = ((refl, refl, refl), ((refl, refl, refl), tt))

coerce_verifier_receipt_accepts_example :
    coerce_verifier_receipt digits names word
      (receipt (flag (all_ok (saved ∷ named ∷ []))) (saved ∷ named ∷ []))
    ≡ ok (record { passed = all_ok (saved ∷ named ∷ []); checks = saved ∷ named ∷ [] })
coerce_verifier_receipt_accepts_example =
    coerce_verifier_receipt_accepts digits names word saved (named ∷ []) in_form
