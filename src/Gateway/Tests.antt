-- ===== src/Gateway/Tests.antt =====
-- The gateway's decisions on small envelopes.
use shinken.Prelude.{String, string_eq, ◌≡◌, ◌↔◌, refl, true, false, [], ◌∷◌}
use shinken.Prelude.Dict
use shinken.Gateway.{
  Envelope, flag, text, allow, ask, deny, decide_action, check_action, check_file_transfer,
  required_capability,
}
use shinken.Gateway.Laws.{IsGranted, decide_allow_iff}

abbrev caps : Envelope
caps = ("input_automation", flag true) ∷ ("clipboard", text "ask") ∷ ("fs_scope", text "none") ∷ []

-- These texts are lower-case already.
abbrev lower : String → String
lower s = s

decisions :
    ((decide_action lower "click" caps).0 ≡ allow)
    × ((decide_action lower "clipboard_get" caps).0 ≡ ask)
    × ((decide_action lower "exec" caps).0 ≡ deny)
    × ((decide_action lower "no_such_verb" caps).0 ≡ allow)
    × ((decide_action lower "wait" []).0 ≡ allow)
    × ((check_action lower "clipboard_get" caps).0 ≡ false)
    × ((check_file_transfer (λ v. "none") "put" caps).0 ≡ false)
unfolding decide_action check_action check_file_transfer required_capability Dict.lookup
decisions = (refl, refl, refl, refl, refl, refl, refl)

decide_allow_iff_example :
    ((decide_action lower "click" caps).0 ≡ allow) ↔ IsGranted lower "click" caps
decide_allow_iff_example = decide_allow_iff lower "click" caps
