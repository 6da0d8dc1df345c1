-- ===== src/Session/Gate/Tests.antt =====
-- The gate of a session with the default envelope and an approval handler.
use shinken.Prelude.{
  ℕ, String, string_eq, ◌≡◌, ◌↔◌, ◌⊎◌, refl, true, false, Option, none, some, [], ◌∷◌, Result, ok,
}
use shinken.Prelude.Dict
use shinken.Errors.{capability_denied, runtime_error}
use shinken.Gateway.{Envelope, text, allow, ask, decide_action, required_capability}
use shinken.Session.Gate.{Handler, Gatekeeper, open_gate, approves, gate}
use shinken.Session.Gate.Laws.{gate_ok_iff}

abbrev lower : String → String
lower s = s

abbrev given : Envelope
given = ("clipboard", text "ask") ∷ []

-- Approves nothing.
abbrev refusing : Option Handler
refusing = some (λ verb capability reason. ok false)

abbrev keeper : Gatekeeper ℕ
keeper = open_gate given true refusing

refused :
    (gate lower "clipboard_set" none 7 keeper).0
    ≡ Result.raised (record {
      class = capability_denied;
      message = "clipboard_set: approval denied (clipboard)";
    })
unfolding open_gate gate decide_action required_capability Dict.lookup Dict.insert
refused = refl

-- A handler that raises leaves the log as it was.
abbrev failing : Gatekeeper ℕ
failing = open_gate given true (
    some (λ verb capability reason.
      Result.raised (record { class = runtime_error; message = "no terminal" })))

unanswered :
    gate lower "clipboard_set" none 7 failing
    ≡ (Result.raised (record { class = runtime_error; message = "no terminal" }), failing)
unfolding open_gate gate decide_action required_capability Dict.lookup Dict.insert
unanswered = refl

gate_ok_iff_example : ((gate lower "exec" (some 9) 7 keeper).0 ≡ ok tt) ↔ (
    (keeper.enforce ≡ false)
    ⊎ ((decide_action lower "exec" keeper.sandbox_capabilities).0 ≡ allow)
    ⊎ (((decide_action lower "exec" keeper.sandbox_capabilities).0 ≡ ask)
        × (approves keeper.on_ask "exec"
              (decide_action lower "exec" keeper.sandbox_capabilities).1
              (decide_action lower "exec" keeper.sandbox_capabilities).2
            ≡ ok true)))
gate_ok_iff_example = gate_ok_iff lower "exec" (some 9) 7 keeper
