-- ===== src/Session/Gate.antt =====
-- The Action Gateway check of AsyncSandbox (client.py): _record_decision, _gate and
-- gate_capability, and the envelope that a session starts with. The approval handler and the
-- clock are arguments.
pub mod Laws
mod Tests
use shinken.Prelude.{
  string_eq, ℕ, String, Bool, true, false, Option, none, some, List, [], ◌∷◌, ◌++◌, Result, ok,
  ◌<>◌, raised, if◌then◌else◌,
}
use shinken.Prelude.Dict
use shinken.Prelude.Dict.{Dict}
use shinken.Errors.{Exc, capability_denied}
use shinken.Gateway.{
  CapValue, flag, text, Envelope, truthy, is_ask, Decision, allow, ask, deny, not_granted, value_of,
  decide_action,
}

-- One entry of the decision log. `D` is what a verb adds to its entry (exec: its command).
pub record Event (D : Type 0) : Type 0 where
  pub capability : Option String
  pub subject : String
  pub decision : Decision
  pub granted : Bool
  pub reason : Option String
  pub ts : ℕ
  pub detail : Option D

-- (verb, capability, reason) → approved, or an exception of the handler's own
abbrev pub Handler : Type 0
Handler = String → Option String → String → Result Exc Bool

pub record Gatekeeper (D : Type 0) : Type 0 where
  pub sandbox_capabilities : Envelope
  pub enforce : Bool
  pub on_ask : Option Handler
  pub capability_events : List (Event D)

abbrev pub default_sandbox_capabilities : Envelope
default_sandbox_capabilities =
    ("input_automation", flag true)
    ∷ ("screenshot", flag true)
    ∷ ("a11y", flag true)
    ∷ ("exec", flag true)
    ∷ ("app_launch", flag true)
    ∷ ("fs_scope", text "session")
    ∷ ("egress", flag false)
    ∷ ("credentials", flag false)
    ∷ ("clipboard", flag false)
    ∷ ("privileged_install", flag false)
    ∷ []

-- `{**base, **given}`
unfoldable pub merge : Envelope → Envelope → Envelope
merge base [] = base
merge base ((k, v) ∷ given) = merge (Dict.insert k v base) given

-- `bool(self._on_ask(...)) if self._on_ask else False`
unfoldable pub approves : Option Handler → String → Option String → String → Result Exc Bool
approves none subject capability reason = ok false
approves (some handler) subject capability reason = handler subject capability reason

abbrev denied : String → Exc
denied message = record { class = capability_denied; message = message }

-- A capability as an f-string shows it.
shown : Option String → String
shown none = "None"
shown (some capability) = capability

module _ {D : Type 0} where
  -- The constructor's part: `sandbox_capabilities or {}` over the defaults.
  unfoldable pub open_gate : Envelope → Bool → Option Handler → Gatekeeper D
  unfolding merge
  open_gate given enforce on_ask = record {
    sandbox_capabilities = merge default_sandbox_capabilities given;
    enforce = enforce;
    on_ask = on_ask;
    capability_events = [];
  }

  unfoldable pub record_decision :
      Option String
      → String
      → Decision
      → Bool
      → Option String
      → ℕ
      → Option D
      → Gatekeeper D
      → Gatekeeper D
  record_decision capability subject decision granted reason now detail g =
      let event : Event D = record {
        capability = capability;
        subject = subject;
        decision = decision;
        granted = granted;
        reason = reason;
        ts = now;
        detail = detail;
      } in
      record g { capability_events = g.capability_events ++ event ∷ [] }

  -- What follows the handler's answer: one that raises leaves no entry.
  answered :
      Result Exc Bool
      → Option String
      → String
      → String
      → ℕ
      → Option D
      → Gatekeeper D
      → Result Exc Unit × Gatekeeper D
  unfolding record_decision shown
  answered (raised e) capability reason subject now detail g = (raised e, g)
  answered (ok true) capability reason subject now detail g =
      (ok tt, record_decision capability subject ask true none now detail g)
  answered (ok false) capability reason subject now detail g = (
    raised (denied (subject <> ": approval denied (" <> shown capability <> ")")),
    record_decision capability subject ask false (some reason) now detail g,
  )

  resolve :
      Decision
      → Option String
      → String
      → String
      → ℕ
      → Option D
      → Gatekeeper D
      → Result Exc Unit × Gatekeeper D
  unfolding record_decision approves answered
  resolve allow capability reason subject now detail g =
      (ok tt, record_decision capability subject allow true none now detail g)
  resolve ask capability reason subject now detail g =
      answered (approves g.on_ask subject capability reason) capability reason subject now detail g
  resolve deny capability reason subject now detail g = (
    raised (denied (subject <> ": " <> reason)),
    record_decision capability subject deny false (some reason) now detail g,
  )

  module _ (lower : String → String) where
    unfoldable pub gate : String → Option D → ℕ → Gatekeeper D → Result Exc Unit × Gatekeeper D
    unfolding resolve
    gate verb detail now g =
        let (decision, capability, reason) = decide_action lower verb g.sandbox_capabilities in
        if g.enforce then resolve decision capability reason verb now detail g else (ok tt, g)

    -- The same three outcomes for a named capability, whose log entries carry no detail.
    unfoldable pub gate_capability :
        String → String → ℕ → Gatekeeper D → Result Exc Unit × Gatekeeper D
    unfolding resolve
    gate_capability name label now g =
        let val = value_of (Dict.lookup name g.sandbox_capabilities) in
        if g.enforce
        then if is_ask lower val
          then resolve ask (some name) "requires approval" label now none g
          else if truthy val
          then resolve allow (some name) "" label now none g
          else resolve deny (some name) (not_granted name) label now none g
        else (ok tt, g)
