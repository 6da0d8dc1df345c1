-- ===== src/Gateway.antt =====
-- sdk/python/src/shinken/gateway.py: the capability an action needs, and the decision against an
-- envelope. Python's `str.lower`, and its `str` on a value, are parameters.
pub mod Laws
mod Tests
use shinken.Prelude.{
  nat_eq, string_eq, ℕ, String, Bool, true, false, not, ◌||◌, Option, none, some, [], ◌∷◌, ◌==◌,
  if◌then◌else◌, ◌<>◌,
}
use shinken.Prelude.Dict
use shinken.Prelude.Dict.{Dict}

-- A value of the envelope.
pub data CapValue : Type 0 where
  null : CapValue
  flag : Bool → CapValue
  text : String → CapValue
  number : ℕ → CapValue

abbrev pub Envelope : Type 0
Envelope = Dict String CapValue

-- Python's truth value of an envelope's value.
unfoldable pub truthy : CapValue → Bool
truthy null = false
truthy (flag b) = b
truthy (text s) = not (s == "")
truthy (number n) = not (n == 0)

pub data Decision : Type 0 where
  allow ask deny : Decision

-- The reason texts.
unfoldable pub requires_approval : String → String
requires_approval cap = "capability '" <> cap <> "' requires approval"

unfoldable pub not_granted : String → String
not_granted cap = "capability '" <> cap <> "' not granted"

-- `none` as a value is always allowed.
abbrev pub verb_capability : Dict String (Option String)
verb_capability =
    ("click", some "input_automation")
    ∷ ("double_click", some "input_automation")
    ∷ ("right_click", some "input_automation")
    ∷ ("move", some "input_automation")
    ∷ ("drag", some "input_automation")
    ∷ ("mouse_down", some "input_automation")
    ∷ ("mouse_up", some "input_automation")
    ∷ ("scroll", some "input_automation")
    ∷ ("type_text", some "input_automation")
    ∷ ("key", some "input_automation")
    ∷ ("screenshot", some "screenshot")
    ∷ ("start_screencast", some "screenshot")
    ∷ ("stop_screencast", some "screenshot")
    ∷ ("wait", none)
    ∷ ("observe", some "a11y")
    ∷ ("invoke_action", some "input_automation")
    ∷ ("set_value", some "input_automation")
    ∷ ("exec", some "exec")
    ∷ ("clipboard_get", some "clipboard")
    ∷ ("clipboard_set", some "clipboard")
    ∷ ("launch_app", some "app_launch")
    ∷ ("activate_window", some "input_automation")
    ∷ []

required_of : Option (Option String) → Option String
required_of none = some "input_automation"
required_of (some cap) = cap

-- `VERB_CAPABILITY.get(verb, "input_automation")`
unfoldable pub required_capability : String → Option String
unfolding required_of Dict.lookup
required_capability verb = required_of (Dict.lookup verb verb_capability)

-- `capabilities.get(cap, False)`
unfoldable pub value_of : Option CapValue → CapValue
value_of none = flag false
value_of (some v) = v

-- `isinstance(val, str) and val.lower() == "ask"`
unfoldable pub is_ask : (lower : String → String) → CapValue → Bool
is_ask lower (text s) = lower s == "ask"
is_ask lower null = false
is_ask lower (flag b) = false
is_ask lower (number n) = false

module _ (lower : String → String) where
  decide_value : String → CapValue → Decision × Option String × String
  decide_value cap v =
      if is_ask lower v
      then (ask, some cap, requires_approval cap)
      else if truthy v
      then (allow, some cap, "permitted by envelope")
      else (deny, some cap, not_granted cap)

  decide_required : Option String → Envelope → Decision × Option String × String
  unfolding decide_value value_of is_ask truthy
  decide_required none caps = (allow, none, "no capability required")
  decide_required (some cap) caps = decide_value cap (value_of (Dict.lookup cap caps))

  unfoldable pub decide_action : String → Envelope → Decision × Option String × String
  unfolding decide_required
  decide_action verb caps = decide_required (required_capability verb) caps

  is_allow : Decision → Bool
  is_allow allow = true
  is_allow ask = false
  is_allow deny = false

  unfoldable pub check_action : String → Envelope → Bool × Option String × String
  unfolding is_allow
  check_action verb caps =
      let (decision, cap, reason) = decide_action verb caps in (is_allow decision, cap, reason)

-- Membership in `_NO_FS_SCOPE`: by Python's `==` the number 0 is False.
unfoldable pub is_no_scope : CapValue → Bool
is_no_scope null = true
is_no_scope (flag b) = not b
is_no_scope (text s) = s == "" || (s == "none" || s == "false")
is_no_scope (number n) = n == 0

-- `capabilities.get("fs_scope")`
scope_of : Option CapValue → CapValue
scope_of none = null
scope_of (some v) = v

unfoldable pub check_file_transfer :
    (show : CapValue → String) → String → Envelope → Bool × String × String
unfolding scope_of is_no_scope
check_file_transfer show direction caps =
    let scope = scope_of (Dict.lookup "fs_scope" caps) in
    if is_no_scope scope
    then (false, "fs_scope", not_granted "fs_scope")
    else (true, "fs_scope", direction <> " permitted within fs_scope '" <> show scope <> "'")
