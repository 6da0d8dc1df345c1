-- ===== src/Routed/Dispatch.antt =====
-- dispatch_action of backends/routed.py: the method of a backend that an action's verb and target
-- select, or the error. What a method does is the backend's own. A missing key of the action's dict
-- is `none`. `V` is what a point's coordinates may be, and `int` is Python's.
pub mod Laws
mod Tests
use shinken.Prelude.{
  string_eq, ℕ, String, ◌==◌, Bool, true, false, not, ◌||◌, Option, none, some, List, [], ◌∷◌,
  Result, ok, raised, and_then, if◌then◌else◌, ◌<>◌,
}
use shinken.Prelude.Int.{ℤ, pos}
use shinken.Prelude.Keyed.{elem}
use shinken.Errors.{Exc, ExcClass, value_error, key_error, unsupported_provider_operation}

-- A target's dict, by its `kind`; `other_target` is one of any other kind, or empty.
pub data Target (V : Type 0) : Type 0 where
  point_px : Option V → Option V → Target V
  element_ref : Option String → Target V
  other_target : Target V

pub record CanonicalAction (V : Type 0) : Type 0 where
  pub target : Option (Target V)
  pub to : Option (Target V)
  pub button : Option String
  pub count : Option ℕ
  pub text : Option String
  pub keys : Option String
  pub combo : Option String
  pub dx : Option ℤ
  pub dy : Option ℤ
  pub structured : Option Bool
  pub argv : Option (List String)
  pub shell : Option String
  pub app : Option String
  pub name : Option String
  pub args : Option (List String)
  pub url : Option String
  pub expression : Option String

-- A call of a backend's method, or the answer that needs none.
pub data Call : Type 0 where
  click : Option ℤ → Option ℤ → Option String → String → ℕ → Call
  move : Option ℤ → Option ℤ → Call
  drag : Option ℤ → Option ℤ → Option ℤ → Option ℤ → Call
  type_text key eval navigate clipboard_set : String → Call
  scroll : ℤ → ℤ → Call
  screenshot clipboard_get answer_ok : Call
  observe : Bool → Call
  exec : Option (List String) → Option String → Call
  invoke_action : String → Option String → Call
  set_value : String → String → Call
  launch_app : String → Option (List String) → Call

-- `d.get(key, default)`
get_or : {A : Type 0} → Option A → A → A
get_or none d = d
get_or (some a) d = a

-- `int(target[key])`
coordinate : {V : Type 0} → (V → Result Exc ℤ) → String → Option V → Result Exc ℤ
coordinate int name none = raised (record { class = key_error; message = name })
coordinate int name (some v) = int v

abbrev pub Point : Type 0
Point = Option ℤ × Option ℤ

-- `_point`: a point_px has both its coordinates, any other target none.
unfoldable pub point : {V : Type 0} → (V → Result Exc ℤ) → Option (Target V) → Result Exc Point
unfolding coordinate
point int (some (point_px x y)) =
    and_then (coordinate int "x" x)
      (λ i. and_then (coordinate int "y" y) (λ j. ok (some i, some j)))
point int _ = ok (none, none)

-- `_ref`
pub ref_of : {V : Type 0} → Option (Target V) → Option String
ref_of (some (element_ref r)) = r
ref_of _ = none

-- `{"double_click": "click", "right_click": "click"}.get(verb, verb)`
unfoldable pub base_of : String → String
base_of verb =
    if verb == "double_click" then "click" else if verb == "right_click" then "click" else verb

unsupported : String → Result Exc Call
unsupported message = raised (record { class = unsupported_provider_operation; message = message })

-- `if not ref: raise`
pub with_ref : String → Option String → (String → Call) → Result Exc Call
with_ref verb none call =
    raised (record { class = value_error; message = verb <> " needs an element_ref target" })
with_ref verb (some r) call =
    if r == ""
    then raised (record { class = value_error; message = verb <> " needs an element_ref target" })
    else ok (call r)

-- `action[key]`
pub required : String → Option String → (String → Call) → Result Exc Call
required name none call = raised (record { class = key_error; message = name })
required name (some s) call = ok (call s)

-- The method that the verb selects; `has_move` says whether the backend has a method `move`.
-- The verbs from navigate on.
pub select_page : {V : Type 0} → String → CanonicalAction V → Result Exc Call
unfolding get_or unsupported required
select_page verb a =
    if verb == "navigate"
    then required "url" a.url navigate
    else if verb == "eval"
    then required "expression" a.expression eval
    else if verb == "clipboard_get"
    then ok clipboard_get
    else if verb == "clipboard_set"
    then ok (clipboard_set (get_or a.text ""))
    else if verb == "done" || verb == "wait"
    then ok answer_ok
    else unsupported ("dispatch_action has no mapping for verb '" <> (verb <> "'"))

-- The verbs from screenshot on; `ref` is the element that the action's target names.
pub select_tool : {V : Type 0} → String → CanonicalAction V → Option String → Result Exc Call
unfolding get_or with_ref select_page
select_tool verb a ref =
    if verb == "screenshot"
    then ok screenshot
    else if verb == "observe"
    then ok (observe (get_or a.structured false))
    else if verb == "exec"
    then ok (exec a.argv a.shell)
    else if verb == "invoke_action"
    then with_ref verb ref (λ r. invoke_action r a.text)
    else if verb == "set_value"
    then with_ref verb ref (λ r. set_value r (get_or a.text ""))
    else if verb == "launch_app"
    then ok (launch_app (get_or a.app (get_or a.name "")) a.args)
    else select_page verb a

-- (x, y) is the point of the action's target.
unfoldable pub select_at :
    {V : Type 0} → (V → Result Exc ℤ) → Bool → String → CanonicalAction V → Point → Result Exc Call
unfolding get_or point ref_of unsupported select_tool
select_at int has_move verb a (x, y) =
    let ref = ref_of a.target in
    if verb == "click" || (verb == "double_click" || verb == "right_click")
    then ok (
        click x y ref (if verb == "right_click" then "right" else get_or a.button "left")
          (if verb == "double_click" then 2 else get_or a.count 1))
    else if verb == "move"
    then if has_move
      then ok (move x y)
      else unsupported "backend does not implement advertised verb 'move'"
    else if verb == "drag"
    then and_then (point int a.to) (λ to. ok (drag x y to.0 to.1))
    else if verb == "type_text"
    then ok (type_text (get_or a.text ""))
    else if verb == "key"
    then ok (key (get_or a.keys (get_or a.combo "")))
    else if verb == "scroll"
    then ok (scroll (get_or a.dx (pos 0)) (get_or a.dy (pos 0)))
    else select_tool verb a ref

unfoldable pub select :
    {V : Type 0} → (V → Result Exc ℤ) → Bool → String → CanonicalAction V → Result Exc Call
unfolding select_at point
select int has_move verb a = and_then (point int a.target) (λ p. select_at int has_move verb a p)

-- The verbs that the backend declares, if it does, are authoritative, also when there are none.
unfoldable pub is_allowed : Option (List String) → String → Bool
is_allowed none verb = true
is_allowed (some verbs) verb = elem (base_of verb) verbs || elem verb verbs

unfoldable pub dispatch_action :
    {V : Type 0}
    → (V → Result Exc ℤ)
    → Option (List String)
    → Bool
    → String
    → CanonicalAction V
    → Result Exc Call
unfolding unsupported
dispatch_action int declared has_move verb a =
    if is_allowed declared verb
    then select int has_move verb a
    else unsupported ("backend does not advertise verb '" <> (verb <> "'"))
