-- ===== src/Routed/Dispatch/Tests.antt =====
-- dispatch_action of clicks and moves.
use shinken.Prelude.{
  string_eq, ◌≡◌, ◌⊎◌, refl, true, false, Option, none, some, [], ◌∷◌, Result, ok, raised,
}
use shinken.Prelude.Int.{ℤ, pos}
use shinken.Errors.{Exc, value_error, key_error, unsupported_provider_operation}
use shinken.Routed.Dispatch.{
  CanonicalAction, Point, point, point_px, click, move, base_of, select, select_at, is_allowed,
  dispatch_action,
}
use shinken.Routed.Dispatch.Laws.{
  IsDeclared, is_click, is_click_verb, dispatch_action-IsDeclared, dispatch_action-move,
}

-- A coordinate is an integer, or what is none.
abbrev int : Option ℤ → Result Exc ℤ
int none = raised (record { class = value_error; message = "invalid literal for int()" })
int (some i) = ok i

abbrev at_point : CanonicalAction (Option ℤ)
at_point = record {
  target = some (point_px (some (some (pos 3))) (some (some (pos 4))));
  to = none;
  button = none;
  count = none;
  text = none;
  keys = none;
  combo = none;
  dx = none;
  dy = none;
  structured = none;
  argv = none;
  shell = none;
  app = none;
  name = none;
  args = none;
  url = none;
  expression = none;
}

doubles :
    dispatch_action int (some ("click" ∷ [])) true "double_click" at_point
    ≡ ok (click (some (pos 3)) (some (pos 4)) none "left" 2)
unfolding dispatch_action is_allowed select select_at point base_of
doubles = refl

-- A point without its y raises, and moves nothing.
abbrev no_row : CanonicalAction (Option ℤ)
no_row = record at_point { target = some (point_px (some (some (pos 3))) none) }

half_a_point :
    dispatch_action int (some ("move" ∷ [])) true "move" no_row
    ≡ Result.raised (record { class = key_error; message = "y" })
unfolding dispatch_action is_allowed select select_at point base_of
half_a_point = refl

dispatch_action-IsDeclared_example :
    IsDeclared ("click" ∷ []) "double_click"
    × (is_click (click (some (pos 3)) (some (pos 4)) none "left" 2) ≡ is_click_verb "double_click")
dispatch_action-IsDeclared_example =
    dispatch_action-IsDeclared int ("click" ∷ []) true "double_click" at_point
      (click (some (pos 3)) (some (pos 4)) none "left" 2) doubles

dispatch_action-move_example :
    let answer = dispatch_action int (some ("move" ∷ [])) false "move" at_point in
    ((p : Point) × (point int at_point.target ≡ ok p) × (answer ≡ ok (move p.0 p.1)))
    ⊎ ((e : Exc) × (point int at_point.target ≡ raised e) × (answer ≡ raised e))
    ⊎ ((e : Exc) × (answer ≡ raised e) × (e.class ≡ unsupported_provider_operation))
dispatch_action-move_example = dispatch_action-move int (some ("move" ∷ [])) false at_point
