-- ===== src/Session/Targets.antt =====
-- Coordinates: map_target_from_observation and _target of client.py, from the pixels of a delivered image to
-- those of the display; and the sampling of the runtime's downscale, in shinkend/src/executor.rs.
-- `nearest` is the rounding of Session/Floats.
pub mod Pixels
pub mod Checks
pub mod Placed
pub mod Laws
mod Tests
use shinken.Prelude.{
  ℕ, zero, suc, ◌+◌, ◌-◌, ◌*◌, ◌/◌, min, String, ◌<>◌, Bool, true, false, not, ◌&&◌, ◌||◌, max,
  Option, none, some, Result, ok, raised, and_then, ltb, leb, ◌==◌, if◌then◌else◌, nat_eq,
  string_eq,
}
use mathlib.Core.Option
use shinken.Prelude.Int.{ℤ, pos, negsuc}
use shinken.Errors.{Exc, value_error, type_error}
use shinken.Session.Floats.{
  Ratio, Rounding, Number, whole, float, value, quotient, times, over, plus_half,
}

-- A value of a message: `fraction n d` is the float n/(d+1), `below_zero` a negative finite float.
pub data Value : Type 0 where
  null : Value
  flag : Bool → Value
  integer : ℤ → Value
  fraction : ℕ → ℕ → Value
  below_zero not_finite other_value : Value

pub record Rect : Type 0 where
  pub x : Value
  pub y : Value
  pub w : Value
  pub h : Value

pub record Display : Type 0 where
  pub origin : Option String
  pub w : Value
  pub h : Value
  pub dpr : Value
  pub source_rect : Option Rect
  pub delivered : Option (Value × Value)

-- An observation's own `w` and `h` are `none` where the key is missing; an `image` that is no
-- dictionary is `none`.
pub record Observation : Type 0 where
  pub display : Option Display
  pub w : Option Value
  pub h : Option Value
  pub image : Option (Value × Value)

pub data Target : Type 0 where
  element_ref : String → Target
  point_px point_norm : Value → Value → Target
  other_kind not_a_dict : Target

-- The display's metadata once it is validated.
pub record Frame : Type 0 where
  pub global_w : ℕ
  pub global_h : ℕ
  pub source_x : ℤ
  pub source_y : ℤ
  pub source_w : ℕ
  pub source_h : ℕ
  pub delivered_w : ℕ
  pub delivered_h : ℕ

invalid : String → Exc
invalid message = record { class = value_error; message = message }

-- An integer and a natural number.
unfoldable pub shift : ℤ → ℕ → ℤ
shift (pos a) n = pos (a + n)
shift (negsuc a) n = if ltb a n then pos (n - suc a) else negsuc (a - n)

-- `value != n`: Python's `==` across bool, int and float.
equals : Value → ℕ → Bool
equals (flag b) n = if b then n == 1 else n == 0
equals (integer (pos a)) n = a == n
equals (fraction a d) n = a == n * suc d
equals _ n = false

is_null : Value → Bool
is_null null = true
is_null _ = false

-- A number that is not below zero.
unfoldable pub ratio : Value → Option Number
ratio (integer (pos n)) = some (whole n)
ratio (fraction n d) = some (float (n, d))
ratio _ = none

module _ (nearest : Rounding) where
  -- `math.isfinite`, after the test for a number: an integer is converted to a float first.
  unfoldable pub is_number : Value → Result Exc Bool
  is_number (integer (pos n)) = and_then (nearest (n, 0)) (λ q. ok true)
  is_number (integer (negsuc n)) = and_then (nearest (suc n, 0)) (λ q. ok true)
  is_number (fraction n d) = ok true
  is_number below_zero = ok true
  is_number _ = ok false

  -- `min(source - 1, math.floor(…))`
  pub floored : ℕ → Ratio → ℕ
  floored source (n, d) = min (source - 1) (n / suc d)

  -- `x * source / delivered` and its floor, the inverse of the runtime's downscale. An integer x is
  -- multiplied exactly; for a float, both sizes are converted. Python multiplies to infinity where
  -- `nearest` raises, and raises the OverflowError at the floor.
  unfoldable pub pixel : Number → ℕ → ℕ → Result Exc ℕ
  unfolding floored
  pixel (whole n) source delivered =
      and_then (nearest (quotient (n * source) delivered)) (λ q. ok (floored source q))
  pixel (float x) source delivered = and_then (nearest (source, 0)) (λ s.
      and_then (nearest (times x s)) (λ p.
        and_then (nearest (delivered, 0))
          (λ d. and_then (nearest (over p d)) (λ q. ok (floored source q)))))

  pub half_up : Ratio → Result Exc ℕ
  half_up p = and_then (nearest (plus_half p)) (λ q. ok (q.0 / suc (q.1)))

  -- `math.floor(x * (source - 1) + 0.5)`, the endpoint convention of point_norm.
  unfoldable pub normed : Number → ℕ → Result Exc ℕ
  unfolding half_up
  normed (whole n) source = and_then (nearest (n * (source - 1), 0)) half_up
  normed (float x) source =
      and_then (nearest (source - 1, 0)) (λ s. and_then (nearest (times x s)) half_up)

-- `x < w`, and `x <= 1`
unfoldable pub is_below : Number → ℕ → Bool
is_below x w = ltb (value x).0 (w * suc (value x).1)

unfoldable pub is_unit : Number → Bool
is_unit x = leb (value x).0 (suc (value x).1)

-- `not dpr <= 0`, of a number
is_positive : Value → Bool
is_positive (integer (pos (suc n))) = true
is_positive (fraction (suc n) d) = true
is_positive _ = false

-- `0 <= g < w`
unfoldable pub is_inside : ℤ → ℕ → Bool
is_inside (pos g) w = ltb g w
is_inside (negsuc g) w = false

module _ (show : Value → String) (nearest : Rounding) where
  positive_int : Value → String → Result Exc ℕ
  unfolding invalid
  positive_int (integer (pos (suc n))) label = ok (suc n)
  positive_int value label = raised (invalid ("invalid " <> (label <> (": " <> show value))))

  any_int : Value → String → Result Exc ℤ
  unfolding invalid
  any_int (integer n) label = ok n
  any_int value label = raised (invalid ("invalid " <> (label <> (": " <> show value))))

  positive_number : Value → Result Exc Unit
  unfolding invalid is_number is_positive
  positive_number v = and_then (is_number nearest v) (λ finite.
      if finite && is_positive v
      then ok tt
      else raised (invalid ("invalid display.dpr: " <> show v)))

  -- A size that is told, but for None, must be the delivered one.
  agrees : Value → ℕ → String → Result Exc Unit
  unfolding invalid equals is_null
  agrees value n side =
      if is_null value || equals value n
      then ok tt
      else raised (
          invalid (
            "coordinate metadata/image "
            <> (side <> (" mismatch: " <> (show (integer (pos n)) <> (" != " <> show value))))))

  -- `observation.get("w", image.get("w"))` against the delivered size.
  matches : Option Value → Option Value → ℕ → String → Result Exc Unit
  unfolding agrees
  matches (some value) second n side = agrees value n side
  matches none none n side = ok tt
  matches none (some value) n side = agrees value n side

  dimensions : Display → Rect → Value × Value → Observation → Result Exc Frame
  unfolding positive_int any_int positive_number matches
  dimensions d source (dw, dh) o = and_then (positive_int d.w "display.w") (λ global_w.
      and_then (positive_int d.h "display.h") (λ global_h.
        and_then (positive_int source.w "source_rect.w") (λ source_w.
          and_then (positive_int source.h "source_rect.h") (λ source_h.
            and_then (positive_int dw "delivered.w") (λ delivered_w.
              and_then (positive_int dh "delivered.h") (λ delivered_h.
                and_then (any_int source.x "source_rect.x") (λ source_x.
                  and_then (any_int source.y "source_rect.y") (λ source_y.
                    and_then (positive_number d.dpr) (λ dpr.
                      and_then (matches o.w (Option.map (λ wh. wh.0) o.image) delivered_w "width")
                        (λ w.
                          and_then
                            (matches o.h (Option.map (λ wh. wh.1) o.image) delivered_h "height")
                            (λ h. ok (record {
                              global_w = global_w;
                              global_h = global_h;
                              source_x = source_x;
                              source_y = source_y;
                              source_w = source_w;
                              source_h = source_h;
                              delivered_w = delivered_w;
                              delivered_h = delivered_h;
                            }))))))))))))

  with_sizes : Option Rect → Option (Value × Value) → Display → Observation → Result Exc Frame
  unfolding dimensions invalid
  with_sizes (some source) (some delivered) d o = dimensions d source delivered o
  with_sizes _ _ d o =
      raised (invalid "incomplete coordinate metadata: source_rect and delivered are required")

  with_origin : Option String → Display → Observation → Result Exc Frame
  unfolding with_sizes invalid
  with_origin none d o = raised (invalid "unsupported coordinate origin: None")
  with_origin (some origin) d o =
      if origin == "top-left"
      then with_sizes d.source_rect d.delivered d o
      else raised (invalid ("unsupported coordinate origin: " <> origin))

  with_display : Option Display → Observation → Result Exc Frame
  unfolding with_origin invalid
  with_display none o = raised (invalid "observation has no coordinate metadata")
  with_display (some d) o = with_origin d.origin d o

  -- The checks of the metadata, in the code's order.
  unfoldable pub frame_of : Observation → Result Exc Frame
  unfolding with_display
  frame_of o = with_display o.display o

  -- The last check, on the point that was found.
  within : Frame → ℤ → ℤ → Result Exc Target
  unfolding is_inside invalid
  within f x y =
      if is_inside x f.global_w && is_inside y f.global_h
      then ok (point_px (integer x) (integer y))
      else raised (
          invalid (
            "mapped point ("
            <> (show (integer x)
                <> (", " <> (show (integer y) <> ") is outside the actionable display")))))

  outside : Value → Value → String → Exc
  unfolding invalid
  outside x y area = invalid (area <> (": (" <> (show x <> (", " <> (show y <> ")")))))

  pub place_px : Frame → Value → Value → Option Number → Option Number → Result Exc Target
  unfolding within pixel shift is_below outside
  place_px f x y (some a) (some b) =
      if is_below a f.delivered_w && is_below b f.delivered_h
      then and_then (pixel nearest a f.source_w f.delivered_w) (λ i.
        and_then (pixel nearest b f.source_h f.delivered_h)
          (λ j. within f (shift f.source_x i) (shift f.source_y j)))
      else raised (outside x y "point_px outside delivered frame")
  place_px f x y _ _ = raised (outside x y "point_px outside delivered frame")

  pub place_norm : Frame → Value → Value → Option Number → Option Number → Result Exc Target
  unfolding within normed shift is_unit outside
  place_norm f x y (some a) (some b) =
      if is_unit a && is_unit b
      then and_then (normed nearest a f.source_w) (λ i.
        and_then (normed nearest b f.source_h)
          (λ j. within f (shift f.source_x i) (shift f.source_y j)))
      else raised (outside x y "point_norm outside [0, 1]")
  place_norm f x y _ _ = raised (outside x y "point_norm outside [0, 1]")

  -- A target's coordinates are finite numbers; below zero they have no ratio.
  finite_or : String → Value → Result Exc Target → Bool → Result Exc Target
  unfolding invalid
  finite_or label v rest true = rest
  finite_or label v rest false = raised (invalid ("invalid " <> (label <> (": " <> show v))))

  pub checked : String → Value → Value → Result Exc Target → Result Exc Target
  unfolding is_number finite_or
  checked kind x y place = and_then (is_number nearest x) (
      finite_or (kind <> " x") x
        (and_then (is_number nearest y) (finite_or (kind <> " y") y place)))

  unfoldable pub map_target_from_observation : Target → Observation → Result Exc Target
  unfolding frame_of checked place_px place_norm invalid ratio
  map_target_from_observation (element_ref r) o = ok (element_ref r)
  map_target_from_observation not_a_dict o =
      raised (record { class = type_error; message = "target must be a dict" })
  map_target_from_observation other_kind o =
      raised (invalid "cannot map target kind from an observation")
  map_target_from_observation (point_px x y) o =
      and_then (frame_of o) (λ f. checked "point_px" x y (place_px f x y (ratio x) (ratio y)))
  map_target_from_observation (point_norm x y) o =
      and_then (frame_of o) (λ f. checked "point_norm" x y (place_norm f x y (ratio x) (ratio y)))

-- What a helper may be given as its target: a dictionary, a text, an object with a `ref`, another
-- object, or None.
pub data Given : Type 0 where
  no_target unsupported : Given
  dict : Target → Given
  text with_ref : String → Given

-- `_target`
unfoldable pub target_of : Given → Option Value → Option Value → Result Exc (Option Target)
target_of (dict t) x y = ok (some t)
target_of (text r) x y = ok (some (element_ref r))
target_of (with_ref r) x y = ok (some (element_ref r))
target_of unsupported x y = raised (record { class = type_error; message = "unsupported target" })
target_of no_target (some x) (some y) = ok (some (point_px x y))
target_of no_target _ _ = ok none

-- The size of a capture whose longer edge is capped, and the source pixel that pixel x of the smaller
-- image shows.
div_ceil : ℕ → ℕ → ℕ
div_ceil a b = (a + (b - 1)) / b

unfoldable pub downscaled : ℕ → ℕ → ℕ → ℕ × ℕ
unfolding div_ceil
downscaled w h cap =
    let long = max w h in
    if cap == 0 || leb long cap
    then (w, h)
    else (max (div_ceil (w * cap) long) 1, max (div_ceil (h * cap) long) 1)

unfoldable pub sampled : ℕ → ℕ → ℕ → ℕ
sampled x w nw = x * w / nw
