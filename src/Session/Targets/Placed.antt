-- ===== src/Session/Targets/Placed.antt =====
-- The steps of a mapping: a pixel stays in the captured region, and a point that is found lies on the
-- display.
use shinken.Prelude.{
  ℕ, ◌<◌, ◌≡◌, inl, refl, ap, ◌∙◌, String, Bool, true, false, ◌&&◌, Option, none, some, Result, ok,
  Outcome, and_then-Outcome, ◌<>◌, ◌*◌, ◌-◌, nat_eq, string_eq, arith,
}
use shinken.Prelude.Int.{ℤ, pos, negsuc}
use shinken.Errors.{Exc}
use shinken.Session.Floats.{Ratio, Rounding, Number, whole, float, quotient, times, over, plus_half}
use shinken.Session.Targets.{
  Value, integer, invalid, Target, point_px, Frame, shift, pixel, normed, is_below, is_unit,
  is_inside, within, outside, place_px, place_norm, checked, is_number, floored, half_up, finite_or,
}
use shinken.Session.Targets.Checks.{
  IsRejection, IsFrame, Always, rounded-Outcome, guarded-Outcome, is_number-Outcome,
}

-- A point on the display.
pub record IsPlaced (f : Frame) (t : Target) : Type 0 where
  pub column : ℕ
  pub row : ℕ
  pub point : t ≡ point_px (integer (pos column)) (integer (pos row))
  pub on_display : (column < f.global_w) × (row < f.global_h)

-- A point at column i and row j of the captured region.
pub record IsInRegion (f : Frame) (t : Target) : Type 0 where
  pub i : ℕ
  pub j : ℕ
  pub at_offset : t ≡ point_px (integer (shift f.source_x i)) (integer (shift f.source_y j))
  pub in_region : (i < f.source_w) × (j < f.source_h)

abbrev pub IsPlacedInRegion : Frame → Target → Type 0
IsPlacedInRegion f t = IsPlaced f t × IsInRegion f t

inside_cases : (z : ℤ) (w : ℕ) → is_inside z w ≡ true → (g : ℕ) × ((z ≡ pos g) × (g < w))
unfolding is_inside
inside_cases (pos g) w h = (g, (refl, ground arith))
inside_cases (negsuc g) w h = absurd (ground arith)

pub all : {a b : Bool} → a ≡ true → b ≡ true → (a && b) ≡ true
all ha hb = ground arith

pub below : (p q w h : ℕ) → p < w → q < h → (is_below (whole p) w && is_below (whole q) h) ≡ true
unfolding is_below
below p q w h hp hq = ground arith

both : (a b : Bool) → (a && b) ≡ true → (a ≡ true) × (b ≡ true)
both a b h = (ground arith, ground arith)

module _ (show : Value → String) (nearest : Rounding) where
  abbrev pub Rejection : Exc → Type 0
  Rejection e = IsRejection show nearest e

  within-Outcome :
      (f : Frame) (x y : ℤ) (P : Target → Type 0)
      → (IsPlaced f (point_px (integer x) (integer y)) → P (point_px (integer x) (integer y)))
      → Outcome P Rejection (within show nearest f x y)
  unfolding within
  within-Outcome f x y P give =
      guarded-Outcome show nearest P (is_inside x f.global_w && is_inside y f.global_h)
        (ok (point_px (integer x) (integer y))) _ (unfold invalid in refl)
        (λ h.
          let (hx, hy) = both _ _ h in
          let (gx, (ex, bx)) = inside_cases x f.global_w hx in
          let (gy, (ey, by)) = inside_cases y f.global_h hy in
          give (record {
            column = gx;
            row = gy;
            point =
                ap (λ z. point_px (integer z) (integer y)) ex
                ∙ ap (λ z. point_px (integer (pos gx)) (integer z)) ey;
            on_display = (bx, by);
          }))

  Below : ℕ → ℕ → Type 0
  Below source i = i < source

  floored_lt : (source : ℕ) (q : Ratio) → 0 < source → floored nearest source q < source
  unfolding floored
  floored_lt source q h = omega arith

  pixel-Outcome :
      (a : Number) (source delivered : ℕ)
      → 0 < source
      → Outcome (Below source) Rejection (pixel nearest a source delivered)
  unfolding pixel Below
  pixel-Outcome (whole n) source delivered h =
      rounded-Outcome show nearest (Below source) (quotient (n * source) delivered) _
        (λ q e. floored_lt source q h)
  pixel-Outcome (float x) source delivered h =
      rounded-Outcome show nearest (Below source) (source, 0) _
        (λ s es. rounded-Outcome show nearest (Below source) (times x s) _ (λ p ep.
          rounded-Outcome show nearest (Below source) (delivered, 0) _
            (λ d ed.
              rounded-Outcome show nearest (Below source) (over p d) _
                (λ q eq. floored_lt source q h))))

  Any : ℕ → Type 0
  Any i = Unit

  half_up-Outcome : (p : Ratio) → Outcome Any Rejection (half_up nearest p)
  unfolding half_up Any
  half_up-Outcome p = rounded-Outcome show nearest Any (plus_half p) _ (λ q e. tt)

  normed-Outcome : (a : Number) (source : ℕ) → Outcome Any Rejection (normed nearest a source)
  unfolding normed
  normed-Outcome (whole n) source =
      rounded-Outcome show nearest Any (n * (source - 1), 0) _ (λ q e. half_up-Outcome q)
  normed-Outcome (float x) source =
      rounded-Outcome show nearest Any (source - 1, 0) _
        (λ s es. rounded-Outcome show nearest Any (times x s) _ (λ q e. half_up-Outcome q))

  pub place_px-Outcome :
      (f : Frame) (x y : Value) (a b : Option Number)
      → IsFrame f
      → Outcome (IsPlacedInRegion f) Rejection (place_px show nearest f x y a b)
  unfolding place_px IsRejection invalid outside Below
  place_px-Outcome f x y (some a) (some b) h =
      let P = IsPlacedInRegion f in
      guarded-Outcome show nearest P (is_below a f.delivered_w && is_below b f.delivered_h) _ _ refl
        (λ inside.
          and_then-Outcome (Below f.source_w) P Rejection (pixel nearest a f.source_w f.delivered_w)
            _ (pixel-Outcome a f.source_w f.delivered_w h.source_w)
            (λ i hi.
              and_then-Outcome (Below f.source_h) P Rejection
                (pixel nearest b f.source_h f.delivered_h) _
                (pixel-Outcome b f.source_h f.delivered_h h.source_h)
                (λ j hj.
                  within-Outcome f (shift f.source_x i) (shift f.source_y j) P
                    (λ on. (on, record { i = i; j = j; at_offset = refl; in_region = (hi, hj) })))))
  place_px-Outcome f x y none b h = inl (inl refl)
  place_px-Outcome f x y (some a) none h = inl (inl refl)

  pub place_norm-Outcome :
      (f : Frame) (x y : Value) (a b : Option Number)
      → Outcome (IsPlaced f) Rejection (place_norm show nearest f x y a b)
  unfolding place_norm IsRejection invalid outside
  place_norm-Outcome f x y (some a) (some b) =
      guarded-Outcome show nearest (IsPlaced f) (is_unit a && is_unit b) _ _ refl (λ u.
        and_then-Outcome Any (IsPlaced f) Rejection (normed nearest a f.source_w) _
          (normed-Outcome a f.source_w)
          (λ i hi.
            and_then-Outcome Any (IsPlaced f) Rejection (normed nearest b f.source_h) _
              (normed-Outcome b f.source_h)
              (λ j hj.
                within-Outcome f (shift f.source_x i) (shift f.source_y j) (IsPlaced f)
                  (λ on. on))))
  place_norm-Outcome f x y none b = inl (inl refl)
  place_norm-Outcome f x y (some a) none = inl (inl refl)

  finite_or-Outcome :
      (P : Target → Type 0) (label : String) (v : Value) (r : Result Exc Target) (b : Bool)
      → Outcome P Rejection r
      → Outcome P Rejection (finite_or show nearest label v r b)
  unfolding finite_or IsRejection invalid
  finite_or-Outcome P label v r true h = h
  finite_or-Outcome P label v r false h = inl (inl refl)

  pub checked-Outcome :
      (P : Target → Type 0) (kind : String) (x y : Value) (r : Result Exc Target)
      → Outcome P Rejection r
      → Outcome P Rejection (checked show nearest kind x y r)
  unfolding checked
  checked-Outcome P kind x y r h =
      and_then-Outcome Always P Rejection (is_number nearest x) _ (is_number-Outcome show nearest x)
        (λ b hb. finite_or-Outcome P (kind <> " x") x _ b (
          and_then-Outcome Always P Rejection (is_number nearest y) _
            (is_number-Outcome show nearest y)
            (λ c hc. finite_or-Outcome P (kind <> " y") y r c h)))
