-- ===== src/Session/Targets/Checks.antt =====
-- The checks of an observation's metadata: a frame with positive sizes, or a ValueError.
use shinken.Prelude.{
  ℕ, zero, suc, ◌<◌, ◌≡◌, ◌⊎◌, inl, refl, String, ◌<>◌, Bool, true, false, Option, none, some,
  Result, ok, raised, and_then, Outcome, and_then-Outcome, ◌==◌, if◌then◌else◌, nat_eq, string_eq,
  arith, ◌||◌, ◌&&◌, inr,
}
use shinken.Prelude.Int.{pos, negsuc}
use shinken.Errors.{Exc, value_error, type_error}
use shinken.Session.Floats.{Ratio, Rounding}
use shinken.Session.Targets.{
  Value, null, flag, integer, fraction, below_zero, not_finite, other_value, invalid, equals, Rect,
  Display, Observation, Frame, frame_of, positive_int, any_int, positive_number, matches, agrees,
  is_null, is_positive, is_number, dimensions, with_sizes, with_origin, with_display,
}

pub record IsFrame (f : Frame) : Type 0 where
  pub source_w : 0 < f.source_w
  pub source_h : 0 < f.source_h
  pub delivered_w : 0 < f.delivered_w
  pub delivered_h : 0 < f.delivered_h

Positive : ℕ → Type 0
Positive n = 0 < n

pub Always : {A : Type 0} → A → Type 0
Always a = Unit

module _ (show : Value → String) (nearest : Rounding) where
  -- What a mapping raises: a ValueError, a TypeError, or what the rounding raises out of range.
  unfoldable pub IsRejection : Exc → Type 0
  IsRejection e =
      ((e.class ≡ value_error) ⊎ (e.class ≡ type_error)) ⊎ ((q : Ratio) × (nearest q ≡ raised e))

  pub rounded-Outcome :
      {A : Type 0} (P : A → Type 0) (q : Ratio) (k : Ratio → Result Exc A)
      → ((r : Ratio) → nearest q ≡ ok r → Outcome P IsRejection (k r))
      → Outcome P IsRejection (and_then (nearest q) k)
  unfolding IsRejection
  rounded-Outcome P q k next = go (nearest q) refl
    where
      go : (r : Result Exc Ratio) → nearest q ≡ r → Outcome P IsRejection (and_then r k)
      go (ok r) e = next r e
      go (raised x) e = inr (q, e)

  -- A branch that goes on or rejects.
  pub guarded-Outcome :
      {A : Type 0} (P : A → Type 0) (b : Bool) (r : Result Exc A) (e : Exc)
      → e.class ≡ value_error
      → (b ≡ true → Outcome P IsRejection r)
      → Outcome P IsRejection (if b then r else raised e)
  unfolding IsRejection
  guarded-Outcome P true r e c h = h refl
  guarded-Outcome P false r e c h = inl (inl c)

  positive_int-Outcome :
      (v : Value) (label : String)
      → Outcome Positive IsRejection (positive_int show nearest v label)
  unfolding positive_int Positive IsRejection invalid
  positive_int-Outcome (integer (pos (suc n))) label = omega arith
  positive_int-Outcome (integer (pos zero)) label = inl (inl refl)
  positive_int-Outcome (integer (negsuc n)) label = inl (inl refl)
  positive_int-Outcome null label = inl (inl refl)
  positive_int-Outcome (flag b) label = inl (inl refl)
  positive_int-Outcome (fraction n d) label = inl (inl refl)
  positive_int-Outcome below_zero label = inl (inl refl)
  positive_int-Outcome not_finite label = inl (inl refl)
  positive_int-Outcome other_value label = inl (inl refl)

  any_int-Outcome :
      (v : Value) (label : String) → Outcome Always IsRejection (any_int show nearest v label)
  unfolding any_int Always IsRejection invalid
  any_int-Outcome (integer n) label = tt
  any_int-Outcome null label = inl (inl refl)
  any_int-Outcome (flag b) label = inl (inl refl)
  any_int-Outcome (fraction n d) label = inl (inl refl)
  any_int-Outcome below_zero label = inl (inl refl)
  any_int-Outcome not_finite label = inl (inl refl)
  any_int-Outcome other_value label = inl (inl refl)

  pub is_number-Outcome : (v : Value) → Outcome Always IsRejection (is_number nearest v)
  unfolding is_number Always
  is_number-Outcome (integer (pos n)) = rounded-Outcome Always (n, 0) _ (λ r e. tt)
  is_number-Outcome (integer (negsuc n)) = rounded-Outcome Always (suc n, 0) _ (λ r e. tt)
  is_number-Outcome null = tt
  is_number-Outcome (flag b) = tt
  is_number-Outcome (fraction n d) = tt
  is_number-Outcome below_zero = tt
  is_number-Outcome not_finite = tt
  is_number-Outcome other_value = tt

  positive_number-Outcome :
      (v : Value) → Outcome Always IsRejection (positive_number show nearest v)
  unfolding positive_number Always invalid
  positive_number-Outcome v =
      and_then-Outcome Always Always IsRejection _ _ (is_number-Outcome v)
        (λ finite h. guarded-Outcome Always (finite && is_positive v) (ok tt) _ refl (λ p. tt))

  agrees-Outcome :
      (v : Value) (n : ℕ) (side : String)
      → Outcome Always IsRejection (agrees show nearest v n side)
  unfolding agrees invalid Always
  agrees-Outcome v n side =
      guarded-Outcome Always (is_null v || equals v n) (ok tt) _ refl (λ h. tt)

  matches-Outcome :
      (v second : Option Value) (n : ℕ) (side : String)
      → Outcome Always IsRejection (matches show nearest v second n side)
  unfolding matches Always
  matches-Outcome (some v) second n side = agrees-Outcome v n side
  matches-Outcome none none n side = tt
  matches-Outcome none (some v) n side = agrees-Outcome v n side

  dimensions-Outcome :
      (d : Display) (source : Rect) (delivered : Value × Value) (o : Observation)
      → Outcome IsFrame IsRejection (dimensions show nearest d source delivered o)
  unfolding dimensions Positive
  dimensions-Outcome d source (dw, dh) o = positive d.w "display.w" _ (λ gw hgw.
      positive d.h "display.h" _ (λ gh hgh. positive source.w "source_rect.w" _ (λ sw hsw.
        positive source.h "source_rect.h" _ (λ sh hsh. positive dw "delivered.w" _ (λ w hw.
          positive dh "delivered.h" _ (λ h hh.
            and_then-Outcome Always IsFrame IsRejection _ _
              (any_int-Outcome source.x "source_rect.x")
              (λ x hx.
                and_then-Outcome Always IsFrame IsRejection _ _
                  (any_int-Outcome source.y "source_rect.y")
                  (λ y hy.
                    and_then-Outcome Always IsFrame IsRejection _ _ (positive_number-Outcome d.dpr)
                      (λ dpr hd.
                        and_then-Outcome Always IsFrame IsRejection _ _
                          (matches-Outcome o.w _ w "width")
                          (λ u hu.
                            and_then-Outcome Always IsFrame IsRejection _ _
                              (matches-Outcome o.h _ h "height")
                              (λ v hv. record {
                                source_w = hsw;
                                source_h = hsh;
                                delivered_w = hw;
                                delivered_h = hh;
                              })))))))))))
    where
      positive :
          (v : Value) (label : String) (k : ℕ → Result Exc Frame)
          → ((n : ℕ) → 0 < n → Outcome IsFrame IsRejection (k n))
          → Outcome IsFrame IsRejection (and_then (positive_int show nearest v label) k)
      positive v label k next =
          and_then-Outcome Positive IsFrame IsRejection (positive_int show nearest v label) k
            (positive_int-Outcome v label) next

  with_sizes-Outcome :
      (source : Option Rect) (delivered : Option (Value × Value)) (d : Display) (o : Observation)
      → Outcome IsFrame IsRejection (with_sizes show nearest source delivered d o)
  unfolding with_sizes IsRejection invalid
  with_sizes-Outcome (some source) (some delivered) d o = dimensions-Outcome d source delivered o
  with_sizes-Outcome none delivered d o = inl (inl refl)
  with_sizes-Outcome (some source) none d o = inl (inl refl)

  with_origin-Outcome :
      (origin : Option String) (d : Display) (o : Observation)
      → Outcome IsFrame IsRejection (with_origin show nearest origin d o)
  unfolding with_origin IsRejection invalid
  with_origin-Outcome none d o = inl (inl refl)
  with_origin-Outcome (some origin) d o =
      guarded-Outcome IsFrame (origin == "top-left")
        (with_sizes show nearest d.source_rect d.delivered d o)
        (record { class = value_error; message = "unsupported coordinate origin: " <> origin }) refl
        (λ h. with_sizes-Outcome d.source_rect d.delivered d o)

  with_display-Outcome :
      (d : Option Display) (o : Observation)
      → Outcome IsFrame IsRejection (with_display show nearest d o)
  unfolding with_display IsRejection invalid
  with_display-Outcome none o = inl (inl refl)
  with_display-Outcome (some d) o = with_origin-Outcome d.origin d o

  pub frame_of-Outcome : (o : Observation) → Outcome IsFrame IsRejection (frame_of show nearest o)
  unfolding frame_of
  frame_of-Outcome o = with_display-Outcome o.display o
