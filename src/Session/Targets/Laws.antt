-- ===== src/Session/Targets/Laws.antt =====
-- A mapped point lies on the display, and one of the image in the captured region; and an image's pixel is
-- mapped to the source pixel that it shows.
use native.Mathlib.Nat.{mul-le-mul_right}
use shinken.Prelude.{
  ℕ, ◌<◌, ◌≤◌, ◌≡◌, inl, inr, refl, ap, ◌∙◌, subst, String, true, some, Result, ok, raised,
  and_then, Outcome, ◌<>◌, ◌*◌, if_true, nat_eq, string_eq, arith,
}
use shinken.Prelude.Int.{pos}
use shinken.Errors.{Exc}
use shinken.Session.Floats.{Rounding, whole, whole_limit, IsNearest}
use shinken.Session.Targets.{
  Value, integer, invalid, Observation, Target, element_ref, point_px, point_norm, other_kind,
  not_a_dict, Frame, shift, ratio, pixel, is_inside, frame_of, map_target_from_observation, sampled,
  within, place_px, checked, is_number, finite_or,
}
use shinken.Session.Targets.Checks.{IsRejection, IsFrame, frame_of-Outcome}
use shinken.Session.Targets.Pixels.{pixel-sampled}
use shinken.Session.Targets.Placed.{
  IsPlaced, IsPlacedInRegion, Rejection, place_px-Outcome, place_norm-Outcome, checked-Outcome, all,
  below,
}

module _ (show : Value → String) (nearest : Rounding) where
  -- A point that has the property P of the observation's frame.
  abbrev pub OfFrame : (Frame → Target → Type 0) → Observation → Target → Type 0
  OfFrame P o t = (f : Frame) × ((frame_of show nearest o ≡ ok f) × P f t)

  -- What a target may become: an element's target itself, a point of the image a point of the display
  -- that is in the captured region, and a normed point a point of the display.
  pub Maps : Target → Observation → Target → Type 0
  Maps (element_ref r) o t = t ≡ element_ref r
  Maps (point_px x y) o t = OfFrame IsPlacedInRegion o t
  Maps (point_norm x y) o t = OfFrame IsPlaced o t
  Maps other_kind o t = ⊥
  Maps not_a_dict o t = ⊥

  placed :
      (P : Frame → Target → Type 0) (o : Observation) (place : Frame → Result Exc Target)
      → ((f : Frame) → IsFrame f → Outcome (P f) (Rejection show nearest) (place f))
      → Outcome (OfFrame P o) (Rejection show nearest) (and_then (frame_of show nearest o) place)
  placed P o place next =
      placed_from (frame_of show nearest o) refl (frame_of-Outcome show nearest o)
    where
      with_frame :
          (f : Frame) (r : Result Exc Target)
          → frame_of show nearest o ≡ ok f
          → Outcome (P f) (Rejection show nearest) r
          → Outcome (OfFrame P o) (Rejection show nearest) r
      with_frame f (ok t) e h = (f, (e, h))
      with_frame f (raised x) e h = h

      placed_from :
          (r : Result Exc Frame)
          → frame_of show nearest o ≡ r
          → Outcome IsFrame (Rejection show nearest) r
          → Outcome (OfFrame P o) (Rejection show nearest) (and_then r place)
      placed_from (ok f) e h = with_frame f (place f) e (next f h)
      placed_from (raised x) e h = h

  -- An element's target is mapped to itself, a point of the image to a point that lies on the display and
  -- in the captured region, and a normed point to one that lies on the display. Else the mapping raises
  -- a ValueError, a TypeError, or the exception of a number that is out of a float's range.
  pub map_target-Outcome :
      (t : Target) (o : Observation)
      → Outcome (Maps t o) (IsRejection show nearest) (map_target_from_observation show nearest t o)
  unfolding map_target_from_observation Maps IsRejection invalid
  map_target-Outcome (element_ref r) o = refl
  map_target-Outcome not_a_dict o = inl (inr refl)
  map_target-Outcome other_kind o = inl (inl refl)
  map_target-Outcome (point_px x y) o = placed IsPlacedInRegion o _ (λ f h.
      checked-Outcome show nearest (IsPlacedInRegion f) "point_px" x y _
        (place_px-Outcome show nearest f x y (ratio x) (ratio y) h))
  map_target-Outcome (point_norm x y) o = placed IsPlaced o _ (λ f h.
      checked-Outcome show nearest (IsPlaced f) "point_norm" x y _
        (place_norm-Outcome show nearest f x y (ratio x) (ratio y)))

  frame_of-IsFrame : (o : Observation) (f : Frame) → frame_of show nearest o ≡ ok f → IsFrame f
  frame_of-IsFrame o f e =
      subst (λ r. Outcome IsFrame (Rejection show nearest) r) e (frame_of-Outcome show nearest o)

  is_number-whole :
      (p : ℕ) → IsNearest nearest → p < whole_limit → is_number nearest (integer (pos p)) ≡ ok true
  unfolding is_number
  is_number-whole p laws h =
      let (r, e) = laws.in_range p 0 h (omega arith) in ap (λ x. and_then x (λ q. ok true)) e

  checked-whole :
      (kind : String) (p q : ℕ) (place : Result Exc Target)
      → IsNearest nearest
      → p < whole_limit
      → q < whole_limit
      → checked show nearest kind (integer (pos p)) (integer (pos q)) place ≡ place
  unfolding checked finite_or
  checked-whole kind p q place laws hp hq =
      ap
        (λ x. and_then x (
          finite_or show nearest (kind <> " x") (integer (pos p)) (
            and_then (is_number nearest (integer (pos q)))
              (finite_or show nearest (kind <> " y") (integer (pos q)) place))))
        (is_number-whole p laws hp)
      ∙ ap (λ x. and_then x (finite_or show nearest (kind <> " y") (integer (pos q)) place))
          (is_number-whole q laws hq)

  place_px-sampled :
      (f : Frame) (p q : ℕ)
      → IsNearest nearest
      → IsFrame f
      → p < f.delivered_w
      → q < f.delivered_h
      → f.source_w * f.delivered_w < whole_limit
      → f.source_h * f.delivered_h < whole_limit
      → place_px show nearest f
          (integer (pos p))
          (integer (pos q))
          (some (whole p))
          (some (whole q))
        ≡ within show nearest f
            (shift f.source_x (sampled p f.source_w f.delivered_w))
            (shift f.source_y (sampled q f.source_h f.delivered_h))
  unfolding place_px
  place_px-sampled f p q laws h hp hq sw sh =
      if_true _ _ _ (below p q f.delivered_w f.delivered_h hp hq)
      ∙ (ap
            (λ r. and_then r (λ i.
              and_then (pixel nearest (whole q) f.source_h f.delivered_h)
                (λ j. within show nearest f (shift f.source_x i) (shift f.source_y j))))
            (pixel-sampled nearest laws p f.source_w f.delivered_w hp h.source_w sw)
          ∙ ap
              (λ r. and_then r (λ j.
                within show nearest f (shift f.source_x (sampled p f.source_w f.delivered_w))
                  (shift f.source_y j)))
              (pixel-sampled nearest laws q f.source_h f.delivered_h hq h.source_h sh))

  -- Where floats are rounded to nearest, and the product of the captured and the delivered width is
  -- below 2^53, and that of the heights, pixel (p, q) of an image that shows the frame is mapped to the
  -- source pixel that the runtime's downscale sampled for it, if that lies on the display.
  pub map_target-sampled :
      (o : Observation) (f : Frame) (p q : ℕ)
      → IsNearest nearest
      → frame_of show nearest o ≡ ok f
      → p < f.delivered_w
      → q < f.delivered_h
      → f.source_w * f.delivered_w < whole_limit
      → f.source_h * f.delivered_h < whole_limit
      → is_inside (shift f.source_x (sampled p f.source_w f.delivered_w)) f.global_w ≡ true
      → is_inside (shift f.source_y (sampled q f.source_h f.delivered_h)) f.global_h ≡ true
      → map_target_from_observation show nearest (point_px (integer (pos p)) (integer (pos q))) o
        ≡ ok (
            point_px
              (integer (shift f.source_x (sampled p f.source_w f.delivered_w)))
              (integer (shift f.source_y (sampled q f.source_h f.delivered_h))))
  unfolding map_target_from_observation ratio within
  map_target-sampled o f p q laws e hp hq sw sh hx hy =
      let h = frame_of-IsFrame o f e in
      ap
        (λ r. and_then r (λ g. checked show nearest "point_px" (integer (pos p)) (integer (pos q)) (
          place_px show nearest g (integer (pos p)) (integer (pos q)) (some (whole p))
            (some (whole q)))))
        e
      ∙ (checked-whole "point_px" p q _ laws (small p f.source_w f.delivered_w hp h.source_w sw)
            (small q f.source_h f.delivered_h hq h.source_h sh)
          ∙ (place_px-sampled f p q laws h hp hq sw sh ∙ if_true _ _ _ (all hx hy)))
    where
      small :
          (x source delivered : ℕ)
          → x < delivered
          → 0 < source
          → source * delivered < whole_limit
          → x < whole_limit
      small x source delivered lt s le =
          let wide : 1 * delivered ≤ source * delivered =
            mul-le-mul_right delivered (omega (arith, s)) in
          omega (arith, lt, le, wide)
