-- ===== src/Session/Targets/Tests.antt =====
-- A window of 800 by 600 at (100, 50), delivered at half its size.
use shinken.Prelude.{
  ℕ, suc, ◌+◌, ◌*◌, ◌≡◌, ◌<◌, ◌≤◌, refl, subst, String, none, some, ok, raised, leb, Outcome, arith,
  if◌then◌else◌,
}
use shinken.Prelude.Int.{pos}
use shinken.Errors.{other_error}
use shinken.Session.Floats.{Rounding, whole_limit, IsNearest}
use shinken.Session.Targets.{
  Value, null, integer, fraction, Observation, point_px, point_norm, Frame, shift, frame_of,
  is_inside, map_target_from_observation, downscaled, sampled,
}
use shinken.Session.Targets.Checks.{IsRejection}
use shinken.Session.Targets.Pixels.{sampled_strict_downscaled}
use shinken.Session.Targets.Laws.{Maps, map_target-Outcome, map_target-sampled}

abbrev show : Value → String
show v = "v"

-- A rounding of quotients that are all floats.
abbrev exact : Rounding
exact q = ok q

exact-IsNearest : IsNearest exact
exact-IsNearest = record {
  in_range = λ n d hn hd. ((n, d), refl);
  monotone =
      λ n d m r hn e h. let same : (n, d) ≡ r = cc e in subst (λ q. m * suc (q.1) ≤ q.0) same h;
  close = λ n d r hn hd e.
      let same : (n, d) ≡ r = cc e in
      subst (λ q. whole_limit * (q.0 * suc d) ≤ (whole_limit + 1) * (n * suc (q.1))) same
        (omega arith);
}

-- One whose range ends at 1000.
abbrev narrow : Rounding
narrow (n, d) =
    if leb n (1000 * suc d)
    then ok (n, d)
    else raised (record { class = other_error; message = "int too large to convert to float" })

abbrev n : ℕ → Value
n k = integer (pos k)

abbrev window : Observation
window = record {
  display = some (record {
    origin = some "top-left";
    w = n 1920;
    h = n 1080;
    dpr = fraction 3 1;
    source_rect = some (record { x = n 100; y = n 50; w = n 800; h = n 600 });
    delivered = some (n 400, n 300);
  });
  w = none;
  h = some null;
  image = some (n 400, n 300);
}

abbrev frame : Frame
frame = record {
  global_w = 1920;
  global_h = 1080;
  source_x = pos 100;
  source_y = pos 50;
  source_w = 800;
  source_h = 600;
  delivered_w = 400;
  delivered_h = 300;
}

window-frame : frame_of show exact window ≡ ok frame
unfolding frame_of
window-frame = refl

-- The last pixel of the image, and the last point of the normed range.
maps_last :
    (map_target_from_observation show exact (point_px (n 399) (n 299)) window
      ≡ ok (point_px (n 898) (n 648)))
    × (map_target_from_observation show exact (point_norm (n 1) (n 1)) window
        ≡ ok (point_px (n 899) (n 649)))
unfolding map_target_from_observation
maps_last = (refl, refl)

-- An integer that no float can hold is neither mapped nor a ValueError.
too_large :
    map_target_from_observation show narrow (point_px (n 1001) (n 0)) (record window {
      display = some (record {
        origin = some "top-left";
        w = n 1920;
        h = n 1080;
        dpr = n 1;
        source_rect = some (record { x = n 0; y = n 0; w = n 4; h = n 4 });
        delivered = some (n 4, n 4);
      });
      image = none;
    })
    ≡ raised (record { class = other_error; message = "int too large to convert to float" })
unfolding map_target_from_observation
too_large = refl

halves : downscaled 800 600 400 ≡ (400, 300)
unfolding downscaled
halves = refl

map_target-Outcome_example :
    Outcome
      (Maps show exact (point_px (n 399) (n 299)) window)
      (IsRejection show exact)
      (map_target_from_observation show exact (point_px (n 399) (n 299)) window)
map_target-Outcome_example = map_target-Outcome show exact (point_px (n 399) (n 299)) window

map_target-sampled_example :
    map_target_from_observation show exact (point_px (n 399) (n 299)) window
    ≡ ok (
        point_px
          (integer (shift (pos 100) (sampled 399 800 400)))
          (integer (shift (pos 50) (sampled 299 600 300))))
map_target-sampled_example =
    map_target-sampled show exact window frame 399 299 exact-IsNearest window-frame (omega arith)
      (omega arith) (omega arith) (omega arith) (unfold is_inside shift sampled in refl)
      (unfold is_inside shift sampled in refl)

sampled_strict_downscaled_example :
    (sampled 3 800 (downscaled 800 600 400).0 < sampled 4 800 (downscaled 800 600 400).0)
    × (sampled 3 600 (downscaled 800 600 400).1 < sampled 4 600 (downscaled 800 600 400).1)
sampled_strict_downscaled_example =
    sampled_strict_downscaled 800 600 400 3 4 (omega arith) (omega arith) (omega arith)
