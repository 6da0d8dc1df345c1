-- ===== src/Session/Shots/Tests.antt =====
-- A screen of one pixel, of which the runtime hashes the lit one only.
use shinken.Prelude.{
  ℕ, String, string_eq, ◌≡◌, refl, sym, ap, Bool, true, false, Option, none, some, List, [], ◌∷◌,
  ok, Outcome, arith, ◌==◌, if◌then◌else◌,
}
use shinken.Errors.{runtime_error}
use shinken.Prelude.Dict
use shinken.FrameCache
use shinken.FrameCache.{Op, record_op, touch_op, init, run}
use shinken.Session.Shots.{Frame, Reply, observation, not_modified, Shots, screenshot}
use shinken.Session.Shots.Truth.{IsContentHash, AreTrue, IsHonest, IsSound}
use shinken.Session.Shots.Laws.{screenshot_shows}

abbrev hash : Bool → Option String
hash true = some "lit"
hash false = none

abbrev encode : String → Bool → Bool
encode key px = px

abbrev shown : Bool → Frame Bool ℕ
shown px = record { content = px; display = some 1; pointer = none }

-- The runtime's answer about the lit screen.
abbrev runtime : Option (String × Frame Bool ℕ) → Reply Bool ℕ
runtime none = observation (shown true) (some "lit")
runtime (some (h, f)) =
    if h == "lit"
    then not_modified (some "lit") (some 2) none
    else observation (shown true) (some "lit")

abbrev fresh : Shots Bool ℕ
fresh = record { last_shot = []; cache = init 4 }

abbrev more : List (Op (Frame Bool ℕ))
more = record_op true ∷ []

-- The second capture is deduplicated, and its coordinates are the new ones.
second_is_deduped :
    (screenshot true "k" [] runtime (screenshot true "k" more runtime fresh).1).0
    ≡ ok (record {
      frame = record { content = true; display = some 2; pointer = none };
      deduped = true;
      frame_hash = some "lit";
    })
unfolding screenshot init FrameCache.candidate
second_is_deduped = refl

content_hash : IsContentHash hash encode
unfolding IsContentHash
content_hash key h true true p q = refl
content_hash key h false qx p q = absurd (ground arith)
content_hash key h true false p q = absurd (ground arith)

honest : (c : Option (String × Frame Bool ℕ)) → IsHonest hash encode "k" c true (runtime c)
unfolding IsHonest
honest none = (refl, refl)
honest (some (h, f)) = by_hash (h == "lit") refl
  where
    by_hash :
        (b : Bool)
        → (h == "lit") ≡ b
        → IsHonest hash encode "k" (some (h, f)) true (
            if b
            then not_modified (some "lit") (some 2) none
            else observation (shown true) (some "lit"))
    by_hash true e = ap some (sym ((string_eq.eqb_iff h "lit").0 e))
    by_hash false e = (refl, refl)

fresh-IsSound : IsSound hash encode fresh
unfolding run AreTrue Dict.lookup
fresh-IsSound = record {
  cap = 4;
  ops = [];
  reached = refl;
  true_ops = tt;
  own = λ key c e. absurd (ground arith);
}

screenshot_shows_example :
    Outcome
      (λ shot. shot.frame.content ≡ true)
      (λ e. e.class ≡ runtime_error)
      (screenshot true "k" more runtime fresh).0
    × IsSound hash encode (screenshot true "k" more runtime fresh).1
screenshot_shows_example =
    screenshot_shows hash encode true "k" more true runtime fresh content_hash honest
      (unfold AreTrue in tt) fresh-IsSound
