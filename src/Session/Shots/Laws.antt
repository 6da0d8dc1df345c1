-- ===== src/Session/Shots/Laws.antt =====
-- Deduplication changes what goes over the wire, not what a screenshot shows.
use shinken.Prelude.{
  String, string_eq, ◌≡◌, refl, sym, ◌∙◌, subst, Bool, true, false, Option, none, some, List, [],
  ◌∷◌, Outcome, if◌then◌else◌, ◌==◌,
}
use shinken.Prelude.Dict
use shinken.Prelude.Dict.{Dict}
use shinken.Errors.{runtime_error}
use shinken.FrameCache.{Op, candidate_op, put_op, touch_op, record_op, run, apply}
use shinken.Session.Shots.{
  Frame, Reply, observation, not_modified, failed, Shots, ask, offer, keep, answer, screenshot,
}
use shinken.Session.Shots.Truth.{
  IsContentHash, some_injective, IsTrue, AreTrue, IsHonest, IsSound, calls-IsSound, ask-IsTrue,
}

-- A runtime: the hash of the raw pixels `P`, if it computes one, and the encoding under the parameters.
module _ {P X D : Type 0} (hash : P → Option String) (encode : String → P → X) where
  answer_shows :
      (dedup : Bool) (key : String) (c : Option (String × Frame X D)) (px : P) (r : Reply X D)
      (s : Shots X D)
      → ((d : String × Frame X D) → c ≡ some d → IsTrue hash encode key d)
      → IsHonest hash encode key c px r
      → Outcome
          (λ shot. shot.frame.content ≡ encode key px)
          (λ e. e.class ≡ runtime_error)
          (answer dedup key c r s).0
  unfolding answer IsHonest IsTrue
  answer_shows dedup key c px (failed none) s t h = refl
  answer_shows dedup key c px (failed (some e)) s t h = refl
  answer_shows dedup key none px (not_modified hh display pointer) s t h = refl
  answer_shows dedup key (some (g, f)) px (not_modified hh display pointer) s t h =
      t (g, f) refl px h
  answer_shows dedup key c px (observation f hh) s t h = h.0

  ask-IsSound :
      (dedup : Bool) (key : String) (s : Shots X D)
      → IsSound hash encode s
      → IsSound hash encode (ask dedup key s).1
  unfolding ask offer run apply AreTrue
  ask-IsSound false key s h = h
  ask-IsSound true key s h = by_own (Dict.lookup key s.last_shot)
    where
      by_own : (o : Option (String × Frame X D)) → IsSound hash encode (offer key o s).1
      by_own (some c) = h
      by_own none = calls-IsSound hash encode (candidate_op key ∷ []) s h tt

  -- A frame that is kept is true, and so is one that is kept again.
  own-insert :
      (key : String) (c : String × Frame X D) (last : Dict String (String × Frame X D))
      → IsTrue hash encode key c
      → ((k : String) (d : String × Frame X D)
          → Dict.lookup k last ≡ some d
          → IsTrue hash encode k d)
      → (k : String) (d : String × Frame X D) → Dict.lookup k (Dict.insert key c last) ≡ some d
      → IsTrue hash encode k d
  own-insert key c last t own k d e =
      by_key (key == k) refl (sym (Dict.lookup-insert key k c last) ∙ e)
    where
      by_key :
          (b : Bool)
          → (key == k) ≡ b
          → (if b then some c else Dict.lookup k last) ≡ some d
          → IsTrue hash encode k d
      by_key true same q =
          subst (λ j. IsTrue hash encode j d) ((string_eq.eqb_iff key k).0 same)
            (subst (λ x. IsTrue hash encode key x) (some_injective c d q) t)
      by_key false other q = own k d q

  kept :
      (key : String) (c : Option (String × Frame X D)) (px : P) (g : String) (f : Frame X D)
      → IsContentHash hash encode
      → IsHonest hash encode key c px (observation f (some g))
      → IsTrue hash encode key (g, f)
  unfolding IsTrue IsHonest IsContentHash
  kept key c px g f u h qx hq = h.0 ∙ u key g px qx h.1 hq

  answer-IsSound :
      (dedup : Bool) (key : String) (c : Option (String × Frame X D)) (px : P) (r : Reply X D)
      (s : Shots X D)
      → IsContentHash hash encode
      → ((d : String × Frame X D) → c ≡ some d → IsTrue hash encode key d)
      → IsHonest hash encode key c px r
      → IsSound hash encode s
      → IsSound hash encode (answer dedup key c r s).1
  unfolding answer keep run apply AreTrue
  answer-IsSound dedup key c px (failed none) s u t h i = i
  answer-IsSound dedup key c px (failed (some e)) s u t h i = i
  answer-IsSound dedup key none px (not_modified hh display pointer) s u t h i = i
  answer-IsSound dedup key (some (g, f)) px (not_modified hh display pointer) s u t h i =
      let j = calls-IsSound hash encode (touch_op key g ∷ record_op true ∷ []) s i tt in
      record {
        cap = j.cap;
        ops = j.ops;
        reached = j.reached;
        true_ops = j.true_ops;
        own = own-insert key (g, f) s.last_shot (t (g, f) refl) i.own;
      }
  answer-IsSound false key c px (observation f hh) s u t h i = i
  answer-IsSound true key c px (observation f none) s u t h i =
      calls-IsSound hash encode (record_op false ∷ []) s i tt
  answer-IsSound true key c px (observation f (some g)) s u t h i =
      let new = kept key c px g f u h in
      let j = calls-IsSound hash encode (put_op key g f ∷ record_op false ∷ []) s i (new, tt) in
      record {
        cap = j.cap;
        ops = j.ops;
        reached = j.reached;
        true_ops = j.true_ops;
        own = own-insert key (g, f) s.last_shot new i.own;
      }

  -- If equal hashes mean equal encodings and the runtime answers honestly about the screen `px`, then
  -- whatever other sessions put truly into the cache meanwhile, a screenshot shows `px` as the runtime
  -- encodes it, deduplicated or not, or it raises a RuntimeError; and the session stays sound.
  pub screenshot_shows :
      (dedup : Bool) (key : String) (more : List (Op (Frame X D))) (px : P)
      (runtime : Option (String × Frame X D) → Reply X D) (s : Shots X D)
      → IsContentHash hash encode
      → ((c : Option (String × Frame X D)) → IsHonest hash encode key c px (runtime c))
      → AreTrue hash encode more
      → IsSound hash encode s
      → Outcome
          (λ shot. shot.frame.content ≡ encode key px)
          (λ e. e.class ≡ runtime_error)
          (screenshot dedup key more runtime s).0
        × IsSound hash encode (screenshot dedup key more runtime s).1
  unfolding screenshot
  screenshot_shows dedup key more px runtime s u honest t i =
      let (c, s') = ask dedup key s in
      let now = calls-IsSound hash encode more s' (ask-IsSound dedup key s i) t in
      let offered : (d : String × Frame X D) → c ≡ some d → IsTrue hash encode key d =
        λ d e. ask-IsTrue hash encode dedup key s d i e in
      (
        answer_shows dedup key c px (runtime c) (record s' { cache = run more s'.cache }) offered
            (honest c),
        answer-IsSound dedup key c px (runtime c) (record s' { cache = run more s'.cache }) u
            offered (honest c) now,
      )
