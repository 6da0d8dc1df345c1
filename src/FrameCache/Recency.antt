-- ===== src/FrameCache/Recency.antt =====
-- The order of eviction: a frame outlives fewer other calls than the cap.
use shinken.Prelude.{
  pair_eq, ℕ, zero, suc, ◌+◌, ◌-◌, ◌≤◌, ◌<◌, String, ◌≡◌, ◌≢◌, refl, Option, none, some, true,
  false, List, [], ◌∷◌, ◌++◌, arith, length, drop, length-append, ◌==◌, string_eq, eqb-ne,
  Bool-cases, sym, ◌∙◌, inl, inr, ◌⊎◌,
}
use native.Mathlib.Decide.{dec_le}
use shinken.Prelude.Dict
use shinken.Prelude.Dict.{Dict}
use shinken.FrameCache.{
  Key, key_eq, FrameCache, candidate, candidate_at, candidate_frame, lookup, lookup_frame,
  touch_frame, put, touch, record_hit, Op, candidate_op, lookup_op, put_op, touch_op, record_op,
  apply, run,
}
use shinken.FrameCache.Invariant.{IsValid, evict-entries, put-IsValid}
use shinken.FrameCache.Reads.{Within, stored, run-Within, put-lookup}

-- `k` has an entry with at most `n` younger ones.
abbrev pub IsRecent : {F : Type 0} → Key → ℕ → Dict Key F → Type 0
IsRecent k n [] = ⊥
IsRecent k n ((j, f) ∷ d) = ((j ≡ k) × (length d ≤ n)) ⊎ IsRecent k n d

module _ {F : Type 0} where
  cap-put : (p h : String) (f : F) (c : FrameCache F) → (put p h f c).max_entries ≡ c.max_entries
  unfolding put
  cap-put p h f c = refl

  pub cap-apply : (op : Op F) (c : FrameCache F) → (apply op c).max_entries ≡ c.max_entries
  unfolding apply candidate lookup touch record_hit
  cap-apply (candidate_op p) c = ground arith
  cap-apply (lookup_op p h) c = ground arith
  cap-apply (put_op p h f) c = cap-put p h f c
  cap-apply (touch_op p h) c = ground arith
  cap-apply (record_op true) c = refl
  cap-apply (record_op false) c = refl

  IsRecent-lookup : (k : Key) (n : ℕ) (d : Dict Key F) → IsRecent k n d → Dict.lookup k d ≢ none
  unfolding Dict.lookup
  IsRecent-lookup k n [] r = absurd r
  IsRecent-lookup k n ((j, f) ∷ d) (inl here) = ground (arith, key_eq.eqb_iff j k)
  IsRecent-lookup k n ((j, f) ∷ d) (inr r) = ground (arith, IsRecent-lookup k n d r)

  IsRecent-weaken : (k : Key) (m n : ℕ) (d : Dict Key F) → m ≤ n → IsRecent k m d → IsRecent k n d
  IsRecent-weaken k m n [] h r = r
  IsRecent-weaken k m n ((j, f) ∷ d) h (inl here) = inl (here.0, omega arith)
  IsRecent-weaken k m n ((j, f) ∷ d) h (inr r) = inr (IsRecent-weaken k m n d h r)

  IsRecent-append_self :
      (k : Key) (n : ℕ) (d : Dict Key F) (f : F) → IsRecent k n (d ++ (k, f) ∷ [])
  IsRecent-append_self k n [] f = inl (refl, omega arith)
  IsRecent-append_self k n ((j, g) ∷ d) f = inr (IsRecent-append_self k n d f)

  IsRecent-append :
      (k j : Key) (n : ℕ) (d : Dict Key F) (f : F)
      → IsRecent k n d
      → IsRecent k (suc n) (d ++ (j, f) ∷ [])
  IsRecent-append k j n [] f r = absurd r
  IsRecent-append k j n ((i, g) ∷ d) f (inl here) =
      inl (here.0, omega (arith, length-append d ((j, f) ∷ []), here.1))
  IsRecent-append k j n ((i, g) ∷ d) f (inr r) = inr (IsRecent-append k j n d f r)

  IsRecent-erase :
      (k j : Key) (n : ℕ) (d : Dict Key F) → j ≢ k → IsRecent k n d → IsRecent k n (Dict.erase j d)
  unfolding Dict.erase
  IsRecent-erase k j n [] h r = r
  IsRecent-erase k j n ((i, g) ∷ d) h (inl here) =
      rw (eqb-ne i j (λ e. h (sym e ∙ here.0)))
        (inl (here.0, omega (arith, here.1, Dict.length-erase-le j d)))
  IsRecent-erase k j n ((i, g) ∷ d) h (inr r) = elim (Bool-cases (i == j)) [
    | inl same ↦ rw same (IsRecent-erase k j n d h r)
    | inr other ↦ rw other (inr (IsRecent-erase k j n d h r))
  ]

  IsRecent-drop :
      (k : Key) (n m : ℕ) (d : Dict Key F)
      → m + suc n ≤ length d
      → IsRecent k n d
      → IsRecent k n (drop m d)
  IsRecent-drop k n zero d h r = r
  IsRecent-drop k n (suc m) [] h r = r
  IsRecent-drop k n (suc m) ((j, f) ∷ d) h (inl here) = absurd (omega (arith, here.1))
  IsRecent-drop k n (suc m) ((j, f) ∷ d) h (inr r) = IsRecent-drop k n m d (omega arith) r

  -- Using another entry, or the same one, moves at most one entry behind `k`.
  IsRecent-at_end :
      (k j : Key) (n : ℕ) (o : Option F) (d : Dict Key F)
      → IsRecent k n d
      → IsRecent k (suc n) (Dict.at_end j o d)
  unfolding Dict.at_end
  IsRecent-at_end k j n none d r = IsRecent-weaken k n (suc n) d (omega arith) r
  IsRecent-at_end k j n (some f) d r = elim (Bool-cases (j == k)) [
    | inl same ↦
        let e : j ≡ k = (key_eq.eqb_iff j k).0 same in
        rw e (IsRecent-append_self k (suc n) (Dict.erase k d) f)
    | inr other ↦
        IsRecent-append k j n (Dict.erase j d) f
          (IsRecent-erase k j n d (λ e. cc (other, (key_eq.eqb_iff j k).1 e)) r)
  ]

  IsRecent-move_to_end :
      (k j : Key) (n : ℕ) (d : Dict Key F)
      → IsRecent k n d
      → IsRecent k (suc n) (Dict.move_to_end j d)
  unfolding Dict.move_to_end
  IsRecent-move_to_end k j n d r = IsRecent-at_end k j n (Dict.lookup j d) d r

  IsRecent-newest :
      (k : Key) (n cap : ℕ) (d : Dict Key F)
      → suc n ≤ cap
      → IsRecent k n d
      → IsRecent k n (drop (length d - cap) d)
  IsRecent-newest k n cap d room r = elim (dec_le cap (length d)) [
    | yes over ↦ IsRecent-drop k n (length d - cap) d (omega arith) r
    | no fits ↦ let all : length d - cap ≡ 0 = omega arith in rw all r
  ]

  IsRecent-put :
      (k : Key) (n : ℕ) (p h : String) (f : F) (c : FrameCache F)
      → suc n < c.max_entries
      → IsRecent k n c.entries
      → IsRecent k (suc n) (put p h f c).entries
  unfolding put Dict.at_end
  IsRecent-put k n p h f c room r = rw evict-entries (
      rw Dict.move_to_end-insert (
        IsRecent-newest k (suc n) c.max_entries (Dict.at_end (p, h) (some f) c.entries) room
          (IsRecent-at_end k (p, h) n (some f) c.entries r)))

  -- The frame that was put stands last.
  pub put-IsRecent :
      (p h : String) (f : F) (c : FrameCache F)
      → 1 ≤ c.max_entries
      → IsRecent (p, h) 0 (put p h f c).entries
  unfolding put Dict.at_end
  put-IsRecent p h f c room = rw evict-entries (
      rw Dict.move_to_end-insert (
        IsRecent-newest (p, h) 0 c.max_entries (Dict.at_end (p, h) (some f) c.entries) room
          (IsRecent-append_self (p, h) 0 (Dict.erase (p, h) c.entries) f)))

  candidate_frame-IsRecent :
      (k : Key) (n : ℕ) (p h : String) (o : Option F) (c : FrameCache F)
      → IsRecent k n c.entries
      → IsRecent k (suc n) (candidate_frame p h o c).1.entries
  unfolding candidate_frame
  candidate_frame-IsRecent k n p h none c r = IsRecent-weaken k n (suc n) c.entries (omega arith) r
  candidate_frame-IsRecent k n p h (some f) c r = IsRecent-move_to_end k (p, h) n c.entries r

  candidate_at-IsRecent :
      (k : Key) (n : ℕ) (p : String) (o : Option String) (c : FrameCache F)
      → IsRecent k n c.entries
      → IsRecent k (suc n) (candidate_at p o c).1.entries
  unfolding candidate_at
  candidate_at-IsRecent k n p none c r = IsRecent-weaken k n (suc n) c.entries (omega arith) r
  candidate_at-IsRecent k n p (some h) c r =
      candidate_frame-IsRecent k n p h (Dict.lookup (p, h) c.entries) c r

  lookup_frame-IsRecent :
      (k j : Key) (n : ℕ) (o : Option F) (c : FrameCache F)
      → IsRecent k n c.entries
      → IsRecent k (suc n) (lookup_frame j o c).1.entries
  unfolding lookup_frame
  lookup_frame-IsRecent k j n none c r = IsRecent-weaken k n (suc n) c.entries (omega arith) r
  lookup_frame-IsRecent k j n (some f) c r = IsRecent-move_to_end k j n c.entries r

  touch_frame-IsRecent :
      (k : Key) (n : ℕ) (p h : String) (o : Option F) (c : FrameCache F)
      → IsRecent k n c.entries
      → IsRecent k (suc n) (touch_frame p h o c).entries
  unfolding touch_frame
  touch_frame-IsRecent k n p h none c r = IsRecent-weaken k n (suc n) c.entries (omega arith) r
  touch_frame-IsRecent k n p h (some f) c r = IsRecent-move_to_end k (p, h) n c.entries r

  -- A call of any method ages an entry by at most one.
  apply-IsRecent :
      (k : Key) (n : ℕ) (op : Op F) (c : FrameCache F)
      → suc n < c.max_entries
      → IsRecent k n c.entries
      → IsRecent k (suc n) (apply op c).entries
  unfolding apply candidate lookup touch record_hit
  apply-IsRecent k n (candidate_op p) c room r =
      candidate_at-IsRecent k n p (Dict.lookup p c.last) c r
  apply-IsRecent k n (lookup_op p h) c room r =
      lookup_frame-IsRecent k (p, h) n (Dict.lookup (p, h) c.entries) c r
  apply-IsRecent k n (put_op p h f) c room r = IsRecent-put k n p h f c room r
  apply-IsRecent k n (touch_op p h) c room r =
      touch_frame-IsRecent k n p h (Dict.lookup (p, h) c.entries) c r
  apply-IsRecent k n (record_op true) c room r =
      IsRecent-weaken k n (suc n) c.entries (omega arith) r
  apply-IsRecent k n (record_op false) c room r =
      IsRecent-weaken k n (suc n) c.entries (omega arith) r

  run-present :
      (k : Key) (n : ℕ) (ops : List (Op F)) (c : FrameCache F)
      → n + length ops < c.max_entries
      → IsRecent k n c.entries
      → Dict.lookup k (run ops c).entries ≢ none
  unfolding run
  run-present k n [] c room r = IsRecent-lookup k n c.entries r
  run-present k n (op ∷ ops) c room r =
      run-present k (suc n) ops (apply op c) (omega (arith, cap-apply op c))
        (apply-IsRecent k n op c (omega arith) r)

  present-Within : (found o : Option F) → found ≢ none → Within found o → found ≡ o
  present-Within found o h (inl absent) = absurd (h absent)
  present-Within found o h (inr same) = same

  -- After a `put` into a valid cache and any further calls, by any sessions, that are fewer than the cap,
  -- the frame last put under the key is found there: the one of that `put`, unless one of the calls has
  -- put another under the same key.
  pub put_survives :
      (p h : String) (f : F) (ops : List (Op F)) (c : FrameCache F)
      → IsValid c
      → length ops < c.max_entries
      → Dict.lookup (p, h) (run ops (put p h f c)).entries ≡ stored (p, h) ops (some f)
  put_survives p h f ops c v room =
      present-Within _ _
        (run-present (p, h) 0 ops (put p h f c) (omega (arith, cap-put p h f c))
          (put-IsRecent p h f c (omega arith)))
        (run-Within (p, h) ops (some f) (put p h f c) (put-IsValid p h f c v)
          (inr (put-lookup p h f c (omega arith))))
