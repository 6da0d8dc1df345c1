-- ===== src/FrameCache/Reads.antt =====
-- What a reader of FrameCache gets: the frame last put under its key, or nothing.
use shinken.Prelude.{
  string_eq, pair_eq, ℕ, zero, suc, ◌-◌, ◌≤◌, String, ◌≡◌, refl, sym, ◌∙◌, Option, none, some, true,
  false, List, [], ◌∷◌, ◌++◌, arith, length, drop, drop-append, length-append, ◌==◌, ltb,
  if◌then◌else◌, Bool-cases, Option-cases, eqb_refl, inl, inr, ◌⊎◌,
}
use shinken.Prelude.Dict
use shinken.Prelude.Dict.{Dict}
use shinken.FrameCache.{
  Key, key_eq, FrameCache, init, candidate, candidate_at, candidate_frame, lookup, lookup_frame,
  points_to, unpoint, evict, put, touch, touch_frame, record_hit, Op, candidate_op, lookup_op,
  put_op, touch_op, record_op, apply, run,
}
use shinken.FrameCache.Invariant.{
  IsValid, evict-entries, lookup-unpoint, lookup-drop, apply-IsValid, init-IsValid,
}

-- A reader finds `o`, or the entry is gone.
abbrev pub Within : {F : Type 0} → Option F → Option F → Type 0
Within found o = (found ≡ none) ⊎ (found ≡ o)

-- The frame last put under `k` in a sequence of calls: a cache that never evicts.
unfoldable pub stored : {F : Type 0} → Key → List (Op F) → Option F → Option F
stored k [] o = o
stored k (put_op p h f ∷ ops) o = stored k ops (if (p, h) == k then some f else o)
stored k (candidate_op p ∷ ops) o = stored k ops o
stored k (lookup_op p h ∷ ops) o = stored k ops o
stored k (touch_op p h ∷ ops) o = stored k ops o
stored k (record_op b ∷ ops) o = stored k ops o

module _ {F : Type 0} where
  Within-trans : {a b c : Option F} → Within a b → Within b c → Within a c
  Within-trans (inl e) w = inl e
  Within-trans (inr e) (inl g) = inl (e ∙ g)
  Within-trans (inr e) (inr g) = inr (e ∙ g)

  lookup-drop-Within :
      (n : ℕ) (d : Dict Key F) (k : Key)
      → Dict.NodupKeys d
      → Within (Dict.lookup k (drop n d)) (Dict.lookup k d)
  lookup-drop-Within zero d k u = inr refl
  lookup-drop-Within (suc n) [] k u = inr refl
  lookup-drop-Within (suc n) ((j, f) ∷ d) k u = elim (Bool-cases (j == k)) [
    | inl same ↦
        let e : j ≡ k = (key_eq.eqb_iff j k).0 same in inl (lookup-drop n d k (rw e at u.0))
    | inr other ↦ rw (Dict.lookup-cons k j f d) (rw other (lookup-drop-Within n d k u.1))
  ]

  put-Within :
      (p h : String) (f : F) (c : FrameCache F) (k : Key)
      → IsValid c
      → Within
          (Dict.lookup k (put p h f c).entries)
          (if (p, h) == k then some f else Dict.lookup k c.entries)
  unfolding put
  put-Within p h f c k v =
      let d = Dict.move_to_end (p, h) (Dict.insert (p, h) f c.entries) in
      let content : Dict.lookup k d ≡ (if (p, h) == k then some f else Dict.lookup k c.entries) =
        rw Dict.lookup-move_to_end (Dict.lookup-insert (p, h) k f c.entries) in
      rw (evict-entries, ← content)
        (lookup-drop-Within (length d - c.max_entries) d k (
          Dict.move_to_end-NodupKeys (p, h) (Dict.insert (p, h) f c.entries)
            (Dict.insert-NodupKeys (p, h) f c.entries v.nodup)))

  lookup-tail :
      (k j : Key) (f : F) (d : Dict Key F)
      → Dict.lookup k ((j, f) ∷ d) ≡ none
      → Dict.lookup k d ≡ none
  unfolding Dict.lookup
  lookup-tail k j f d h = ground arith

  pointer-unpoint :
      (p h q g : String) (f : F) (d : Dict Key F) (last : Dict String String)
      → Dict.lookup (p, h) (((q, g), f) ∷ d) ≡ none
      → Dict.lookup p last ≡ some h
      → Dict.lookup p (unpoint q g last) ≡ some h
  unfolding points_to Dict.lookup
  pointer-unpoint p h q g f d last absent e = ground (
    arith,
    lookup-unpoint q g p last,
    string_eq.eqb_iff q p,
    string_eq.eqb_iff h g,
    string_eq.eqb_iff g h,
  )

  -- The pointer to the entry that stands last survives the loop.
  pointer-evict :
      (cap : ℕ) (p h : String) (f : F) (d : Dict Key F) (last : Dict String String)
      → 1 ≤ cap
      → Dict.lookup (p, h) d ≡ none
      → Dict.lookup p last ≡ some h
      → Dict.lookup p (evict cap (d ++ ((p, h), f) ∷ []) last).1 ≡ some h
  unfolding evict
  pointer-evict cap p h f [] last room absent e =
      let fits : ltb cap 1 ≡ false = ground arith in rw fits e
  pointer-evict cap p h f (((q, g), f') ∷ d) last room absent e =
      elim (Bool-cases (ltb cap (suc (length (d ++ ((p, h), f) ∷ []))))) [
        | inl over ↦ rw over (
            pointer-evict cap p h f d (unpoint q g last) room
              (lookup-tail (p, h) (q, g) f' d absent) (pointer-unpoint p h q g f' d last absent e))
        | inr fits ↦ rw fits e
      ]

  newest-lookup :
      (m : ℕ) (k : Key) (f : F) (d : Dict Key F)
      → m ≤ length d
      → Dict.lookup k d ≡ none
      → Dict.lookup k (drop m (d ++ (k, f) ∷ [])) ≡ some f
  newest-lookup m k f d fits absent = rw (drop-append m d ((k, f) ∷ []) fits) (
      rw Dict.lookup-append
        (rw (lookup-drop m d k absent) (rw (Dict.lookup-cons k k f []) (rw (eqb_refl k)))))

  put-pointer :
      (p h : String) (f : F) (c : FrameCache F)
      → 1 ≤ c.max_entries
      → Dict.lookup p (put p h f c).last ≡ some h
  unfolding put
  put-pointer p h f c room = rw Dict.move_to_end-insert (
      pointer-evict c.max_entries p h f (Dict.erase (p, h) c.entries) (Dict.insert p h c.last) room
        (Dict.lookup-erase_self (p, h) c.entries) (Dict.lookup-insert_self p h c.last))

  pub put-lookup :
      (p h : String) (f : F) (c : FrameCache F)
      → 1 ≤ c.max_entries
      → Dict.lookup (p, h) (put p h f c).entries ≡ some f
  unfolding put
  put-lookup p h f c room =
      rw (evict-entries, Dict.move_to_end-insert)
        (newest-lookup (length (Dict.erase (p, h) c.entries ++ ((p, h), f) ∷ []) - c.max_entries)
          (p, h) f (Dict.erase (p, h) c.entries)
          (omega (arith, length-append (Dict.erase (p, h) c.entries) (((p, h), f) ∷ [])))
          (Dict.lookup-erase_self (p, h) c.entries))

  candidate_at-found :
      (p h : String) (f : F) (c : FrameCache F)
      → Dict.lookup p c.last ≡ some h
      → Dict.lookup (p, h) c.entries ≡ some f
      → (candidate p c).0 ≡ some (h, f)
  unfolding candidate candidate_at candidate_frame
  candidate_at-found p h f c pointer there = rw pointer (rw there)

  -- After `put` the frame is the candidate under its capture parameters, whatever was evicted.
  pub candidate-put :
      (p h : String) (f : F) (c : FrameCache F)
      → 1 ≤ c.max_entries
      → (candidate p (put p h f c)).0 ≡ some (h, f)
  candidate-put p h f c room =
      candidate_at-found p h f (put p h f c) (put-pointer p h f c room) (put-lookup p h f c room)

  refresh-Within :
      (j k : Key) (o : Option F) (d : Dict Key F)
      → Within (Dict.lookup k d) o
      → Within (Dict.lookup k (Dict.move_to_end j d)) o
  refresh-Within j k o d w = rw Dict.lookup-move_to_end w

  candidate_at-Within :
      (k : Key) (o : Option F) (p : String) (q : Option String) (c : FrameCache F)
      → Within (Dict.lookup k c.entries) o
      → Within (Dict.lookup k (candidate_at p q c).1.entries) o
  unfolding candidate_at candidate_frame
  candidate_at-Within k o p none c w = w
  candidate_at-Within k o p (some h) c w = elim (Option-cases (Dict.lookup (p, h) c.entries)) [
    | inl absent ↦ rw (absent, candidate_frame) w
    | inr (f, there) ↦ rw (there, candidate_frame) (refresh-Within (p, h) k o c.entries w)
  ]

  lookup_frame-Within :
      (k j : Key) (o q : Option F) (c : FrameCache F)
      → Within (Dict.lookup k c.entries) o
      → Within (Dict.lookup k (lookup_frame j q c).1.entries) o
  unfolding lookup_frame
  lookup_frame-Within k j o none c w = w
  lookup_frame-Within k j o (some f) c w = refresh-Within j k o c.entries w

  touch_frame-Within :
      (k : Key) (o : Option F) (p h : String) (q : Option F) (c : FrameCache F)
      → Within (Dict.lookup k c.entries) o
      → Within (Dict.lookup k (touch_frame p h q c).entries) o
  unfolding touch_frame
  touch_frame-Within k o p h none c w = w
  touch_frame-Within k o p h (some f) c w = refresh-Within (p, h) k o c.entries w

  put_over-Within :
      (k : Key) (o : Option F) (p h : String) (f : F) (c : FrameCache F)
      → IsValid c
      → Within (Dict.lookup k c.entries) o
      → Within (Dict.lookup k (put p h f c).entries) (if (p, h) == k then some f else o)
  put_over-Within k o p h f c v w = elim (Bool-cases ((p, h) == k)) [
    | inl same ↦ let there = put-Within p h f c k v in rw same (rw same at there)
    | inr other ↦
        let there = put-Within p h f c k v in rw other (Within-trans (rw other at there) w)
  ]

  lookup_frame-result : (k : Key) (q : Option F) (c : FrameCache F) → (lookup_frame k q c).0 ≡ q
  unfolding lookup_frame
  lookup_frame-result k none c = refl
  lookup_frame-result k (some f) c = refl

  pub run-Within :
      (k : Key) (ops : List (Op F)) (o : Option F) (c : FrameCache F)
      → IsValid c
      → Within (Dict.lookup k c.entries) o
      → Within (Dict.lookup k (run ops c).entries) (stored k ops o)
  unfolding run stored apply candidate lookup touch record_hit
  run-Within k [] o c v w = w
  run-Within k (candidate_op p ∷ ops) o c v w =
      run-Within k ops o (apply (candidate_op p) c) (apply-IsValid (candidate_op p) c v)
        (candidate_at-Within k o p (Dict.lookup p c.last) c w)
  run-Within k (lookup_op p h ∷ ops) o c v w =
      run-Within k ops o (apply (lookup_op p h) c) (apply-IsValid (lookup_op p h) c v)
        (lookup_frame-Within k (p, h) o (Dict.lookup (p, h) c.entries) c w)
  run-Within k (put_op p h f ∷ ops) o c v w =
      run-Within k ops (if (p, h) == k then some f else o) (put p h f c)
        (apply-IsValid (put_op p h f) c v) (put_over-Within k o p h f c v w)
  run-Within k (touch_op p h ∷ ops) o c v w =
      run-Within k ops o (apply (touch_op p h) c) (apply-IsValid (touch_op p h) c v)
        (touch_frame-Within k o p h (Dict.lookup (p, h) c.entries) c w)
  run-Within k (record_op true ∷ ops) o c v w =
      run-Within k ops o (record_hit true c) (apply-IsValid (record_op true) c v) w
  run-Within k (record_op false ∷ ops) o c v w =
      run-Within k ops o (record_hit false c) (apply-IsValid (record_op false) c v) w

  -- However the sessions interleave, `lookup` on the shared cache misses, or returns the frame
  -- that was last put under the same parameters and content hash.
  pub lookup-run :
      (n : ℕ) (ops : List (Op F)) (p h : String)
      → Within (lookup p h (run ops (init n))).0 (stored (p, h) ops none)
  unfolding lookup
  lookup-run n ops p h = rw lookup_frame-result (
      run-Within (p, h) ops none (init n) (init-IsValid n)
        (unfold init in inl (Dict.lookup-nil (p, h))))

  candidate_at-result :
      (p h : String) (f : F) (q : Option String) (c : FrameCache F)
      → (candidate_at p q c).0 ≡ some (h, f)
      → Dict.lookup (p, h) c.entries ≡ some f
  unfolding candidate_at
  candidate_at-result p h f none c e = cc
  candidate_at-result p h f (some g) c e = elim (Option-cases (Dict.lookup (p, g) c.entries)) [
    | inl absent ↦ absurd (unfold candidate_frame in cc (rw absent at e))
    | inr (f', there) ↦
        let found : some (g, f') ≡ some (h, f) = unfold candidate_frame in rw there at e in
        let same : g ≡ h = cc found in rw (← same) (there ∙ cc found)
  ]

  -- However the sessions interleave, the frame that `candidate` offers under a content hash is the
  -- frame that was last put under that hash and these parameters.
  pub candidate-run :
      (n : ℕ) (ops : List (Op F)) (p h : String) (f : F)
      → (candidate p (run ops (init n))).0 ≡ some (h, f)
      → stored (p, h) ops none ≡ some f
  unfolding candidate
  candidate-run n ops p h f e =
      let c = run ops (init n) in
      let there = candidate_at-result p h f (Dict.lookup p c.last) c e in
      let w =
        run-Within (p, h) ops none (init n) (init-IsValid n)
          (unfold init in inl (Dict.lookup-nil (p, h))) in
      elim w [ inl absent ↦ cc (there, absent) | inr same ↦ sym same ∙ there ]
