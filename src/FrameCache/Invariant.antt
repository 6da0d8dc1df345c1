-- ===== src/FrameCache/Invariant.antt =====
-- What every method of FrameCache keeps: distinct keys, the cap, and candidate pointers that
-- point at entries.
use shinken.Prelude.{
  pair_eq, ℕ, zero, suc, ◌-◌, ◌≤◌, String, ◌≡◌, ◌≢◌, refl, sym, Bool, true, false, Option, none,
  some, List, [], ◌∷◌, arith, length, drop, drop_all, length-drop, ltb, ◌==◌, string_eq,
  if◌then◌else◌, Bool-cases, inl, inr, ◌&&◌,
}
use shinken.Prelude.Dict
use shinken.Prelude.Dict.{Dict}
use shinken.FrameCache.{
  Key, FrameCache, init, candidate, candidate_at, candidate_frame, lookup, lookup_frame, points_to,
  unpoint, evict, put, touch, touch_frame, record_hit, Op, candidate_op, lookup_op, put_op,
  touch_op, record_op, apply, run,
}

-- Every candidate pointer leads to an entry.
abbrev pub IsHonest : {F : Type 0} → Dict Key F → Dict String String → Type 0
IsHonest entries last =
    (p h : String) → Dict.lookup p last ≡ some h → Dict.lookup (p, h) entries ≢ none

pub record IsValid {F : Type 0} (c : FrameCache F) : Type 0 where
  pub nodup : Dict.NodupKeys c.entries
  pub bounded : length c.entries ≤ c.max_entries
  pub roomy : 1 ≤ c.max_entries
  pub honest : IsHonest c.entries c.last

pub lookup-unpoint :
    (p h q : String) (last : Dict String String)
    → Dict.lookup q (unpoint p h last)
      ≡ (if p == q && points_to (Dict.lookup p last) h then none else Dict.lookup q last)
unfolding unpoint
lookup-unpoint p h q last = ground (arith, Dict.lookup-erase p q last)

-- Evicting an entry together with its pointer leaves the other pointers honest.
unpoint-IsHonest :
    {F : Type 0} (p h : String) (f : F) (rest : Dict Key F) (last : Dict String String)
    → IsHonest (((p, h), f) ∷ rest) last
    → IsHonest rest (unpoint p h last)
unfolding points_to
unpoint-IsHonest p h f rest last honest q g e =
    let kept = lookup-unpoint p h q last in
    let here = honest q g in
    ground (
      arith,
      kept,
      here,
      Dict.lookup-cons (q, g) (p, h) f rest,
      string_eq.eqb_iff p q,
      string_eq.eqb_iff h g,
    )

module _ {F : Type 0} where
  -- The loop drops the oldest entries, as many as are over the cap.
  pub evict-entries :
      (cap : ℕ) (d : Dict Key F) (last : Dict String String)
      → (evict cap d last).0 ≡ drop (length d - cap) d
  unfolding evict
  evict-entries cap [] last = sym (drop_all (0 - cap) [] (omega arith))
  evict-entries cap (((p, h), f) ∷ rest) last = elim (Bool-cases (ltb cap (suc (length rest)))) [
    | inl over ↦
        let more : suc (length rest) - cap ≡ suc (length rest - cap) = ground arith in
        rw (over, more) (evict-entries cap rest (unpoint p h last))
    | inr fits ↦ let enough : suc (length rest) - cap ≡ 0 = ground arith in rw (fits, enough) refl
  ]

  evict-IsHonest :
      (cap : ℕ) (d : Dict Key F) (last : Dict String String)
      → IsHonest d last
      → IsHonest (evict cap d last).0 (evict cap d last).1
  unfolding evict
  evict-IsHonest cap [] last h = h
  evict-IsHonest cap (((p, h), f) ∷ rest) last honest =
      elim (Bool-cases (ltb cap (suc (length rest)))) [
        | inl over ↦
            rw over
              (evict-IsHonest cap rest (unpoint p h last) (unpoint-IsHonest p h f rest last honest))
        | inr fits ↦ rw fits honest
      ]

  pub lookup-drop :
      (n : ℕ) (d : Dict Key F) (k : Key) → Dict.lookup k d ≡ none → Dict.lookup k (drop n d) ≡ none
  unfolding Dict.lookup
  lookup-drop zero d k h = h
  lookup-drop (suc n) [] k h = h
  lookup-drop (suc n) ((j, f) ∷ d) k h = lookup-drop n d k (ground arith)

  drop-NodupKeys : (n : ℕ) (d : Dict Key F) → Dict.NodupKeys d → Dict.NodupKeys (drop n d)
  drop-NodupKeys zero d h = h
  drop-NodupKeys (suc n) [] h = h
  drop-NodupKeys (suc n) (e ∷ d) h = drop-NodupKeys n d h.1

  insert-IsHonest :
      (p h : String) (f : F) (d : Dict Key F) (last : Dict String String)
      → IsHonest d last
      → IsHonest (Dict.move_to_end (p, h) (Dict.insert (p, h) f d)) (Dict.insert p h last)
  insert-IsHonest p h f d last honest q g e = ground (
    arith,
    honest q g,
    Dict.lookup-insert p q h last,
    string_eq.eqb_iff p q,
    Dict.lookup-move_to_end (p, h) (q, g) (Dict.insert (p, h) f d),
    Dict.lookup-insert (p, h) (q, g) f d,
    string_eq.eqb_iff h g,
  )

module _ {F : Type 0} where
  pub init-IsValid : (n : ℕ) → IsValid (init {F = F} n)
  unfolding init
  init-IsValid n = record {
    nodup = tt;
    bounded = omega arith;
    roomy = omega arith;
    honest = λ p h e. cc (e, Dict.lookup-nil {V = String} p);
  }

  -- Refreshing an entry's recency changes no content.
  refresh-IsValid :
      (k : Key) (c : FrameCache F)
      → IsValid c
      → IsValid (record c { entries = Dict.move_to_end k c.entries })
  refresh-IsValid k c v = record {
    nodup = Dict.move_to_end-NodupKeys k c.entries v.nodup;
    bounded = omega (arith, v.bounded, Dict.length-move_to_end k c.entries);
    roomy = v.roomy;
    honest = λ p h e. rw Dict.lookup-move_to_end (v.honest p h e);
  }

  candidate_frame-IsValid :
      (p h : String) (o : Option F) (c : FrameCache F)
      → IsValid c
      → IsValid (candidate_frame p h o c).1
  unfolding candidate_frame
  candidate_frame-IsValid p h none c v = v
  candidate_frame-IsValid p h (some f) c v = refresh-IsValid (p, h) c v

  candidate_at-IsValid :
      (p : String) (o : Option String) (c : FrameCache F)
      → IsValid c
      → IsValid (candidate_at p o c).1
  unfolding candidate_at
  candidate_at-IsValid p none c v = v
  candidate_at-IsValid p (some h) c v =
      candidate_frame-IsValid p h (Dict.lookup (p, h) c.entries) c v

  lookup_frame-IsValid :
      (k : Key) (o : Option F) (c : FrameCache F) → IsValid c → IsValid (lookup_frame k o c).1
  unfolding lookup_frame
  lookup_frame-IsValid k none c v = v
  lookup_frame-IsValid k (some f) c v = refresh-IsValid k c v

  pub put-IsValid : (p h : String) (f : F) (c : FrameCache F) → IsValid c → IsValid (put p h f c)
  unfolding put
  put-IsValid p h f c v =
      let d = Dict.move_to_end (p, h) (Dict.insert (p, h) f c.entries) in
      let last = Dict.insert p h c.last in
      record {
        nodup = rw evict-entries (
            drop-NodupKeys (length d - c.max_entries) d (
              Dict.move_to_end-NodupKeys (p, h) (Dict.insert (p, h) f c.entries)
                (Dict.insert-NodupKeys (p, h) f c.entries v.nodup)));
        bounded = rw evict-entries (omega (arith, length-drop (length d - c.max_entries) d));
        roomy = v.roomy;
        honest =
            evict-IsHonest c.max_entries d last (insert-IsHonest p h f c.entries c.last v.honest);
      }

  touch_frame-IsValid :
      (p h : String) (o : Option F) (c : FrameCache F)
      → Dict.lookup (p, h) c.entries ≡ o
      → IsValid c
      → IsValid (touch_frame p h o c)
  unfolding touch_frame
  touch_frame-IsValid p h none c e v = v
  touch_frame-IsValid p h (some f) c e v =
      let moved = refresh-IsValid (p, h) c v in
      record {
        nodup = moved.nodup;
        bounded = moved.bounded;
        roomy = moved.roomy;
        honest = λ q g l.
            let there = v.honest q g in
            rw Dict.lookup-move_to_end
              (ground (arith, there, e, l, Dict.lookup-insert p q h c.last, string_eq.eqb_iff p q));
      }

  record_hit-IsValid : (b : Bool) (c : FrameCache F) → IsValid c → IsValid (record_hit b c)
  unfolding record_hit
  record_hit-IsValid true c v = record {
    nodup = v.nodup;
    bounded = v.bounded;
    roomy = v.roomy;
    honest = v.honest;
  }
  record_hit-IsValid false c v = record {
    nodup = v.nodup;
    bounded = v.bounded;
    roomy = v.roomy;
    honest = v.honest;
  }

  pub apply-IsValid : (op : Op F) (c : FrameCache F) → IsValid c → IsValid (apply op c)
  unfolding apply candidate lookup touch
  apply-IsValid (candidate_op p) c v = candidate_at-IsValid p (Dict.lookup p c.last) c v
  apply-IsValid (lookup_op p h) c v = lookup_frame-IsValid (p, h) (Dict.lookup (p, h) c.entries) c v
  apply-IsValid (put_op p h f) c v = put-IsValid p h f c v
  apply-IsValid (touch_op p h) c v = touch_frame-IsValid p h (Dict.lookup (p, h) c.entries) c refl v
  apply-IsValid (record_op b) c v = record_hit-IsValid b c v

  pub run_keeps : (ops : List (Op F)) (c : FrameCache F) → IsValid c → IsValid (run ops c)
  unfolding run
  run_keeps [] c v = v
  run_keeps (op ∷ ops) c v = run_keeps ops (apply op c) (apply-IsValid op c v)

  -- However the sessions that share a new cache interleave their calls, its keys stay distinct, it
  -- holds at most its cap of entries, the cap is at least one, and every candidate pointer leads
  -- to an entry.
  pub run-IsValid : (n : ℕ) (ops : List (Op F)) → IsValid (run ops (init n))
  run-IsValid n ops = run_keeps ops (init n) (init-IsValid n)
