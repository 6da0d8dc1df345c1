-- ===== src/Session/Frames/Tracked.antt =====
-- The eviction order keeps an entry for every queued frame, through pops, evictions and compactions.
use shinken.Prelude.{
  nat_eq, ℕ, zero, suc, ◌+◌, ◌*◌, ◌≤◌, min, ◌≡◌, inl, inr, refl, sym, ap, subst, ◌∙◌, Option, none,
  some, List, [], ◌∷◌, length, arith, Bool-cases, ltb, ◌==◌, ◌&&◌, if◌then◌else◌,
}
use shinken.Prelude.Dict
use shinken.Prelude.Dict.{Dict}
use shinken.Session.Frames.{
  Item, stream_end, stream_lost, frame, Loop, queue_of, pop_from, pop, drop_oldest_frame,
  clear_items, has_queued, evict, fresh, compact,
}
use shinken.Session.Frames.Queues.{sizes, IsAccounted, All-queue_of}
use shinken.Session.Frames.Laws.{drop-IsAccounted}
use shinken.Session.Frames.Budget.{
  entries, OnlyFrames, IsTracked, queued_none, drop-IsTracked, skip-IsTracked,
}

-- How many entries of a sandbox compaction has kept so far.
kept_of : Option ℕ → ℕ
kept_of none = 0
kept_of (some n) = n

kept-insert :
    (j i n : ℕ) (kept : Dict ℕ ℕ)
    → kept_of (Dict.lookup i (Dict.insert j n kept))
      ≡ (if j == i then n else kept_of (Dict.lookup i kept))
unfolding kept_of
kept-insert j i n kept = elim (Bool-cases (j == i)) [
  | inl same ↦ rw (Dict.lookup-insert j i n kept) (rw same refl)
  | inr other ↦ rw (Dict.lookup-insert j i n kept) (rw other refl)
]

module _ {X : Type 0} where
  no_items : (items : List (Item X)) → OnlyFrames items → sizes items ≡ [] → items ≡ []
  no_items [] h e = refl
  no_items (stream_end ∷ items) h e = absurd h
  no_items (stream_lost ∷ items) h e = absurd h
  no_items (frame f ∷ items) h e = absurd (ground (arith, e))

  more-IsTracked :
      (i : ℕ) (order : List ℕ) (l : Loop X) → IsTracked order l → IsTracked (i ∷ order) l
  more-IsTracked i order l h j = (ground (arith, (h j).0), (h j).1)

  pop_none :
      (i : ℕ) (items : List (Item X)) (ns : List ℕ) (l : Loop X)
      → items ≡ []
      → (pop_from i (record { frames = items; queued_bytes = ns }) l).1 ≡ l
  unfolding pop_from
  pop_none i [] ns l e = refl
  pop_none i (item ∷ items) ns l e = absurd (ground (arith, e))

  pub drop_kept-IsTracked :
      (i : ℕ) (order : List ℕ) (l : Loop X)
      → IsAccounted l
      → IsTracked order l
      → IsTracked order (drop_oldest_frame i l)
  unfolding drop_oldest_frame pop
  drop_kept-IsTracked i order l h tracked = elim (Bool-cases (has_queued i l)) [
    | inl some_frame ↦
        unfold drop_oldest_frame pop in
        drop-IsTracked i order l some_frame h (more-IsTracked i order l tracked)
    | inr no_frame ↦
        let q = queue_of l.queues i in
        let v = All-queue_of l.queues i h.queues in
        let e = no_items q.frames (tracked i).1 (sym v.0 ∙ queued_none i l no_frame) in
        subst (λ m. IsTracked order m) (sym (pop_none i q.frames q.queued_bytes l e)) tracked
  ]

  pub clear_items-IsTracked :
      (n i : ℕ) (order : List ℕ) (l : Loop X)
      → IsAccounted l
      → IsTracked order l
      → IsTracked order (clear_items n i l)
  unfolding clear_items
  clear_items-IsTracked zero i order l h tracked = tracked
  clear_items-IsTracked (suc n) i order l h tracked =
      clear_items-IsTracked n i order (drop_oldest_frame i l) (drop-IsAccounted i l h)
        (drop_kept-IsTracked i order l h tracked)

  pub evict-IsTracked :
      (budget : ℕ) (order : List ℕ) (l : Loop X)
      → IsAccounted l
      → IsTracked order l
      → IsTracked (evict budget order l).order (evict budget order l)
  unfolding evict
  evict-IsTracked budget [] l h tracked = tracked
  evict-IsTracked budget (i ∷ order) l h tracked = elim (Bool-cases (ltb budget l.used)) [
    | inr fits ↦ rw fits tracked
    | inl over ↦ elim (Bool-cases (has_queued i l)) [
      | inl some_frame ↦
          rw (over, some_frame)
            (evict-IsTracked budget order (drop_oldest_frame i l) (drop-IsAccounted i l h)
              (drop-IsTracked i order l some_frame h tracked))
      | inr no_frame ↦
          rw (over, no_frame)
            (evict-IsTracked budget order l h (skip-IsTracked i order l no_frame tracked))
    ]
  ]

  kept_branch : ℕ → List ℕ → Dict ℕ ℕ → Loop X → ℕ → List ℕ
  kept_branch j order kept l n =
      if ltb n (length (queue_of l.queues j).queued_bytes)
      then j ∷ fresh order (Dict.insert j (suc n) kept) l
      else fresh order kept l

  fresh_cons :
      (j : ℕ) (order : List ℕ) (kept : Dict ℕ ℕ) (l : Loop X)
      → fresh (j ∷ order) kept l ≡ kept_branch j order kept l (kept_of (Dict.lookup j kept))
  unfolding fresh kept_branch kept_of
  fresh_cons j order kept l = go (Dict.lookup j kept)
    where
      go :
          (o : Option ℕ)
          → kept_branch j order kept l (elim o as (λ _. ℕ) [ none ↦ 0 | some n ↦ n ])
            ≡ kept_branch j order kept l (kept_of o)
      go none = refl
      go (some n) = refl

  fresh_keeps :
      (i : ℕ) (order : List ℕ) (kept : Dict ℕ ℕ) (l : Loop X)
      → min
          (length (queue_of l.queues i).queued_bytes)
          (kept_of (Dict.lookup i kept) + entries i order)
        ≤ kept_of (Dict.lookup i kept) + entries i (fresh order kept l)
  unfolding kept_branch
  fresh_keeps i [] kept l = unfold fresh in omega arith
  fresh_keeps i (j ∷ order) kept l =
      let n = kept_of (Dict.lookup j kept) in
      let more = fresh_keeps i order (Dict.insert j (suc n) kept) l in
      let rest = fresh_keeps i order kept l in
      let counted = kept-insert j i (suc n) kept in
      let size = length (queue_of l.queues j).queued_bytes in
      elim (Bool-cases (ltb n size)) [
        | inl keep ↦ rw (fresh_cons j order kept l) (
            rw keep (elim (Bool-cases (j == i)) [
              | inl same ↦
                  let e : j ≡ i = ground (arith, same) in
                  rw same (
                    omega (
                      arith,
                      more,
                      counted ∙ ap (λ b. if b then suc n else kept_of (Dict.lookup i kept)) same,
                      ap (λ k. kept_of (Dict.lookup k kept)) e,
                    ))
              | inr other ↦ rw other (
                  omega (
                    arith,
                    more,
                    counted ∙ ap (λ b. if b then suc n else kept_of (Dict.lookup i kept)) other,
                  ))
            ]))
        | inr full ↦ rw (fresh_cons j order kept l) (
            rw full (elim (Bool-cases (j == i)) [
              | inl same ↦
                  let e : j ≡ i = ground (arith, same) in
                  let bound : size ≤ n = ground (arith, full) in
                  omega (
                    arith,
                    bound,
                    ap (λ k. kept_of (Dict.lookup k kept)) e,
                    ap (λ k. length (queue_of l.queues k).queued_bytes) e,
                  )
              | inr other ↦ rw other rest
            ]))
      ]

  pub fresh-IsTracked :
      (order : List ℕ) (l : Loop X) → IsTracked order l → IsTracked (fresh order [] l) l
  unfolding kept_of Dict.lookup
  fresh-IsTracked order l tracked i =
      (omega (arith, (tracked i).0, fresh_keeps i order [] l), (tracked i).1)

  pub compact-IsTracked :
      (l : Loop X) → IsTracked l.order l → IsTracked (compact l).order (compact l)
  unfolding compact
  compact-IsTracked l tracked =
      elim (Bool-cases (ltb 64 (length l.order) && ltb (4 * l.count) (length l.order))) [
        | inl stale ↦ rw stale (fresh-IsTracked l.order l tracked)
        | inr few ↦ rw few tracked
      ]
