-- ===== src/Session/Frames/Budget.antt =====
-- An eviction keeps the byte budget where no sentinel is queued, and can drop a sentinel.
use shinken.Prelude.{
  nat_eq, ℕ, zero, suc, ◌≤◌, ◌<◌, ◌≡◌, ◌≢◌, inl, inr, refl, ap, subst, Bool, true, false, some,
  List, [], ◌∷◌, length, arith, Bool-cases, ltb, ◌==◌, if◌then◌else◌,
}
use shinken.Session.Frames.{
  Item, stream_end, stream_lost, frame, Queue, Loop, queue_of, with_queue, pop_from, pop,
  drop_oldest_frame, has_queued, drain, evict, compact, evict_over_budget, account, settle,
}
use shinken.Session.Frames.Queues.{
  sum, total, bytes_of, IsQueue, IsAccounted, queue_range, All-queue_of, queue_of-with_queue,
}
use shinken.Session.Frames.Laws.{drop-IsAccounted}

abbrev pub entries : ℕ → List ℕ → ℕ
entries i [] = 0
entries i (j ∷ order) = let rest = entries i order in if j == i then suc rest else rest

sum_none : (ns : List ℕ) → length ns ≤ 0 → sum ns ≡ 0
sum_none [] h = refl
sum_none (n ∷ ns) h = absurd (omega arith)

module _ {X : Type 0} where
  -- No sentinel is queued.
  abbrev pub OnlyFrames : List (Item X) → Type 0
  OnlyFrames [] = Unit
  OnlyFrames (stream_end ∷ items) = ⊥
  OnlyFrames (stream_lost ∷ items) = ⊥
  OnlyFrames (frame f ∷ items) = OnlyFrames items

  -- Every queued frame of sandbox `i` has its entry in `order`, and it has no sentinel queued.
  abbrev pub IsTracked : List ℕ → Loop X → Type 0
  IsTracked order l =
      (i : ℕ)
      → (length (queue_of l.queues i).queued_bytes ≤ entries i order)
        × OnlyFrames (queue_of l.queues i).frames

  pub queue_of-with_other :
      (qs : List (Queue X)) (i j : ℕ) (q : Queue X)
      → i ≢ j
      → queue_of (with_queue qs i q) j ≡ queue_of qs j
  unfolding queue_of with_queue
  queue_of-with_other [] i j q h = refl
  queue_of-with_other (p ∷ qs) zero zero q h = absurd (h refl)
  queue_of-with_other (p ∷ qs) zero (suc j) q h = refl
  queue_of-with_other (p ∷ qs) (suc i) zero q h = refl
  queue_of-with_other (p ∷ qs) (suc i) (suc j) q h =
      queue_of-with_other qs i j q (λ e. h (ap (λ (k : ℕ). suc k) e))

  all_empty :
      (qs : List (Queue X))
      → ((i : ℕ) → length (queue_of qs i).queued_bytes ≤ 0)
      → total bytes_of qs ≡ 0
  unfolding queue_of
  all_empty [] h = refl
  all_empty (q ∷ qs) h = omega (arith, sum_none q.queued_bytes (h 0), all_empty qs (λ i. h (suc i)))

  -- Dropping the oldest item of a queue with a frame drops a frame.
  frame_dropped :
      (i : ℕ) (items : List (Item X)) (ns : List ℕ) (l : Loop X)
      → i < length l.queues
      → IsQueue (record { frames = items; queued_bytes = ns })
      → OnlyFrames items
      → 1 ≤ length ns
      → let l' = (pop_from i (record { frames = items; queued_bytes = ns }) l).1 in
        (suc (length (queue_of l'.queues i).queued_bytes) ≡ length ns)
        × OnlyFrames (queue_of l'.queues i).frames
  unfolding pop_from account settle
  frame_dropped i items [] l lt v first h = absurd (omega arith)
  frame_dropped i [] (n ∷ ns) l lt v first h = absurd (ground (arith, v.0))
  frame_dropped i (stream_end ∷ items) (n ∷ ns) l lt v first h = absurd first
  frame_dropped i (stream_lost ∷ items) (n ∷ ns) l lt v first h = absurd first
  frame_dropped i (frame f ∷ items) (n ∷ ns) l lt v first h =
      let q' : Queue X = record { frames = items; queued_bytes = ns } in
      rw (queue_of-with_queue l.queues i q' lt) (refl, first)

  other_kept :
      (i j : ℕ) (items : List (Item X)) (ns : List ℕ) (l : Loop X)
      → i ≢ j
      → let l' = (pop_from i (record { frames = items; queued_bytes = ns }) l).1 in
        queue_of l'.queues j ≡ queue_of l.queues j
  unfolding pop_from account settle
  other_kept i j [] ns l h = refl
  other_kept i j (stream_end ∷ items) ns l h = queue_of-with_other l.queues i j _ h
  other_kept i j (stream_lost ∷ items) ns l h = queue_of-with_other l.queues i j _ h
  other_kept i j (frame f ∷ items) [] l h = queue_of-with_other l.queues i j _ h
  other_kept i j (frame f ∷ items) (n ∷ ns) l h = queue_of-with_other l.queues i j _ h

  queued_cons :
      (i : ℕ) (l : Loop X)
      → has_queued i l ≡ true
      → (n : ℕ) × (ns : List ℕ) × ((queue_of l.queues i).queued_bytes ≡ n ∷ ns)
  unfolding has_queued
  queued_cons i l h = go (queue_of l.queues i).queued_bytes h
    where
      go :
          (sizes : List ℕ)
          → elim sizes as (λ _. Bool) [ [] ↦ false | n ∷ ns ↦ true ] ≡ true
          → (n : ℕ) × (ns : List ℕ) × (sizes ≡ n ∷ ns)
      go [] e = absurd (ground (arith, e))
      go (n ∷ ns) e = (n, ns, refl)

  pub queued_none :
      (i : ℕ) (l : Loop X) → has_queued i l ≡ false → (queue_of l.queues i).queued_bytes ≡ []
  unfolding has_queued
  queued_none i l h = go (queue_of l.queues i).queued_bytes h
    where
      go :
          (sizes : List ℕ)
          → elim sizes as (λ _. Bool) [ [] ↦ false | n ∷ ns ↦ true ] ≡ false
          → sizes ≡ []
      go [] e = refl
      go (n ∷ ns) e = absurd (ground (arith, e))

  pub drop-IsTracked :
      (i : ℕ) (order : List ℕ) (l : Loop X)
      → has_queued i l ≡ true
      → IsAccounted l
      → IsTracked (i ∷ order) l
      → IsTracked order (drop_oldest_frame i l)
  unfolding drop_oldest_frame pop
  drop-IsTracked i order l some_frame h tracked j =
      let q = queue_of l.queues i in
      let (n, ns, e) = queued_cons i l some_frame in
      elim (queue_range l.queues i) [
        | inr absent ↦ absurd (ground (arith, ap (λ r. r.queued_bytes) absent, e))
        | inl lt ↦ elim (Bool-cases (i == j)) [
          | inl same ↦
              let at_i : i ≡ j = ground (arith, same) in
              let d =
                frame_dropped i q.frames q.queued_bytes l lt (All-queue_of l.queues i h.queues)
                  (tracked i).1 (ground (arith, e)) in
              subst
                (λ k.
                  (length (queue_of (pop_from i q l).1.queues k).queued_bytes ≤ entries k order)
                  × OnlyFrames (queue_of (pop_from i q l).1.queues k).frames)
                at_i (ground (arith, d.0, (tracked i).0), d.1)
          | inr other ↦
              let ne : i ≢ j = ground (arith, other) in
              rw (other_kept i j q.frames q.queued_bytes l ne)
                (ground (arith, (tracked j).0, other), (tracked j).1)
        ]
      ]

  -- An entry whose sandbox has no frame queued can go.
  pub skip-IsTracked :
      (i : ℕ) (order : List ℕ) (l : Loop X)
      → has_queued i l ≡ false
      → IsTracked (i ∷ order) l
      → IsTracked order l
  skip-IsTracked i order l no_frame tracked j = elim (Bool-cases (i == j)) [
    | inl same ↦
        let at_i : i ≡ j = ground (arith, same) in
        let none_queued = queued_none i l no_frame in
        (
          subst (λ k. length (queue_of l.queues k).queued_bytes ≤ entries k order) at_i
              (omega (arith, ap (λ (ns : List ℕ). length ns) none_queued)),
          (tracked j).1,
        )
    | inr other ↦ (ground (arith, (tracked j).0, other), (tracked j).1)
  ]

  evict-budget :
      (budget : ℕ) (order : List ℕ) (l : Loop X)
      → IsAccounted l
      → IsTracked order l
      → (evict budget order l).used ≤ budget
  unfolding evict
  evict-budget budget [] l h tracked =
      omega (arith, h.used, all_empty l.queues (λ i. (tracked i).0))
  evict-budget budget (i ∷ order) l h tracked = elim (Bool-cases (ltb budget l.used)) [
    | inr fits ↦ rw fits (ground (arith, fits))
    | inl over ↦ elim (Bool-cases (has_queued i l)) [
      | inl some_frame ↦
          rw (over, some_frame)
            (evict-budget budget order (drop_oldest_frame i l) (drop-IsAccounted i l h)
              (drop-IsTracked i order l some_frame h tracked))
      | inr no_frame ↦
          rw (over, no_frame)
            (evict-budget budget order l h (skip-IsTracked i order l no_frame tracked))
    ]
  ]

  pub drain-IsTracked :
      (order : List ℕ) (l : Loop X) → IsTracked order l → IsTracked (drain order l) l
  unfolding drain
  drain-IsTracked [] l tracked = tracked
  drain-IsTracked (i ∷ order) l tracked = elim (Bool-cases (has_queued i l)) [
    | inl some_frame ↦ rw some_frame tracked
    | inr no_frame ↦
        rw no_frame (drain-IsTracked order l (skip-IsTracked i order l no_frame tracked))
  ]

  pub used-compact : (l : Loop X) → (compact l).used ≡ l.used
  unfolding compact
  used-compact l = ground arith

  pub evict_over_budget_bounds :
      (budget : ℕ) (l : Loop X)
      → IsAccounted l
      → IsTracked l.order l
      → (evict_over_budget (some budget) l).used ≤ budget
  unfolding evict_over_budget
  evict_over_budget_bounds budget l h tracked = omega (
    arith,
    used-compact (evict budget (drain l.order l) l),
    evict-budget budget (drain l.order l) l h (drain-IsTracked l.order l tracked),
  )

  has_queued_at :
      (i : ℕ) (items : List (Item X)) (n : ℕ) (ns : List ℕ) (l : Loop X)
      → queue_of l.queues i ≡ record { frames = items; queued_bytes = n ∷ ns }
      → has_queued i l ≡ true
  unfolding has_queued
  has_queued_at i items n ns l e =
      ap (λ q. elim q.queued_bytes as (λ _. Bool) [ [] ↦ false | m ∷ ms ↦ true ]) e

  drop_sentinel :
      (i : ℕ) (items : List (Item X)) (ns : List ℕ) (l : Loop X)
      → queue_of l.queues i ≡ record { frames = stream_end ∷ items; queued_bytes = ns }
      → let q' : Queue X = record { frames = items; queued_bytes = ns } in
        drop_oldest_frame i l ≡ record l { queues = with_queue l.queues i q' }
  unfolding drop_oldest_frame pop pop_from account settle
  drop_sentinel i items ns l e = ap (λ q. (pop_from i q l).1) e

  -- A sentinel is no safer than a frame: where the oldest entry is of a sandbox whose queue starts
  -- with the sentinel of a clean end and holds a frame behind it, an eviction over the budget removes
  -- the sentinel, releases no byte, and uses the entry up.
  pub evict_sentinel :
      (budget i : ℕ) (order : List ℕ) (items : List (Item X)) (n : ℕ) (ns : List ℕ) (l : Loop X)
      → queue_of l.queues i ≡ record { frames = stream_end ∷ items; queued_bytes = n ∷ ns }
      → budget < l.used
      → let q' : Queue X = record { frames = items; queued_bytes = n ∷ ns } in
        evict budget (i ∷ order) l
        ≡ evict budget order (record l { queues = with_queue l.queues i q' })
  unfolding evict
  evict_sentinel budget i order items n ns l e over =
      let test : ltb budget l.used ≡ true = ground arith in
      rw (test, has_queued_at i (stream_end ∷ items) n ns l e)
        (ap (λ l'. evict budget order l') (drop_sentinel i items (n ∷ ns) l e))
