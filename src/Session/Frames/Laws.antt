-- ===== src/Session/Frames/Laws.antt =====
-- The accounting of the frame queues is exact, whatever the sandboxes of a loop push and pop.
use shinken.Prelude.{
  ℕ, zero, suc, ◌+◌, ◌-◌, ◌≤◌, ◌<◌, ◌≡◌, inl, inr, refl, sym, ap, subst, ◌∙◌, Option, none, some,
  List, [], ◌∷◌, ◌++◌, length, length-append, append-nil, arith, All, Bool-cases, ltb, leb, ◌&&◌,
  ◌*◌,
}
use shinken.Session.Frames.{
  Frame, Item, stream_end, stream_lost, frame, Queue, empty_queue, Loop, queue_of, with_queue,
  Release, nothing, released, account, settle, pop_from, pop, drop_oldest_frame, clear_items,
  clear_frames, has_queued, drain, evict, fresh, compact, Op, push_op, pop_op, clear_op, apply, run,
  empty_queues, new_loop, evict_over_budget, room, put, track, push_frame, frame_resident_bytes,
  frame_queue_max,
}
use shinken.Session.Frames.Queues.{
  sum, sum-append, sizes, total, IsQueue, bytes_of, count_of, IsAccounted, queue_range,
  All-queue_of, All-with_queue, total-with_queue, length-with_queue, sizes-append,
  queue_of-with_queue, at_most,
}

module _ {X : Type 0} where
  -- A sandbox's queue is replaced, and the counters follow.
  replaced :
      (l : Loop X) (i : ℕ) (q : Queue X) (used count : ℕ) (order : List ℕ)
      → i < length l.queues
      → IsAccounted l
      → IsQueue q
      → used + bytes_of (queue_of l.queues i) ≡ l.used + bytes_of q
      → count + count_of (queue_of l.queues i) ≡ l.count + count_of q
      → IsAccounted
          (record { queues = with_queue l.queues i q; used = used; count = count; order = order })
  replaced l i q used count order lt h hq eu ec = record {
    queues = All-with_queue l.queues i q h.queues hq;
    used = omega (arith, eu, h.used, total-with_queue bytes_of l.queues i q lt);
    count = omega (arith, ec, h.count, total-with_queue count_of l.queues i q lt);
  }

  nothing_popped : (i : ℕ) (l : Loop X) → IsAccounted l → IsAccounted (pop_from i empty_queue l).1
  unfolding pop_from
  nothing_popped i l h = h

  pop_from-IsAccounted :
      (i : ℕ) (items : List (Item X)) (ns : List ℕ) (l : Loop X)
      → i < length l.queues
      → IsAccounted l
      → IsQueue (record { frames = items; queued_bytes = ns })
      → queue_of l.queues i ≡ record { frames = items; queued_bytes = ns }
      → IsAccounted (pop_from i (record { frames = items; queued_bytes = ns }) l).1
  unfolding pop_from account settle
  pop_from-IsAccounted i [] ns l lt h v e = h
  pop_from-IsAccounted i (stream_end ∷ items) ns l lt h v e =
      replaced l i (record { frames = items; queued_bytes = ns }) l.used l.count l.order lt h
        (v.0, omega arith) (omega (arith, ap bytes_of e)) (omega (arith, ap count_of e))
  pop_from-IsAccounted i (stream_lost ∷ items) ns l lt h v e =
      replaced l i (record { frames = items; queued_bytes = ns }) l.used l.count l.order lt h
        (v.0, omega arith) (omega (arith, ap bytes_of e)) (omega (arith, ap count_of e))
  pop_from-IsAccounted i (frame f ∷ items) [] l lt h v e = absurd (ground (arith, v.0))
  pop_from-IsAccounted i (frame f ∷ items) (n ∷ ns) l lt h v e =
      replaced l i (record { frames = items; queued_bytes = ns }) (l.used - n) (l.count - 1) l.order
        lt h (cc (v.0), omega arith)
        (omega (arith, ap bytes_of e, h.used, at_most bytes_of l.queues i lt))
        (omega (arith, ap count_of e, h.count, at_most count_of l.queues i lt))

  pub pop-IsAccounted : (i : ℕ) (l : Loop X) → IsAccounted l → IsAccounted (pop i l).1
  unfolding pop
  pop-IsAccounted i l h = elim (queue_range l.queues i) [
    | inl lt ↦
        let q = queue_of l.queues i in
        pop_from-IsAccounted i q.frames q.queued_bytes l lt h (All-queue_of l.queues i h.queues)
          refl
    | inr e ↦ subst (λ q. IsAccounted (pop_from i q l).1) (sym e) (nothing_popped i l h)
  ]

  pub drop-IsAccounted : (i : ℕ) (l : Loop X) → IsAccounted l → IsAccounted (drop_oldest_frame i l)
  unfolding drop_oldest_frame
  drop-IsAccounted i l h = pop-IsAccounted i l h

  pub clear_items-IsAccounted :
      (n i : ℕ) (l : Loop X) → IsAccounted l → IsAccounted (clear_items n i l)
  unfolding clear_items
  clear_items-IsAccounted zero i l h = h
  clear_items-IsAccounted (suc n) i l h =
      clear_items-IsAccounted n i (drop_oldest_frame i l) (drop-IsAccounted i l h)

  pub clear_frames-IsAccounted :
      (i : ℕ) (l : Loop X) → IsAccounted l → IsAccounted (clear_frames i l)
  unfolding clear_frames
  clear_frames-IsAccounted i l h = clear_items-IsAccounted _ i l h

  -- `order` is no part of the accounting.
  pub ordered-IsAccounted :
      (l : Loop X) (order : List ℕ) → IsAccounted l → IsAccounted (record l { order = order })
  ordered-IsAccounted l order h = record { queues = h.queues; used = h.used; count = h.count }

  pub evict-IsAccounted :
      (budget : ℕ) (order : List ℕ) (l : Loop X)
      → IsAccounted l
      → IsAccounted (evict budget order l)
  unfolding evict
  evict-IsAccounted budget [] l h = ordered-IsAccounted l [] h
  evict-IsAccounted budget (i ∷ order) l h = elim (Bool-cases (ltb budget l.used)) [
    | inr fits ↦ rw fits (ordered-IsAccounted l (i ∷ order) h)
    | inl over ↦ elim (Bool-cases (has_queued i l)) [
      | inl some_frame ↦
          rw (over, some_frame)
            (evict-IsAccounted budget order (drop_oldest_frame i l) (drop-IsAccounted i l h))
      | inr none_left ↦ rw (over, none_left) (evict-IsAccounted budget order l h)
    ]
  ]

  compact-IsAccounted : (l : Loop X) → IsAccounted l → IsAccounted (compact l)
  unfolding compact
  compact-IsAccounted l h =
      elim (Bool-cases (ltb 64 (length l.order) && ltb (4 * l.count) (length l.order))) [
        | inl stale ↦ rw stale (ordered-IsAccounted l (fresh l.order [] l) h)
        | inr few ↦ rw few h
      ]

  evict_over_budget-IsAccounted :
      (budget : Option ℕ) (l : Loop X) → IsAccounted l → IsAccounted (evict_over_budget budget l)
  unfolding evict_over_budget
  evict_over_budget-IsAccounted none l h =
      compact-IsAccounted _ (ordered-IsAccounted l (drain l.order l) h)
  evict_over_budget-IsAccounted (some budget) l h =
      compact-IsAccounted _ (evict-IsAccounted budget (drain l.order l) l h)

  queues-settle : (r : Release) (l : Loop X) → (settle r l).queues ≡ l.queues
  unfolding settle
  queues-settle nothing l = refl
  queues-settle (released n) l = refl

  -- Taking an item off a queue that has one leaves one item less, and as many queues.
  pop_from_shorter :
      (i : ℕ) (item : Item X) (items : List (Item X)) (ns : List ℕ) (l : Loop X)
      → i < length l.queues
      → let l' = (pop_from i (record { frames = item ∷ items; queued_bytes = ns }) l).1 in
        ((queue_of l'.queues i).frames ≡ items) × (length l'.queues ≡ length l.queues)
  unfolding pop_from
  pop_from_shorter i item items ns l lt =
      let (release, ns') = account item ns in
      let q' : Queue X = record { frames = items; queued_bytes = ns' } in
      let l' : Loop X = record l { queues = with_queue l.queues i q' } in
      (
        ap (λ qs. (queue_of qs i).frames) (queues-settle release l')
            ∙ ap (λ q. q.frames) (queue_of-with_queue l.queues i q' lt),
        ap (λ (qs : List (Queue X)). length qs) (queues-settle release l')
            ∙ length-with_queue l.queues i q',
      )

  dropped :
      (i : ℕ) (items : List (Item X)) (ns : List ℕ) (l : Loop X)
      → i < length l.queues
      → 1 ≤ length items
      → let l' = (pop_from i (record { frames = items; queued_bytes = ns }) l).1 in
        (suc (length (queue_of l'.queues i).frames) ≡ length items)
        × (length l'.queues ≡ length l.queues)
  dropped i [] ns l lt h = absurd (omega arith)
  dropped i (item ∷ items) ns l lt h =
      let (rest, same) = pop_from_shorter i item items ns l lt in
      (ap (λ (xs : List (Item X)). suc (length xs)) rest, same)

  -- Room is made for one item.
  pub room_free :
      (i : ℕ) (l : Loop X)
      → i < length l.queues
      → IsAccounted l
      → let l' = room i l in
        (length (queue_of l'.queues i).frames < frame_queue_max)
        × (length l'.queues ≡ length l.queues)
        × IsAccounted l'
  unfolding room drop_oldest_frame pop
  room_free i l lt h =
      let q = queue_of l.queues i in
      let v = All-queue_of l.queues i h.queues in
      elim (Bool-cases (leb frame_queue_max (length q.frames))) [
        | inr free ↦ rw free (ground (arith, free), refl, h)
        | inl full ↦
            let full_lt : 32 ≤ length q.frames = ground (arith, full) in
            let d = dropped i q.frames q.queued_bytes l lt (omega arith) in
            rw full (
              omega (arith, d.0),
              d.1,
              pop_from-IsAccounted i q.frames q.queued_bytes l lt h v refl,
            )
      ]

  sentinel_put :
      (item : Item X) (i : ℕ) (l : Loop X)
      → ((xs : List (Item X)) → sizes (xs ++ item ∷ []) ≡ sizes xs)
      → i < length l.queues
      → length (queue_of l.queues i).frames < frame_queue_max
      → IsAccounted l
      → IsAccounted (put item [] i l)
  unfolding put
  sentinel_put item i l silent lt free h =
      let q = queue_of l.queues i in
      let v = All-queue_of l.queues i h.queues in
      let q' : Queue X = record {
        frames = q.frames ++ item ∷ [];
        queued_bytes = q.queued_bytes ++ [];
      } in
      let same = append-nil q.queued_bytes in
      replaced l i q' l.used l.count l.order lt h
        (same ∙ v.0 ∙ sym (silent q.frames), omega (arith, length-append q.frames (item ∷ [])))
        (omega (arith, ap sum same)) (omega (arith, ap (λ (ns : List ℕ). length ns) same))

  pub frame-put :
      (f : Frame X) (i : ℕ) (l : Loop X)
      → i < length l.queues
      → length (queue_of l.queues i).frames < frame_queue_max
      → IsAccounted l
      → let n = frame_resident_bytes f in
        let l' = put (frame f) (n ∷ []) i l in
        IsAccounted (record l' { used = l'.used + n; count = l'.count + 1 })
  unfolding put
  frame-put f i l lt free h =
      let n = frame_resident_bytes f in
      let q = queue_of l.queues i in
      let v = All-queue_of l.queues i h.queues in
      let q' : Queue X = record {
        frames = q.frames ++ frame f ∷ [];
        queued_bytes = q.queued_bytes ++ n ∷ [];
      } in
      replaced l i q' (l.used + n) (l.count + 1) l.order lt h
        (
          ap (λ ns. ns ++ n ∷ []) v.0 ∙ sym (sizes-append q.frames (frame f ∷ [])),
          omega (arith, length-append q.frames (frame f ∷ [])),
        )
        (omega (arith, sum-append q.queued_bytes (n ∷ [])))
        (omega (arith, length-append q.queued_bytes (n ∷ [])))

  track-IsAccounted :
      (budget : Option ℕ) (i : ℕ) (l : Loop X) → IsAccounted l → IsAccounted (track budget i l)
  unfolding track
  track-IsAccounted none i l h = h
  track-IsAccounted (some budget) i l h =
      evict_over_budget-IsAccounted (some budget) _ (ordered-IsAccounted l (l.order ++ i ∷ []) h)

  pub push_frame-IsAccounted :
      (budget : Option ℕ) (i : ℕ) (item : Item X) (l : Loop X)
      → i < length l.queues
      → IsAccounted l
      → IsAccounted (push_frame budget i item l)
  unfolding push_frame
  push_frame-IsAccounted budget i stream_end l lt h =
      let (free, same, h') = room_free i l lt h in
      sentinel_put stream_end i (room i l) (λ xs. sizes-append xs _ ∙ append-nil _)
        (omega (arith, same)) free h'
  push_frame-IsAccounted budget i stream_lost l lt h =
      let (free, same, h') = room_free i l lt h in
      sentinel_put stream_lost i (room i l) (λ xs. sizes-append xs _ ∙ append-nil _)
        (omega (arith, same)) free h'
  push_frame-IsAccounted budget i (frame f) l lt h =
      let (free, same, h') = room_free i l lt h in
      track-IsAccounted budget i _ (frame-put f i (room i l) (omega (arith, same)) free h')

  pub apply-IsAccounted :
      (budget : Option ℕ) (op : Op X) (l : Loop X) → IsAccounted l → IsAccounted (apply budget op l)
  unfolding apply
  apply-IsAccounted budget (push_op i item) l h = elim (Bool-cases (ltb i (length l.queues))) [
    | inl there ↦ rw there (push_frame-IsAccounted budget i item l (ground (arith, there)) h)
    | inr absent ↦ rw absent h
  ]
  apply-IsAccounted budget (pop_op i) l h = pop-IsAccounted i l h
  apply-IsAccounted budget (clear_op i) l h = clear_frames-IsAccounted i l h

  run_keeps :
      (budget : Option ℕ) (ops : List (Op X)) (l : Loop X)
      → IsAccounted l
      → IsAccounted (run budget ops l)
  unfolding run
  run_keeps budget [] l h = h
  run_keeps budget (op ∷ ops) l h =
      run_keeps budget ops (apply budget op l) (apply-IsAccounted budget op l h)

pub new_queues :
    (X : Type 0) (n : ℕ)
    → let qs = empty_queues {X = X} n in
      All IsQueue qs × (0 ≡ total bytes_of qs) × (0 ≡ total count_of qs)
new_queues X zero = (tt, refl, refl)
new_queues X (suc n) =
    let (v, b, c) = new_queues X n in (((refl, omega arith), v), omega (arith, b), omega (arith, c))

module _ {X : Type 0} where
  -- However the sandboxes of one loop interleave their pushes, pops and clearings, with or without a
  -- byte budget: no queue holds more than 32 items, the sizes that a sandbox keeps are those of its
  -- queued frames in order, and the loop's two counters are the totals of these over all sandboxes.
  pub run-IsAccounted :
      (budget : Option ℕ) (n : ℕ) (ops : List (Op X)) → IsAccounted (run budget ops (new_loop n))
  run-IsAccounted budget n ops =
      let (v, b, c) = new_queues X n in
      run_keeps budget ops (new_loop n) (record { queues = v; used = b; count = c })
