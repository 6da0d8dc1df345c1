-- ===== src/Session/Frames/Within.antt =====
-- The byte budget holds after whatever the sandboxes of a loop do, as long as no sentinel is queued.
use shinken.Prelude.{
  nat_eq, ℕ, zero, suc, ◌+◌, ◌≤◌, ◌<◌, ◌≡◌, ◌≢◌, inl, inr, refl, sym, subst, some, List, [], ◌∷◌,
  ◌++◌, length, length-append, arith, All, Bool-cases, ltb, leb, ◌==◌,
}
use shinken.Session.Frames.{
  Frame, Item, stream_end, stream_lost, frame, Queue, Loop, queue_of, with_queue, pop_from, pop,
  drop_oldest_frame, clear_items, clear_frames, drain, evict, evict_over_budget, account, settle,
  room, put, track, push_frame, frame_resident_bytes, frame_queue_max, Op, push_op, pop_op,
  clear_op, apply, run, empty_queues, new_loop,
}
use shinken.Session.Frames.Queues.{IsAccounted, queue_of-with_queue}
use shinken.Session.Frames.Laws.{
  drop-IsAccounted, ordered-IsAccounted, room_free, frame-put, apply-IsAccounted, new_queues,
}
use shinken.Session.Frames.Budget.{
  entries, OnlyFrames, IsTracked, queue_of-with_other, drain-IsTracked, evict_over_budget_bounds,
}
use shinken.Session.Frames.Tracked.{drop_kept-IsTracked, evict-IsTracked, compact-IsTracked}

entries-append : (i j : ℕ) (order : List ℕ) → entries i order ≤ entries i (order ++ j ∷ [])
entries-append i j [] = omega arith
entries-append i j (k ∷ order) = ground (arith, entries-append i j order)

entries-append_self : (i : ℕ) (order : List ℕ) → entries i (order ++ i ∷ []) ≡ suc (entries i order)
entries-append_self i [] = ground (arith, nat_eq.eqb_iff i i)
entries-append_self i (k ∷ order) = ground (arith, entries-append_self i order)

module _ {X : Type 0} where
  OnlyFrames-append :
      (f : Frame X) (items : List (Item X)) → OnlyFrames items → OnlyFrames (items ++ frame f ∷ [])
  OnlyFrames-append f [] h = tt
  OnlyFrames-append f (stream_end ∷ items) h = absurd h
  OnlyFrames-append f (stream_lost ∷ items) h = absurd h
  OnlyFrames-append f (frame g ∷ items) h = OnlyFrames-append f items h

  used-pop_from : (i : ℕ) (q : Queue X) (l : Loop X) → (pop_from i q l).1.used ≤ l.used
  unfolding pop_from account settle
  used-pop_from i q l = go q.frames q.queued_bytes
    where
      go :
          (items : List (Item X)) (ns : List ℕ)
          → (pop_from i (record { frames = items; queued_bytes = ns }) l).1.used ≤ l.used
      go [] ns = omega arith
      go (stream_end ∷ items) ns = omega arith
      go (stream_lost ∷ items) ns = omega arith
      go (frame f ∷ items) [] = omega arith
      go (frame f ∷ items) (n ∷ ns) = omega arith

  used-drop : (i : ℕ) (l : Loop X) → (drop_oldest_frame i l).used ≤ l.used
  unfolding drop_oldest_frame pop
  used-drop i l = used-pop_from i (queue_of l.queues i) l

  order-pop_from : (i : ℕ) (q : Queue X) (l : Loop X) → (pop_from i q l).1.order ≡ l.order
  unfolding pop_from account settle
  order-pop_from i q l = go q.frames q.queued_bytes
    where
      go :
          (items : List (Item X)) (ns : List ℕ)
          → (pop_from i (record { frames = items; queued_bytes = ns }) l).1.order ≡ l.order
      go [] ns = refl
      go (stream_end ∷ items) ns = refl
      go (stream_lost ∷ items) ns = refl
      go (frame f ∷ items) [] = refl
      go (frame f ∷ items) (n ∷ ns) = refl

  order-drop : (i : ℕ) (l : Loop X) → (drop_oldest_frame i l).order ≡ l.order
  unfolding drop_oldest_frame pop
  order-drop i l = order-pop_from i (queue_of l.queues i) l

  -- The order keeps up with the queues, and the budget holds.
  record Keeps (budget : ℕ) (l : Loop X) : Type 0 where
    accounted : IsAccounted l
    tracked : IsTracked l.order l
    within : l.used ≤ budget

  drop-Keeps : (budget i : ℕ) (l : Loop X) → Keeps budget l → Keeps budget (drop_oldest_frame i l)
  drop-Keeps budget i l h = record {
    accounted = drop-IsAccounted i l h.accounted;
    tracked =
        subst (λ order. IsTracked order (drop_oldest_frame i l)) (sym (order-drop i l))
          (drop_kept-IsTracked i l.order l h.accounted h.tracked);
    within = omega (arith, used-drop i l, h.within);
  }

  clear-Keeps : (budget n i : ℕ) (l : Loop X) → Keeps budget l → Keeps budget (clear_items n i l)
  unfolding clear_items
  clear-Keeps budget zero i l h = h
  clear-Keeps budget (suc n) i l h =
      clear-Keeps budget n i (drop_oldest_frame i l) (drop-Keeps budget i l h)

  room-Keeps : (budget i : ℕ) (l : Loop X) → Keeps budget l → Keeps budget (room i l)
  unfolding room
  room-Keeps budget i l h =
      elim (Bool-cases (leb frame_queue_max (length (queue_of l.queues i).frames))) [
        | inl full ↦ rw full (drop-Keeps budget i l h)
        | inr free ↦ rw free h
      ]

  -- A frame that is put has its entry appended.
  put-IsTracked :
      (f : Frame X) (n i : ℕ) (l : Loop X)
      → i < length l.queues
      → IsTracked l.order l
      → IsTracked (l.order ++ i ∷ []) (put (frame f) (n ∷ []) i l)
  unfolding put
  put-IsTracked f n i l lt tracked j =
      let q = queue_of l.queues i in
      let q' : Queue X = record {
        frames = q.frames ++ frame f ∷ [];
        queued_bytes = q.queued_bytes ++ n ∷ [];
      } in
      elim (Bool-cases (i == j)) [
        | inl same ↦
            let e : i ≡ j = ground (arith, same) in
            subst
              (λ k.
                (length (queue_of (with_queue l.queues i q') k).queued_bytes
                  ≤ entries k (l.order ++ i ∷ []))
                × OnlyFrames (queue_of (with_queue l.queues i q') k).frames)
              e
              (rw (queue_of-with_queue l.queues i q' lt) (
                omega (
                  arith,
                  length-append q.queued_bytes (n ∷ []),
                  entries-append_self i l.order,
                  (tracked i).0,
                ),
                OnlyFrames-append f q.frames (tracked i).1,
              ))
        | inr other ↦
            let ne : i ≢ j = ground (arith, other) in
            rw (queue_of-with_other l.queues i j q' ne)
              (omega (arith, entries-append j i l.order, (tracked j).0), (tracked j).1)
      ]

  evicted-Keeps :
      (budget : ℕ) (l : Loop X)
      → IsAccounted l
      → IsTracked l.order l
      → IsAccounted (evict_over_budget (some budget) l)
      → Keeps budget (evict_over_budget (some budget) l)
  unfolding evict_over_budget
  evicted-Keeps budget l h tracked h' = record {
    accounted = h';
    tracked =
        compact-IsTracked (evict budget (drain l.order l) l)
          (evict-IsTracked budget (drain l.order l) l h (drain-IsTracked l.order l tracked));
    within = unfold evict_over_budget in evict_over_budget_bounds budget l h tracked;
  }

  push-Keeps :
      (budget i : ℕ) (f : Frame X) (l : Loop X)
      → i < length l.queues
      → Keeps budget l
      → IsAccounted (push_frame (some budget) i (frame f) l)
      → Keeps budget (push_frame (some budget) i (frame f) l)
  unfolding push_frame track
  push-Keeps budget i f l lt h h' =
      let n = frame_resident_bytes f in
      let r = room i l in
      let k = room-Keeps budget i l h in
      let (free, same, _) = room_free i l lt h.accounted in
      let there : i < length r.queues = omega (arith, same, lt) in
      let l' = put (frame f) (n ∷ []) i r in
      evicted-Keeps budget
        (record l' { used = l'.used + n; count = l'.count + 1; order = l'.order ++ i ∷ [] })
        (ordered-IsAccounted (record l' { used = l'.used + n; count = l'.count + 1 })
          (l'.order ++ i ∷ []) (frame-put f i r there free k.accounted))
        (put-IsTracked f n i r there k.tracked) h'

  -- The sandboxes push frames and no sentinel.
  abbrev pub PushesFrames : Op X → Type 0
  PushesFrames (push_op i stream_end) = ⊥
  PushesFrames (push_op i stream_lost) = ⊥
  PushesFrames (push_op i (frame f)) = Unit
  PushesFrames (pop_op i) = Unit
  PushesFrames (clear_op i) = Unit

  apply-Keeps :
      (budget : ℕ) (op : Op X) (l : Loop X)
      → PushesFrames op
      → Keeps budget l
      → IsAccounted (apply (some budget) op l)
      → Keeps budget (apply (some budget) op l)
  unfolding apply drop_oldest_frame clear_frames
  apply-Keeps budget (push_op i stream_end) l p h h' = absurd p
  apply-Keeps budget (push_op i stream_lost) l p h h' = absurd p
  apply-Keeps budget (push_op i (frame f)) l p h h' = elim (Bool-cases (ltb i (length l.queues))) [
    | inl there ↦ rw there (push-Keeps budget i f l (ground (arith, there)) h (rw there at h'))
    | inr absent ↦ rw absent h
  ]
  apply-Keeps budget (pop_op i) l p h h' = unfold drop_oldest_frame in drop-Keeps budget i l h
  apply-Keeps budget (clear_op i) l p h h' = clear-Keeps budget _ i l h

  run-Keeps :
      (budget : ℕ) (ops : List (Op X)) (l : Loop X)
      → All PushesFrames ops
      → Keeps budget l
      → Keeps budget (run (some budget) ops l)
  unfolding run
  run-Keeps budget [] l p h = h
  run-Keeps budget (op ∷ ops) l p h =
      run-Keeps budget ops (apply (some budget) op l) p.1
        (apply-Keeps budget op l p.0 h (apply-IsAccounted (some budget) op l h.accounted))

empty-IsTracked :
    (X : Type 0) (n i : ℕ)
    → (length (queue_of (empty_queues {X = X} n) i).queued_bytes ≤ 0)
      × OnlyFrames (queue_of (empty_queues {X = X} n) i).frames
unfolding queue_of
empty-IsTracked X zero i = (omega arith, tt)
empty-IsTracked X (suc n) zero = (omega arith, tt)
empty-IsTracked X (suc n) (suc i) = empty-IsTracked X n i

module _ {X : Type 0} where
  -- However the sandboxes of one loop interleave pushes of frames, pops and clearings, the queued bytes of
  -- the loop are within the budget after each of them, as long as no sentinel is pushed.
  pub run-used :
      (budget n : ℕ) (ops : List (Op X))
      → All PushesFrames ops
      → (run (some budget) ops (new_loop n)).used ≤ budget
  run-used budget n ops p =
      let (v, b, c) = new_queues X n in
      (run-Keeps budget ops (new_loop n) p (record {
        accounted = record { queues = v; used = b; count = c };
        tracked = empty-IsTracked X n;
        within = omega arith;
      })).within
