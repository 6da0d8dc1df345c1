-- ===== src/Session/Frames/Queues.antt =====
-- The queues of a loop: what they hold, and totals over them.
use shinken.Prelude.{
  ℕ, zero, suc, ◌+◌, ◌≤◌, ◌<◌, ◌≡◌, ◌⊎◌, inl, inr, refl, ap, List, [], ◌∷◌, ◌++◌, length, arith,
  All,
}
use shinken.Session.Frames.{
  Item, stream_end, stream_lost, frame, Queue, empty_queue, Loop, queue_of, with_queue,
  frame_resident_bytes, frame_queue_max,
}

abbrev pub sum : List ℕ → ℕ
sum [] = 0
sum (n ∷ ns) = n + sum ns

pub sum-append : (xs ys : List ℕ) → sum (xs ++ ys) ≡ sum xs + sum ys
sum-append [] ys = omega arith
sum-append (x ∷ xs) ys = omega (arith, sum-append xs ys)

module _ {X : Type 0} where
  -- The sizes of the frames on a queue, in order.
  abbrev pub sizes : List (Item X) → List ℕ
  sizes [] = []
  sizes (stream_end ∷ items) = sizes items
  sizes (stream_lost ∷ items) = sizes items
  sizes (frame f ∷ items) = frame_resident_bytes f ∷ sizes items

  abbrev pub total : (Queue X → ℕ) → List (Queue X) → ℕ
  total f [] = 0
  total f (q ∷ qs) = f q + total f qs

  abbrev pub IsQueue : Queue X → Type 0
  IsQueue q = (q.queued_bytes ≡ sizes q.frames) × (length q.frames ≤ frame_queue_max)

  abbrev pub bytes_of : Queue X → ℕ
  bytes_of q = sum q.queued_bytes

  abbrev pub count_of : Queue X → ℕ
  count_of q = length q.queued_bytes

  -- Each queue is bounded and its sizes are those of its frames, and the loop's counters are the
  -- totals over all queues.
  pub record IsAccounted (l : Loop X) : Type 0 where
    pub queues : All IsQueue l.queues
    pub used : l.used ≡ total bytes_of l.queues
    pub count : l.count ≡ total count_of l.queues

  pub queue_range : (qs : List (Queue X)) (i : ℕ) → (i < length qs) ⊎ (queue_of qs i ≡ empty_queue)
  unfolding queue_of
  queue_range [] i = inr refl
  queue_range (q ∷ qs) zero = inl (omega arith)
  queue_range (q ∷ qs) (suc i) = elim (queue_range qs i) [
    | inl h ↦ inl (omega arith)
    | inr e ↦ inr e
  ]

  pub All-queue_of : (qs : List (Queue X)) (i : ℕ) → All IsQueue qs → IsQueue (queue_of qs i)
  unfolding queue_of
  All-queue_of [] i h = (refl, omega arith)
  All-queue_of (q ∷ qs) zero h = h.0
  All-queue_of (q ∷ qs) (suc i) h = All-queue_of qs i h.1

  pub All-with_queue :
      (qs : List (Queue X)) (i : ℕ) (q : Queue X)
      → All IsQueue qs
      → IsQueue q
      → All IsQueue (with_queue qs i q)
  unfolding with_queue
  All-with_queue [] i q h hq = tt
  All-with_queue (p ∷ qs) zero q h hq = (hq, h.1)
  All-with_queue (p ∷ qs) (suc i) q h hq = (h.0, All-with_queue qs i q h.1 hq)

  pub total-with_queue :
      (f : Queue X → ℕ) (qs : List (Queue X)) (i : ℕ) (q : Queue X)
      → i < length qs
      → total f (with_queue qs i q) + f (queue_of qs i) ≡ total f qs + f q
  unfolding with_queue queue_of
  total-with_queue f [] i q h = absurd (omega arith)
  total-with_queue f (p ∷ qs) zero q h = omega arith
  total-with_queue f (p ∷ qs) (suc i) q h = omega (arith, total-with_queue f qs i q)

  pub length-with_queue :
      (qs : List (Queue X)) (i : ℕ) (q : Queue X) → length (with_queue qs i q) ≡ length qs
  unfolding with_queue
  length-with_queue [] i q = refl
  length-with_queue (p ∷ qs) zero q = refl
  length-with_queue (p ∷ qs) (suc i) q = omega (arith, length-with_queue qs i q)

  pub sizes-append : (xs ys : List (Item X)) → sizes (xs ++ ys) ≡ sizes xs ++ sizes ys
  sizes-append [] ys = refl
  sizes-append (stream_end ∷ xs) ys = sizes-append xs ys
  sizes-append (stream_lost ∷ xs) ys = sizes-append xs ys
  sizes-append (frame f ∷ xs) ys = ap (λ l. frame_resident_bytes f ∷ l) (sizes-append xs ys)

  pub queue_of-with_queue :
      (qs : List (Queue X)) (i : ℕ) (q : Queue X)
      → i < length qs
      → queue_of (with_queue qs i q) i ≡ q
  unfolding queue_of with_queue
  queue_of-with_queue [] i q h = absurd (omega arith)
  queue_of-with_queue (p ∷ qs) zero q h = refl
  queue_of-with_queue (p ∷ qs) (suc i) q h = queue_of-with_queue qs i q (omega arith)

  pub at_most :
      (f : Queue X → ℕ) (qs : List (Queue X)) (i : ℕ)
      → i < length qs
      → f (queue_of qs i) ≤ total f qs
  unfolding queue_of
  at_most f [] i h = absurd (omega arith)
  at_most f (p ∷ qs) zero h = omega arith
  at_most f (p ∷ qs) (suc i) h = omega (arith, at_most f qs i)
