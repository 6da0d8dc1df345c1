-- ===== src/Session/Frames.antt =====
-- The stream frames of client.py: the queue that each AsyncSandbox bounds by count, and the byte
-- budget that the sandboxes of one event loop share (_push_frame, _drop_oldest_frame,
-- _account_popped, _clear_frames, _frame_resident_bytes, _evict_over_budget). A sandbox is its
-- position in the loop's list; `X` is what a frame carries besides its payloads. `_budget_state` is
-- set before a size is first queued, so it is there whenever one is released.
pub mod Queues
pub mod Laws
pub mod Budget
pub mod Tracked
pub mod Within
mod Tests
use shinken.Prelude.{
  nat_eq, ℕ, zero, suc, ◌+◌, ◌-◌, ◌*◌, Bool, true, false, ◌&&◌, Option, none, some, List, [], ◌∷◌,
  ◌++◌, length, ltb, leb, ◌==◌, if◌then◌else◌,
}
use shinken.Prelude.Dict
use shinken.Prelude.Dict.{Dict}

abbrev pub frame_queue_max : ℕ
frame_queue_max = 32

-- A payload's length: raw bytes on the binary path, base64 text on the other.
pub record Payload : Type 0 where
  pub raw : Option ℕ
  pub ref : Option ℕ

pub record Frame (X : Type 0) : Type 0 where
  pub image : Option Payload
  pub tiles : List Payload
  pub rest : X

-- `len(p.get("data") or p.get("ref") or "")`
payload_bytes : Payload → ℕ
payload_bytes p = elim p.raw [ some (suc n) ↦ suc n | _ ↦ elim p.ref [ some n ↦ n | none ↦ 0 ] ]

image_bytes : Option Payload → ℕ
unfolding payload_bytes
image_bytes none = 0
image_bytes (some p) = payload_bytes p

tile_bytes : List Payload → ℕ
unfolding payload_bytes
tile_bytes [] = 0
tile_bytes (p ∷ tiles) = payload_bytes p + tile_bytes tiles

pub frame_resident_bytes : {X : Type 0} → Frame X → ℕ
unfolding image_bytes tile_bytes
frame_resident_bytes f = image_bytes f.image + tile_bytes f.tiles

-- What stands on a queue: a frame or a sentinel.
pub data Item (X : Type 0) : Type 0 where
  stream_end stream_lost : Item X
  frame : Frame X → Item X

pub record Queue (X : Type 0) : Type 0 where
  pub frames : List (Item X)
  pub queued_bytes : List ℕ

abbrev pub empty_queue : {X : Type 0} → Queue X
empty_queue = record { frames = []; queued_bytes = [] }

-- The sandboxes of one event loop, and the accounting that they share. `count` is its "frames".
pub record Loop (X : Type 0) : Type 0 where
  pub queues : List (Queue X)
  pub used : ℕ
  pub count : ℕ
  pub order : List ℕ

-- What leaving the queue gives back: nothing, or the bytes of one frame.
pub data Release : Type 0 where
  nothing : Release
  released : ℕ → Release

module _ {X : Type 0} where
  -- The queue of a sandbox; one that is not there has nothing queued.
  unfoldable pub queue_of : List (Queue X) → ℕ → Queue X
  queue_of [] i = empty_queue
  queue_of (q ∷ qs) zero = q
  queue_of (q ∷ qs) (suc i) = queue_of qs i

  unfoldable pub with_queue : List (Queue X) → ℕ → Queue X → List (Queue X)
  with_queue [] i q' = []
  with_queue (q ∷ qs) zero q' = q' ∷ qs
  with_queue (q ∷ qs) (suc i) q' = q ∷ with_queue qs i q'

  -- `_account_popped`, for an item that has left the queue.
  unfoldable pub account : Item X → List ℕ → Release × List ℕ
  account stream_end sizes = (nothing, sizes)
  account stream_lost sizes = (nothing, sizes)
  account (frame f) [] = (nothing, [])
  account (frame f) (n ∷ sizes) = (released n, sizes)

  unfoldable pub settle : Release → Loop X → Loop X
  settle nothing l = l
  settle (released n) l = record l { used = l.used - n; count = l.count - 1 }

  -- `get_nowait` with its accounting, on the queue of sandbox i.
  pop_from : ℕ → Queue X → Loop X → Option (Item X) × Loop X
  unfolding with_queue account settle
  pop_from i q l = elim q.frames [
    | [] ↦ (none, l)
    | item ∷ rest ↦
        let (release, sizes) = account item q.queued_bytes in
        let q' : Queue X = record { frames = rest; queued_bytes = sizes } in
        (some item, settle release (record l { queues = with_queue l.queues i q' }))
  ]

  unfoldable pub pop : ℕ → Loop X → Option (Item X) × Loop X
  unfolding pop_from queue_of
  pop i l = pop_from i (queue_of l.queues i) l

  unfoldable pub drop_oldest_frame : ℕ → Loop X → Loop X
  drop_oldest_frame i l = (pop i l).1

  -- `_clear_frames` pops until the queue is empty: `n` is the number of items that it holds.
  unfoldable pub clear_items : ℕ → ℕ → Loop X → Loop X
  clear_items zero i l = l
  clear_items (suc n) i l = clear_items n i (drop_oldest_frame i l)

  unfoldable pub clear_frames : ℕ → Loop X → Loop X
  clear_frames i l = clear_items (length (queue_of l.queues i).frames) i l

  pub has_queued : ℕ → Loop X → Bool
  unfolding queue_of
  has_queued i l = elim (queue_of l.queues i).queued_bytes [ [] ↦ false | n ∷ sizes ↦ true ]

  -- The head of `order` loses the entries whose sandbox has no frame queued.
  pub drain : List ℕ → Loop X → List ℕ
  unfolding has_queued
  drain [] l = []
  drain (i ∷ order) l = let rest = drain order l in if has_queued i l then i ∷ order else rest

  -- The loop of evictions, over the entries of `order`.
  unfoldable pub evict : ℕ → List ℕ → Loop X → Loop X
  unfolding has_queued drop_oldest_frame
  evict budget [] l = record l { order = [] }
  evict budget (i ∷ order) l =
      let next = evict budget order (if has_queued i l then drop_oldest_frame i l else l) in
      if ltb budget l.used then next else record l { order = i ∷ order }

  -- The entries that compaction keeps: of each sandbox as many as it has frames queued.
  pub fresh : List ℕ → Dict ℕ ℕ → Loop X → List ℕ
  unfolding Dict.lookup Dict.insert queue_of
  fresh [] kept l = []
  fresh (i ∷ order) kept l =
      let n : ℕ = elim (Dict.lookup i kept) [ none ↦ 0 | some n ↦ n ] in
      let more = i ∷ fresh order (Dict.insert i (suc n) kept) l in
      let rest = fresh order kept l in
      if ltb n (length (queue_of l.queues i).queued_bytes) then more else rest

  pub compact : Loop X → Loop X
  unfolding fresh
  compact l =
      if ltb 64 (length l.order) && ltb (4 * l.count) (length l.order)
      then record l { order = fresh l.order [] l }
      else l

  unfoldable pub evict_over_budget : Option ℕ → Loop X → Loop X
  unfolding drain evict compact
  evict_over_budget none l = compact (record l { order = drain l.order l })
  evict_over_budget (some budget) l = compact (evict budget (drain l.order l) l)

  -- `if self._frames.full()`
  pub room : ℕ → Loop X → Loop X
  unfolding queue_of drop_oldest_frame
  room i l =
      if leb frame_queue_max (length (queue_of l.queues i).frames) then drop_oldest_frame i l else l

  pub put : Item X → List ℕ → ℕ → Loop X → Loop X
  unfolding with_queue queue_of
  put item sizes i l =
      let q = queue_of l.queues i in
      let q' : Queue X = record {
        frames = q.frames ++ item ∷ [];
        queued_bytes = q.queued_bytes ++ sizes;
      } in
      record l { queues = with_queue l.queues i q' }

  pub track : Option ℕ → ℕ → Loop X → Loop X
  unfolding evict_over_budget
  track none i l = l
  track (some budget) i l = evict_over_budget (some budget) (record l { order = l.order ++ i ∷ [] })

  -- `budget` is GLOBAL_FRAME_BUDGET_BYTES.
  unfoldable pub push_frame : Option ℕ → ℕ → Item X → Loop X → Loop X
  unfolding room put track frame_resident_bytes
  push_frame budget i stream_end l = put stream_end [] i (room i l)
  push_frame budget i stream_lost l = put stream_lost [] i (room i l)
  push_frame budget i (frame f) l =
      let size = frame_resident_bytes f in
      let l' = put (frame f) (size ∷ []) i (room i l) in
      track budget i (record l' { used = l'.used + size; count = l'.count + 1 })

-- What the sandboxes of a loop do to its queues: the reader pushes an item, a consumer takes one, and
-- a new stream clears the old one's.
pub data Op (X : Type 0) : Type 0 where
  push_op : ℕ → Item X → Op X
  pop_op : ℕ → Op X
  clear_op : ℕ → Op X

module _ {X : Type 0} where
  -- Only a sandbox of the loop pushes.
  unfoldable pub apply : Option ℕ → Op X → Loop X → Loop X
  apply budget (push_op i item) l =
      if ltb i (length l.queues) then push_frame budget i item l else l
  apply budget (pop_op i) l = (pop i l).1
  apply budget (clear_op i) l = clear_frames i l

  unfoldable pub run : Option ℕ → List (Op X) → Loop X → Loop X
  run budget [] l = l
  run budget (op ∷ ops) l = run budget ops (apply budget op l)

  abbrev pub empty_queues : ℕ → List (Queue X)
  empty_queues zero = []
  empty_queues (suc n) = empty_queue ∷ empty_queues n

  -- A loop with `n` new sandboxes.
  abbrev pub new_loop : ℕ → Loop X
  new_loop n = record { queues = empty_queues n; used = 0; count = 0; order = [] }
