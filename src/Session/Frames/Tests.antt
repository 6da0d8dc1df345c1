-- ===== src/Session/Frames/Tests.antt =====
-- Two sandboxes on one loop.
use shinken.Prelude.{nat_eq, ℕ, ◌≡◌, ◌≤◌, refl, none, some, List, [], ◌∷◌, arith}
use shinken.Session.Frames.{
  Frame, Item, stream_end, frame, Queue, Loop, queue_of, with_queue, Op, push_op, pop_op, clear_op,
  run, new_loop, evict, evict_over_budget, push_frame, frame_resident_bytes,
}
use shinken.Session.Frames.Queues.{IsAccounted}
use shinken.Session.Frames.Laws.{run-IsAccounted}
use shinken.Session.Frames.Budget.{evict_sentinel}
use shinken.Session.Frames.Within.{run-used}

-- A frame of `n` bytes.
abbrev of_bytes : ℕ → Frame Unit
of_bytes n = record { image = some (record { raw = some n; ref = none }); tiles = []; rest = tt }

abbrev ops : List (Op Unit)
ops =
    push_op 0 (frame (of_bytes 6))
    ∷ push_op 1 (frame (of_bytes 3))
    ∷ push_op 1 stream_end
    ∷ push_op 1 (frame (of_bytes 2))
    ∷ pop_op 1
    ∷ []

-- The third frame is over the budget of ten, and the oldest one goes.
evicts_oldest :
    ((run (some 10) ops (new_loop 2)).used ≡ 2)
    × ((queue_of (run (some 10) ops (new_loop 2)).queues 0).frames ≡ [])
    × ((run (some 10) ops (new_loop 2)).order ≡ 1 ∷ 1 ∷ [])
unfolding run push_frame frame_resident_bytes queue_of shinken.Session.Frames.apply
    shinken.Session.Frames.pop
evicts_oldest = (refl, refl, refl)

run-IsAccounted_example : IsAccounted (run (some 10) ops (new_loop 2))
run-IsAccounted_example = run-IsAccounted (some 10) 2 ops

abbrev frames_only : List (Op Unit)
frames_only =
    push_op 0 (frame (of_bytes 6))
    ∷ push_op 1 (frame (of_bytes 3))
    ∷ push_op 1 (frame (of_bytes 4))
    ∷ pop_op 1
    ∷ clear_op 0
    ∷ push_op 0 (frame (of_bytes 9))
    ∷ []

run-used_example : (run (some 10) frames_only (new_loop 2)).used ≤ 10
run-used_example = run-used 10 2 frames_only (tt, (tt, (tt, (tt, (tt, (tt, tt))))))

-- A stream that ended, and a frame that came after it.
abbrev late : Queue Unit
late = record { frames = stream_end ∷ frame (of_bytes 6) ∷ []; queued_bytes = 6 ∷ [] }

abbrev stale : Loop Unit
stale = record { queues = late ∷ []; used = 6; count = 1; order = 0 ∷ [] }

queue_of-stale : queue_of stale.queues 0 ≡ late
unfolding queue_of
queue_of-stale = refl

evict_sentinel_example :
    evict 4 (0 ∷ []) stale
    ≡ evict 4 [] (record stale {
      queues =
          with_queue stale.queues 0
            (record { frames = frame (of_bytes 6) ∷ []; queued_bytes = 6 ∷ [] });
    })
evict_sentinel_example =
    evict_sentinel 4 0 [] (frame (of_bytes 6) ∷ []) 6 [] stale queue_of-stale (omega arith)
