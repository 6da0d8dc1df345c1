-- ===== src/FrameCache/Tests.antt =====
-- FrameCache on small sequences of calls. A frame is a number.
use shinken.Prelude.{
  ℕ, string_eq, pair_eq, ◌≡◌, refl, true, false, none, some, List, [], ◌∷◌, arith,
}
use shinken.Prelude.Dict
use shinken.FrameCache.{
  FrameCache, init, candidate, lookup, put, touch, record_hit, hit_rate, Op, candidate_op, put_op,
  record_op, apply, run,
}
use shinken.FrameCache.Invariant.{IsValid, run-IsValid}
use shinken.FrameCache.Recency.{put_survives}
use shinken.FrameCache.Reads.{Within, stored, lookup-run}

program : Unit {0}
unfolding init candidate lookup put touch record_hit hit_rate apply run Dict.lookup Dict.insert
    Dict.erase Dict.move_to_end
program = tt

-- Two sessions share a cache of two entries; the third frame evicts the one not read since.
abbrev calls : List (Op ℕ)
calls =
    put_op "screen|png" "a" 1
    ∷ put_op "screen|jpeg" "a" 2
    ∷ candidate_op "screen|png"
    ∷ record_op true
    ∷ put_op "window|png" "b" 3
    ∷ record_op false
    ∷ []

abbrev shared : FrameCache ℕ
shared = run calls (init 2)

calls-entries : Dict.keys shared.entries ≡ ("screen|png", "a") ∷ ("window|png", "b") ∷ []
unfolding program
calls-entries = refl

-- The pointer of the evicted frame is gone.
calls-candidates :
    ((candidate "screen|png" shared).0 ≡ some ("a", 1))
    × ((candidate "screen|jpeg" shared).0 ≡ none)
    × ((lookup "screen|jpeg" "a" shared).0 ≡ none)
    × (hit_rate shared ≡ some (1, 2))
unfolding program
calls-candidates = (refl, refl, refl, refl)

run-IsValid_example : IsValid shared
run-IsValid_example = run-IsValid 2 calls

put_survives_example :
    Dict.lookup
      ("screen|png", "c")
      (run (candidate_op "window|png" ∷ []) (put "screen|png" "c" 4 shared)).entries
    ≡ some 4
unfolding program stored
put_survives_example =
    put_survives "screen|png" "c" 4 (candidate_op "window|png" ∷ []) shared (run-IsValid 2 calls)
      (omega arith)

lookup-run_example : Within (lookup "screen|png" "a" shared).0 (some 1)
unfolding stored
lookup-run_example = lookup-run 2 calls "screen|png" "a"
