-- ===== src/Session/Shots.antt =====
-- AsyncSandbox.screenshot of client.py with its deduplication: what is offered to the runtime, and what
-- its reply makes of the session and of the shared cache of frames. `key` names the parameters of the
-- capture. A frame is its encoded content and its two pieces of metadata that a reply may renew.
pub mod Truth
pub mod Laws
mod Tests
use shinken.Prelude.{
  String, string_eq, Bool, true, false, Option, none, some, List, Result, ok, raised,
}
use shinken.Prelude.Dict
use shinken.Prelude.Dict.{Dict}
use shinken.Errors.{Exc, runtime_error}
use shinken.FrameCache
use shinken.FrameCache.{FrameCache, candidate, touch, put, record_hit, run, Op}

pub record Frame (X D : Type 0) : Type 0 where
  pub content : X
  pub display : Option D
  pub pointer : Option D

-- A reply to the capture; its `frame_hash` is `none` where the runtime computed none.
pub data Reply (X D : Type 0) : Type 0 where
  observation : Frame X D → Option String → Reply X D
  not_modified : Option String → Option D → Option D → Reply X D
  failed : Option String → Reply X D

pub record Shot (X D : Type 0) : Type 0 where
  pub frame : Frame X D
  pub deduped : Bool
  pub frame_hash : Option String

pub record Shots (X D : Type 0) : Type 0 where
  pub last_shot : Dict String (String × Frame X D)
  pub cache : FrameCache (Frame X D)

unfoldable pub or_else : {A : Type 0} → Option A → Option A → Option A
or_else (some a) b = some a
or_else none b = b

module _ {X D : Type 0} where
  offer : String → Option (String × Frame X D) → Shots X D → Option (String × Frame X D) × Shots X D
  offer key (some c) s = (some c, s)
  offer key none s = let (c, cache) = candidate key s.cache in (c, record s { cache = cache })

  -- The frame whose hash goes along as `if_none_match`: this session's last, else the cache's.
  unfoldable pub ask : Bool → String → Shots X D → Option (String × Frame X D) × Shots X D
  unfolding offer Dict.lookup
  ask false key s = (none, s)
  ask true key s = offer key (Dict.lookup key s.last_shot) s

  -- A new frame is kept under its hash.
  keep : Bool → String → Option String → Frame X D → Shots X D → Shots X D
  unfolding Dict.insert
  keep false key h f s = s
  keep true key none f s = record s { cache = record_hit false s.cache }
  keep true key (some h) f s = record s {
    last_shot = Dict.insert key (h, f) s.last_shot;
    cache = record_hit false (put key h f s.cache);
  }

  unfoldable pub answer :
      Bool
      → String
      → Option (String × Frame X D)
      → Reply X D
      → Shots X D
      → Result Exc (Shot X D) × Shots X D
  unfolding keep or_else Dict.insert
  answer dedup key c (failed none) s =
      (raised (record { class = runtime_error; message = "screenshot failed" }), s)
  answer dedup key c (failed (some e)) s =
      (raised (record { class = runtime_error; message = e }), s)
  answer dedup key none (not_modified h display pointer) s = (
    raised (record {
      class = runtime_error;
      message = "runtime sent not_modified to a request without if_none_match";
    }),
    s,
  )
  answer dedup key (some (g, f)) (not_modified h display pointer) s = (
    ok (record {
      frame = record f { display = or_else display f.display; pointer = or_else pointer f.pointer };
      deduped = true;
      frame_hash = or_else h (some g);
    }),
    record s {
      last_shot = Dict.insert key (g, f) s.last_shot;
      cache = record_hit true (touch key g s.cache);
    },
  )
  answer dedup key c (observation f h) s =
      (ok (record { frame = f; deduped = false; frame_hash = h }), keep dedup key h f s)

  -- A capture: `more` is what other sessions do to the cache while the reply is waited for, and `runtime`
  -- what the runtime makes of the hash that is offered.
  unfoldable pub screenshot :
      Bool
      → String
      → List (Op (Frame X D))
      → (Option (String × Frame X D) → Reply X D)
      → Shots X D
      → Result Exc (Shot X D) × Shots X D
  unfolding ask answer run
  screenshot dedup key more runtime s =
      let (c, s') = ask dedup key s in
      answer dedup key c (runtime c) (record s' { cache = run more s'.cache })
