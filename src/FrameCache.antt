-- ===== src/FrameCache.antt =====
-- The class FrameCache of sdk/python/src/shinken/client.py: the content-addressed screenshot
-- store behind `if_none_match`. Every method holds the lock for its whole body, so each is one
-- atomic step here, and the sessions that share a cache interleave as a list of operations.
-- A frame is a parameter: the cache never looks into one.
pub mod Invariant
pub mod Recency
pub mod Reads
mod Tests
use shinken.Prelude.{
  nat_eq, string_eq, pair_eq, Eq, ℕ, suc, ◌+◌, max, String, Bool, true, false, Option, none, some,
  List, [], ◌∷◌, length, ltb, ◌==◌, if◌then◌else◌,
}
use shinken.Prelude.Dict
use shinken.Prelude.Dict.{Dict}

-- (params_key, frame_hash)
abbrev pub Key : Type 0
Key = String × String

abbrev pub key_eq : Eq Key
key_eq = pair_eq

pub record FrameCache (F : Type 0) : Type 0 where
  pub entries : Dict Key F
  pub last : Dict String String
  pub max_entries : ℕ
  pub hits : ℕ
  pub misses : ℕ

module _ {F : Type 0} where
  -- `max(1, int(max_entries))`: a cap below one, a negative one too, is one.
  unfoldable pub init : ℕ → FrameCache F
  init n = record { entries = []; last = []; max_entries = max 1 n; hits = 0; misses = 0 }

  candidate_frame : String → String → Option F → FrameCache F → Option (String × F) × FrameCache F
  candidate_frame p h none c = (none, c)
  candidate_frame p h (some f) c =
      (some (h, f), record c { entries = Dict.move_to_end (p, h) c.entries })

  candidate_at : String → Option String → FrameCache F → Option (String × F) × FrameCache F
  unfolding candidate_frame
  candidate_at p none c = (none, c)
  candidate_at p (some h) c = candidate_frame p h (Dict.lookup (p, h) c.entries) c

  unfoldable pub candidate : String → FrameCache F → Option (String × F) × FrameCache F
  unfolding candidate_at
  candidate p c = candidate_at p (Dict.lookup p c.last) c

  lookup_frame : Key → Option F → FrameCache F → Option F × FrameCache F
  lookup_frame k none c = (none, c)
  lookup_frame k (some f) c = (some f, record c { entries = Dict.move_to_end k c.entries })

  unfoldable pub lookup : String → String → FrameCache F → Option F × FrameCache F
  unfolding lookup_frame
  lookup p h c = lookup_frame (p, h) (Dict.lookup (p, h) c.entries) c

unfoldable pub points_to : Option String → String → Bool
points_to none h = false
points_to (some g) h = g == h

-- Drops a candidate pointer to an evicted entry.
unfoldable pub unpoint : String → String → Dict String String → Dict String String
unfolding points_to
unpoint p h last = if points_to (Dict.lookup p last) h then Dict.erase p last else last

module _ {F : Type 0} where
  -- The `while` loop of `put`: the oldest entry stands first.
  unfoldable pub evict : ℕ → Dict Key F → Dict String String → Dict Key F × Dict String String
  unfolding unpoint
  evict cap [] last = ([], last)
  evict cap (((p, h), f) ∷ rest) last =
      let trimmed = evict cap rest (unpoint p h last) in
      if ltb cap (suc (length rest)) then trimmed else (((p, h), f) ∷ rest, last)

  unfoldable pub put : String → String → F → FrameCache F → FrameCache F
  unfolding evict
  put p h f c =
      let entries = Dict.move_to_end (p, h) (Dict.insert (p, h) f c.entries) in
      let (entries', last') = evict c.max_entries entries (Dict.insert p h c.last) in
      record c { entries = entries'; last = last' }

  touch_frame : String → String → Option F → FrameCache F → FrameCache F
  touch_frame p h none c = c
  touch_frame p h (some f) c = record c {
    entries = Dict.move_to_end (p, h) c.entries;
    last = Dict.insert p h c.last;
  }

  unfoldable pub touch : String → String → FrameCache F → FrameCache F
  unfolding touch_frame
  touch p h c = touch_frame p h (Dict.lookup (p, h) c.entries) c

  unfoldable pub record_hit : Bool → FrameCache F → FrameCache F
  record_hit true c = record c { hits = c.hits + 1 }
  record_hit false c = record c { misses = c.misses + 1 }

  -- `hits / total` as the pair of its two numbers.
  unfoldable pub hit_rate : FrameCache F → Option (ℕ × ℕ)
  hit_rate c = let total = c.hits + c.misses in if total == 0 then none else some (c.hits, total)

-- One call of a method by some session.
pub data Op (F : Type 0) : Type 0 where
  candidate_op : String → Op F
  lookup_op : String → String → Op F
  put_op : String → String → F → Op F
  touch_op : String → String → Op F
  record_op : Bool → Op F

module _ {F : Type 0} where
  unfoldable pub apply : Op F → FrameCache F → FrameCache F
  apply (candidate_op p) c = (candidate p c).1
  apply (lookup_op p h) c = (lookup p h c).1
  apply (put_op p h f) c = put p h f c
  apply (touch_op p h) c = touch p h c
  apply (record_op b) c = record_hit b c

  unfoldable pub run : List (Op F) → FrameCache F → FrameCache F
  run [] c = c
  run (op ∷ ops) c = run ops (apply op c)
