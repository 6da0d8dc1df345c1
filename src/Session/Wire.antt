-- ===== src/Session/Wire.antt =====
-- Binary media frames: `_parse_binary_frame` of client.py, and what builds them at the other end, in
-- shinkend/src/protocol.rs (assemble_binary, binary_image_frame_with_display, binary_tiles_frame,
-- binary_exec_output). A byte is a number. The JSON library is a parameter on both sides; the header
-- that it gives has the locators as fields and all else as values of a type that is not looked at.
mod Slices
pub mod Laws
mod Tests
use shinken.Prelude.{
  ℕ, zero, suc, ◌+◌, ◌-◌, ◌*◌, ◌/◌, ◌%◌, String, ◌<>◌, Bool, Option, none, some, List, [], ◌∷◌,
  ◌++◌, Result, ok, raised, length, take, drop, ltb, leb, if◌then◌else◌,
}
use shinken.Prelude.Int.{ℤ, pos, negsuc}
use shinken.Errors.{Exc, value_error, key_error}

abbrev pub Bytes : Type 0
Bytes = List ℕ

-- A payload that the header locates, with the other keys of its dictionary.
pub record Located (I : Type 0) : Type 0 where
  pub off : Option ℤ
  pub len : Option ℤ
  pub info : I

-- `msg["data"]`: absent or of another shape, or a locator with an `off`.
pub data Chunk : Type 0 where
  left_as_is : Chunk
  located : ℤ → Option ℤ → Chunk

pub record Header (I X : Type 0) : Type 0 where
  pub image : Option (Located I)
  pub tiles : List (Located I)
  pub chunk : Chunk
  pub rest : X

-- The header with the payloads in place of their locators; `chunk` is `none` where it is left as it is.
pub record Parsed (I X : Type 0) : Type 0 where
  pub image : Option (Bytes × I)
  pub tiles : List (Bytes × I)
  pub chunk : Option Bytes
  pub rest : X
  pub wire_len : ℕ

-- `int.from_bytes(…, "little")`
unfoldable pub from_le : Bytes → ℕ
from_le [] = 0
from_le (b ∷ bytes) = b + 256 * from_le bytes

unfoldable pub or_else : Option ℤ → ℤ → ℤ
or_else none d = d
or_else (some n) d = n

missing : String → Exc
missing key = record { class = key_error; message = key }

invalid : String → Exc
invalid message = record { class = value_error; message = message }

as_chunk : Result Exc Bytes → Result Exc (Option Bytes)
as_chunk (raised e) = raised e
as_chunk (ok bytes) = ok (some bytes)

module _ (str : ℤ → String) where
  outside : ℤ → ℤ → ℕ → Exc
  unfolding invalid
  outside off ln n = invalid (
      "payload slice ("
      <> (str off <> (", " <> (str ln <> (") outside payload of " <> str (pos n))))))

  -- `_slice`: Python's own slices stop at the end of the frame, so the bounds are checked first.
  unfoldable pub slice : Bytes → ℕ → ℤ → ℤ → Result Exc Bytes
  unfolding outside
  slice raw base (pos off) (pos ln) =
      if leb (off + ln) (length raw - base)
      then ok (take ln (drop (base + off) raw))
      else raised (outside (pos off) (pos ln) (length raw - base))
  slice raw base off ln = raised (outside off ln (length raw - base))

  -- A located payload whose two keys must be there.
  unfoldable pub required_slice : Bytes → ℕ → Option ℤ → Option ℤ → Result Exc Bytes
  unfolding missing slice
  required_slice raw base none len = raised (missing "off")
  required_slice raw base (some off) none = raised (missing "len")
  required_slice raw base (some off) (some len) = slice raw base off len

  unfoldable pub parse_chunk : Bytes → ℕ → Chunk → Result Exc (Option Bytes)
  unfolding required_slice as_chunk
  parse_chunk raw base left_as_is = ok none
  parse_chunk raw base (located off len) = as_chunk (required_slice raw base (some off) len)

module _ {I : Type 0} where
  as_image : I → Result Exc Bytes → Result Exc (Option (Bytes × I))
  as_image info (raised e) = raised e
  as_image info (ok bytes) = ok (some (bytes, info))

  add_tile : I → Result Exc Bytes → Result Exc (List (Bytes × I)) → Result Exc (List (Bytes × I))
  add_tile info (raised e) rest = raised e
  add_tile info (ok bytes) (raised e) = raised e
  add_tile info (ok bytes) (ok more) = ok ((bytes, info) ∷ more)

module _ {I : Type 0} (str : ℤ → String) where
  unfoldable pub parse_image : Bytes → ℕ → Option (Located I) → Result Exc (Option (Bytes × I))
  unfolding slice or_else as_image
  parse_image raw base none = ok none
  parse_image raw base (some l) =
      let off = or_else l.off (pos 0) in
      let len = or_else l.len (pos (length raw - base)) in
      as_image l.info (slice str raw base off len)

  unfoldable pub parse_tiles : Bytes → ℕ → List (Located I) → Result Exc (List (Bytes × I))
  unfolding required_slice add_tile
  parse_tiles raw base [] = ok []
  parse_tiles raw base (t ∷ tiles) =
      add_tile t.info (required_slice str raw base t.off t.len) (parse_tiles raw base tiles)

module _ {I X : Type 0} where
  gather :
      X
      → ℕ
      → Result Exc (Option (Bytes × I))
      → Result Exc (List (Bytes × I))
      → Result Exc (Option Bytes)
      → Result Exc (Parsed I X)
  gather rest n (raised e) tiles chunk = raised e
  gather rest n (ok image) (raised e) chunk = raised e
  gather rest n (ok image) (ok tiles) (raised e) = raised e
  gather rest n (ok image) (ok tiles) (ok chunk) =
      ok (record { image = image; tiles = tiles; chunk = chunk; rest = rest; wire_len = n })

module _ {I X : Type 0} (str : ℤ → String) where
  -- The payloads are cut out in this order: the image, the tiles, the data.
  unfoldable pub cut : Bytes → ℕ → Header I X → Result Exc (Parsed I X)
  unfolding gather parse_image parse_tiles parse_chunk
  cut raw base h =
      gather h.rest (length raw) (parse_image str raw base h.image)
        (parse_tiles str raw base h.tiles) (parse_chunk str raw base h.chunk)

module _ {I X : Type 0} (loads : Bytes → Result Exc (Header I X)) (str : ℤ → String) where
  read_header : Bytes → ℕ → Result Exc (Header I X) → Result Exc (Parsed I X)
  unfolding cut
  read_header raw base (raised e) = raised e
  read_header raw base (ok h) = cut str raw base h

  parse_at : Bytes → ℕ → Result Exc (Parsed I X)
  unfolding read_header invalid
  parse_at raw n =
      if ltb (length raw) (4 + n)
      then raised (
          invalid (
            "binary frame header_len "
            <> (str (pos n) <> (" exceeds frame size " <> str (pos (length raw))))))
      else read_header raw (4 + n) (loads (take n (drop 4 raw)))

  unfoldable pub parse_binary_frame : Bytes → Result Exc (Parsed I X)
  unfolding parse_at from_le invalid
  parse_binary_frame raw =
      if ltb (length raw) 4
      then raised (invalid "binary frame shorter than its 4-byte header length")
      else parse_at raw (from_le (take 4 raw))

-- `(n as u32).to_le_bytes()`
unfoldable pub to_le_bytes : ℕ → Bytes
to_le_bytes n =
    let w = n % 4294967296 in w % 256 ∷ w / 256 % 256 ∷ w / 65536 % 256 ∷ w / 16777216 % 256 ∷ []

unfoldable pub join : List Bytes → Bytes
join [] = []
join (p ∷ payloads) = p ++ join payloads

module _ {I : Type 0} where
  -- Each tile's offset is the sum of the lengths before it.
  unfoldable pub locate : ℕ → List (Bytes × I) → List (Located I)
  locate off [] = []
  locate off ((bytes, info) ∷ tiles) =
      record { off = some (pos off); len = some (pos (length bytes)); info = info }
      ∷ locate (off + length bytes) tiles

  unfoldable pub payloads_of : List (Bytes × I) → List Bytes
  payloads_of [] = []
  payloads_of ((bytes, info) ∷ tiles) = bytes ∷ payloads_of tiles

module _ {I X : Type 0} where
  -- The three headers that the runtime writes.
  abbrev pub image_header : X → I → ℕ → Header I X
  image_header rest info n = record {
    image = some (record { off = some (pos 0); len = some (pos n); info = info });
    tiles = [];
    chunk = left_as_is;
    rest = rest;
  }

  unfoldable pub tiles_header : X → List (Bytes × I) → Header I X
  unfolding locate
  tiles_header rest tiles = record {
    image = none;
    tiles = locate 0 tiles;
    chunk = left_as_is;
    rest = rest;
  }

  abbrev pub exec_header : X → ℕ → Header I X
  exec_header rest n = record {
    image = none;
    tiles = [];
    chunk = located (pos 0) (some (pos n));
    rest = rest;
  }

module _ {I X : Type 0} (to_vec : Header I X → Bytes) where
  unfoldable pub assemble_binary : Header I X → List Bytes → Bytes
  unfolding to_le_bytes join
  assemble_binary h payloads = to_le_bytes (length (to_vec h)) ++ (to_vec h ++ join payloads)

  unfoldable pub binary_image_frame : X → I → Bytes → Bytes
  unfolding assemble_binary
  binary_image_frame rest info bytes =
      assemble_binary (image_header rest info (length bytes)) (bytes ∷ [])

  unfoldable pub binary_tiles_frame : X → List (Bytes × I) → Bytes
  unfolding assemble_binary tiles_header payloads_of
  binary_tiles_frame rest tiles = assemble_binary (tiles_header rest tiles) (payloads_of tiles)

  unfoldable pub binary_exec_output : X → Bytes → Bytes
  unfolding assemble_binary
  binary_exec_output rest bytes = assemble_binary (exec_header rest (length bytes)) (bytes ∷ [])
