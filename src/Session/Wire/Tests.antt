-- ===== src/Session/Wire/Tests.antt =====
-- Frames of a few bytes. The JSON library is that of a reader that knows one header only.
use shinken.Prelude.{
  ℕ, ◌≡◌, refl, String, none, some, List, [], ◌∷◌, Result, ok, raised, arith, ◌==◌, ◌&&◌,
  if◌then◌else◌, nat_eq,
}
use shinken.Prelude.Int.{ℤ}
use shinken.Errors.{Exc, value_error}
use shinken.Session.Wire.{
  Bytes, Header, tiles_header, image_header, parse_binary_frame, binary_image_frame,
  binary_tiles_frame,
}
use shinken.Session.Wire.Laws.{parse-binary_image_frame, parse-binary_tiles_frame}

abbrev str : ℤ → String
str n = "n"

-- `{}` stands for the header `h`.
abbrev to_vec : Header ℕ ℕ → Bytes
to_vec h = 123 ∷ 125 ∷ []

abbrev reads : Header ℕ ℕ → Bytes → Result Exc (Header ℕ ℕ)
reads h (b ∷ c ∷ []) =
    if b == 123 && c == 125
    then ok h
    else raised (record { class = value_error; message = "Expecting value" })
reads h _ = raised (record { class = value_error; message = "Expecting value" })

abbrev tiles : List (Bytes × ℕ)
tiles = (7 ∷ 8 ∷ [], 1) ∷ ([], 2) ∷ (9 ∷ [], 3) ∷ []

tiles_frame : binary_tiles_frame to_vec 5 tiles ≡ 2 ∷ 0 ∷ 0 ∷ 0 ∷ 123 ∷ 125 ∷ 7 ∷ 8 ∷ 9 ∷ []
unfolding binary_tiles_frame
tiles_frame = refl

reads_tiles :
    parse_binary_frame (reads (tiles_header 5 tiles)) str (binary_tiles_frame to_vec 5 tiles)
    ≡ ok (record { image = none; tiles = tiles; chunk = none; rest = 5; wire_len = 9 })
unfolding parse_binary_frame binary_tiles_frame tiles_header
reads_tiles = refl

too_short :
    parse_binary_frame (reads (image_header 5 6 0)) str (1 ∷ 0 ∷ [])
    ≡ raised (record {
      class = value_error;
      message = "binary frame shorter than its 4-byte header length";
    })
unfolding parse_binary_frame
too_short = refl

parse-binary_image_frame_example :
    parse_binary_frame (reads (image_header 5 6 2)) str (binary_image_frame to_vec 5 6 (7 ∷ 8 ∷ []))
    ≡ ok (record { image = some (7 ∷ 8 ∷ [], 6); tiles = []; chunk = none; rest = 5; wire_len = 8 })
unfolding binary_image_frame
parse-binary_image_frame_example =
    parse-binary_image_frame (reads (image_header 5 6 2)) to_vec str 5 6 (7 ∷ 8 ∷ []) refl
      (omega arith)

parse-binary_tiles_frame_example :
    parse_binary_frame (reads (tiles_header 5 tiles)) str (binary_tiles_frame to_vec 5 tiles)
    ≡ ok (record { image = none; tiles = tiles; chunk = none; rest = 5; wire_len = 9 })
unfolding binary_tiles_frame
parse-binary_tiles_frame_example =
    parse-binary_tiles_frame (reads (tiles_header 5 tiles)) to_vec str 5 tiles refl (omega arith)
