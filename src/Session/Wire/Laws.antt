-- ===== src/Session/Wire/Laws.antt =====
-- The client reads what the runtime builds, and every payload lies within the frame.
use shinken.Prelude.{
  ◌+◌, ◌<◌, ◌≡◌, refl, sym, ap, ◌∙◌, String, false, none, some, List, [], ◌∷◌, ◌++◌, Result, ok,
  length, take, drop, ltb, if_false, arith, length-append, append_assoc,
}
use shinken.Prelude.Int.{ℤ, pos}
use shinken.Errors.{Exc}
use shinken.Session.Wire.{
  Bytes, Header, slice, required_slice, parse_image, parse_tiles, parse_chunk, cut, from_le,
  to_le_bytes, join, payloads_of, parse_at, parse_binary_frame, assemble_binary, binary_image_frame,
  binary_tiles_frame, binary_exec_output, as_image, as_chunk, gather, read_header, image_header,
  exec_header, tiles_header,
}
use shinken.Session.Wire.Slices.{
  drop-length, take-length, from_le-to_le_bytes, slice-join, parse_tiles-locate,
}

module _ {I X : Type 0} (loads : Bytes → Result Exc (Header I X)) (str : ℤ → String) where
  parse_at-joined :
      (head vec tail : Bytes) (h : Header I X)
      → length head ≡ 4
      → loads vec ≡ ok h
      → parse_at loads str (head ++ (vec ++ tail)) (length vec)
        ≡ cut str (head ++ (vec ++ tail)) (4 + length vec) h
  unfolding parse_at read_header
  parse_at-joined head vec tail h four l =
      if_false _ _ _ fits
      ∙ ap (λ r. read_header loads str (head ++ (vec ++ tail)) (4 + length vec) r)
          (ap loads (ap (λ bs. take (length vec) bs) rest ∙ take-length vec tail) ∙ l)
    where
      fits : ltb (length (head ++ (vec ++ tail))) (4 + length vec) ≡ false
      fits = ground (arith, length-append head (vec ++ tail), length-append vec tail)

      rest : drop 4 (head ++ (vec ++ tail)) ≡ vec ++ tail
      rest = ap (λ n. drop n (head ++ (vec ++ tail))) (sym four) ∙ drop-length head (vec ++ tail)

  -- A frame's header is found again where its length stands before it.
  parse-joined :
      (head vec tail : Bytes) (h : Header I X)
      → length head ≡ 4
      → from_le head ≡ length vec
      → loads vec ≡ ok h
      → parse_binary_frame loads str (head ++ (vec ++ tail))
        ≡ cut str (head ++ (vec ++ tail)) (4 + length vec) h
  unfolding parse_binary_frame
  parse-joined head vec tail h four n l =
      if_false _ _ _ fits
      ∙ (ap (λ m. parse_at loads str (head ++ (vec ++ tail)) m) (ap from_le first ∙ n)
          ∙ parse_at-joined head vec tail h four l)
    where
      fits : ltb (length (head ++ (vec ++ tail))) 4 ≡ false
      fits = ground (arith, length-append head (vec ++ tail))

      first : take 4 (head ++ (vec ++ tail)) ≡ head
      first = ap (λ m. take m (head ++ (vec ++ tail))) (sym four) ∙ take-length head (vec ++ tail)

module _ {I X : Type 0} (loads : Bytes → Result Exc (Header I X)) (to_vec : Header I X → Bytes)
    (str : ℤ → String) where
  -- The bytes before the payloads.
  front : Header I X → Bytes
  front h = to_le_bytes (length (to_vec h)) ++ to_vec h

  length-front : (h : Header I X) → length (front h) ≡ 4 + length (to_vec h)
  unfolding front to_le_bytes
  length-front h = omega arith

  assemble-front :
      (h : Header I X) (payloads : List Bytes)
      → assemble_binary to_vec h payloads ≡ front h ++ join payloads
  unfolding assemble_binary front
  assemble-front h payloads =
      sym (append_assoc (to_le_bytes (length (to_vec h))) (to_vec h) (join payloads))

  parse-assemble :
      (h : Header I X) (payloads : List Bytes)
      → loads (to_vec h) ≡ ok h
      → length (to_vec h) < 4294967296
      → parse_binary_frame loads str (assemble_binary to_vec h payloads)
        ≡ cut str (assemble_binary to_vec h payloads) (length (front h)) h
  unfolding assemble_binary
  parse-assemble h payloads l w =
      parse-joined loads str (to_le_bytes (length (to_vec h))) (to_vec h) (join payloads) h
        (unfold to_le_bytes in refl) (from_le-to_le_bytes (length (to_vec h)) w) l
      ∙ ap (λ n. cut str (assemble_binary to_vec h payloads) n h) (sym (length-front h))

  whole :
      (h : Header I X) (bytes : Bytes)
      → slice str
          (assemble_binary to_vec h (bytes ∷ []))
          (length (front h))
          (pos 0)
          (pos (length bytes))
        ≡ ok bytes
  unfolding join
  whole h bytes =
      ap (λ raw. slice str raw (length (front h)) (pos 0) (pos (length bytes)))
        (assemble-front h (bytes ∷ []))
      ∙ slice-join str (front h) [] bytes []

  length-assemble :
      (h : Header I X) (payloads : List Bytes)
      → length (assemble_binary to_vec h payloads) ≡ 4 + length (to_vec h) + length (join payloads)
  length-assemble h payloads =
      ap length (assemble-front h payloads)
      ∙ omega (arith, length-append (front h) (join payloads), length-front h)

  -- A screenshot that the runtime sends as a binary frame is read with the same bytes and metadata and
  -- with the frame's size, if the JSON header is read as it was written and its length fits 32 bits.
  pub parse-binary_image_frame :
      (rest : X) (info : I) (bytes : Bytes)
      → loads (to_vec (image_header rest info (length bytes)))
        ≡ ok (image_header rest info (length bytes))
      → length (to_vec (image_header rest info (length bytes))) < 4294967296
      → parse_binary_frame loads str (binary_image_frame to_vec rest info bytes)
        ≡ ok (record {
          image = some (bytes, info);
          tiles = [];
          chunk = none;
          rest = rest;
          wire_len = length (binary_image_frame to_vec rest info bytes);
        })
  unfolding binary_image_frame cut parse_image parse_tiles parse_chunk
  parse-binary_image_frame rest info bytes l w =
      let h = image_header rest info (length bytes) in
      let raw = assemble_binary to_vec h (bytes ∷ []) in
      parse-assemble h (bytes ∷ []) l w
      ∙ ap (λ r. gather rest (length raw) (as_image info r) (ok []) (ok none)) (whole h bytes)

  -- A chunk of an exec's output that is sent as a binary frame is read with the same bytes, on the
  -- same conditions.
  pub parse-binary_exec_output :
      (rest : X) (bytes : Bytes)
      → loads (to_vec (exec_header rest (length bytes))) ≡ ok (exec_header rest (length bytes))
      → length (to_vec (exec_header rest (length bytes))) < 4294967296
      → parse_binary_frame loads str (binary_exec_output to_vec rest bytes)
        ≡ ok (record {
          image = none;
          tiles = [];
          chunk = some bytes;
          rest = rest;
          wire_len = length (binary_exec_output to_vec rest bytes);
        })
  unfolding binary_exec_output cut parse_image parse_tiles parse_chunk required_slice
  parse-binary_exec_output rest bytes l w =
      let h = exec_header rest (length bytes) in
      let raw = assemble_binary to_vec h (bytes ∷ []) in
      parse-assemble h (bytes ∷ []) l w
      ∙ ap (λ r. gather rest (length raw) (ok none) (ok []) (as_chunk r)) (whole h bytes)

  -- The changed tiles of a screencast frame are read in order, each with its own bytes and metadata, on
  -- the same conditions.
  pub parse-binary_tiles_frame :
      (rest : X) (tiles : List (Bytes × I))
      → loads (to_vec (tiles_header rest tiles)) ≡ ok (tiles_header rest tiles)
      → length (to_vec (tiles_header rest tiles)) < 4294967296
      → parse_binary_frame loads str (binary_tiles_frame to_vec rest tiles)
        ≡ ok (record {
          image = none;
          tiles = tiles;
          chunk = none;
          rest = rest;
          wire_len = length (binary_tiles_frame to_vec rest tiles);
        })
  unfolding binary_tiles_frame cut parse_image parse_chunk tiles_header
  parse-binary_tiles_frame rest tiles l w =
      let h = tiles_header rest tiles in
      let raw = assemble_binary to_vec h (payloads_of tiles) in
      parse-assemble h (payloads_of tiles) l w
      ∙ ap (λ r. gather rest (length raw) (ok none) r (ok none))
          (parse_tiles-locate str (front h) [] tiles raw (assemble-front h (payloads_of tiles)))
