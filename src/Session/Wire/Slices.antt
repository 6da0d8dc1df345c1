-- ===== src/Session/Wire/Slices.antt =====
-- Cutting a frame at the places where its parts were joined.
use shinken.Prelude.{
  ℕ, zero, suc, ◌+◌, ◌-◌, ◌≤◌, ◌<◌, ◌≡◌, refl, sym, ap, ◌∙◌, subst, String, true, List, [], ◌∷◌,
  ◌++◌, ok, length, take, drop, leb, if_true, arith, length-append, append_assoc,
}
use shinken.Prelude.Int.{ℤ, pos}
use shinken.Session.Wire.{
  Bytes, add_tile, slice, required_slice, parse_tiles, from_le, to_le_bytes, join, locate,
  payloads_of,
}

module _ {A : Type 0} where
  pub drop_past : (xs ys : List A) (k n : ℕ) → n ≡ length xs + k → drop n (xs ++ ys) ≡ drop k ys
  drop_past [] ys k n e = ap (λ m. drop m ys) (omega (arith, e))
  drop_past (x ∷ xs) ys k zero e = absurd (omega (arith, e))
  drop_past (x ∷ xs) ys k (suc n) e = drop_past xs ys k n (omega (arith, e))

  pub drop-length : (xs ys : List A) → drop (length xs) (xs ++ ys) ≡ ys
  drop-length [] ys = refl
  drop-length (x ∷ xs) ys = drop-length xs ys

  pub take-length : (xs ys : List A) → take (length xs) (xs ++ ys) ≡ xs
  take-length [] ys = refl
  take-length (x ∷ xs) ys = ap (λ zs. x ∷ zs) (take-length xs ys)

  pub length-take : (n : ℕ) (xs : List A) → n ≤ length xs → length (take n xs) ≡ n
  length-take zero xs h = refl
  length-take (suc n) [] h = absurd (omega arith)
  length-take (suc n) (x ∷ xs) h = ap suc (length-take n xs (omega arith))

-- A length that fits 32 bits is read back from its four bytes.
pub from_le-to_le_bytes : (n : ℕ) → n < 4294967296 → from_le (to_le_bytes n) ≡ n
unfolding from_le to_le_bytes
from_le-to_le_bytes n h = omega arith

module _ (str : ℤ → String) where
  pub slice-join :
      (front before bytes behind : Bytes)
      → slice str
          (front ++ (before ++ (bytes ++ behind)))
          (length front)
          (pos (length before))
          (pos (length bytes))
        ≡ ok bytes
  unfolding slice
  slice-join front before bytes behind =
      if_true _ _ _ fits
      ∙ ap ok (
          ap (λ bs. take (length bytes) bs)
            (drop_past front (before ++ (bytes ++ behind)) (length before) _ refl
              ∙ drop-length before (bytes ++ behind))
          ∙ take-length bytes behind)
    where
      fits :
          leb
            (length before + length bytes)
            (length (front ++ (before ++ (bytes ++ behind))) - length front)
          ≡ true
      fits = ground (
        arith,
        length-append front (before ++ (bytes ++ behind)),
        length-append before (bytes ++ behind),
        length-append bytes behind,
      )

  -- The tiles that are joined behind `before` are found again.
  pub parse_tiles-locate :
      {I : Type 0} (front before : Bytes) (tiles : List (Bytes × I)) (raw : Bytes)
      → raw ≡ front ++ (before ++ join (payloads_of tiles))
      → parse_tiles str raw (length front) (locate (length before) tiles) ≡ ok tiles
  unfolding parse_tiles locate payloads_of join required_slice add_tile
  parse_tiles-locate front before [] raw e = refl
  parse_tiles-locate front before ((bytes, info) ∷ tiles) raw e =
      ap
        (λ r.
          add_tile info r
            (parse_tiles str raw (length front) (locate (length before + length bytes) tiles)))
        here
      ∙ ap (λ r. add_tile info (ok bytes) r)
          (subst (λ n. parse_tiles str raw (length front) (locate n tiles) ≡ ok tiles)
            (length-append before bytes)
            (parse_tiles-locate front (before ++ bytes) tiles raw (
              e
              ∙ ap (λ bs. front ++ bs)
                  (sym (append_assoc before bytes (join (payloads_of tiles)))))))
    where
      here : slice str raw (length front) (pos (length before)) (pos (length bytes)) ≡ ok bytes
      here =
          subst
            (λ bs.
              slice str bs (length front) (pos (length before)) (pos (length bytes)) ≡ ok bytes)
            (sym e) (slice-join front before bytes (join (payloads_of tiles)))
