-- ===== src/Prelude/Keyed.antt =====
-- Lists of distinct keys, and blocks of items, one for each key.
use Prim.Native.Nat.{ℕ, ◌+◌}
use mathlib.Core.Path.{◌≡◌, refl, ap, ◌∙◌, subst}
use mathlib.Core.List.{List, [], ◌∷◌, ◌++◌, map, append-nil}
use mathlib.Core.Logic.{inl, inr}
use mathlib.Core.Bool.{Bool, true, false, ◌||◌, ◌&&◌}
use mathlib.Core.Option.{none, some}
use native.Mathlib.Omega.{arith}
use shinken.Prelude.Lists.{length, length-append, filter, filter-append}
use shinken.Prelude.Tests.{Eq, ◌==◌, eqb_refl, Bool-cases, if◌then◌else◌}
use shinken.Prelude.Dict
use shinken.Prelude.Dict.{Dict}

module _ {ℓ} {K : Type ℓ} ⦃e : Eq K⦄ where
  -- `k in ks`
  abbrev pub elem : K → List K → Bool
  elem k [] = false
  elem k (j ∷ ks) = j == k || elem k ks

  abbrev pub IsDistinct : List K → Type 0
  IsDistinct [] = Unit
  IsDistinct (k ∷ ks) = (elem k ks ≡ false) × IsDistinct ks

  pub elem-append : (k : K) (xs ys : List K) → elem k (xs ++ ys) ≡ (elem k xs || elem k ys)
  elem-append k [] ys = refl
  elem-append k (x ∷ xs) ys = ground (arith, elem-append k xs ys)

  pub elem-filter : (k : K) (p : K → Bool) (xs : List K) → elem k (filter p xs) ≡ (elem k xs && p k)
  elem-filter k p [] = refl
  elem-filter k p (x ∷ xs) = ground (arith, e.eqb_iff x k, elem-filter k p xs)

  pub filter-IsDistinct : (p : K → Bool) (xs : List K) → IsDistinct xs → IsDistinct (filter p xs)
  filter-IsDistinct p [] h = tt
  filter-IsDistinct p (x ∷ xs) h = ground (arith, elem-filter x p xs, filter-IsDistinct p xs h.1)

  pub append-IsDistinct :
      (xs ys : List K)
      → IsDistinct xs
      → IsDistinct ys
      → ((k : K) → elem k xs ≡ true → elem k ys ≡ false)
      → IsDistinct (xs ++ ys)
  append-IsDistinct [] ys hx hy apart = hy
  append-IsDistinct (x ∷ xs) ys hx hy apart = (
    ground (arith, elem-append x xs ys, apart x, eqb_refl x),
    append-IsDistinct xs ys hx.1 hy (λ k h. apart k (ground arith)),
  )

module _ {ℓ κ} {K : Type ℓ} {V : Type κ} ⦃e : Eq K⦄ where
  pub elem-keys :
      (k : K) (d : Dict K V)
      → elem k (Dict.keys d) ≡ elim (Dict.lookup k d) [ none ↦ false | some v ↦ true ]
  unfolding Dict.lookup
  elem-keys k [] = refl
  elem-keys k ((j, v) ∷ d) = ground (arith, elem-keys k d)

  pub keys-IsDistinct : (d : Dict K V) → Dict.NodupKeys d → IsDistinct (Dict.keys d)
  keys-IsDistinct [] h = tt
  keys-IsDistinct ((k, v) ∷ d) h = (rw elem-keys (rw h.0), keys-IsDistinct d h.1)

-- The sum of a number for each key.
abbrev pub sum_over {ℓ} : {K : Type ℓ} → (K → ℕ) → List K → ℕ
sum_over n [] = 0
sum_over n (k ∷ ks) = n k + sum_over n ks

module _ {ℓ} {K : Type ℓ} where
  pub sum_over_zero : (ks : List K) → sum_over (λ k. 0) ks ≡ 0
  sum_over_zero [] = refl
  sum_over_zero (k ∷ ks) = omega (arith, sum_over_zero ks)

  pub sum_over-add :
      (m n : K → ℕ) (ks : List K) → sum_over (λ k. m k + n k) ks ≡ sum_over m ks + sum_over n ks
  sum_over-add m n [] = omega arith
  sum_over-add m n (k ∷ ks) = omega (arith, sum_over-add m n ks)

  pub sum_over_eq :
      (m n : K → ℕ) (ks : List K) → ((k : K) → m k ≡ n k) → sum_over m ks ≡ sum_over n ks
  sum_over_eq m n [] h = refl
  sum_over_eq m n (k ∷ ks) h = omega (arith, h k, sum_over_eq m n ks h)

module _ {ℓ κ} {K : Type ℓ} {V : Type κ} ⦃e : Eq K⦄ (key : V → K) where
  abbrev pub with_key : K → List V → List V
  with_key k xs = filter (λ x. key x == k) xs

  -- The blocks of the keys, one behind the other.
  abbrev pub blocks : (K → List V) → List K → List V
  blocks f [] = []
  blocks f (k ∷ ks) = f k ++ blocks f ks

  pub length-blocks :
      (f : K → List V) (ks : List K) → length (blocks f ks) ≡ sum_over (λ k. length (f k)) ks
  length-blocks f [] = refl
  length-blocks f (k ∷ ks) = omega (arith, length-append (f k) (blocks f ks), length-blocks f ks)

  with_key-blocks_none :
      (f : K → List V) (k : K) (ks : List K)
      → ((j : K) → with_key k (f j) ≡ (if j == k then f j else []))
      → elem k ks ≡ false
      → with_key k (blocks f ks) ≡ []
  with_key-blocks_none f k [] own h = refl
  with_key-blocks_none f k (j ∷ ks) own h = ground (
    arith,
    filter-append (λ x. key x == k) (f j) (blocks f ks),
    own j,
    with_key-blocks_none f k ks own,
  )

  -- Where the block of each key holds items of that key only, the items of one key are its block.
  pub with_key-blocks :
      (f : K → List V) (k : K) (ks : List K)
      → ((j : K) → with_key k (f j) ≡ (if j == k then f j else []))
      → IsDistinct ks
      → with_key k (blocks f ks) ≡ (if elem k ks then f k else [])
  with_key-blocks f k [] own h = refl
  with_key-blocks f k (j ∷ ks) own h =
      rw (filter-append (λ x. key x == k) (f j) (blocks f ks)) (elim (Bool-cases (j == k)) [
        | inl same ↦
            let here : with_key k (f j) ≡ f j = rw same at (own j) in
            let equal : j ≡ k = (e.eqb_iff j k).0 same in
            let rest = with_key-blocks_none f k ks own (subst (λ i. elem i ks ≡ false) equal h.0) in
            rw (here, rest, same) (append-nil (f j) ∙ ap f equal)
        | inr other ↦
            let here : with_key k (f j) ≡ [] = rw other at (own j) in
            rw (here, other) (with_key-blocks f k ks own h.1)
      ])

  sum_over-one :
      (k : K) (ks : List K)
      → IsDistinct ks
      → sum_over (λ j. if k == j then 1 else 0) ks ≡ (if elem k ks then 1 else 0)
  sum_over-one k [] h = refl
  sum_over-one k (j ∷ ks) h = ground (arith, sum_over-one k ks h.1, e.eqb_iff j k, e.eqb_iff k j)

  -- Distinct keys that cover a list count each item once.
  pub sum_over-with_key :
      (xs : List V) (ks : List K)
      → IsDistinct ks
      → ((k : K) → elem k (map key xs) ≡ true → elem k ks ≡ true)
      → sum_over (λ k. length (with_key k xs)) ks ≡ length xs
  sum_over-with_key [] ks h cover = sum_over_zero ks
  sum_over-with_key (x ∷ xs) ks h cover =
      let one : K → ℕ = λ k. if key x == k then 1 else 0 in
      let rest : K → ℕ = λ k. length (with_key k xs) in
      let split =
        sum_over_eq (λ k. length (with_key k (x ∷ xs))) (λ k. one k + rest k) ks
          (λ k. ground arith) in
      let single : sum_over one ks ≡ 1 =
        rw (sum_over-one (key x) ks h) (rw (cover (key x) (ground (arith, eqb_refl (key x))))) in
      omega (
        arith,
        split,
        sum_over-add one rest ks,
        single,
        sum_over-with_key xs ks h (λ k m. cover k (ground arith)),
      )
