-- ===== src/Prelude/Dict.antt =====
-- Python's `dict` and `OrderedDict`: entries in insertion order, at most one for a key.
use Prim.Native.Nat.{◌+◌, ◌≤◌}
use mathlib.Core.Logic.{◌≢◌}
use mathlib.Core.Path.{◌≡◌, refl}
use mathlib.Core.List.{List, [], ◌∷◌, ◌++◌}
use mathlib.Core.Option.{Option, none, some}
use native.Mathlib.Omega.{arith}
use shinken.Prelude.Lists.{length, length-append}
use shinken.Prelude.Tests.{Eq, ◌==◌, eqb_refl, if◌then◌else◌}

abbrev pub Dict {ℓ κ} : Type ℓ → Type κ → Type (ℓ ⊔ κ)
Dict K V = List (K × V)

module _ {ℓ κ} {K : Type ℓ} {V : Type κ} where
  abbrev pub keys : Dict K V → List K
  keys [] = []
  keys ((k, v) ∷ d) = k ∷ keys d

module _ {ℓ κ} {K : Type ℓ} {V : Type κ} ⦃e : Eq K⦄ where
  -- `d.get(k)`
  unfoldable pub lookup : K → Dict K V → Option V
  lookup k [] = none
  lookup k ((j, v) ∷ d) = if j == k then some v else lookup k d

  -- `d[k] = v`: a key that is present keeps its place.
  unfoldable pub insert : K → V → Dict K V → Dict K V
  insert k v [] = (k, v) ∷ []
  insert k v ((j, w) ∷ d) = if j == k then (j, v) ∷ d else (j, w) ∷ insert k v d

  -- `d.pop(k, None)`
  unfoldable pub erase : K → Dict K V → Dict K V
  erase k [] = []
  erase k ((j, w) ∷ d) = let rest = erase k d in if j == k then rest else (j, w) ∷ rest

  unfoldable pub at_end : K → Option V → Dict K V → Dict K V
  at_end k none d = d
  at_end k (some v) d = erase k d ++ (k, v) ∷ []

  -- `d.move_to_end(k)`, for a key that is present.
  unfoldable pub move_to_end : K → Dict K V → Dict K V
  unfolding lookup erase at_end
  move_to_end k d = at_end k (lookup k d) d

  abbrev pub NodupKeys : Dict K V → Type κ
  NodupKeys [] = Unit
  NodupKeys ((k, v) ∷ d) = (lookup k d ≡ none) × NodupKeys d

  pub lookup-nil : (k : K) → lookup k [] ≡ none
  unfolding lookup
  lookup-nil k = refl

  pub lookup-cons :
      (k j : K) (v : V) (d : Dict K V)
      → lookup k ((j, v) ∷ d) ≡ (if j == k then some v else lookup k d)
  unfolding lookup
  lookup-cons k j v d = refl

  pub lookup-insert :
      (k j : K) (v : V) (d : Dict K V)
      → lookup j (insert k v d) ≡ (if k == j then some v else lookup j d)
  unfolding lookup insert
  lookup-insert k j v [] = refl
  lookup-insert k j v ((i, w) ∷ d) =
      ground (arith, e.eqb_iff i k, e.eqb_iff i j, e.eqb_iff k j, lookup-insert k j v d)

  pub lookup-erase :
      (k j : K) (d : Dict K V) → lookup j (erase k d) ≡ (if k == j then none else lookup j d)
  unfolding lookup erase
  lookup-erase k j [] = ground arith
  lookup-erase k j ((i, w) ∷ d) =
      ground (arith, e.eqb_iff i k, e.eqb_iff i j, e.eqb_iff k j, lookup-erase k j d)

  pub lookup-insert_self : (k : K) (v : V) (d : Dict K V) → lookup k (insert k v d) ≡ some v
  lookup-insert_self k v d = rw (lookup-insert, eqb_refl)

  pub lookup-erase_self : (k : K) (d : Dict K V) → lookup k (erase k d) ≡ none
  lookup-erase_self k d = rw (lookup-erase, eqb_refl)

  pub lookup-append :
      (k : K) (c d : Dict K V)
      → lookup k (c ++ d) ≡ elim (lookup k c) [ none ↦ lookup k d | some v ↦ some v ]
  unfolding lookup
  lookup-append k [] d = refl
  lookup-append k ((j, v) ∷ c) d = ground (arith, lookup-append k c d)

  pub erase-insert : (k : K) (v : V) (d : Dict K V) → erase k (insert k v d) ≡ erase k d
  unfolding insert erase
  erase-insert k v [] = ground (arith, eqb_refl k)
  erase-insert k v ((j, w) ∷ d) = ground (arith, erase-insert k v d)

  pub erase-NodupKeys : (k : K) (d : Dict K V) → NodupKeys d → NodupKeys (erase k d)
  unfolding erase
  erase-NodupKeys k [] h = tt
  erase-NodupKeys k ((j, w) ∷ d) h = ground (arith, erase-NodupKeys k d h.1, lookup-erase k j d)

  pub append_one-NodupKeys :
      (d : Dict K V) (k : K) (v : V)
      → lookup k d ≡ none
      → NodupKeys d
      → NodupKeys (d ++ (k, v) ∷ [])
  unfolding lookup
  append_one-NodupKeys [] k v h n = (refl, tt)
  append_one-NodupKeys ((j, w) ∷ d) k v h n = (
    rw lookup-append (ground (arith, e.eqb_iff k j, e.eqb_iff j k)),
    append_one-NodupKeys d k v (ground arith) n.1,
  )

  at_end-insert :
      (k : K) (v : V) (d : Dict K V)
      → at_end k (lookup k (insert k v d)) (insert k v d) ≡ erase k d ++ (k, v) ∷ []
  unfolding at_end
  at_end-insert k v d = rw (lookup-insert k k v d) (rw (eqb_refl k) (rw (erase-insert k v d)))

  pub move_to_end-insert :
      (k : K) (v : V) (d : Dict K V) → move_to_end k (insert k v d) ≡ erase k d ++ (k, v) ∷ []
  unfolding move_to_end
  move_to_end-insert k v d = at_end-insert k v d

  lookup-at_end :
      (k j : K) (o : Option V) (d : Dict K V)
      → lookup k d ≡ o
      → lookup j (at_end k o d) ≡ lookup j d
  unfolding at_end
  lookup-at_end k j none d h = refl
  lookup-at_end k j (some v) d h =
      rw lookup-append (rw lookup-erase (unfold lookup in ground (arith, e.eqb_iff k j)))

  pub lookup-move_to_end : (k j : K) (d : Dict K V) → lookup j (move_to_end k d) ≡ lookup j d
  unfolding move_to_end
  lookup-move_to_end k j d = lookup-at_end k j (lookup k d) d refl

  pub insert-NodupKeys : (k : K) (v : V) (d : Dict K V) → NodupKeys d → NodupKeys (insert k v d)
  unfolding insert lookup
  insert-NodupKeys k v [] h = (refl, tt)
  insert-NodupKeys k v ((j, w) ∷ d) h =
      ground
        (arith, insert-NodupKeys k v d h.1, lookup-insert k j v d, e.eqb_iff j k, e.eqb_iff k j)

  at_end-NodupKeys : (k : K) (o : Option V) (d : Dict K V) → NodupKeys d → NodupKeys (at_end k o d)
  unfolding at_end
  at_end-NodupKeys k none d h = h
  at_end-NodupKeys k (some v) d h =
      append_one-NodupKeys (erase k d) k v (lookup-erase_self k d) (erase-NodupKeys k d h)

  pub move_to_end-NodupKeys : (k : K) (d : Dict K V) → NodupKeys d → NodupKeys (move_to_end k d)
  unfolding move_to_end
  move_to_end-NodupKeys k d h = at_end-NodupKeys k (lookup k d) d h

  pub length-erase-le : (k : K) (d : Dict K V) → length (erase k d) ≤ length d
  unfolding erase
  length-erase-le k [] = omega arith
  length-erase-le k ((j, w) ∷ d) = ground (arith, length-erase-le k d)

  length-erase-lt : (k : K) (d : Dict K V) → lookup k d ≢ none → length (erase k d) + 1 ≤ length d
  unfolding erase lookup
  length-erase-lt k [] h = absurd (h refl)
  length-erase-lt k ((j, w) ∷ d) h = ground (arith, length-erase-le k d, length-erase-lt k d)

  length-at_end :
      (k : K) (o : Option V) (d : Dict K V) → lookup k d ≡ o → length (at_end k o d) ≤ length d
  unfolding at_end
  length-at_end k none d h = omega arith
  length-at_end k (some v) d h =
      omega (arith, length-append (erase k d) ((k, v) ∷ []), length-erase-lt k d (λ e. cc))

  pub length-move_to_end : (k : K) (d : Dict K V) → length (move_to_end k d) ≤ length d
  unfolding move_to_end
  length-move_to_end k d = length-at_end k (lookup k d) d refl

pub ruleset dict_laws = (lookup-nil, lookup-insert, lookup-erase, lookup-move_to_end)
