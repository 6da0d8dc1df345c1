-- ===== src/A11y/Diff/Buckets.antt =====
-- What the two loops of diff_elements compute: one block of each kind for each key.
use mathlib.Core.List.{append_assoc, append-nil}
use shinken.Prelude.{
  All, ℕ, zero, suc, ◌≡◌, refl, sym, ap, ◌∙◌, false, not, ◌||◌, List, [], ◌∷◌, ◌++◌, map, arith,
  length, drop, drop_all, filter, ◌==◌, Bool-cases, inl, inr, if◌then◌else◌,
}
use shinken.Prelude.Dict
use shinken.Prelude.Keyed.{
  elem, IsDistinct, elem-append, elem-filter, filter-IsDistinct, append-IsDistinct, elem-keys,
  keys-IsDistinct, with_key,
}
use shinken.A11y.Node.{Element}
use shinken.A11y.Diff.{
  ElementKey, element_key_eq, element_key, same_content, Buckets, bucket, group, has, diff_keys,
  Changes, compare_bucket,
}

-- The elements of a bucket whose partner differs, as the inner loop reports them.
unfoldable pub differing : List Element → List Element → List Element
differing [] cs = []
differing (p ∷ ps) [] = []
differing (p ∷ ps) (c ∷ cs) =
    let rest = differing ps cs in if same_content p c then rest else c ∷ rest

abbrev pub append_changes : Changes → Changes → Changes
append_changes a b = record {
  added = a.added ++ b.added;
  removed = a.removed ++ b.removed;
  changed = a.changed ++ b.changed;
}

abbrev pub bucket_changes : List Element → List Element → Changes
bucket_changes ps cs = record {
  added = drop (length ps) cs;
  removed = drop (length cs) ps;
  changed = differing ps cs;
}

pub differing_nil : (ps : List Element) → differing ps [] ≡ []
unfolding differing
differing_nil [] = refl
differing_nil (p ∷ ps) = refl

pub Changes_eq :
    (a b : Changes) → a.added ≡ b.added → a.removed ≡ b.removed → a.changed ≡ b.changed → a ≡ b
Changes_eq a b x y z i = record { added = x i; removed = y i; changed = z i }

pub drop_nil : (n : ℕ) → drop {A = Element} n [] ≡ []
drop_nil n = drop_all n [] (omega arith)

pub compare_bucket_lem :
    (ps cs : List Element) (acc : Changes)
    → compare_bucket ps cs acc ≡ append_changes acc (bucket_changes ps cs)
unfolding compare_bucket differing
compare_bucket_lem [] [] acc = simp append-nil
compare_bucket_lem [] (c ∷ cs) acc =
    compare_bucket_lem [] cs (record acc { added = acc.added ++ c ∷ [] })
    ∙ Changes_eq _ _ (append_assoc acc.added (c ∷ []) cs)
        (ap (λ l. acc.removed ++ l) (drop_nil (length cs))) refl
compare_bucket_lem (p ∷ ps) [] acc =
    compare_bucket_lem ps [] (record acc { removed = acc.removed ++ p ∷ [] })
    ∙ Changes_eq _ _ (ap (λ l. acc.added ++ l) (drop_nil (length ps)))
        (append_assoc acc.removed (p ∷ []) ps) (ap (λ l. acc.changed ++ l) (differing_nil ps))
compare_bucket_lem (p ∷ ps) (c ∷ cs) acc = elim (Bool-cases (same_content p c)) [
  | inl same ↦ rw (same, differing) (compare_bucket_lem ps cs acc)
  | inr other ↦
      rw (other, differing)
        (compare_bucket_lem ps cs (record acc { changed = acc.changed ++ c ∷ [] })
          ∙ Changes_eq _ _ refl refl (append_assoc acc.changed (c ∷ []) (differing ps cs)))
]

-- The block of one key.
abbrev pub key_changes : Buckets → Buckets → ElementKey → Changes
key_changes prev curr k = bucket_changes (bucket k prev) (bucket k curr)

bucket_step :
    (k : ElementKey) (el : Element) (els : List Element) (d : Buckets)
    → bucket k (Dict.insert (element_key el) (bucket (element_key el) d ++ el ∷ []) d)
        ++ with_key element_key k els
      ≡ bucket k d ++ with_key element_key k (el ∷ els)
unfolding bucket
bucket_step k el els d = rw Dict.lookup-insert (elim (Bool-cases (element_key el == k)) [
  | inl same ↦
      let own : element_key el ≡ k = (element_key_eq.eqb_iff (element_key el) k).0 same in
      rw same (
        append_assoc (bucket (element_key el) d) (el ∷ []) (with_key element_key k els)
        ∙ ap (λ j. bucket j d ++ el ∷ with_key element_key k els) own)
  | inr other ↦ rw other
])

bucket-group :
    (k : ElementKey) (els : List Element) (d : Buckets)
    → bucket k (group els d) ≡ bucket k d ++ with_key element_key k els
unfolding group bucket
bucket-group k [] d = sym (append-nil _)
bucket-group k (el ∷ els) d =
    bucket-group k els (Dict.insert (element_key el) (bucket (element_key el) d ++ el ∷ []) d)
    ∙ bucket_step k el els d

-- A bucket holds the elements of its key, in document order.
pub bucket_lem :
    (k : ElementKey) (els : List Element) → bucket k (group els []) ≡ with_key element_key k els
bucket_lem k els = bucket-group k els [] ∙ unfold bucket Dict.lookup in refl

abbrev pub HasKey : ElementKey → List Element → Type 0
HasKey k els = All (λ el. element_key el ≡ k) els

pub with_key-HasKey : (k : ElementKey) (els : List Element) → HasKey k (with_key element_key k els)
with_key-HasKey k [] = tt
with_key-HasKey k (el ∷ els) = elim (Bool-cases (element_key el == k)) [
  | inl same ↦ rw same ((element_key_eq.eqb_iff (element_key el) k).0 same, with_key-HasKey k els)
  | inr other ↦ rw other (with_key-HasKey k els)
]

pub drop-HasKey :
    (n : ℕ) (k : ElementKey) (els : List Element) → HasKey k els → HasKey k (drop n els)
drop-HasKey zero k els h = h
drop-HasKey (suc n) k [] h = h
drop-HasKey (suc n) k (el ∷ els) h = drop-HasKey n k els h.1

pub differing-HasKey :
    (k : ElementKey) (ps cs : List Element) → HasKey k cs → HasKey k (differing ps cs)
unfolding differing
differing-HasKey k [] cs h = tt
differing-HasKey k (p ∷ ps) [] h = tt
differing-HasKey k (p ∷ ps) (c ∷ cs) h = elim (Bool-cases (same_content p c)) [
  | inl same ↦ rw same (differing-HasKey k ps cs h.1)
  | inr other ↦ rw other (h.0, differing-HasKey k ps cs h.1)
]

-- Of a list of one key's elements, another key selects nothing.
pub HasKey-with_key :
    (k j : ElementKey) (els : List Element)
    → HasKey k els
    → with_key element_key j els ≡ (if k == j then els else [])
HasKey-with_key k j [] h = ground arith
HasKey-with_key k j (el ∷ els) h = rw h.0 (elim (Bool-cases (k == j)) [
  | inl same ↦
      let rest : with_key element_key j els ≡ els = rw same at (HasKey-with_key k j els h.1) in
      rw (same, rest)
  | inr other ↦
      let rest : with_key element_key j els ≡ [] = rw other at (HasKey-with_key k j els h.1) in
      rw (other, rest)
])

-- The keys of the buckets are distinct, and they are those of the elements.
group-NodupKeys :
    (els : List Element) (d : Buckets) → Dict.NodupKeys d → Dict.NodupKeys (group els d)
unfolding group
group-NodupKeys [] d h = h
group-NodupKeys (el ∷ els) d h =
    group-NodupKeys els (Dict.insert (element_key el) (bucket (element_key el) d ++ el ∷ []) d)
      (Dict.insert-NodupKeys (element_key el) (bucket (element_key el) d ++ el ∷ []) d h)

has-group :
    (k : ElementKey) (els : List Element) (d : Buckets)
    → has k (group els d) ≡ (has k d || elem k (map element_key els))
unfolding group has
has-group k [] d = ground arith
has-group k (el ∷ els) d =
    let v = bucket (element_key el) d ++ el ∷ [] in
    ground (
      arith,
      has-group k els (Dict.insert (element_key el) v d),
      Dict.lookup-insert (element_key el) k v d,
    )

elem-keys-has : (k : ElementKey) (d : Buckets) → elem k (Dict.keys d) ≡ has k d
unfolding has
elem-keys-has k d = ground (arith, elem-keys k d)

pub diff_keys-IsDistinct :
    (prev curr : List Element) → IsDistinct (diff_keys (group prev []) (group curr []))
unfolding diff_keys
diff_keys-IsDistinct prev curr =
    let ps = group prev [] in
    let cs = group curr [] in
    append-IsDistinct (Dict.keys ps) (filter (λ k. not (has k ps)) (Dict.keys cs))
      (keys-IsDistinct ps (group-NodupKeys prev [] tt))
      (filter-IsDistinct (λ k. not (has k ps)) (Dict.keys cs)
        (keys-IsDistinct cs (group-NodupKeys curr [] tt)))
      λ k h. ground (arith, elem-filter k (λ j. not (has j ps)) (Dict.keys cs), elem-keys-has k ps)

pub elem-diff_keys :
    (k : ElementKey) (prev curr : List Element)
    → elem k (diff_keys (group prev []) (group curr []))
      ≡ (elem k (map element_key prev) || elem k (map element_key curr))
unfolding diff_keys
elem-diff_keys k prev curr =
    let ps = group prev [] in
    let cs = group curr [] in
    let none_before : (d : Buckets) → d ≡ [] → has k d ≡ false =
      λ d e. rw e (unfold has Dict.lookup in refl) in
    ground (
      arith,
      elem-append k (Dict.keys ps) (filter (λ j. not (has j ps)) (Dict.keys cs)),
      elem-filter k (λ j. not (has j ps)) (Dict.keys cs),
      elem-keys-has k ps,
      elem-keys-has k cs,
      has-group k prev [],
      has-group k curr [],
      none_before [] refl,
    )
