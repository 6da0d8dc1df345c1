-- ===== src/A11y/Diff/Laws.antt =====
-- diff_elements, key by key: what is reported as added, removed and changed.
use mathlib.Core.List.{append_assoc, append-nil}
use shinken.Prelude.{
  ◌≡◌, refl, sym, ap, ◌∙◌, false, List, [], ◌∷◌, map, arith, length, drop, ◌||◌, Bool-cases, inl,
  inr,
}
use shinken.Prelude.Keyed.{elem, with_key, blocks, with_key-blocks}
use shinken.A11y.Node.{Element}
use shinken.A11y.Diff.{
  ElementKey, element_key_eq, element_key, Buckets, bucket, group, diff_keys, Changes,
  compare_bucket, compare_keys, no_changes, diff_elements,
}
use shinken.A11y.Diff.Buckets.{
  differing, append_changes, key_changes, Changes_eq, compare_bucket_lem, bucket_lem, HasKey,
  with_key-HasKey, drop-HasKey, differing-HasKey, HasKey-with_key, diff_keys-IsDistinct,
  elem-diff_keys, drop_nil, differing_nil,
}

abbrev pub all_changes : Buckets → Buckets → List ElementKey → Changes
all_changes prev curr ks = record {
  added = blocks element_key (λ k. (key_changes prev curr k).added) ks;
  removed = blocks element_key (λ k. (key_changes prev curr k).removed) ks;
  changed = blocks element_key (λ k. (key_changes prev curr k).changed) ks;
}

compare_keys_lem :
    (prev curr : Buckets) (ks : List ElementKey) (acc : Changes)
    → compare_keys prev curr ks acc ≡ append_changes acc (all_changes prev curr ks)
unfolding compare_keys
compare_keys_lem prev curr [] acc =
    sym (Changes_eq _ _ (append-nil acc.added) (append-nil acc.removed) (append-nil acc.changed))
compare_keys_lem prev curr (k ∷ ks) acc =
    let here = key_changes prev curr k in
    let rest = all_changes prev curr ks in
    compare_keys_lem prev curr ks (compare_bucket (bucket k prev) (bucket k curr) acc)
    ∙ ap (λ a. append_changes a rest) (compare_bucket_lem (bucket k prev) (bucket k curr) acc)
    ∙ Changes_eq _ _ (append_assoc acc.added here.added rest.added)
        (append_assoc acc.removed here.removed rest.removed)
        (append_assoc acc.changed here.changed rest.changed)

pub diff_changes :
    (prev curr : List Element)
    → let ps = group prev [] in
      let cs = group curr [] in
      (diff_elements prev curr).changes ≡ all_changes ps cs (diff_keys ps cs)
unfolding diff_elements
diff_changes prev curr =
    let ps = group prev [] in
    let cs = group curr [] in compare_keys_lem ps cs (diff_keys ps cs) no_changes

module _ (prev curr : List Element) (k : ElementKey) where
  with_key_absent :
      (els : List Element) → elem k (map element_key els) ≡ false → with_key element_key k els ≡ []
  with_key_absent [] h = refl
  with_key_absent (el ∷ els) h = ground (arith, with_key_absent els)

  -- A kind of change whose blocks hold the elements of their keys.
  block-lem :
      (f : ElementKey → List Element)
      → ((j : ElementKey) → HasKey j (f j))
      → (elem k (map element_key prev) ≡ false → elem k (map element_key curr) ≡ false → f k ≡ [])
      → with_key element_key k (blocks element_key f (diff_keys (group prev []) (group curr [])))
        ≡ f k
  block-lem f own none_there =
      with_key-blocks element_key f k (diff_keys (group prev []) (group curr []))
        (λ j. HasKey-with_key j k (f j) (own j)) (diff_keys-IsDistinct prev curr)
      ∙ rw (elem-diff_keys k prev curr)
          (elim (Bool-cases (elem k (map element_key prev) || elem k (map element_key curr))) [
            | inl there ↦ rw there
            | inr absent ↦ rw absent (sym (none_there (ground arith) (ground arith)))
          ])

  -- Of the elements with one key, of which p stood in the previous capture and c stand in the
  -- current one, in document order: `added` holds the elements of c behind the first |p|,
  -- `removed` those of p behind the first |c|, and `changed` those of c whose partner at the same
  -- position of p has another content.
  pub diff-with_key :
      let p = with_key element_key k prev in
      let c = with_key element_key k curr in
      let d = diff_elements prev curr in
      (with_key element_key k d.added ≡ drop (length p) c)
      × (with_key element_key k d.removed ≡ drop (length c) p)
      × (with_key element_key k d.changed ≡ differing p c)
  diff-with_key =
      let ps = group prev [] in
      let cs = group curr [] in
      let own_of : (els : List Element) (j : ElementKey) → HasKey j (bucket j (group els [])) =
        λ els j. rw (bucket_lem j els) (with_key-HasKey j els) in
      let empty : (els : List Element)
          → elem k (map element_key els) ≡ false
          → bucket k (group els []) ≡ [] =
        λ els h. bucket_lem k els ∙ with_key_absent els h in
      (
        ap (λ c. with_key element_key k c.added) (diff_changes prev curr)
            ∙ block-lem (λ j. drop (length (bucket j ps)) (bucket j cs))
                (λ j. drop-HasKey (length (bucket j ps)) j (bucket j cs) (own_of curr j))
                (λ _ h. rw (empty curr h) (drop_nil (length (bucket k ps))))
            ∙ rw (bucket_lem k prev) (rw (bucket_lem k curr)),
        ap (λ c. with_key element_key k c.removed) (diff_changes prev curr)
            ∙ block-lem (λ j. drop (length (bucket j cs)) (bucket j ps))
                (λ j. drop-HasKey (length (bucket j cs)) j (bucket j ps) (own_of prev j))
                (λ h _. rw (empty prev h) (drop_nil (length (bucket k cs))))
            ∙ rw (bucket_lem k prev) (rw (bucket_lem k curr)),
        ap (λ c. with_key element_key k c.changed) (diff_changes prev curr)
            ∙ block-lem (λ j. differing (bucket j ps) (bucket j cs))
                (λ j. differing-HasKey j (bucket j ps) (bucket j cs) (own_of curr j))
                (λ _ h. rw (empty curr h) (differing_nil (bucket k ps)))
            ∙ rw (bucket_lem k prev) (rw (bucket_lem k curr)),
      )
