-- ===== src/A11y/Diff/Counts.antt =====
-- The counts of a diff add up, and a capture has no changes from itself.
use shinken.Prelude.{
  ℕ, ◌+◌, ◌-◌, ◌≡◌, refl, ap, ◌∙◌, Bool, true, List, [], ◌∷◌, map, arith, length, drop, drop_all,
  ◌||◌, eqb_refl, if◌then◌else◌,
}
use shinken.Prelude.Keyed.{
  elem, with_key, blocks, length-blocks, sum_over, sum_over-add, sum_over_eq, sum_over-with_key,
}
use shinken.A11y.Node.{Element}
use shinken.A11y.Diff.{
  ElementKey, element_key_eq, element_key, content, same_content, Buckets, bucket, group, diff_keys,
  Changes, diff_elements,
}
use shinken.A11y.Diff.Buckets.{
  differing, drop_nil, key_changes, bucket_lem, diff_keys-IsDistinct, elem-diff_keys,
}
use shinken.A11y.Diff.Laws.{all_changes, diff_changes, diff-with_key}

-- The pairs of a bucket that are unchanged.
alike : List Element → List Element → ℕ
alike [] cs = 0
alike (p ∷ ps) [] = 0
alike (p ∷ ps) (c ∷ cs) = (if same_content p c then 1 else 0) + alike ps cs

bucket_counts :
    (ps cs : List Element)
    → (alike ps cs + (length (drop (length ps) cs) + length (differing ps cs)) ≡ length cs)
      × (alike ps cs + (length (drop (length cs) ps) + length (differing ps cs)) ≡ length ps)
unfolding alike differing
bucket_counts [] [] = omega arith
bucket_counts [] (c ∷ cs) = omega arith
bucket_counts (p ∷ ps) [] = omega arith
bucket_counts (p ∷ ps) (c ∷ cs) = ground (arith, bucket_counts ps cs)

or_left : (a b : Bool) → a ≡ true → (a || b) ≡ true
or_left a b h = ground arith

or_right : (a b : Bool) → b ≡ true → (a || b) ≡ true
or_right a b h = ground arith

module _ (prev curr : List Element) where
  abbrev ps : Buckets
  ps = group prev []

  abbrev cs : Buckets
  cs = group curr []

  abbrev ks : List ElementKey
  ks = diff_keys ps cs

  covered :
      (els : List Element)
      → ((k : ElementKey) → elem k (map element_key els) ≡ true → elem k ks ≡ true)
      → sum_over (λ k. length (bucket k (group els []))) ks ≡ length els
  covered els cover =
      sum_over_eq (λ k. length (bucket k (group els []))) (λ k. length (with_key element_key k els))
        ks (λ k. ap (λ b. length b) (bucket_lem k els))
      ∙ sum_over-with_key element_key els ks (diff_keys-IsDistinct prev curr) cover

  alike_all : ℕ
  alike_all = sum_over (λ k. alike (bucket k ps) (bucket k cs)) ks

  length_kind :
      (kind : Changes → List Element)
      → (kind (all_changes ps cs ks) ≡ blocks element_key (λ k. kind (key_changes ps cs k)) ks)
      → length (kind (diff_elements prev curr).changes)
        ≡ sum_over (λ k. length (kind (key_changes ps cs k))) ks
  length_kind kind same =
      ap (λ c. length (kind c)) (diff_changes prev curr)
      ∙ ap (λ l. length l) same
      ∙ length-blocks element_key (λ k. kind (key_changes ps cs k)) ks

  -- The sum over the keys of three numbers whose sum is the size of a bucket.
  three_sums :
      (a d g : ElementKey → ℕ) (els : List Element)
      → ((k : ElementKey) → a k + (d k + g k) ≡ length (bucket k (group els [])))
      → ((k : ElementKey) → elem k (map element_key els) ≡ true → elem k ks ≡ true)
      → sum_over a ks + (sum_over d ks + sum_over g ks) ≡ length els
  three_sums a d g els each cover = omega (
    arith,
    sum_over-add a (λ k. d k + g k) ks,
    sum_over-add d g ks,
    sum_over_eq (λ k. a k + (d k + g k)) (λ k. length (bucket k (group els []))) ks each,
    covered els cover,
  )

  counts :
      let d = diff_elements prev curr in
      (alike_all + (length d.added + length d.changed) ≡ length curr)
      × (alike_all + (length d.removed + length d.changed) ≡ length prev)
  unfolding alike_all
  counts =
      let same : ElementKey → ℕ = λ k. alike (bucket k ps) (bucket k cs) in
      let plus : ElementKey → ℕ = λ k. length (key_changes ps cs k).added in
      let minus : ElementKey → ℕ = λ k. length (key_changes ps cs k).removed in
      let other : ElementKey → ℕ = λ k. length (key_changes ps cs k).changed in
      let cover_curr = λ (k : ElementKey) (h : elem k (map element_key curr) ≡ true).
        elem-diff_keys k prev curr ∙ or_right (elem k (map element_key prev)) _ h in
      let cover_prev = λ (k : ElementKey) (h : elem k (map element_key prev) ≡ true).
        elem-diff_keys k prev curr ∙ or_left _ (elem k (map element_key curr)) h in
      let split = λ (k : ElementKey). bucket_counts (bucket k ps) (bucket k cs) in
      (
        omega (
          arith,
          length_kind (λ c. c.added) refl,
          length_kind (λ c. c.changed) refl,
          three_sums same plus other curr (λ k. (split k).0) cover_curr,
        ),
        omega (
          arith,
          length_kind (λ c. c.removed) refl,
          length_kind (λ c. c.changed) refl,
          three_sums same minus other prev (λ k. (split k).1) cover_prev,
        ),
      )

  sizes :
      let d = diff_elements prev curr in (d.curr_count ≡ length curr) × (d.prev_count ≡ length prev)
  unfolding diff_elements
  sizes = (refl, refl)

  unchanged_lem :
      let d = diff_elements prev curr in
      d.unchanged ≡ length curr - length d.added - length d.changed
  unfolding diff_elements
  unchanged_lem = refl

  -- The counts of a diff add up on both sides: what is unchanged, changed or added is the current
  -- capture, and what is unchanged, changed or removed is the previous one. So the subtraction that
  -- gives `unchanged` never goes below zero.
  pub diff_counts :
      let d = diff_elements prev curr in
      (d.unchanged + (length d.changed + length d.added) ≡ d.curr_count)
      × (d.unchanged + (length d.changed + length d.removed) ≡ d.prev_count)
      × (d.curr_count ≡ length curr)
      × (d.prev_count ≡ length prev)
  diff_counts =
      let both = counts in
      let known = unchanged_lem in
      let size = sizes in
      (
        omega (arith, both.0, known, size.0),
        omega (arith, both.0, both.1, known, size.1),
        size.0,
        size.1,
      )

differing_before : (els : List Element) → differing [] els ≡ []
unfolding differing
differing_before els = refl

blocks_nil :
    (f : ElementKey → List Element) (ks : List ElementKey)
    → ((k : ElementKey) → f k ≡ [])
    → blocks element_key f ks ≡ []
blocks_nil f [] h = refl
blocks_nil f (k ∷ ks) h = rw (h k) (blocks_nil f ks h)

differing_self : (els : List Element) → differing els els ≡ []
unfolding differing same_content
differing_self [] = refl
differing_self (el ∷ els) = rw (eqb_refl (content el)) (differing_self els)

-- A capture compared with itself: nothing is reported, and every element is unchanged.
pub diff_self :
    (els : List Element)
    → let d = diff_elements els els in
      (d.added ≡ []) × (d.removed ≡ []) × (d.changed ≡ []) × (d.unchanged ≡ length els)
diff_self els =
    let b = λ (k : ElementKey). bucket k (group els []) in
    let keys = ks els els in
    let gone : (k : ElementKey) → drop (length (b k)) (b k) ≡ [] =
      λ k. drop_all (length (b k)) (b k) (omega arith) in
    let added = ap (λ c. c.added) (diff_changes els els) ∙ blocks_nil _ keys gone in
    let removed = ap (λ c. c.removed) (diff_changes els els) ∙ blocks_nil _ keys gone in
    let changed =
      ap (λ c. c.changed) (diff_changes els els) ∙ blocks_nil _ keys (λ k. differing_self (b k)) in
    let counts = diff_counts els els in
    (
      added,
      removed,
      changed,
      omega (
        arith,
        counts.0,
        counts.2,
        ap (λ (l : List Element). length l) added,
        ap (λ (l : List Element). length l) changed,
      ),
    )

-- The first diff, against an empty capture, reports every element as added: of each key the same
-- elements in the same order, and nothing as removed or changed.
pub diff_first :
    (els : List Element)
    → let d = diff_elements [] els in
      ((k : ElementKey) → with_key element_key k d.added ≡ with_key element_key k els)
      × (length d.added ≡ length els)
      × (d.removed ≡ [])
      × (d.changed ≡ [])
diff_first els =
    let keys = ks [] els in
    let empty : (k : ElementKey) → bucket k (group [] []) ≡ [] = λ k. bucket_lem k [] in
    let removed =
      ap (λ c. c.removed) (diff_changes [] els)
      ∙ blocks_nil _ keys (λ k. rw (empty k) (drop_nil (length (bucket k (group els []))))) in
    let changed =
      ap (λ c. c.changed) (diff_changes [] els)
      ∙ blocks_nil _ keys (λ k. rw (empty k) (differing_before (bucket k (group els [])))) in
    let counts = diff_counts [] els in
    (
      λ k. (diff-with_key [] els k).0,
      omega (
        arith,
        counts.0,
        counts.1,
        counts.2,
        counts.3,
        ap (λ (l : List Element). length l) changed,
      ),
      removed,
      changed,
    )
