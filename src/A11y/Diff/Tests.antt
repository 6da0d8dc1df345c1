-- ===== src/A11y/Diff/Tests.antt =====
-- Two small captures and their diff.
use shinken.Prelude.{String, ◌≡◌, ◌+◌, refl, none, some, List, [], ◌∷◌, length, drop}
use shinken.Prelude.Dict
use shinken.Prelude.Keyed.{with_key}
use shinken.A11y.Node.{Element}
use shinken.A11y.Diff.{rn, element_key_eq, element_key, same_content, diff_elements}
use shinken.A11y.Diff.Buckets.{differing}
use shinken.A11y.Diff.Laws.{diff-with_key}
use shinken.A11y.Diff.Counts.{diff_counts}

abbrev row : String → String → Element
row name value = record {
  ref = none;
  role = some "row";
  name = some name;
  value = some value;
  bbox = none;
  states = none;
  provenance = none;
  source = none;
}

abbrev before : List Element
before = row "a" "1" ∷ row "b" "1" ∷ row "a" "2" ∷ []

abbrev now : List Element
now = row "b" "2" ∷ row "a" "1" ∷ row "c" "1" ∷ []

changes :
    ((diff_elements before now).added ≡ row "c" "1" ∷ [])
    × ((diff_elements before now).removed ≡ row "a" "2" ∷ [])
    × ((diff_elements before now).changed ≡ row "b" "2" ∷ [])
    × ((diff_elements before now).unchanged ≡ 1)
unfolding diff_elements element_key same_content Dict.lookup Dict.insert
changes = (refl, refl, refl, refl)

diff-with_key_example :
    let k = rn "row" "a" in
    let p = with_key element_key k before in
    let c = with_key element_key k now in
    let d = diff_elements before now in
    (with_key element_key k d.added ≡ drop (length p) c)
    × (with_key element_key k d.removed ≡ drop (length c) p)
    × (with_key element_key k d.changed ≡ differing p c)
diff-with_key_example = diff-with_key before now (rn "row" "a")

diff_counts_example :
    let d = diff_elements before now in
    (d.unchanged + (length d.changed + length d.added) ≡ d.curr_count)
    × (d.unchanged + (length d.changed + length d.removed) ≡ d.prev_count)
    × (d.curr_count ≡ 3)
    × (d.prev_count ≡ 3)
diff_counts_example = diff_counts before now
