-- ===== src/A11y/Diff.antt =====
-- element_key, _content and diff_elements of a11y.py.
pub mod Buckets
pub mod Laws
pub mod Counts
mod Tests
use shinken.Prelude.{
  nat_eq, string_eq, pair_eq, list_eq, option_eq, Eq, ℕ, zero, suc, ◌-◌, String, Bool, true, false,
  not, ◌&&◌, ◌≡◌, ◌↔◌, Option, none, some, List, [], ◌∷◌, ◌++◌, arith, length, filter, ◌==◌,
  if◌then◌else◌,
}
use shinken.Prelude.Int.{ℤ, int_eq}
use shinken.Prelude.Dict
use shinken.Prelude.Dict.{Dict}
use shinken.A11y.Node.{Box, Provenance, Element}

-- ("dom", id), ("ax", id) and ("rn", role, name)
pub data ElementKey : Type 0 where
  dom : ℕ → ElementKey
  ax : String → ElementKey
  rn : String → String → ElementKey

abbrev pub key_beq : ElementKey → ElementKey → Bool
key_beq (dom a) (dom b) = nat_eq.eqb a b
key_beq (dom a) (ax b) = false
key_beq (dom a) (rn b c) = false
key_beq (ax a) (dom b) = false
key_beq (ax a) (ax b) = string_eq.eqb a b
key_beq (ax a) (rn b c) = false
key_beq (rn a b) (dom c) = false
key_beq (rn a b) (ax c) = false
key_beq (rn a b) (rn c d) = string_eq.eqb a c && string_eq.eqb b d

pub key_beq_iff : (a b : ElementKey) → (key_beq a b ≡ true) ↔ (a ≡ b)
key_beq_iff (dom a) (dom b) = ground (arith, nat_eq.eqb_iff a b)
key_beq_iff (ax a) (ax b) = ground (arith, string_eq.eqb_iff a b)
key_beq_iff (rn a b) (rn c d) = ground (arith, string_eq.eqb_iff a c, string_eq.eqb_iff b d)
key_beq_iff _ _ = ground arith

instance abbrev pub element_key_eq : Eq ElementKey
element_key_eq = record { eqb = key_beq; eqb_iff = key_beq_iff }

-- `d.get(k, default)` at a missing key.
or_else : {A : Type 0} → Option A → A → A
or_else none a = a
or_else (some b) a = b

key_of_names : Element → ElementKey
unfolding or_else
key_of_names el = rn (or_else el.role "") (or_else el.name "")

key_of_provenance : Option Provenance → Element → ElementKey
unfolding key_of_names
key_of_provenance none el = key_of_names el
key_of_provenance (some p) el = elim p.backend_dom_node_id [
  | some d ↦ dom d
  | none ↦ elim p.ax_node_id [ some a ↦ ax a | none ↦ key_of_names el ]
]

unfoldable pub element_key : Element → ElementKey
unfolding key_of_provenance
element_key el = key_of_provenance el.provenance el

-- The parts of a box in order, a missing one being the empty tuple.
abbrev box_items : Option Box → List ℤ
box_items none = []
box_items (some b) = b.x ∷ b.y ∷ b.w ∷ b.h ∷ []

abbrev pub Content : Type 0
Content = List ℤ × (String × (String × List String))

unfoldable pub content : Element → Content
unfolding or_else
content el = (box_items el.bbox, (or_else el.name "", (or_else el.value "", or_else el.states [])))

unfoldable pub same_content : Element → Element → Bool
unfolding content
same_content a b = content a == content b

abbrev pub Buckets : Type 0
Buckets = Dict ElementKey (List Element)

-- `buckets.get(k, [])`
unfoldable pub bucket : ElementKey → Buckets → List Element
unfolding or_else
bucket k d = or_else (Dict.lookup k d) []

-- `for el in els: buckets[element_key(el)].append(el)`
unfoldable pub group : List Element → Buckets → Buckets
unfolding bucket
group [] d = d
group (el ∷ els) d = let k = element_key el in group els (Dict.insert k (bucket k d ++ el ∷ []) d)

is_present : Option (List Element) → Bool
is_present none = false
is_present (some els) = true

unfoldable pub has : ElementKey → Buckets → Bool
unfolding is_present
has k d = is_present (Dict.lookup k d)

unfoldable pub diff_keys : Buckets → Buckets → List ElementKey
unfolding has
diff_keys prev curr = Dict.keys prev ++ filter (λ k. not (has k prev)) (Dict.keys curr)

pub record Changes : Type 0 where
  pub added : List Element
  pub removed : List Element
  pub changed : List Element

-- The inner loop, over the positions of the longer of the two buckets.
unfoldable pub compare_bucket : List Element → List Element → Changes → Changes
compare_bucket [] [] acc = acc
compare_bucket [] (ce ∷ cs) acc = compare_bucket [] cs (record acc { added = acc.added ++ ce ∷ [] })
compare_bucket (pe ∷ ps) [] acc =
    compare_bucket ps [] (record acc { removed = acc.removed ++ pe ∷ [] })
compare_bucket (pe ∷ ps) (ce ∷ cs) acc =
    compare_bucket ps cs
      (if same_content pe ce then acc else record acc { changed = acc.changed ++ ce ∷ [] })

-- The outer loop, over the keys.
unfoldable pub compare_keys : Buckets → Buckets → List ElementKey → Changes → Changes
unfolding compare_bucket
compare_keys prev curr [] acc = acc
compare_keys prev curr (k ∷ ks) acc =
    compare_keys prev curr ks (compare_bucket (bucket k prev) (bucket k curr) acc)

pub record Diff : Type 0 where
  pub changes : Changes
  pub open changes use *
  pub unchanged : ℕ
  pub prev_count : ℕ
  pub curr_count : ℕ

abbrev pub no_changes : Changes
no_changes = record { added = []; removed = []; changed = [] }

unfoldable pub diff_elements : List Element → List Element → Diff
unfolding group diff_keys compare_keys
diff_elements prev curr =
    let ps = group prev [] in
    let cs = group curr [] in
    let found = compare_keys ps cs (diff_keys ps cs) no_changes in
    record {
      changes = found;
      unchanged = length curr - length found.added - length found.changed;
      prev_count = length prev;
      curr_count = length curr;
    }
