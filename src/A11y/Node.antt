-- ===== src/A11y/Node.antt =====
-- The tree of a11y.py: A11yNode, iter_nodes, to_elements, coverage_metrics and _depth. A missing
-- name is "". `str.strip` is Python's, a parameter.
pub mod Laws
mod Tests
use shinken.Prelude.{
  string_eq, ℕ, suc, ◌+◌, max, String, Bool, true, false, not, ◌&&◌, ◌||◌, Option, none, some, List,
  [], ◌∷◌, ◌++◌, length, filter, ltb, ◌==◌, if◌then◌else◌, ◌<>◌,
}
use shinken.Prelude.Int.{ℤ, pos, negsuc}

-- (x, y, w, h)
pub record Box : Type 0 where
  pub x : ℤ
  pub y : ℤ
  pub w : ℤ
  pub h : ℤ

-- The ids that a backend may attach.
pub record Provenance : Type 0 where
  pub backend_dom_node_id : Option ℕ
  pub ax_node_id : Option String

-- What a node carries besides its children.
pub record Info : Type 0 where
  pub role : String
  pub name : String
  pub bbox : Option Box
  pub states : List String
  pub provenance : Option Provenance

mutual
  pub data A11yNode : Type 0 where
    node : Info → Children → A11yNode

  pub data Children : Type 0 where
    nil : Children
    cons : A11yNode → Children → Children

-- Pre-order, children left to right.
unfoldable mutual
  pub iter_nodes : A11yNode → List Info
  iter_nodes (node i cs) = i ∷ iter_children cs

  pub iter_children : Children → List Info
  iter_children nil = []
  iter_children (cons n cs) = iter_nodes n ++ iter_children cs

-- An ACI Element: a dict whose keys may be missing.
pub record Element : Type 0 where
  pub ref : Option String
  pub role : Option String
  pub name : Option String
  pub value : Option String
  pub bbox : Option Box
  pub states : Option (List String)
  pub provenance : Option Provenance
  pub source : Option String

abbrev pub zero_box : Box
zero_box = record { x = pos 0; y = pos 0; w = pos 0; h = pos 0 }

-- `if n.bbox else (0, 0, 0, 0)`
box_or_zero : Option Box → Box
box_or_zero none = zero_box
box_or_zero (some b) = b

-- `if n.states`
non_empty : List String → Option (List String)
non_empty [] = none
non_empty (s ∷ states) = some (s ∷ states)

-- `if n.provenance`: a dict with at least one of the two ids.
present : Option Provenance → Option Provenance
present none = none
present (some p) = elim p.backend_dom_node_id [
  | some d ↦ some p
  | none ↦ elim p.ax_node_id [ some a ↦ some p | none ↦ none ]
]

-- `str` is Python's on integers; `strip` is `str.strip`.
module _ (str : ℕ → String) (strip : String → String) where
  unfoldable pub element : String → ℕ → Info → Element
  unfolding box_or_zero non_empty present
  element source i n = record {
    ref = some ("e" <> str i);
    role = some (if n.role == "" then "unknown" else n.role);
    name = if strip n.name == "" then none else some n.name;
    value = none;
    bbox = some (box_or_zero n.bbox);
    states = non_empty n.states;
    provenance = present n.provenance;
    source = some source;
  }

  elements_from : String → ℕ → List Info → List Element
  elements_from source i [] = []
  elements_from source i (n ∷ nodes) = element source i n ∷ elements_from source (suc i) nodes

  unfoldable pub to_elements : A11yNode → String → List Element
  unfolding elements_from
  to_elements root source = elements_from source 0 (iter_nodes root)

abbrev pub actionable_roles : List String
actionable_roles =
    "push button" ∷ "button" ∷ "toggle button" ∷ "menu item" ∷ "menu" ∷ "link" ∷ "text" ∷ "entry"
    ∷ "password text" ∷ "check box" ∷ "radio button" ∷ "combo box" ∷ "list item" ∷ "page tab"
    ∷ "tab" ∷ "slider" ∷ "spin button" ∷ "textbox" ∷ "searchbox" ∷ "checkbox" ∷ "radio" ∷ "menuitem"
    ∷ "menuitemcheckbox" ∷ "menuitemradio" ∷ "option" ∷ "combobox" ∷ "listitem" ∷ "switch"
    ∷ "spinbutton" ∷ []

member : String → List String → Bool
member a [] = false
member a (x ∷ xs) = if x == a then true else member a xs

-- `0 < n`
unfoldable pub positive : ℤ → Bool
positive (pos n) = ltb 0 n
positive (negsuc n) = false

pub is_actionable : Info → Bool
unfolding member
is_actionable n = member n.role actionable_roles

is_roled : Info → Bool
is_roled n = not (n.role == "") && not (n.role == "unknown")

-- `n.bbox and n.bbox[2] > 0`, and with the height as well.
is_wide : Option Box → Bool
is_wide none = false
is_wide (some b) = positive b.w

is_boxed : Option Box → Bool
is_boxed none = false
is_boxed (some b) = positive b.w && positive b.h

count : (Info → Bool) → List Info → ℕ
count p nodes = length (filter p nodes)

mutual
  depth : A11yNode → ℕ → ℕ
  depth (node i cs) d = depth_children cs d

  -- `max(…, default=d)`
  depth_children : Children → ℕ → ℕ
  depth_children nil d = d
  depth_children (cons c cs) d = deepest cs (depth c (suc d)) (suc d)

  deepest : Children → ℕ → ℕ → ℕ
  deepest nil best d = best
  deepest (cons c cs) best d = deepest cs (max best (depth c d)) d

-- The counts of coverage_metrics; its percentages are their quotients by `nodes`.
pub record Coverage : Type 0 where
  pub nodes : ℕ
  pub named : ℕ
  pub roled : ℕ
  pub with_bbox : ℕ
  pub actionable : ℕ
  pub addressable : ℕ
  pub max_depth : ℕ

module _ (strip : String → String) where
  pub is_named : Info → Bool
  is_named n = not (strip n.name == "")

  is_addressable : Info → Bool
  unfolding is_actionable is_wide
  is_addressable n = is_actionable n && (is_named n && is_wide n.bbox)

  unfoldable pub coverage_metrics : A11yNode → Coverage
  unfolding count is_named is_roled is_boxed is_addressable depth
  coverage_metrics root =
      let nodes = iter_nodes root in
      record {
        nodes = length nodes;
        named = count is_named nodes;
        roled = count is_roled nodes;
        with_bbox = count (λ n. is_boxed n.bbox) nodes;
        actionable = count is_actionable nodes;
        addressable = count is_addressable nodes;
        max_depth = depth root 1;
      }
