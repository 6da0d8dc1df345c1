-- ===== src/A11y/Node/Laws.antt =====
-- The elements that a tree flattens to, and the bounds of its coverage.
use shinken.Prelude.{
  string_eq, ℕ, suc, ◌+◌, ◌≤◌, max, String, ◌≡◌, refl, sym, ap, ◌∙◌, ◌++◌, ◌<>◌, Bool, true, false,
  ◌&&◌, some, List, [], ◌∷◌, arith, length, length-append,
}
use shinken.A11y.Node.{
  Box, Info, A11yNode, node, Children, nil, cons, iter_nodes, iter_children, Element, element,
  elements_from, to_elements, positive, is_actionable, is_wide, is_boxed, is_named, is_roled,
  is_addressable, count, depth, deepest, coverage_metrics,
}

module _ (str : ℕ → String) (strip : String → String) (source : String) where
  length-elements_from :
      (start : ℕ) (nodes : List Info)
      → length (elements_from str strip source start nodes) ≡ length nodes
  unfolding elements_from
  length-elements_from start [] = refl
  length-elements_from start (n ∷ nodes) = omega (arith, length-elements_from (suc start) nodes)

  pub length-to_elements :
      (root : A11yNode) → length (to_elements str strip root source) ≡ length (iter_nodes root)
  unfolding to_elements
  length-to_elements root = length-elements_from 0 (iter_nodes root)

  -- The element of a node, by the number of nodes that come before it.
  abbrev numbered_element : ℕ → Info → Element
  numbered_element i n = record (element str strip source 0 n) { ref = some ("e" <> str i) }

  -- A node comes before what is below it, and a child with all below it before the next child.
  mutual
    pub numbered : ℕ → A11yNode → List Element
    numbered i (node n cs) = numbered_element i n ∷ numbered_children (suc i) cs

    pub numbered_children : ℕ → Children → List Element
    numbered_children i nil = []
    numbered_children i (cons c cs) =
        let first = numbered i c in first ++ numbered_children (i + length first) cs

  elements_from-append :
      (i : ℕ) (ms ns : List Info)
      → elements_from str strip source i (ms ++ ns)
        ≡ elements_from str strip source i ms ++ elements_from str strip source (i + length ms) ns
  unfolding elements_from
  elements_from-append i [] ns = ap (λ k. elements_from str strip source k ns) (omega arith)
  elements_from-append i (m ∷ ms) ns =
      ap (λ es. element str strip source i m ∷ es)
        (elements_from-append (suc i) ms ns
          ∙ ap
              (λ k.
                elements_from str strip source (suc i) ms ++ elements_from str strip source k ns)
              (omega arith))

  mutual
    unfolding elements_from iter_nodes numbered element

    from-numbered :
        (i : ℕ) (n : A11yNode) → elements_from str strip source i (iter_nodes n) ≡ numbered i n
    from-numbered i (node n cs) =
        ap (λ es. element str strip source i n ∷ es) (from-numbered_children (suc i) cs)

    from-numbered_children :
        (i : ℕ) (cs : Children)
        → elements_from str strip source i (iter_children cs) ≡ numbered_children i cs
    from-numbered_children i nil = refl
    from-numbered_children i (cons c cs) =
        let first = from-numbered i c in
        let size : length (iter_nodes c) ≡ length (numbered i c) =
          sym (length-elements_from i (iter_nodes c)) ∙ ap (λ es. length es) first in
        elements_from-append i (iter_nodes c) (iter_children cs)
        ∙ (ap
              (λ es.
                es ++ elements_from str strip source (i + length (iter_nodes c)) (iter_children cs))
              first
            ∙ ap (λ es. numbered i c ++ es)
                (ap (λ (k : ℕ). elements_from str strip source (i + k) (iter_children cs)) size
                  ∙ from-numbered_children (i + length (numbered i c)) cs))

  -- The elements of a tree are those of its nodes in document order, a node before what is below it and
  -- a child with all below it before the next child; the ref of each is "e" with the number of the
  -- nodes before it.
  pub to_elements-numbered : (root : A11yNode) → to_elements str strip root source ≡ numbered 0 root
  unfolding to_elements
  to_elements-numbered root = from-numbered 0 root

and_left : (a b : Bool) → (a && b) ≡ true → a ≡ true
and_left a b h = ground arith

and_middle : (a b c : Bool) → (a && (b && c)) ≡ true → b ≡ true
and_middle a b c h = ground arith

count-le :
    (p q : Info → Bool) (nodes : List Info)
    → ((n : Info) → p n ≡ true → q n ≡ true)
    → count p nodes ≤ count q nodes
unfolding count
count-le p q [] h = omega arith
count-le p q (n ∷ nodes) h = ground (arith, h n, count-le p q nodes h)

count-le-length : (p : Info → Bool) (nodes : List Info) → count p nodes ≤ length nodes
unfolding count
count-le-length p [] = omega arith
count-le-length p (n ∷ nodes) = ground (arith, count-le-length p nodes)

mutual
  unfolding depth iter_nodes

  depth-le : (n : A11yNode) (d : ℕ) → suc (depth n d) ≤ d + length (iter_nodes n)
  depth-le (node i nil) d = omega arith
  depth-le (node i (cons c cs)) d = omega (
    arith,
    length-append (iter_nodes c) (iter_children cs),
    depth-le c (suc d),
    deepest-le cs (depth c (suc d)) (suc d),
  )

  deepest-le :
      (cs : Children) (best d : ℕ)
      → suc (deepest cs best d) ≤ max (suc best) (d + length (iter_children cs))
  deepest-le nil best d = omega arith
  deepest-le (cons c cs) best d = omega (
    arith,
    length-append (iter_nodes c) (iter_children cs),
    depth-le c d,
    deepest-le cs (max best (depth c d)) d,
  )

module _ (strip : String → String) where
  -- The addressable nodes are at most as many as the actionable and the named ones; every count,
  -- and the depth, is at most the number of nodes.
  pub coverage_bounds :
      (root : A11yNode)
      → let c = coverage_metrics strip root in
        (c.addressable ≤ c.actionable)
        × (c.addressable ≤ c.named)
        × (c.actionable ≤ c.nodes)
        × (c.named ≤ c.nodes)
        × (c.roled ≤ c.nodes)
        × (c.with_bbox ≤ c.nodes)
        × (c.max_depth ≤ c.nodes)
  unfolding coverage_metrics
  coverage_bounds root =
      let nodes = iter_nodes root in
      (
        count-le (is_addressable strip) is_actionable nodes
            (λ n. and_left (is_actionable n) (is_named strip n && is_wide n.bbox)),
        count-le (is_addressable strip) (is_named strip) nodes
            (λ n. and_middle (is_actionable n) (is_named strip n) (is_wide n.bbox)),
        count-le-length is_actionable nodes,
        count-le-length (is_named strip) nodes,
        count-le-length is_roled nodes,
        count-le-length (λ n. is_boxed n.bbox) nodes,
        omega (arith, depth-le root 1),
      )

  -- An actionable, named node whose box has a width and no height is counted as addressable, and
  -- not as a node with a box.
  pub addressable_without_box :
      (n : Info) (b : Box)
      → is_actionable n ≡ true
      → is_named strip n ≡ true
      → n.bbox ≡ some b
      → positive b.w ≡ true
      → positive b.h ≡ false
      → let c = coverage_metrics strip (node n nil) in (c.addressable ≡ 1) × (c.with_bbox ≡ 0)
  unfolding coverage_metrics iter_nodes
  addressable_without_box n b act name box wide flat = (ground arith, ground arith)
