-- ===== src/A11y/Observe/Laws.antt =====
-- A structured observation agrees with itself, and with the walk of the tree.
use shinken.Prelude.{
  ℕ, String, ◌≡◌, refl, true, false, Option, none, some, Result, ok, raised, length,
}
use shinken.Errors.{Exc}
use shinken.A11y.Node.{A11yNode, iter_nodes}
use shinken.A11y.Node.Laws.{length-to_elements}
use shinken.A11y.Observe.{Observation, observe_structured}

module _ (str : ℕ → String) (strip : String → String) (class_name : Exc → String) where
  -- What the observation of a source's answer says.
  abbrev pub Tells : Result Exc A11yNode → Observation → Type 0
  Tells (ok tree) o =
      (o.available ≡ true) × (o.error ≡ none) × (o.node_count ≡ length (iter_nodes tree))
  Tells (raised exc) o =
      (o.available ≡ false) × (o.error ≡ some (class_name exc)) × (o.node_count ≡ 0)

  -- An observation counts its elements. Of a tree it is available, without an error, and has as many
  -- elements as the tree has nodes; of a failure it is not available, has none, and names the error.
  pub observe_structured-Tells :
      (answer : Result Exc A11yNode) (source_name : Option String)
      → let o = observe_structured str strip class_name answer source_name in
        (o.node_count ≡ length o.elements) × Tells answer o
  unfolding observe_structured
  observe_structured-Tells (ok tree) source_name =
      (refl, (refl, refl, length-to_elements str strip _ tree))
  observe_structured-Tells (raised exc) source_name = (refl, (refl, refl, refl))
