-- ===== src/A11y/Observe.antt =====
-- observe_structured of a11y.py: the structured observation, of a source that may fail. What the
-- source raises and the name of its class are parameters, and the capture time is left out.
pub mod Laws
mod Tests
use shinken.Prelude.{
  ℕ, String, Bool, true, false, Option, none, some, List, [], Result, ok, raised, length,
}
use shinken.Errors.{Exc}
use shinken.A11y.Node.{A11yNode, Element, to_elements}

pub record Observation : Type 0 where
  pub elements : List Element
  pub node_count : ℕ
  pub available : Bool
  pub error : Option String

-- `getattr(src, "source_name", "atspi")`
name_of : Option String → String
name_of none = "atspi"
name_of (some name) = name

module _ (str : ℕ → String) (strip : String → String) (class_name : Exc → String) where
  unfoldable pub observe_structured : Result Exc A11yNode → Option String → Observation
  unfolding name_of
  observe_structured (raised exc) source_name = record {
    elements = [];
    node_count = 0;
    available = false;
    error = some (class_name exc);
  }
  observe_structured (ok tree) source_name =
      let elements = to_elements str strip tree (name_of source_name) in
      record { elements = elements; node_count = length elements; available = true; error = none }
