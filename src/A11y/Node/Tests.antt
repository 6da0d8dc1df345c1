-- ===== src/A11y/Node/Tests.antt =====
-- A small tree: its elements and its coverage.
use shinken.Prelude.{
  ℕ, String, string_eq, ◌≡◌, refl, none, some, [], ◌∷◌, nat_eq, ◌==◌, if◌then◌else◌, List, Option,
}
use shinken.Prelude.Int.{pos}
use shinken.A11y.Node.{
  Element, Box, Info, A11yNode, node, nil, cons, iter_nodes, to_elements, element, coverage_metrics,
  positive,
}
use shinken.A11y.Node.Laws.{numbered, to_elements-numbered}

abbrev box : ℕ → ℕ → Box
box w h = record { x = pos 10; y = pos 20; w = pos w; h = pos h }

abbrev button : Info
button = record {
  role = "push button";
  name = "OK";
  bbox = some (box 30 12);
  states = [];
  provenance = none;
}

abbrev line : Info
line = record {
  role = "link";
  name = "Help";
  bbox = some (box 30 0);
  states = [];
  provenance = none;
}

abbrev frame : Info
frame = record {
  role = "frame";
  name = "";
  bbox = none;
  states = "showing" ∷ [];
  provenance = none;
}

abbrev window : A11yNode
window = node frame (cons (node button nil) (cons (node line nil) nil))

abbrev strip : String → String
strip s = s

abbrev str : ℕ → String
str n = if n == 0 then "0" else if n == 1 then "1" else "2"

window-coverage : coverage_metrics strip window ≡ record {
  nodes = 3;
  named = 2;
  roled = 3;
  with_bbox = 1;
  actionable = 2;
  addressable = 2;
  max_depth = 2;
}
unfolding coverage_metrics iter_nodes positive
window-coverage = refl

refs : List Element → List (Option String)
refs [] = []
refs (e ∷ es) = e.ref ∷ refs es

-- `str` is that of the first three numbers.
window-refs : refs (to_elements str strip window "atspi") ≡ some "e0" ∷ some "e1" ∷ some "e2" ∷ []
unfolding refs to_elements iter_nodes element
window-refs = refl

to_elements-numbered_example :
    to_elements str strip window "atspi" ≡ numbered str strip "atspi" 0 window
to_elements-numbered_example = to_elements-numbered str strip "atspi" window
