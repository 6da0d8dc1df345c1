-- ===== src/A11y/Observe/Tests.antt =====
-- observe_structured of one button, and of a source that fails.
use shinken.Prelude.{ℕ, String, ◌≡◌, refl, false, none, [], raised}
use shinken.Errors.{Exc, other_error}
use shinken.A11y.Node.{A11yNode, node, nil}
use shinken.A11y.Observe.{observe_structured}

abbrev digits : ℕ → String
digits i = "0"

abbrev same : String → String
same s = s

abbrev class_of : Exc → String
class_of exc = "Error"

abbrev tree : A11yNode
tree =
    node (record { role = "button"; name = "OK"; bbox = none; states = []; provenance = none }) nil

failing :
    (observe_structured digits same class_of
      (raised (record { class = other_error; message = "no bus" }))
      none).available
    ≡ false
unfolding observe_structured
failing = refl
