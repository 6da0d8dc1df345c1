-- ===== src/Routed/Tests.antt =====
-- RoutedSession over a desktop and a browser: a call fails if its body is 9.
use shinken.Prelude.{
  ℕ, suc, nat_eq, string_eq, String, ◌≡◌, refl, Bool, true, false, Option, none, some, List, [],
  ◌∷◌, Result, ok, raised, length, ◌==◌, if◌then◌else◌,
}
use shinken.Errors.{Exc, value_error}
use shinken.Routed.{RoutedAction, RoutedSession, open_session, route, routed_batch}
use shinken.Routed.Laws.{Ended, routed_batch-Ended}

act : String → Option String → ℕ → ℕ → Result Exc ℕ × ℕ
act surface verb body n =
    if body == 9
    then (raised (record { class = value_error; message = "bad" }), suc n)
    else (ok body, suc n)

abbrev accept : ℕ → Bool
accept r = true

abbrev describe : Exc → String
describe exc = exc.message

abbrev session : RoutedSession
session = record { surfaces = "cu" ∷ "bu" ∷ []; default = "cu"; active = "cu"; events = [] }

abbrev actions : List (RoutedAction ℕ)
actions =
    record { verb = some "navigate"; surface = none; body = 1 }
    ∷ record { verb = some "click"; surface = some "cu"; body = 9 }
    ∷ record { verb = some "click"; surface = none; body = 2 }
    ∷ []

opened : open_session ("cu" ∷ "bu" ∷ []) none ≡ ok session
unfolding open_session
opened = refl

stops_on_desktop :
    ((routed_batch act accept describe actions none session 0).0.completed ≡ false)
    × (length (routed_batch act accept describe actions none session 0).0.results ≡ 2)
    × ((routed_batch act accept describe actions none session 0).1.active ≡ "cu")
    × ((routed_batch act accept describe actions none session 0).2 ≡ 2)
unfolding routed_batch shinken.Routed.pass route act
stops_on_desktop = (refl, refl, refl, refl)

routed_batch-Ended_example :
    let report = (routed_batch act accept describe actions none session 0).0 in
    Ended act accept describe (length actions) report.completed report.results
routed_batch-Ended_example = routed_batch-Ended act accept describe actions none session 0
