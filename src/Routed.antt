-- ===== src/Routed.antt =====
-- sdk/python/src/shinken/backends/routed.py: the classifier of targets and RoutedSession, named
-- surfaces behind one session. A surface's dispatch is a parameter `act`, which may raise and changes
-- the state `W` of the backends; `R` is what a backend answers.
pub mod Dispatch
pub mod Laws
mod Tests
use shinken.Prelude.{
  string_eq, ℕ, zero, suc, String, ◌==◌, Bool, true, false, not, ◌&&◌, ◌||◌, Option, none, some,
  List, [], ◌∷◌, ◌++◌, Result, ok, raised, if◌then◌else◌, ◌<>◌,
}
use shinken.Prelude.Dict
use shinken.Prelude.Keyed.{elem}
use shinken.Errors.{Exc, value_error, key_error}

abbrev pub browser_verbs : List String
browser_verbs = "navigate" ∷ "eval" ∷ []

-- An action's dict: its verb, the surface that it names, and the rest.
pub record RoutedAction (A : Type 0) : Type 0 where
  pub verb : Option String
  pub surface : Option String
  pub body : A

-- One entry of the log of dispatched actions.
pub record RoutedEvent : Type 0 where
  pub i : ℕ
  pub source : String
  pub verb : Option String
  pub is_ok : Bool
  pub batch_id : Option String

-- An entry of `results`.
pub record Entry (R : Type 0) : Type 0 where
  pub is_ok : Bool
  pub source : String
  pub verb : Option String
  pub answer : Option R
  pub error : Option String

pub record RoutedSession : Type 0 where
  pub surfaces : List String
  pub default : String
  pub active : String
  pub events : List RoutedEvent

pub record BatchReport (R : Type 0) : Type 0 where
  pub results : List (Entry R)
  pub completed : Bool
  pub batch_id : Option String

-- `default or next(iter(surfaces))`
default_or : Option String → String → String
default_or none first = first
default_or (some name) first = if name == "" then first else name

unfoldable pub open_session : List String → Option String → Result Exc RoutedSession
unfolding default_or
open_session [] default =
    raised (record { class = value_error; message = "RoutedSession needs at least one surface" })
open_session (first ∷ names) default =
    let name = default_or default first in
    if elem name (first ∷ names)
    then ok (record { surfaces = first ∷ names; default = name; active = name; events = [] })
    else raised (record {
      class = key_error;
      message = "default surface '" <> (name <> "' not registered");
    })

-- `use`
unfoldable pub use_surface : String → RoutedSession → Result Exc Unit × RoutedSession
use_surface name s =
    if elem name s.surfaces
    then (ok tt, record s { active = name })
    else (raised (record { class = key_error; message = "unknown surface '" <> (name <> "'") }), s)

is_browser_verb : Option String → Bool
is_browser_verb none = false
is_browser_verb (some verb) = elem verb browser_verbs

-- `name or self._active`
name_or : Option String → String → String
name_or none active = active
name_or (some name) active = if name == "" then active else name

-- `_route`
unfoldable pub route : {A : Type 0} → RoutedAction A → RoutedSession → String
unfolding is_browser_verb name_or
route a s =
    let browser = if elem "bu" s.surfaces then "bu" else s.active in
    elim a.surface [
      | some name ↦ name_or (some name) s.active
      | none ↦ if is_browser_verb a.verb then name_or (some browser) s.active else s.active
    ]

module _ {A R W : Type 0} (act : String → Option String → A → W → Result Exc R × W)
    (reply_ok : R → Bool) (describe : Exc → String) where
  -- `dispatch_action(self.surface(name), clean)`
  unfoldable pub dispatch : String → RoutedAction A → RoutedSession → W → Result Exc R × W
  dispatch name a s w = if elem name s.surfaces then act name a.verb a.body w else (
    raised (record { class = key_error; message = "unknown surface '" <> (name <> "'") }),
    w,
  )

  entry_of : String → Option String → Result Exc R → Entry R
  entry_of name verb (ok r) = record {
    is_ok = reply_ok r;
    source = name;
    verb = verb;
    answer = some r;
    error = none;
  }
  entry_of name verb (raised exc) = record {
    is_ok = false;
    source = name;
    verb = verb;
    answer = none;
    error = some (describe exc);
  }

  pub event_of : ℕ → Option String → Entry R → RoutedEvent
  event_of i batch_id e = record {
    i = i;
    source = e.source;
    verb = e.verb;
    is_ok = e.is_ok;
    batch_id = batch_id;
  }

  -- One pass: the acted surface becomes active, the action is dispatched, and the entry is logged.
  unfoldable pub pass :
      ℕ → Option String → RoutedAction A → RoutedSession → W → Entry R × RoutedSession × W
  unfolding dispatch entry_of event_of
  pass i batch_id a s w =
      let name = route a s in
      let (answer, w') = dispatch name a s w in
      let e = entry_of name a.verb answer in
      (e, record s { active = name; events = s.events ++ event_of i batch_id e ∷ [] }, w')

  -- The entries, `completed`, and the state.
  abbrev pub Batch : Type 0
  Batch = List (Entry R) × Bool × RoutedSession × W

  -- What follows an entry: the rest of the loop, or `break`.
  joined : Bool → Entry R → Batch → RoutedSession → W → Batch
  joined true e (rest, completed, s2, w2) s1 w1 = (e ∷ rest, completed, s2, w2)
  joined false e rest s1 w1 = (e ∷ [], false, s1, w1)

  -- The loop from action `i` on.
  unfoldable pub run_actions : ℕ → Option String → List (RoutedAction A) → RoutedSession → W → Batch
  unfolding joined
  run_actions i batch_id [] s w = ([], true, s, w)
  run_actions i batch_id (a ∷ actions) s w =
      let (e, s1, w1) = pass i batch_id a s w in
      let rest = run_actions (suc i) batch_id actions s1 w1 in joined e.is_ok e rest s1 w1

  -- `act_batch`
  unfoldable pub routed_batch :
      List (RoutedAction A) → Option String → RoutedSession → W → BatchReport R × RoutedSession × W
  unfolding run_actions
  routed_batch actions batch_id s w =
      let (entries, completed, s', w') = run_actions 0 batch_id actions s w in
      (record { results = entries; completed = completed; batch_id = batch_id }, s', w')
