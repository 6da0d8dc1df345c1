-- ===== src/Gym/Env.antt =====
-- ShinkenGymEnv of gym.py: the episode that is recorded while a policy steps, and the replica under it.
-- Clocks are left out, and of an episode's metadata all but its error.
use shinken.Prelude.{
  ℕ, String, string_eq, Bool, true, false, not, ◌&&◌, Option, none, some, List, [], ◌∷◌, ◌++◌,
  Result, ok, raised, length, ◌==◌, if◌then◌else◌,
}
use shinken.Prelude.Dict
use shinken.Prelude.Dict.{Dict}
use shinken.Prelude.Keyed.{elem}
use shinken.Errors.{Exc, gym_error}
use shinken.Runtime.Trajectory.{Step, Trajectory}
use shinken.Gym.Make.{Strategy, recreate, Calls, Config, Base, resolved, run_setup, make}

abbrev pub GymStep : Type 0 → Type 0 → Type 0
GymStep O A = Step O A (Option String)

pub record Episode (O A N : Type 0) : Type 0 where
  pub index : ℕ
  pub trajectory : Trajectory O A (Option String)
  pub reward : Option N
  pub episode_id : Option String

pub record Env (H C E O A V N W : Type 0) : Type 0 where
  pub base : Base C W
  pub episodes : List (Episode O A N)
  pub last_receipt : Option V
  pub handle : Option H
  pub session : Option E
  pub steps : List (GymStep O A)
  pub current : Option O
  pub is_open : Bool
  pub episode_id : Option String
  pub done : Bool

-- What a policy hands to `step`.
pub data Action (A : Type 0) : Type 0 where
  text : String → Action A
  one : A → Action A
  many : List A → Action A
  unsupported_action : Action A

pub record Turn (O N : Type 0) : Type 0 where
  pub observation : O
  pub reward : Option N
  pub done : Bool
  pub terminal : Option String
  pub index : ℕ

abbrev pub exit_reason_for_terminal : Dict String String
exit_reason_for_terminal =
    ("done", "task_complete") ∷ ("stopped", "task_complete") ∷ ("max_steps", "max_steps") ∷ []

unfoldable pub raise_gym : {X : Type 0} → String → Result Exc X
raise_gym message = raised (record { class = gym_error; message = message })

-- `exit_reason or _EXIT_REASON_FOR_TERMINAL.get(terminal or "", "task_complete")`
unfoldable pub reason_for : Option String → String → String
unfolding Dict.lookup
reason_for (some r) terminal =
    if r == ""
    then elim (Dict.lookup terminal exit_reason_for_terminal) [
      | some s ↦ s
      | none ↦ "task_complete"
    ]
    else r
reason_for none terminal = elim (Dict.lookup terminal exit_reason_for_terminal) [
  | some s ↦ s
  | none ↦ "task_complete"
]

unfoldable pub is_nil : {X : Type 0} → List X → Bool
is_nil [] = true
is_nil (x ∷ xs) = false

unfoldable pub is_none : {X : Type 0} → Option X → Bool
is_none none = true
is_none (some x) = false

-- The actions before the first control action, and those from it on.
unfoldable pub split_control : {A : Type 0} → (A → String) → List A → List A × List A
split_control verb [] = ([], [])
split_control verb (a ∷ actions) =
    let rest = split_control verb actions in
    if elem (verb a) ("done" ∷ "stop" ∷ []) then ([], a ∷ actions) else (a ∷ rest.0, rest.1)

module _ {H C E O A V N W : Type 0} where
  -- The record that is made of an open episode.
  unfoldable pub episode_of :
      Option String → Option N → Option String → Option String → Env H C E O A V N W → Episode O A N
  unfolding reason_for
  episode_of terminal reward exit_reason error env = record {
    index = length env.episodes;
    trajectory = record {
      steps = env.steps;
      terminal = terminal;
      exit_reason = some (reason_for exit_reason (elim terminal [ none ↦ "" | some t ↦ t ]));
      metadata = elim error [ none ↦ [] | some e ↦ ("error", e) ∷ [] ];
    };
    reward = reward;
    episode_id = env.episode_id;
  }

  -- `_finalize_episode`
  unfoldable pub finalize :
      Option String
      → Option N
      → Option String
      → Option String
      → Env H C E O A V N W
      → Env H C E O A V N W
  unfolding episode_of is_nil is_none
  finalize terminal reward exit_reason error env =
      if not env.is_open
      then record env { done = true }
      else if is_nil env.steps && is_none error
      then record env { done = true; is_open = false }
      else record env {
        done = true;
        is_open = false;
        steps = [];
        episodes = env.episodes ++ episode_of terminal reward exit_reason error env ∷ [];
      }

  unfoldable pub aborted : String → String → Env H C E O A V N W → Env H C E O A V N W
  unfolding finalize
  aborted reason error env = finalize (some "aborted") none (some reason) (some error) env

module _ {H C E O A V N W : Type 0} (calls : Calls H C E O A V N W) (cfg : Config) where
  abbrev pub GymEnv : Type 0
  GymEnv = Env H C E O A V N W

  unfoldable pub close_all : Option E → Option H → W → W
  close_all none none w = w
  close_all none (some h) w = calls.destroy h w
  close_all (some sess) none w = calls.close sess w
  close_all (some sess) (some h) w = calls.destroy h (calls.close sess w)

  -- `_teardown_replica`
  unfoldable pub teardown : GymEnv → GymEnv
  unfolding close_all
  teardown env = record env {
    base = record env.base { world = close_all env.session env.handle env.base.world };
    session = none;
    handle = none;
    current = none;
  }

  unfoldable pub with_world : W → GymEnv → GymEnv
  with_world w env = record env { base = record env.base { world = w } }

  -- A replica that was set up is observed; one that fails is torn down.
  unfoldable pub first_observation : Result Exc O → GymEnv → Result Exc O × GymEnv
  unfolding teardown with_world
  first_observation (raised e) env = (raised e, teardown env)
  first_observation (ok obs) env =
      let (id, w) = calls.fresh_id env.base.world in
      let env' = with_world w env in
      (ok obs, record env' { current = some obs; episode_id = some id; is_open = true })

  unfoldable pub ready : E → Result Exc Unit → GymEnv → Result Exc O × GymEnv
  unfolding first_observation teardown with_world
  ready sess (raised e) env = (raised e, teardown env)
  ready sess (ok _) env =
      let (r, w) = calls.observe sess env.base.world in first_observation r (with_world w env)

  unfoldable pub replayed : Bool → E → W → Result Exc Unit × W
  unfolding run_setup
  replayed true sess w = run_setup calls cfg sess w
  replayed false sess w = (ok tt, w)

  -- connect_owned_handle destroys the handle that it cannot connect.
  unfoldable pub connected : Bool → H → Result Exc E → GymEnv → Result Exc O × GymEnv
  unfolding ready replayed with_world
  connected again h (raised e) env = (raised e, with_world (calls.destroy h env.base.world) env)
  connected again h (ok sess) env =
      let (r, w) = replayed again sess env.base.world in
      let env' = with_world w env in
      ready sess r (record env' { handle = some h; session = some sess; steps = []; done = false })

  unfoldable pub provisioned : Bool → Result Exc H → GymEnv → Result Exc O × GymEnv
  unfolding connected with_world
  provisioned again (raised e) env = (raised e, env)
  provisioned again (ok h) env =
      let (r, w) = calls.connect h env.base.world in connected again h r (with_world w env)

  unfoldable pub is_recreate : Option Strategy → Bool
  is_recreate (some recreate) = true
  is_recreate _ = false

  unfoldable pub provision : Bool → GymEnv → Result Exc O × GymEnv
  unfolding provisioned with_world
  provision true env =
      let (r, w) = calls.create env.base.world in provisioned true r (with_world w env)
  provision false env =
      let (r, w) = calls.resume env.base.golden env.base.world in
      provisioned false r (with_world w env)

  unfoldable pub made : Result Exc Unit → GymEnv → Result Exc O × GymEnv
  unfolding provision finalize teardown is_recreate resolved
  made (raised e) env = (raised e, env)
  made (ok _) env =
      let env' = teardown (finalize (some "stopped") none none none env) in
      provision (is_recreate (resolved env'.base)) env'

  -- `reset`, which returns the first observation.
  unfoldable pub reset : GymEnv → Result Exc O × GymEnv
  unfolding make made
  reset env = let (r, b) = make calls cfg env.base in made r (record env { base = b })
