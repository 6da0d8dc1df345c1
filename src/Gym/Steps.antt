-- ===== src/Gym/Steps.antt =====
-- ShinkenGymEnv of gym.py, the loop of a policy: step, evaluate, abort, close and dispose.
use shinken.Prelude.{
  ℕ, String, ◌<>◌, string_eq, Bool, true, false, Option, none, some, List, [], ◌∷◌, ◌++◌, Result,
  ok, raised, length, leb, ◌==◌, if◌then◌else◌,
}
use shinken.Errors.{Exc, sandbox_died, is_infra_death}
use shinken.Gym.Make.{Row, Batch, Calls, Config, make}
use shinken.Gym.Env.{
  GymStep, GymEnv, Action, text, one, many, unsupported_action, Turn, raise_gym, split_control,
  finalize, aborted, teardown, with_world, reset,
}

unfoldable pub raw_text : {A : Type 0} → Action A → Option String
raw_text (text s) = some s
raw_text _ = none

-- `next((r.get("error") for r in rows if not r["ok"]), "")`
first_error : List Row → String
first_error [] = ""
first_error (r ∷ rows) =
    if r.is_ok then first_error rows else elim r.error [ none ↦ "None" | some e ↦ e ]

unfoldable pub has_died : Option Batch → Bool
has_died none = false
has_died (some b) = elim b.failure_kind [ none ↦ false | some k ↦ k == "sandbox_died" ]

unfoldable pub death_of : Option Batch → String
unfolding first_error
death_of none = ""
death_of (some b) = first_error b.rows

-- What a control action ends the episode with.
unfoldable pub terminal_of : String → Option String
terminal_of verb =
    if verb == "done" then some "done" else if verb == "stop" then some "stopped" else none

-- `self.max_steps is not None and len(self._steps) >= self.max_steps`
unfoldable pub is_spent : Option ℕ → ℕ → Bool
is_spent none n = false
is_spent (some m) n = leb m n

module _ {H C E O A V N W : Type 0} (calls : Calls H C E O A V N W) (cfg : Config) where
  abbrev G : Type 0
  G = GymEnv calls cfg

  unfoldable pub coerce_actions : Action A → Result Exc (List A)
  unfolding raise_gym
  coerce_actions (text s) = calls.parse_actions s
  coerce_actions (one a) = ok (a ∷ [])
  coerce_actions (many actions) = ok actions
  coerce_actions unsupported_action = raise_gym "unsupported action type"

  unfoldable pub observed : Batch → Result Exc O × W → Result Exc (O × Option Batch) × W
  observed b (raised e, w) = (raised e, w)
  observed b (ok obs, w) = (ok (obs, some b), w)

  unfoldable pub fused : E → Result Exc (Batch × Option O) × W → Result Exc (O × Option Batch) × W
  unfolding observed
  fused sess (raised e, w) = (raised e, w)
  fused sess (ok (b, some obs), w) = (ok (obs, some b), w)
  fused sess (ok (b, none), w) = observed b (calls.observe sess w)

  unfoldable pub batched : E → Result Exc Batch × W → Result Exc (O × Option Batch) × W
  unfolding observed
  batched sess (raised e, w) = (raised e, w)
  batched sess (ok b, w) = observed b (calls.observe sess w)

  unfoldable pub idle : Result Exc O × W → Result Exc (O × Option Batch) × W
  idle (raised e, w) = (raised e, w)
  idle (ok obs, w) = (ok (obs, none), w)

  -- `_dispatch_and_observe`
  unfoldable pub dispatch_and_observe : E → List A → W → Result Exc (O × Option Batch) × W
  unfolding fused batched idle
  dispatch_and_observe sess [] w = idle (calls.observe sess w)
  dispatch_and_observe sess (a ∷ actions) w =
      if cfg.structured
      then batched sess (calls.act_batch sess (a ∷ actions) w)
      else fused sess (calls.act_and_observe sess (a ∷ actions) w)

  unfoldable pub judged : Result Exc V → G → Result Exc N × G
  judged (raised e) env = (raised e, env)
  judged (ok v) env = (calls.reward_from v, record env { last_receipt = some v })

  unfoldable pub verified : (E → W → Result Exc V × W) → Option E → G → Result Exc N × G
  unfolding judged with_world raise_gym
  verified verify none env = (raise_gym "no live replica — call reset() first", env)
  verified verify (some sess) env =
      let (r, w) = verify sess env.base.world in judged r (with_world calls cfg w env)

  unfoldable pub evaluate_with : Option (E → W → Result Exc V × W) → G → Result Exc N × G
  unfolding verified raise_gym
  evaluate_with none env = (raise_gym "task has no verifier", env)
  evaluate_with (some verify) env = verified verify env.session env

  -- `evaluate`
  unfoldable pub evaluate : G → Result Exc N × G
  unfolding evaluate_with
  evaluate env = evaluate_with calls.verify env

  unfoldable pub scored : Result Exc N × G → Result Exc (Option N × Option String) × G
  unfolding aborted
  scored (ok reward, env) = (ok (some reward, none), env)
  scored (raised e, env) =
      let lost : Result Exc (Option N × Option String) × G =
        (raised e, aborted "sandbox_died" ("sandbox_died: " <> e.message) env) in
      if is_infra_death e then lost else (ok (none, some ("scorer_error: " <> e.message)), env)

  -- `_evaluate_for_done`
  unfoldable pub evaluate_for_done : G → Result Exc (Option N × Option String) × G
  unfolding scored evaluate
  evaluate_for_done env = elim calls.verify [
    | none ↦ (ok (none, none), env)
    | some verify ↦ scored (evaluate env)
  ]

  -- An episode that ends with this turn.
  unfoldable pub ended :
      O → ℕ → Option String → Result Exc (Option N × Option String) × G → Result Exc (Turn O N) × G
  unfolding finalize
  ended obs index terminal (raised e, env) = (raised e, env)
  ended obs index terminal (ok (reward, failure), env) = (
    ok (record {
      observation = obs;
      reward = reward;
      done = true;
      terminal = terminal;
      index = index;
    }),
    finalize terminal reward (elim failure [ none ↦ none | some f ↦ some "scorer_error" ]) failure
        env,
  )

  unfoldable pub turned : O → ℕ → Option A → G → Result Exc (Turn O N) × G
  unfolding ended evaluate_for_done is_spent terminal_of
  turned obs index (some control) env =
      ended obs index (terminal_of (calls.verb control)) (evaluate_for_done env)
  turned obs index none env =
      let goes_on : Turn O N = record {
        observation = obs;
        reward = none;
        done = false;
        terminal = none;
        index = index;
      } in
      let spent = ended obs index (some "max_steps") (evaluate_for_done env) in
      if is_spent cfg.max_steps (length env.steps) then spent else (ok goes_on, env)

  -- The transition that a turn adds to the episode.
  unfoldable pub step_of : G → O → Option String → List A → Option A → O → GymStep O A
  step_of env obs raw dispatch control next = record {
    index = length env.steps;
    observation = obs;
    actions = dispatch;
    note = none;
    info = raw;
    next_observation = some next;
    control = control;
  }

  unfoldable pub recorded :
      O → Option String → List A → Option A → O × Option Batch → G → Result Exc (Turn O N) × G
  unfolding aborted turned has_died death_of step_of
  recorded obs raw dispatch control (next, results) env =
      let e : Exc = record {
        class = sandbox_died;
        message = "replica died mid-step: " <> death_of results;
      } in
      let env' = record env {
        current = some next;
        steps = env.steps ++ step_of env obs raw dispatch control next ∷ [];
      } in
      let turn = turned next (length env.steps) control env' in
      if has_died results
      then (raised e, aborted "sandbox_died" ("sandbox_died: " <> death_of results) env)
      else turn

  unfoldable pub answered :
      O
      → Option String
      → List A
      → Option A
      → Result Exc (O × Option Batch)
      → G
      → Result Exc (Turn O N) × G
  unfolding aborted recorded
  answered obs raw dispatch control (raised e) env =
      let reason = if is_infra_death e then "sandbox_died" else "agent_error" in
      (raised e, aborted reason (reason <> (": " <> e.message)) env)
  answered obs raw dispatch control (ok result) env = recorded obs raw dispatch control result env

  unfoldable pub acted : E → O → Option String → List A → Option A → G → Result Exc (Turn O N) × G
  unfolding dispatch_and_observe answered with_world
  acted sess obs raw dispatch control env =
      let (r, w) = dispatch_and_observe sess dispatch env.base.world in
      answered obs raw dispatch control r (with_world calls cfg w env)

  unfoldable pub controlled :
      E → O → Option String → List A × List A → G → Result Exc (Turn O N) × G
  unfolding acted raise_gym
  controlled sess obs raw (dispatch, []) env = acted sess obs raw dispatch none env
  controlled sess obs raw (dispatch, control ∷ []) env =
      acted sess obs raw dispatch (some control) env
  controlled sess obs raw (dispatch, control ∷ after ∷ rest) env =
      (raise_gym "actions after a terminal control are not allowed", env)

  unfoldable pub coerced :
      E → O → Option String → Result Exc (List A) → G → Result Exc (Turn O N) × G
  unfolding controlled split_control
  coerced sess obs raw (raised e) env = (raised e, env)
  coerced sess obs raw (ok actions) env =
      controlled sess obs raw (split_control calls.verb actions) env

  -- The guards of `step`.
  unfoldable pub guarded : Option E → Option O → Action A → G → Result Exc (Turn O N) × G
  unfolding coerced coerce_actions raise_gym raw_text
  guarded none obs action env = (raise_gym "no live replica — call reset() first", env)
  guarded (some sess) none action env = (
    raise_gym (
        if env.done
        then "episode is done — call reset() for a fresh fork"
        else "episode has no current observation — call reset() for a fresh fork"),
    env,
  )
  guarded (some sess) (some obs) action env =
      let turn = coerced sess obs (raw_text action) (coerce_actions action) env in
      if env.done then (raise_gym "episode is done — call reset() for a fresh fork", env) else turn

  -- `step`
  unfoldable pub step : Action A → G → Result Exc (Turn O N) × G
  unfolding guarded
  step action env = guarded env.session env.current action env

  -- `close`
  unfoldable pub close : G → G
  unfolding finalize teardown
  close env = teardown calls cfg (finalize (some "stopped") none none none env)

  unfoldable pub delete_golden : Bool → Option C → W → W
  delete_golden true (some c) w = elim calls.delete_snapshot [ none ↦ w | some delete ↦ delete c w ]
  delete_golden owns golden w = w

  -- `dispose`
  unfoldable pub dispose : G → G
  unfolding close delete_golden
  dispose env =
      let env' = close env in
      record env' {
        base = record env'.base {
          golden = none;
          world = delete_golden env'.base.owns_checkpoint env'.base.golden env'.base.world;
        };
      }

  -- `abort`
  unfoldable pub abort : String → String → G → G
  unfolding aborted
  abort error reason env = aborted reason error env

-- What a consumer does with an environment; a pool's sibling assigns a checkpoint that it owns.
pub data Op (C A : Type 0) : Type 0 where
  make_op reset_op evaluate_op close_op dispose_op : Op C A
  step_op : Action A → Op C A
  abort_op : String → String → Op C A
  share_op : C → Op C A

module _ {H C E O A V N W : Type 0} (calls : Calls H C E O A V N W) (cfg : Config) where
  -- An exception of a call is the consumer's, who goes on with the environment as it is left.
  unfoldable pub apply : Op C A → GymEnv calls cfg → GymEnv calls cfg
  unfolding make reset step evaluate abort close dispose
  apply make_op env = record env { base = (make calls cfg env.base).1 }
  apply reset_op env = (reset calls cfg env).1
  apply evaluate_op env = (evaluate calls cfg env).1
  apply close_op env = close calls cfg env
  apply dispose_op env = dispose calls cfg env
  apply (step_op action) env = (step calls cfg action env).1
  apply (abort_op error reason) env = abort calls cfg error reason env
  apply (share_op c) env = record env {
    base = record env.base { golden = some c; owns_checkpoint = false };
  }

  unfoldable pub run : List (Op C A) → GymEnv calls cfg → GymEnv calls cfg
  unfolding apply
  run [] env = env
  run (op ∷ ops) env = run ops (apply op env)

  unfoldable pub new_env : W → GymEnv calls cfg
  new_env w = record {
    base = record { latched = false; golden = none; owns_checkpoint = true; world = w };
    episodes = [];
    last_receipt = none;
    handle = none;
    session = none;
    steps = [];
    current = none;
    is_open = false;
    episode_id = none;
    done = false;
  }
