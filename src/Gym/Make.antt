-- ===== src/Gym/Make.antt =====
-- ShinkenGymEnv.make of gym.py: how the reset strategy is resolved and the golden checkpoint built.
use shinken.Prelude.{
  ℕ, String, Bool, true, false, Option, none, some, List, Result, ok, raised, if◌then◌else◌,
}
use shinken.Errors.{Exc, ExcClass, gym_error, unsupported_provider_operation}

pub data Strategy : Type 0 where
  auto fork recreate : Strategy

-- A row of a batch's report: whether it is ok, and its error.
pub record Row : Type 0 where
  pub is_ok : Bool
  pub error : Option String

pub record Batch : Type 0 where
  pub rows : List Row
  pub failure_kind : Option String

-- The provider, the session, the task and the dialect as calls on one state `W`. `H` is a handle of a
-- sandbox, `C` a checkpoint, `E` a session, `V` a verdict and `N` a reward. `destroy`, `close` and
-- `delete_snapshot` are called with every exception suppressed. `capabilities` are the two flags of
-- _capability_verdict, where the provider tells them.
pub record Calls (H C E O A V N W : Type 0) : Type 0 where
  pub create : W → Result Exc H × W
  pub connect : H → W → Result Exc E × W
  pub checkpoint : Option (H → W → Result Exc C × W)
  pub resume : Option C → W → Result Exc H × W
  pub destroy : H → W → W
  pub delete_snapshot : Option (C → W → W)
  pub close : E → W → W
  pub capabilities : Option (Bool × Bool)
  pub setup : Option (E → W → Result Exc Unit × W)
  pub act_and_observe : E → List A → W → Result Exc (Batch × Option O) × W
  pub act_batch : E → List A → W → Result Exc Batch × W
  pub observe : E → W → Result Exc O × W
  pub verify : Option (E → W → Result Exc V × W)
  pub reward_from : V → Result Exc N
  pub parse_actions : String → Result Exc (List A)
  pub verb : A → String
  pub fresh_id : W → String × W

-- The knobs of an environment.
pub record Config : Type 0 where
  pub strategy : Strategy
  pub structured : Bool
  pub max_steps : Option ℕ

-- What make changes of an environment.
pub record Base (C W : Type 0) : Type 0 where
  pub latched : Bool
  pub golden : Option C
  pub owns_checkpoint : Bool
  pub world : W

pub is_unsupported : ExcClass → Bool
is_unsupported unsupported_provider_operation = true
is_unsupported _ = false

-- resolved_reset_strategy
unfoldable pub resolved : {C W : Type 0} → Base C W → Option Strategy
resolved b = elim b.golden [ some c ↦ some fork | none ↦ if b.latched then some recreate else none ]

error : String → Exc
error message = record { class = gym_error; message = message }

unsupported : String → Exc
unsupported message = record { class = unsupported_provider_operation; message = message }

module _ {H C E O A V N W : Type 0} (calls : Calls H C E O A V N W) (cfg : Config) where
  unfoldable pub run_setup : E → W → Result Exc Unit × W
  run_setup sess w = elim calls.setup [ none ↦ (ok tt, w) | some setup ↦ setup sess w ]

  unfoldable pub degrade : Base C W → Result Exc Unit × Base C W
  degrade b = (ok tt, record b { latched = true })

  -- The answer of the checkpoint call: the probe's typed error degrades, but for a strict fork.
  unfoldable pub probed : Strategy → Result Exc C → Base C W → Result Exc Unit × Base C W
  unfolding is_unsupported degrade
  probed strategy (ok c) b = (ok tt, record b { golden = some c })
  probed fork (raised e) b = (raised e, b)
  probed auto (raised e) b = if is_unsupported e.class then degrade b else (raised e, b)
  probed recreate (raised e) b = if is_unsupported e.class then degrade b else (raised e, b)

  -- `finally: sess.close()` and `finally: provider.destroy(base)`
  unfoldable pub ended : E → H → Result Exc Unit × Base C W → Result Exc Unit × Base C W
  ended sess base (r, b) = (r, record b { world = calls.destroy base (calls.close sess b.world) })

  unfoldable pub set_up :
      (H → W → Result Exc C × W) → E → H → Result Exc Unit → Base C W → Result Exc Unit × Base C W
  unfolding probed ended
  set_up checkpoint sess base (raised e) b = ended sess base (raised e, b)
  set_up checkpoint sess base (ok _) b =
      let (c, w) = checkpoint base b.world in
      ended sess base (probed cfg.strategy c (record b { world = w }))

  unfoldable pub connected :
      (H → W → Result Exc C × W) → H → Result Exc E → Base C W → Result Exc Unit × Base C W
  unfolding run_setup set_up
  connected checkpoint base (raised e) b =
      (raised e, record b { world = calls.destroy base b.world })
  connected checkpoint base (ok sess) b =
      let (r, w) = run_setup sess b.world in set_up checkpoint sess base r (record b { world = w })

  unfoldable pub created :
      (H → W → Result Exc C × W) → Result Exc H → Base C W → Result Exc Unit × Base C W
  unfolding connected
  created checkpoint (raised e) b = (raised e, b)
  created checkpoint (ok base) b =
      let (r, w) = calls.connect base b.world in
      connected checkpoint base r (record b { world = w })

  unfoldable pub build_golden : (H → W → Result Exc C × W) → Base C W → Result Exc Unit × Base C W
  unfolding created
  build_golden checkpoint b =
      let (r, w) = calls.create b.world in created checkpoint r (record b { world = w })

  -- No fork path: a strict fork is refused, and so is a provider that tells it has no life cycle.
  unfoldable pub without_fork :
      Strategy → Option (Bool × Bool) → Base C W → Result Exc Unit × Base C W
  unfolding degrade unsupported
  without_fork fork caps b = (raised (unsupported "cannot serve reset_strategy='fork'"), b)
  without_fork strategy (some (forks, false)) b =
      (raised (unsupported "cannot serve recreate resets"), b)
  without_fork strategy caps b = degrade b

  unfoldable pub choose :
      Option (Bool × Bool)
      → Option (H → W → Result Exc C × W)
      → Base C W
      → Result Exc Unit × Base C W
  unfolding without_fork build_golden
  choose (some (false, lifecycle)) verb b = without_fork cfg.strategy (some (false, lifecycle)) b
  choose caps none b = without_fork cfg.strategy caps b
  choose caps (some checkpoint) b = build_golden checkpoint b

  -- `_require_lifecycle`, for the explicit recreate.
  unfoldable pub require_lifecycle : Option (Bool × Bool) → Base C W → Result Exc Unit × Base C W
  unfolding degrade unsupported
  require_lifecycle (some (forks, false)) b =
      (raised (unsupported "cannot serve recreate resets"), b)
  require_lifecycle caps b = degrade b

  unfoldable pub resolve : Strategy → Base C W → Result Exc Unit × Base C W
  unfolding require_lifecycle choose
  resolve recreate b = require_lifecycle calls.capabilities b
  resolve strategy b = choose calls.capabilities calls.checkpoint b

  unfoldable pub unresolved : Option Strategy → Base C W → Result Exc Unit × Base C W
  unfolding resolve
  unresolved (some s) b = (ok tt, b)
  unresolved none b = resolve cfg.strategy b

  unfoldable pub conflicts : Strategy → Option C → Bool
  conflicts recreate (some c) = true
  conflicts _ _ = false

  -- `make`
  unfoldable pub make : Base C W → Result Exc Unit × Base C W
  unfolding conflicts unresolved resolved error
  make b =
      if conflicts cfg.strategy b.golden
      then (
        raised (error "reset_strategy='recreate' conflicts with an assigned golden_checkpoint"),
        b,
      )
      else unresolved (resolved b) b
