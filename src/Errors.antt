-- ===== src/Errors.antt =====
-- sdk/python/src/shinken/errors.py: the failure taxonomy. An exception is its class and its text.
mod Tests
pub mod Laws
use shinken.Prelude.{String, Bool, true, false, ◌||◌, if◌then◌else◌}

-- The classes that the SDK raises or tells apart, those of the standard library and of the
-- websockets library among them; `other_error` stands for every further class.
pub data ExcClass : Type 0 where
  shinken_error session_closed connect_error unknown_verb provider_required : ExcClass
  sandbox_died scorer_error setup_error gym_error capability_denied : ExcClass
  unsupported_provider_operation dialect_error : ExcClass
  value_error key_error type_error runtime_error : ExcClass
  timeout_error connection_error connection_closed other_error : ExcClass

pub record Exc : Type 0 where
  pub class : ExcClass
  pub message : String

-- `isinstance(exc, SandboxDied)`
unfoldable pub is_sandbox_died : ExcClass → Bool
is_sandbox_died sandbox_died = true
is_sandbox_died _ = false

-- `isinstance(exc, TimeoutError)`
unfoldable pub is_timeout : ExcClass → Bool
is_timeout timeout_error = true
is_timeout _ = false

-- `isinstance(exc, ConnectionError)`: ConnectError is a subclass of it.
unfoldable pub is_connection_error : ExcClass → Bool
is_connection_error connection_error = true
is_connection_error connect_error = true
is_connection_error _ = false

-- `isinstance(exc, ConnectionClosed)`, of the websockets library.
unfoldable pub is_connection_closed : ExcClass → Bool
is_connection_closed connection_closed = true
is_connection_closed _ = false

unfoldable pub is_connection_loss : Exc → Bool
unfolding is_connection_error is_connection_closed
is_connection_loss exc =
    if is_connection_error exc.class then true else is_connection_closed exc.class

-- ACTION_STATUSES
pub data Status : Type 0 where
  ok_status error_status timeout_status skipped_status died_status : Status

unfoldable pub classify_exception : Exc → Status
unfolding is_sandbox_died is_timeout is_connection_loss
classify_exception exc =
    if is_sandbox_died exc.class
    then died_status
    else if is_timeout exc.class
    then timeout_status
    else if is_connection_loss exc
    then died_status
    else error_status

-- The test that the rollout loop, the gym and the evaluator share:
-- `isinstance(exc, SandboxDied) or is_connection_loss(exc)`.
unfoldable pub is_infra_death : Exc → Bool
unfolding is_sandbox_died is_connection_loss
is_infra_death exc = is_sandbox_died exc.class || is_connection_loss exc
