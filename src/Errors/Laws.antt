-- ===== src/Errors/Laws.antt =====
-- What the taxonomy of errors.py tells apart.
use shinken.Prelude.{◌≡◌, ◌≢◌, ◌↔◌, true, arith}
use shinken.Errors.{Exc, died_status, ok_status, skipped_status, classify_exception, is_infra_death}

-- Batch rows and rollouts agree on what infrastructure death is: an exception is given the status
-- `sandbox_died` exactly when the test that the loops share holds of it.
pub classify-is_infra_death :
    (exc : Exc) → (classify_exception exc ≡ died_status) ↔ (is_infra_death exc ≡ true)
unfolding classify_exception is_infra_death
classify-is_infra_death exc = ground arith

-- An exception is never classified as a success, nor as an action that did not run.
pub classify_failure :
    (exc : Exc) → (classify_exception exc ≢ ok_status) × (classify_exception exc ≢ skipped_status)
unfolding classify_exception
classify_failure exc = ground arith
