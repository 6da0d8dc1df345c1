-- ===== src/Errors/Tests.antt =====
-- The taxonomy on one exception of each kind.
use shinken.Prelude.{◌≡◌, refl}
use shinken.Errors.{
  Exc, connect_error, timeout_error, value_error, died_status, timeout_status, error_status,
  classify_exception,
}

abbrev refused : Exc
refused = record { class = connect_error; message = "connection refused" }

classify-classes :
    (classify_exception refused ≡ died_status)
    × (classify_exception (record { class = timeout_error; message = "" }) ≡ timeout_status)
    × (classify_exception (record { class = value_error; message = "" }) ≡ error_status)
unfolding classify_exception
classify-classes = (refl, refl, refl)
