-- ===== src/Tests/Error.antt =====
-- The classes of errors on concrete errors.
use zizq_rust.Prelude.{◌≡◌, refl, String, true, false}
use zizq_rust.Error.{
  ZizqError, response, is_client_error, is_retryable, is_not_found, is_conflict, is_forbidden,
  is_invalid_request, is_unsupported_format,
}
use zizq_rust.Error.Classes.{named-is_client_error}

abbrev unprocessable : ZizqError String
unprocessable = response 422 "bad job"

named-is_client_error_example :
    (is_client_error unprocessable ≡ true) × (is_retryable unprocessable ≡ false)
unfolding is_not_found is_conflict is_forbidden is_invalid_request is_unsupported_format
named-is_client_error_example = named-is_client_error unprocessable refl
