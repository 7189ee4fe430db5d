-- ===== src/Error.antt =====
-- zizq/src/error.rs: the client's error type and the predicates that classify a failure.
-- `F` stands for the errors of the `url` and `reqwest` crates.
pub mod Classes
use zizq_rust.Prelude.{ℕ, ◌≡◌, String, Bool, true, false, ◌&&◌, ◌||◌, Option, none, some, ◌==◌, leb}

pub data ZizqError (F : Type 0) : Type 0 where
  missing_url : ZizqError F
  invalid_url : F → ZizqError F
  transport : F → ZizqError F
  response : ℕ → String → ZizqError F
  encode : String → ZizqError F
  decode : String → ZizqError F
  missing_client : ZizqError F
  missing_handler : ZizqError F
  missing_patch : ZizqError F
  tls : String → ZizqError F

-- `matches!(s, Some(lo..=hi))`
abbrev pub status_in : ℕ → ℕ → Option ℕ → Bool
status_in lo hi none = false
status_in lo hi (some s) = leb lo s && leb s hi

abbrev pub status_eq : ℕ → Option ℕ → Bool
status_eq n none = false
status_eq n (some s) = s == n

module _ {F : Type 0} where
  unfoldable pub status : ZizqError F → Option ℕ
  status (response s message) = some s
  status _ = none

  unfoldable pub is_not_found : ZizqError F → Bool
  unfolding status
  is_not_found e = status_eq 404 (status e)

  unfoldable pub is_conflict : ZizqError F → Bool
  unfolding status
  is_conflict e = status_eq 409 (status e)

  unfoldable pub is_forbidden : ZizqError F → Bool
  unfolding status
  is_forbidden e = status_eq 403 (status e)

  unfoldable pub is_invalid_request : ZizqError F → Bool
  unfolding status
  is_invalid_request e = status_eq 400 (status e) || status_eq 422 (status e)

  unfoldable pub is_unsupported_format : ZizqError F → Bool
  unfolding status
  is_unsupported_format e = status_eq 406 (status e) || status_eq 415 (status e)

  unfoldable pub is_client_error : ZizqError F → Bool
  unfolding status
  is_client_error e = status_in 400 499 (status e)

  unfoldable pub is_server_error : ZizqError F → Bool
  unfolding status
  is_server_error e = status_in 500 599 (status e)

  unfoldable pub is_transport : ZizqError F → Bool
  is_transport (transport e) = true
  is_transport _ = false

  unfoldable pub is_retryable : ZizqError F → Bool
  unfolding is_transport is_server_error
  is_retryable e = is_transport e || is_server_error e
