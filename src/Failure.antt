-- ===== src/Failure.antt =====
-- zizq/src/failure.rs: `FailureBuilder` and the request that it makes.
use zizq_rust.Prelude.{ℕ, ◌+◌, String, Bool, true, false, Option, some, none}
use zizq_rust.Filter.{Time, after_epoch, to_ms_epoch}

pub record FailureBuilder : Type 0 where
  pub job_id : String
  pub message : String
  pub error_type : Option String
  pub backtrace : Option String
  pub retry_at_ms : Option ℕ
  pub kill : Bool

pub record FailureRequest : Type 0 where
  pub message : String
  pub error_type : Option String
  pub backtrace : Option String
  pub retry_at : Option ℕ
  pub kill : Bool

unfoldable pub new : String → String → FailureBuilder
new job_id message = record {
  job_id = job_id;
  message = message;
  error_type = none;
  backtrace = none;
  retry_at_ms = none;
  kill = false;
}

unfoldable pub set_error_type : String → FailureBuilder → FailureBuilder
set_error_type t b = record b { error_type = some t }

unfoldable pub set_backtrace : String → FailureBuilder → FailureBuilder
set_backtrace text b = record b { backtrace = some text }

unfoldable pub retry_at : Time → FailureBuilder → FailureBuilder
unfolding to_ms_epoch
retry_at when b = record b { retry_at_ms = some (to_ms_epoch when) }

-- `now` is what the clock says, in nanoseconds after the epoch, and so is the delay; their sum is a time
-- that `OffsetDateTime` holds.
unfoldable pub retry_in : ℕ → ℕ → FailureBuilder → FailureBuilder
unfolding to_ms_epoch
retry_in now delay b = record b { retry_at_ms = some (to_ms_epoch (after_epoch (now + delay))) }

unfoldable pub set_kill : FailureBuilder → FailureBuilder
set_kill b = record b { kill = true }

unfoldable pub failure_request : FailureBuilder → FailureRequest
failure_request b = record {
  message = b.message;
  error_type = b.error_type;
  backtrace = b.backtrace;
  retry_at = b.retry_at_ms;
  kill = b.kill;
}
