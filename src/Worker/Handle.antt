-- ===== src/Worker/Handle.antt =====
-- zizq/src/worker.rs: `handle_job`, the task of one job.
use zizq_rust.Prelude.{
  ℕ, suc, ◌≡◌, refl, ap, String, Bool, false, List, [], ◌∷◌, ◌++◌, Result, ok, err, if◌then◌else◌,
  length, All, map, zero,
}
use zizq_rust.Error.{ZizqError, is_client_error}
use zizq_rust.Worker.Backoff.{initial_backoff, next_backoff, backoff_after}

-- The handler's error, and the report of a failure that the server gets.
pub record HandlerError : Type 0 where
  pub type_name : String
  pub message : String

pub record FailureReport : Type 0 where
  pub id : String
  pub message : String
  pub error_type : String

-- How the task ends: the id is sent to the channel of acknowledgements, or that is closed; the report
-- is accepted, or refused as a client error; or the replies are used up before the loop ends.
pub data Handled : Type 0 where
  sent : String → Handled
  channel_closed : Handled
  reported : FailureReport → Handled
  rejected : FailureReport → Handled
  retrying : FailureReport → Handled

abbrev wait : ℕ → List ℕ × Handled → List ℕ × Handled
wait backoff (waits, end) = (backoff ∷ waits, end)

-- The first `n` waits that follow the first `k`.
unfoldable pub waits_from : ℕ → ℕ → List ℕ
waits_from k zero = []
waits_from k (suc n) = backoff_after k ∷ waits_from (suc k) n

module _ {F : Type 0} where
  -- The loop that reports a failure, against the replies to its requests, with the waits it makes.
  unfoldable pub report_loop :
      FailureReport → ℕ → List (Result (Unit {0}) (ZizqError F)) → List ℕ × Handled
  unfolding is_client_error next_backoff
  report_loop report backoff [] = ([], retrying report)
  report_loop report backoff (ok u ∷ replies) = ([], reported report)
  report_loop report backoff (err e ∷ replies) =
      let again = wait backoff (report_loop report (next_backoff backoff) replies) in
      if is_client_error e then ([], rejected report) else again

  unfoldable pub handle_job :
      String
      → Result (Unit {0}) HandlerError
      → Bool
      → List (Result (Unit {0}) (ZizqError F))
      → List ℕ × Handled
  unfolding report_loop
  handle_job id (ok u) open_channel replies = ([], if open_channel then sent id else channel_closed)
  handle_job id (err h) open_channel replies =
      report_loop (record { id = id; message = h.message; error_type = h.type_name })
        initial_backoff replies

  abbrev pub IsTransient : ZizqError F → Type 0
  IsTransient e = is_client_error e ≡ false

  report_loop-transient :
      (report : FailureReport) (k : ℕ) (es : List (ZizqError F))
      (last : Result (Unit {0}) (ZizqError F)) (rest : List (Result (Unit {0}) (ZizqError F)))
      (end : Handled)
      → All IsTransient es
      → ((b : ℕ) → report_loop report b (last ∷ rest) ≡ ([], end))
      → report_loop report (backoff_after k) (map err es ++ last ∷ rest)
        ≡ (waits_from k (length es), end)
  unfolding report_loop waits_from backoff_after
  report_loop-transient report k [] last rest end h ends = ends (backoff_after k)
  report_loop-transient report k (e ∷ es) last rest end h ends =
      rw h.0 (
        ap (wait (backoff_after k))
          (report_loop-transient report (suc k) es last rest end h.1 ends))

  -- A failed job's report, with the handler's message and error type, is sent again after every error
  -- that is not a client error, with the waits of the backoff, until the server accepts it.
  pub handle_job-reported :
      (id : String) (h : HandlerError) (open_channel : Bool) (es : List (ZizqError F))
      (rest : List (Result (Unit {0}) (ZizqError F)))
      → All IsTransient es
      → handle_job id (err h) open_channel (map err es ++ ok tt ∷ rest) ≡ (
        waits_from 0 (length es),
        reported (record { id = id; message = h.message; error_type = h.type_name }),
      )
  unfolding handle_job backoff_after
  handle_job-reported id h open_channel es rest transient =
      report_loop-transient _ 0 es (ok tt) rest _ transient (λ b. refl)
