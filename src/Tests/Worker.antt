-- ===== src/Tests/Worker.antt =====
-- The worker on concrete runs.
use zizq_rust.Prelude.{
  ℕ, ◌+◌, ◌*◌, ◌^◌, ◌≤◌, ◌≡◌, ◌↔◌, ◌⊎◌, refl, String, true, false, some, none, List, [], ◌∷◌, ◌++◌,
  Result, ok, err, arith, map, length, min,
}
use zizq_rust.Error.{ZizqError, transport, response, encode, is_client_error}
use zizq_rust.Worker.Backoff.{initial_backoff, max_backoff, backoff_after, backoff_after-eq}
use zizq_rust.Worker.Builder.{Worker, build, get_or, ack_capacity}
use zizq_rust.Worker.Builder.Calls
use zizq_rust.Worker.Builder.Calls.{
  Call, chain, asked_concurrency, asked_prefetch, build-settings, ack_capacity-zero,
}
use zizq_rust.Worker.Builder.Calls.{build-failure, failure}
use zizq_rust.Worker.Ack
use zizq_rust.Worker.Ack.{AckState, AckEvent, acked, receiving, spawn}
use zizq_rust.Worker.Ack.Settled.{run-conserves, settled_ids, held, sent}
use zizq_rust.Worker.Ack.Retry.{run-IsValid, IsValid, attempts, attempts-retry, sending_state}
use zizq_rust.Worker.Handle.{handle_job, handle_job-reported, waits_from, reported, HandlerError}
use zizq_rust.Worker.Dispatch
use zizq_rust.Worker.Dispatch.{State, Config, Event, Task, start, stopped, waiting, draining}
use zizq_rust.Worker.Dispatch.Outcome.{
  inflight-le-concurrency, stopped-ok, stopped-err, draining-held,
}
use zizq_rust.Worker.Dispatch.Jobs.{jobs-conserved, count, jobs, pulled}

-- Two ids in one batch, a transport failure, and a third id that waits in the channel.
abbrev ack_events : List (AckEvent String)
ack_events =
    AckEvent.send "a"
    ∷ AckEvent.send "b"
    ∷ AckEvent.receive
    ∷ AckEvent.receive
    ∷ AckEvent.receive
    ∷ AckEvent.reply (err (transport "reset"))
    ∷ AckEvent.wake
    ∷ AckEvent.send "c"
    ∷ AckEvent.reply (ok tt)
    ∷ []

abbrev ack_state : AckState
ack_state = record {
  capacity = 2;
  queue = "c" ∷ [];
  closed = false;
  phase = receiving;
  settled = ("a" ∷ "b" ∷ [], acked) ∷ [];
}

run-conserves_example :
    settled_ids ack_state.settled ++ (held ack_state.phase ++ ack_state.queue) ≡ sent ack_events
unfolding Ack.run Ack.step spawn
run-conserves_example = run-conserves 2 ack_events ack_state refl

run-IsValid_example : IsValid ack_state
unfolding Ack.run Ack.step spawn
run-IsValid_example = run-IsValid 2 ack_events ack_state refl

-- An error of the encoder is retried too, though it is not worth sending again.
abbrev failures : List (ZizqError String)
failures = transport "reset" ∷ response 503 "busy" ∷ encode "bad" ∷ []

attempts-retry_example :
    Ack.run (sending_state ack_state ("a" ∷ []) initial_backoff) (attempts failures)
    ≡ some (
        sending_state ack_state
          ("a" ∷ [])
          (min (initial_backoff * 2 ^ length failures) max_backoff))
unfolding is_client_error
attempts-retry_example = attempts-retry ack_state ("a" ∷ []) failures (refl, (refl, (refl, tt)))

abbrev panicked : HandlerError
panicked = record { type_name = "MyError"; message = "no such user" }

handle_job-reported_example :
    handle_job "j1" (err panicked) true (map err failures ++ ok tt ∷ []) ≡ (
      waits_from 0 (length failures),
      reported (record { id = "j1"; message = "no such user"; error_type = "MyError" }),
    )
unfolding is_client_error
handle_job-reported_example =
    handle_job-reported "j1" panicked true failures [] (refl, (refl, (refl, tt)))

-- The latest call stands first.
abbrev calls : List (Call ℕ ℕ)
calls =
    Call.reconnect false
    ∷ Call.prefetch 0
    ∷ Call.concurrency 0
    ∷ Call.handler 7
    ∷ Call.client 5
    ∷ []

abbrev built : Worker ℕ ℕ
built = record {
  client = 5;
  handler = 7;
  concurrency = 1;
  queues = [];
  prefetch = 0;
  reconnect = false;
  shutdown_timeout = 60_000;
}

build-settings_example :
    (built.concurrency ≡ asked_concurrency calls)
    × (1 ≤ built.concurrency)
    × (built.prefetch ≡ get_or (asked_prefetch calls) built.concurrency)
unfolding build chain
build-settings_example = build-settings {F = String} calls built refl

ack_capacity-zero_example :
    (ack_capacity built ≡ 0)
    ↔ ((asked_prefetch calls ≡ some 0) ⊎ (asked_prefetch calls ≡ some (2 ^ 63)))
unfolding build chain
ack_capacity-zero_example = ack_capacity-zero {F = String} calls built refl (omega arith)

build-failure_example : failure (build {F = String} (chain calls)) ≡ none
unfolding Calls.has_client Calls.has_handler
build-failure_example = build-failure {F = String} calls

abbrev config : Config
config = record { concurrency = 1; reconnect = true }

abbrev task_done : Task
task_done = record { job = "j1"; done = true }

-- A failed connection, a session with a job, and a shutdown in which the task is joined.
abbrev dispatch_events : List (Event String)
dispatch_events =
    Event.connected (err (transport "refused"))
    ∷ Event.slept
    ∷ Event.connected (ok tt)
    ∷ Event.next_job "j1"
    ∷ Event.finish 0
    ∷ Event.shutdown
    ∷ []

abbrev draining_state : State String
draining_state = record {
  phase = draining true (ok tt);
  inflight = task_done ∷ [];
  joined = [];
  aborted = [];
  shutdown_seen = true;
}

abbrev stopped_events : List (Event String)
stopped_events = dispatch_events ++ Event.join 0 ∷ Event.drained ∷ []

abbrev stopped_state : State String
stopped_state = record {
  phase = stopped (ok tt);
  inflight = [];
  joined = "j1" ∷ [];
  aborted = [];
  shutdown_seen = true;
}

inflight-le-concurrency_example : 1 ≤ config.concurrency
unfolding Dispatch.run Dispatch.step start
inflight-le-concurrency_example = inflight-le-concurrency config dispatch_events draining_state refl

draining-held_example :
    (draining_state.shutdown_seen ≡ true)
    × (◌≡◌ {A = Result (Unit {0}) (ZizqError String)} (ok tt) (ok tt))
unfolding Dispatch.run Dispatch.step start
draining-held_example = draining-held config dispatch_events draining_state (ok tt) refl refl

stopped-ok_example : stopped_state.shutdown_seen ≡ true
unfolding Dispatch.run Dispatch.step start
stopped-ok_example = stopped-ok config stopped_events stopped_state refl refl refl

jobs-conserved_example :
    count (λ id. true) stopped_state.joined
      + count (λ id. true) stopped_state.aborted
      + count (λ id. true) (jobs stopped_state.inflight)
    ≡ count (λ id. true) (pulled stopped_events)
unfolding Dispatch.run Dispatch.step start
jobs-conserved_example = jobs-conserved (λ id. true) config stopped_events stopped_state refl

abbrev refused : ZizqError String
refused = response 403 "no licence"

abbrev refused_state : State String
refused_state = record {
  phase = stopped (err refused);
  inflight = [];
  joined = [];
  aborted = [];
  shutdown_seen = false;
}

stopped-err_example : is_client_error refused ≡ true
unfolding Dispatch.run Dispatch.step start
stopped-err_example =
    stopped-err config (Event.connected (err refused) ∷ Event.drained ∷ []) refused_state refused
      refl refl refl

backoff_after-eq_example : backoff_after 7 ≡ min (initial_backoff * 2 ^ 7) max_backoff
backoff_after-eq_example = backoff_after-eq 7
