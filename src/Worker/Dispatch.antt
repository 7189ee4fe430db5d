-- ===== src/Worker/Dispatch.antt =====
-- zizq/src/worker.rs: `Worker::run` with `dispatch_loop` and `dispatch_session`, as one machine that
-- takes the events of its environment in any order.
pub mod Bounds
pub mod Outcome
pub mod Jobs
use zizq_rust.Prelude.{
  ℕ, zero, suc, String, Bool, true, false, Option, some, none, List, [], ◌∷◌, ◌++◌, map, Result, ok,
  err, if◌then◌else◌, length, ltb,
}
use zizq_rust.Error.{ZizqError, is_client_error}
use zizq_rust.Worker.Backoff.{initial_backoff, next_backoff}

-- What `run` returns in the end.
abbrev pub Returned : Type 0 → Type 0
Returned F = Result (Unit {0}) (ZizqError F)

-- `connecting`: awaiting the take request. `session`: a stream is open. `waiting`: in
-- `sleep_or_shutdown`. `draining`: `dispatch_loop` has returned, with a stream that is still open or
-- without one. `stopped`: `run` has returned. The numbers are the current backoff.
pub data Phase (F : Type 0) : Type 0 where
  connecting : ℕ → Phase F
  session : ℕ → Phase F
  waiting : ℕ → Phase F
  draining : Bool → Returned F → Phase F
  stopped : Returned F → Phase F

-- A task of the `JoinSet`: its job's id, and whether the handler's task is done.
pub record Task : Type 0 where
  pub job : String
  pub done : Bool

-- `joined` (the ids of the tasks that were joined, the latest last), `aborted` (the ids of those that
-- the deadline aborted) and `shutdown_seen` are records of the run, and no state of the program.
pub record State (F : Type 0) : Type 0 where
  pub phase : Phase F
  pub inflight : List Task
  pub joined : List String
  pub aborted : List String
  pub shutdown_seen : Bool

pub record Config : Type 0 where
  pub concurrency : ℕ
  pub reconnect : Bool

-- `connected`: the answer to the take request. `next_job`, `stream_ended`, `stream_failed`: what the
-- stream answers. `finish i`: the i-th task of the set ends. `join i`: `join_next` returns the i-th
-- task. `drained`: the last acknowledgements are sent. `deadline`: the shutdown timeout.
pub data Event (F : Type 0) : Type 0 where
  connected : Result (Unit {0}) (ZizqError F) → Event F
  shutdown : Event F
  slept : Event F
  next_job : String → Event F
  stream_ended : Event F
  stream_failed : ZizqError F → Event F
  finish : ℕ → Event F
  join : ℕ → Event F
  drained : Event F
  deadline : Event F

-- The tasks with the i-th one done.
unfoldable pub finish_task : ℕ → List Task → Option (List Task)
finish_task i [] = none
finish_task zero (t ∷ ts) = some (record t { done = true } ∷ ts)
finish_task (suc i) (t ∷ ts) = elim (finish_task i ts) [ none ↦ none | some ts' ↦ some (t ∷ ts') ]

abbrev add_task : Task → Option (String × List Task) → Option (String × List Task)
add_task t none = none
add_task t (some (id, ts)) = some (id, t ∷ ts)

-- The i-th task, which has to be done, is taken out.
unfoldable pub join_task : ℕ → List Task → Option (String × List Task)
join_task i [] = none
join_task zero (t ∷ ts) = if t.done then some (t.job, ts) else none
join_task (suc i) (t ∷ ts) = add_task t (join_task i ts)

module _ {F : Type 0} where
  -- Where the loop goes when a stream is gone: it waits for the next attempt, or returns `r`.
  abbrev pub reconnect_or : Bool → ℕ → Returned F → Phase F
  reconnect_or true backoff r = waiting backoff
  reconnect_or false backoff r = draining false r

  abbrev pub after_connect : Config → ℕ → Result (Unit {0}) (ZizqError F) → Phase F
  after_connect config backoff (ok u) = session initial_backoff
  after_connect config backoff (err e) =
      if is_client_error e
      then draining false (err e)
      else reconnect_or config.reconnect backoff (err e)

  abbrev pub with_tasks : State F → Option (List Task) → Option (State F)
  with_tasks s none = none
  with_tasks s (some tasks) = some (record s { inflight = tasks })

  abbrev pub with_joined : State F → Option (String × List Task) → Option (State F)
  with_joined s none = none
  with_joined s (some (id, tasks)) =
      some (record s { inflight = tasks; joined = s.joined ++ id ∷ [] })

  -- `inflight.len() < concurrency`: the session pulls from its stream only then, and joins tasks
  -- only otherwise.
  abbrev pub free_slot : Config → State F → Bool
  free_slot config s = ltb (length s.inflight) config.concurrency

  abbrev pub when : Bool → State F → Option (State F)
  when true s = some s
  when false s = none

  unfoldable pub step_at : Phase F → Event F → Config → State F → Option (State F)
  unfolding is_client_error next_backoff join_task finish_task
  step_at (stopped r) event config s = none
  step_at phase (finish i) config s = with_tasks s (finish_task i s.inflight)
  step_at (connecting backoff) (connected r) config s =
      some (record s { phase = after_connect config backoff r })
  step_at (waiting backoff) shutdown config s =
      some (record s { phase = draining false (ok tt); shutdown_seen = true })
  step_at (waiting backoff) slept config s =
      some (record s { phase = connecting (next_backoff backoff) })
  step_at (session backoff) shutdown config s =
      some (record s { phase = draining true (ok tt); shutdown_seen = true })
  step_at (session backoff) (join i) config s =
      if free_slot config s then none else with_joined s (join_task i s.inflight)
  step_at (session backoff) (next_job id) config s =
      when (free_slot config s)
        (record s { inflight = s.inflight ++ record { job = id; done = false } ∷ [] })
  step_at (session backoff) stream_ended config s =
      when (free_slot config s) (record s { phase = reconnect_or config.reconnect backoff (ok tt) })
  step_at (session backoff) (stream_failed e) config s =
      when (free_slot config s) (record s { phase = reconnect_or config.reconnect backoff (err e) })
  step_at (draining held r) (join i) config s = with_joined s (join_task i s.inflight)
  step_at (draining held r) drained config s = elim s.inflight [
    | [] ↦ some (record s { phase = stopped r })
    | _ ∷ _ ↦ none
  ]
  step_at (draining held r) deadline config s = some (record s {
    phase = stopped r;
    inflight = [];
    aborted = s.aborted ++ map (λ t. t.job) s.inflight;
  })
  step_at _ _ config s = none

  unfoldable pub step : Config → State F → Event F → Option (State F)
  unfolding step_at
  step config s event = step_at s.phase event config s

  unfoldable pub run : Config → State F → List (Event F) → Option (State F)
  run config s [] = some s
  run config s (event ∷ events) = elim (step config s event) [
    | none ↦ none
    | some s' ↦ run config s' events
  ]

  unfoldable pub start : State F
  start = record {
    phase = connecting initial_backoff;
    inflight = [];
    joined = [];
    aborted = [];
    shutdown_seen = false;
  }
