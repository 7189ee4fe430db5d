-- ===== src/Worker/Ack.antt =====
-- zizq/src/worker.rs: `ack_processor`, the task that acknowledges finished jobs in batches, and the
-- loop of `handle_job` that reports a failure.
pub mod Settled
pub mod Retry
use zizq_rust.Prelude.{
  ℕ, ◌*◌, String, Bool, true, false, Option, some, none, List, [], ◌∷◌, ◌++◌, Result, ok, err,
  if◌then◌else◌, length, ltb,
}
use zizq_rust.Error.{ZizqError, is_client_error}
use zizq_rust.Worker.Backoff.{initial_backoff, next_backoff}

-- What became of a batch: the server took it, or refused it with a 4xx and it was dropped.
pub data Fate : Type 0 where
  acked dropped : Fate

-- Where the task stands: blocked on the channel, draining what else is there, sending a batch, or
-- waiting to send it again.
pub data AckPhase : Type 0 where
  receiving : AckPhase
  draining : List String → AckPhase
  sending : List String → ℕ → AckPhase
  sleeping : List String → ℕ → AckPhase
  returned : AckPhase

-- `queue` is what the channel holds; `closed` says that every sender is gone. `settled` records the
-- batches that are done with, the latest last, and is no state of the program.
pub record AckState : Type 0 where
  pub capacity : ℕ
  pub queue : List String
  pub closed : Bool
  pub phase : AckPhase
  pub settled : List (List String × Fate)

-- What the environment does, and when the task runs: a handler's send, the drop of the last sender,
-- `recv` or `try_recv` of the task, the server's reply, the end of a sleep.
pub data AckEvent (F : Type 0) : Type 0 where
  send : String → AckEvent F
  close : AckEvent F
  receive : AckEvent F
  reply : Result (Unit {0}) (ZizqError F) → AckEvent F
  wake : AckEvent F

-- `recv` blocks on an empty channel, and ends the task on one that is closed too.
abbrev pub recv : List String → Bool → AckState → Option AckState
recv [] false s = none
recv [] true s = some (record s { phase = returned })
recv (id ∷ ids) closed s = some (record s { queue = ids; phase = draining (id ∷ []) })

-- `try_recv` adds to the batch until the channel is empty.
abbrev pub try_recv : List String → List String → AckState → AckState
try_recv batch [] s = record s { phase = sending batch initial_backoff }
try_recv batch (id ∷ ids) s = record s { queue = ids; phase = draining (batch ++ id ∷ []) }

module _ {F : Type 0} where
  abbrev pub settle : Result (Unit {0}) (ZizqError F) → List String → ℕ → AckState → AckState
  settle (ok u) batch backoff s = record s {
    phase = receiving;
    settled = s.settled ++ (batch, acked) ∷ [];
  }
  settle (err e) batch backoff s =
      if is_client_error e
      then record s { phase = receiving; settled = s.settled ++ (batch, dropped) ∷ [] }
      else record s { phase = sleeping batch backoff }

  abbrev pub step_at : AckPhase → AckEvent F → AckState → Option AckState
  step_at phase (send id) s =
      if s.closed
      then none
      else (if ltb (length s.queue) s.capacity
          then some (record s { queue = s.queue ++ id ∷ [] })
          else none)
  step_at phase close s = some (record s { closed = true })
  step_at receiving receive s = recv s.queue s.closed s
  step_at (draining batch) receive s = some (try_recv batch s.queue s)
  step_at (sending batch backoff) (reply r) s = some (settle r batch backoff s)
  step_at (sleeping batch backoff) wake s =
      some (record s { phase = sending batch (next_backoff backoff) })
  step_at _ _ s = none

  -- One event; `none` says that it cannot happen in this state.
  unfoldable pub step : AckState → AckEvent F → Option AckState
  unfolding is_client_error next_backoff
  step s event = step_at s.phase event s

  -- All events in turn.
  unfoldable pub run : AckState → List (AckEvent F) → Option AckState
  run s [] = some s
  run s (event ∷ events) = elim (step s event) [ none ↦ none | some s' ↦ run s' events ]

unfoldable pub spawn : ℕ → AckState
spawn capacity = record {
  capacity = capacity;
  queue = [];
  closed = false;
  phase = receiving;
  settled = [];
}
