-- ===== src/Worker/Dispatch/Outcome.antt =====
-- zizq/src/worker.rs: how many handlers run at once, and how `Worker::run` returns.
use zizq_rust.Prelude.{
  ℕ, ◌≤◌, ◌≡◌, refl, Bool, true, false, some, List, ok, err, length, subst, inl, inr, arith,
}
use zizq_rust.Error.{ZizqError, is_client_error}
use zizq_rust.Worker.Backoff.{initial_backoff, max_backoff}
use zizq_rust.Worker.Dispatch.{
  State, Config, Event, Returned, run, start, stopped, draining, waiting,
}
use zizq_rust.Worker.Dispatch.Bounds.{start-IsSound, EndIsValid, BackoffIsValid, Stops, Ends}

ended_well :
    (F : Type 0) (config : Config) (held seen : Bool)
    → Ends {F = F} config held (ok tt) seen
    → config.reconnect ≡ true
    → seen ≡ true
ended_well F config true seen end on = end
ended_well F config false seen (inl h) on = h
ended_well F config false seen (inr off) on = ground arith

module _ {F : Type 0} where
  -- However the server, the handlers and the shutdown behave, no more tasks than `concurrency` are in
  -- flight, over all sessions together.
  pub inflight-le-concurrency :
      (config : Config) (events : List (Event F)) (s : State F)
      → run config start events ≡ some s
      → length s.inflight ≤ config.concurrency
  inflight-le-concurrency config events s e = (start-IsSound config events s e).tasks

  -- A worker waits between half a second and 30 seconds before each attempt to reconnect.
  pub waiting-bounds :
      (config : Config) (events : List (Event F)) (s : State F) (backoff : ℕ)
      → run config start events ≡ some s
      → s.phase ≡ waiting backoff
      → (initial_backoff ≤ backoff) × (backoff ≤ max_backoff)
  waiting-bounds config events s backoff e at =
      subst BackoffIsValid at (start-IsSound config events s e).phased.0

  ended_badly :
      (config : Config) (held seen : Bool) (e : ZizqError F)
      → Ends config held (err e) seen
      → config.reconnect ≡ true
      → is_client_error e ≡ true
  ended_badly config true seen e end on = absurd end
  ended_badly config false seen e (inl h) on = h
  ended_badly config false seen e (inr off) on = ground arith

  stopped_cause :
      (config : Config) (events : List (Event F)) (s : State F) (r : Returned F)
      → run config start events ≡ some s
      → s.phase ≡ stopped r
      → Stops config r s.shutdown_seen
  stopped_cause config events s r e at =
      subst (λ p. EndIsValid config p s.shutdown_seen) at (start-IsSound config events s e).phased.1

  -- A worker that reconnects returns without an error only after a shutdown that it saw.
  pub stopped-ok :
      (config : Config) (events : List (Event F)) (s : State F)
      → config.reconnect ≡ true
      → run config start events ≡ some s
      → s.phase ≡ stopped (ok tt)
      → s.shutdown_seen ≡ true
  stopped-ok config events s on e at =
      let (held, end) = stopped_cause config events s (ok tt) e at in
      ended_well F config held s.shutdown_seen end on

  -- A worker that reconnects returns an error only if that is a client error: transport failures,
  -- server errors and streams that break never end it.
  pub stopped-err :
      (config : Config) (events : List (Event F)) (s : State F) (x : ZizqError F)
      → config.reconnect ≡ true
      → run config start events ≡ some s
      → s.phase ≡ stopped (err x)
      → is_client_error x ≡ true
  stopped-err config events s x on e at =
      let (held, end) = stopped_cause config events s (err x) e at in
      ended_badly config held s.shutdown_seen x end on

  -- The stream is held open through the drain only after a shutdown, and then `run` returns no error.
  pub draining-held :
      (config : Config) (events : List (Event F)) (s : State F) (r : Returned F)
      → run config start events ≡ some s
      → s.phase ≡ draining true r
      → (s.shutdown_seen ≡ true) × (r ≡ ok tt)
  draining-held config events s r e at = held_open r (
      subst (λ p. EndIsValid config p s.shutdown_seen) at
        (start-IsSound config events s e).phased.1)
    where
      held_open :
          (q : Returned F)
          → Ends config true q s.shutdown_seen
          → (s.shutdown_seen ≡ true) × (q ≡ ok tt)
      held_open (ok u) h = (h, refl)
      held_open (err x) h = absurd h
