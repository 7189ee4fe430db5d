-- ===== src/Worker/Builder.antt =====
-- zizq/src/worker.rs: `WorkerBuilder`. `C` is the type of clients, `H` that of handlers.
pub mod Calls
use zizq_rust.Prelude.{
  ℕ, ◌*◌, ◌%◌, ◌^◌, String, Bool, true, Option, some, none, List, [], Result, ok, err, max,
}
use zizq_rust.Error.{ZizqError, missing_client, missing_handler}

abbrev pub default_shutdown_timeout : ℕ
default_shutdown_timeout = 60_000

pub record Worker (C H : Type 0) : Type 0 where
  pub client : C
  pub handler : H
  pub concurrency : ℕ
  pub queues : List String
  pub prefetch : ℕ
  pub reconnect : Bool
  pub shutdown_timeout : ℕ

pub record WorkerBuilder (C H : Type 0) : Type 0 where
  pub client : Option C
  pub handler : Option H
  pub concurrency : ℕ
  pub queues : List String
  pub prefetch : Option ℕ
  pub reconnect : Bool
  pub shutdown_timeout : ℕ

abbrev pub get_or : {A : Type 0} → Option A → A → A
get_or none d = d
get_or (some a) d = a

module _ {C H : Type 0} where
  unfoldable pub builder : WorkerBuilder C H
  builder = record {
    client = none;
    handler = none;
    concurrency = 1;
    queues = [];
    prefetch = none;
    reconnect = true;
    shutdown_timeout = default_shutdown_timeout;
  }

  unfoldable pub set_client : C → WorkerBuilder C H → WorkerBuilder C H
  set_client c b = record b { client = some c }

  unfoldable pub set_handler : H → WorkerBuilder C H → WorkerBuilder C H
  set_handler h b = record b { handler = some h }

  -- Only the first call sets a prefetch that is not set.
  unfoldable pub set_concurrency : ℕ → WorkerBuilder C H → WorkerBuilder C H
  set_concurrency n b = record b {
    concurrency = max n 1;
    prefetch = elim b.prefetch [ none ↦ some (max n 1) | some p ↦ some p ];
  }

  unfoldable pub set_queues : List String → WorkerBuilder C H → WorkerBuilder C H
  set_queues qs b = record b { queues = qs }

  unfoldable pub set_prefetch : ℕ → WorkerBuilder C H → WorkerBuilder C H
  set_prefetch n b = record b { prefetch = some n }

  unfoldable pub set_reconnect : Bool → WorkerBuilder C H → WorkerBuilder C H
  set_reconnect enabled b = record b { reconnect = enabled }

  unfoldable pub set_shutdown_timeout : ℕ → WorkerBuilder C H → WorkerBuilder C H
  set_shutdown_timeout d b = record b { shutdown_timeout = d }

  unfoldable pub build : {F : Type 0} → WorkerBuilder C H → Result (Worker C H) (ZizqError F)
  build b = elim b.client [
    | none ↦ err missing_client
    | some c ↦ elim b.handler [
      | none ↦ err missing_handler
      | some h ↦ ok (record {
        client = c;
        handler = h;
        concurrency = b.concurrency;
        queues = b.queues;
        prefetch = get_or b.prefetch b.concurrency;
        reconnect = b.reconnect;
        shutdown_timeout = b.shutdown_timeout;
      })
    ]
  ]

  -- The capacity that `Worker::run` asks of the channel of acknowledgements, a product of 64 bits. It wraps around where
  -- overflow is not checked; where it is, a product that does not fit panics.
  unfoldable pub ack_capacity : Worker C H → ℕ
  ack_capacity w = (w.prefetch * 2) % 2 ^ 64
