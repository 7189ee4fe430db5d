-- ===== src/Enqueue.antt =====
-- zizq/src/enqueue.rs: `EnqueueBuilder` and its request, and zizq/src/job.rs: `JobKind`. `T` is the type of
-- payloads, with its serialised form kept by the client, and `F` that of `f32`.
pub mod Calls
use zizq_rust.Prelude.{
  unwrap_or, ℕ, ◌+◌, leb, if◌then◌else◌, String, Option, some, none, List, [], ◌∷◌, ◌++◌,
}
use zizq_rust.Patch.Job.{BackoffConfig}
use zizq_rust.Budget.{BudgetBindingInput}
use zizq_rust.Filter.{Time, to_ms_epoch}

pub record RetentionConfig : Type 0 where
  pub completed_ms : Option ℕ
  pub dead_ms : Option ℕ

pub data UniqueScope : Type 0 where
  queued active exists unknown : UniqueScope

pub record UniqueKey : Type 0 where
  pub key : String
  pub scope : Option UniqueScope

pub record BatchConfig : Type 0 where
  pub key : String
  pub when : String
  pub fold : String

pub record JobKind (F T : Type 0) : Type 0 where
  pub name : String
  pub queue : String
  pub priority : Option ℕ
  pub retry_limit : Option ℕ
  pub backoff : Option (BackoffConfig F)
  pub retention : Option RetentionConfig
  pub budgets : List BudgetBindingInput
  pub unique_key : T → Option UniqueKey
  pub batch : T → Option BatchConfig

pub record EnqueueBuilder (F T : Type 0) : Type 0 where
  pub payload : T
  pub queue : Option String
  pub priority : Option ℕ
  pub ready_at_ms : Option ℕ
  pub retry_limit : Option ℕ
  pub backoff : Option (BackoffConfig F)
  pub retention : Option RetentionConfig
  pub unique_key : Option UniqueKey
  pub batch : Option BatchConfig
  pub budgets : Option (List BudgetBindingInput)

pub record EnqueueRequest (F T : Type 0) : Type 0 where
  pub job_type : String
  pub queue : String
  pub payload : T
  pub priority : Option ℕ
  pub ready_at : Option ℕ
  pub retry_limit : Option ℕ
  pub backoff : Option (BackoffConfig F)
  pub retention : Option RetentionConfig
  pub unique_key : Option String
  pub unique_while : Option UniqueScope
  pub batch : Option BatchConfig
  pub budgets : List BudgetBindingInput

-- `or` of an option.
abbrev pub or : {A : Type 0} → Option A → Option A → Option A
or none d = d
or (some a) d = some a

abbrev pub key_of : Option UniqueKey → Option String
key_of none = none
key_of (some u) = some u.key

abbrev pub scope_of : Option UniqueKey → Option UniqueScope
scope_of none = none
scope_of (some u) = u.scope

module _ {F T : Type 0} where
  unfoldable pub new : T → EnqueueBuilder F T
  new payload = record {
    payload = payload;
    queue = none;
    priority = none;
    ready_at_ms = none;
    retry_limit = none;
    backoff = none;
    retention = none;
    unique_key = none;
    batch = none;
    budgets = none;
  }

  unfoldable pub set_queue : String → EnqueueBuilder F T → EnqueueBuilder F T
  set_queue queue b = record b { queue = some queue }

  unfoldable pub set_priority : ℕ → EnqueueBuilder F T → EnqueueBuilder F T
  set_priority priority b = record b { priority = some priority }

  -- `now` is what the clock says, in nanoseconds after the epoch, and so is the delay. `latest` is the last time that
  -- `OffsetDateTime` holds; `none` is the panic of a sum beyond it.
  unfoldable pub delay : ℕ → ℕ → ℕ → EnqueueBuilder F T → Option (EnqueueBuilder F T)
  unfolding to_ms_epoch
  delay latest now d b =
      if leb (now + d) latest
      then some (record b { ready_at_ms = some (to_ms_epoch (Time.after_epoch (now + d))) })
      else none

  unfoldable pub set_ready_at : Time → EnqueueBuilder F T → EnqueueBuilder F T
  unfolding to_ms_epoch
  set_ready_at when b = record b { ready_at_ms = some (to_ms_epoch when) }

  unfoldable pub run_at : Time → EnqueueBuilder F T → EnqueueBuilder F T
  unfolding set_ready_at
  run_at when b = set_ready_at when b

  unfoldable pub set_retry_limit : ℕ → EnqueueBuilder F T → EnqueueBuilder F T
  set_retry_limit n b = record b { retry_limit = some n }

  unfoldable pub set_backoff : BackoffConfig F → EnqueueBuilder F T → EnqueueBuilder F T
  set_backoff backoff b = record b { backoff = some backoff }

  unfoldable pub set_retention : RetentionConfig → EnqueueBuilder F T → EnqueueBuilder F T
  set_retention retention b = record b { retention = some retention }

  unfoldable pub set_unique_key : UniqueKey → EnqueueBuilder F T → EnqueueBuilder F T
  set_unique_key key b = record b { unique_key = some key }

  unfoldable pub set_batch : BatchConfig → EnqueueBuilder F T → EnqueueBuilder F T
  set_batch batch b = record b { batch = some batch }

  -- `get_or_insert_default().push(…)`
  unfoldable pub add_budget : BudgetBindingInput → EnqueueBuilder F T → EnqueueBuilder F T
  add_budget budget b = record b { budgets = some (unwrap_or b.budgets [] ++ budget ∷ []) }

  unfoldable pub set_budgets : List BudgetBindingInput → EnqueueBuilder F T → EnqueueBuilder F T
  set_budgets budgets b = record b { budgets = some budgets }

  unfoldable pub clear_budgets : EnqueueBuilder F T → EnqueueBuilder F T
  clear_budgets b = record b { budgets = some [] }

  unfoldable pub into_request : JobKind F T → EnqueueBuilder F T → EnqueueRequest F T
  into_request kind b = record {
    job_type = kind.name;
    queue = unwrap_or b.queue kind.queue;
    payload = b.payload;
    priority = or b.priority kind.priority;
    ready_at = b.ready_at_ms;
    retry_limit = or b.retry_limit kind.retry_limit;
    backoff = or b.backoff kind.backoff;
    retention = or b.retention kind.retention;
    unique_key = key_of (or b.unique_key (kind.unique_key b.payload));
    unique_while = scope_of (or b.unique_key (kind.unique_key b.payload));
    batch = or b.batch (kind.batch b.payload);
    budgets = unwrap_or b.budgets kind.budgets;
  }
