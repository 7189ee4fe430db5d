-- ===== src/Bulk.antt =====
-- zizq/src/bulk_enqueue.rs: `BulkEnqueueBuilder`. `X` is the type of foreign errors, `P` that of erased payloads.
use zizq_rust.Prelude.{ℕ, Bool, List, [], ◌∷◌, ◌++◌, Result, ok, err, length, ◌==◌}
use zizq_rust.Error.{ZizqError}
use zizq_rust.Enqueue.{EnqueueRequest, EnqueueBuilder, JobKind, into_request}

-- The payload of a request in its box, `Box<dyn erased_serde::Serialize + Send>`.
unfoldable pub erase : {F T P : Type 0} → (T → P) → EnqueueRequest F T → EnqueueRequest F P
erase boxed r = record {
  job_type = r.job_type;
  queue = r.queue;
  payload = boxed r.payload;
  priority = r.priority;
  ready_at = r.ready_at;
  retry_limit = r.retry_limit;
  backoff = r.backoff;
  retention = r.retention;
  unique_key = r.unique_key;
  unique_while = r.unique_while;
  batch = r.batch;
  budgets = r.budgets;
}

module _ (F P X : Type 0) where
  pub record BulkEnqueueBuilder : Type 0 where
    pub state : Result (List (EnqueueRequest F P)) (ZizqError X)

  unfoldable pub new_bulk : BulkEnqueueBuilder
  new_bulk = record { state = ok [] }

module _ {F P X : Type 0} where
  -- A request behind a failed one is not made.
  unfoldable pub push_request :
      Result (EnqueueRequest F P) (ZizqError X)
      → BulkEnqueueBuilder F P X
      → BulkEnqueueBuilder F P X
  push_request made b = elim b.state [
    | err _ ↦ b
    | ok requests ↦ elim made [
      | ok request ↦ record { state = ok (requests ++ request ∷ []) }
      | err e ↦ record { state = err e }
    ]
  ]

  unfoldable pub push :
      {T : Type 0}
      → (T → P)
      → JobKind F T
      → EnqueueBuilder F T
      → BulkEnqueueBuilder F P X
      → BulkEnqueueBuilder F P X
  unfolding push_request into_request erase
  push boxed kind job b = push_request (ok (erase boxed (into_request kind job))) b

  unfoldable pub len : BulkEnqueueBuilder F P X → ℕ
  len b = elim b.state [ ok requests ↦ length requests | err _ ↦ 0 ]

  unfoldable pub is_empty_bulk : BulkEnqueueBuilder F P X → Bool
  unfolding len
  is_empty_bulk b = len b == 0
