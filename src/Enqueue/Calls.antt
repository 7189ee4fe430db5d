-- ===== src/Enqueue/Calls.antt =====
-- zizq/src/enqueue.rs: the request of any chain of calls on the builder of an enqueue.
use zizq_rust.Prelude.{
  unwrap_or, ℕ, ◌+◌, String, Option, some, none, List, [], ◌∷◌, ◌++◌, ◌≡◌, refl, ap, ◌∙◌, Bool,
  true, false, ◌&&◌, leb, if◌then◌else◌,
}
use zizq_rust.Patch.Job.{BackoffConfig}
use zizq_rust.Budget.{BudgetBindingInput}
use zizq_rust.Filter.{Time, after_epoch, to_ms_epoch}
use zizq_rust.Enqueue.{
  RetentionConfig, UniqueKey, BatchConfig, JobKind, EnqueueBuilder, EnqueueRequest, or, key_of,
  scope_of, new, set_queue, set_priority, delay, set_ready_at, run_at, set_retry_limit, set_backoff,
  set_retention, set_unique_key, set_batch, add_budget, set_budgets, clear_budgets, into_request,
}

pub data Call (F : Type 0) : Type 0 where
  to_queue : String → Call F
  priority : ℕ → Call F
  delayed : ℕ → ℕ → Call F
  at : Time → Call F
  running_at : Time → Call F
  retries : ℕ → Call F
  backoff : BackoffConfig F → Call F
  retention : RetentionConfig → Call F
  keyed : UniqueKey → Call F
  batched : BatchConfig → Call F
  budget : BudgetBindingInput → Call F
  budgets : List BudgetBindingInput → Call F
  no_budgets : Call F

-- What the last of the calls that are about a field sets; the last call stands first.
unfoldable pub last_of : {C A : Type 0} → (C → Option A) → List C → Option A
last_of sets [] = none
last_of sets (c ∷ earlier) = or (sets c) (last_of sets earlier)

module _ {F : Type 0} where
  unfoldable pub sets_queue : Call F → Option String
  sets_queue (to_queue x) = some x
  sets_queue _ = none

  unfoldable pub sets_priority : Call F → Option ℕ
  sets_priority (priority x) = some x
  sets_priority _ = none

  unfoldable pub sets_ready_at_ms : Call F → Option ℕ
  unfolding to_ms_epoch
  sets_ready_at_ms (delayed x y) = some (to_ms_epoch (after_epoch (x + y)))
  sets_ready_at_ms (at x) = some (to_ms_epoch x)
  sets_ready_at_ms (running_at x) = some (to_ms_epoch x)
  sets_ready_at_ms _ = none

  unfoldable pub sets_retry_limit : Call F → Option ℕ
  sets_retry_limit (retries x) = some x
  sets_retry_limit _ = none

  unfoldable pub sets_backoff : Call F → Option (BackoffConfig F)
  sets_backoff (backoff x) = some x
  sets_backoff _ = none

  unfoldable pub sets_retention : Call F → Option RetentionConfig
  sets_retention (retention x) = some x
  sets_retention _ = none

  unfoldable pub sets_unique_key : Call F → Option UniqueKey
  sets_unique_key (keyed x) = some x
  sets_unique_key _ = none

  unfoldable pub sets_batch : Call F → Option BatchConfig
  sets_batch (batched x) = some x
  sets_batch _ = none

  -- The budgets added since the last call that sets or clears them, behind what that call sets.
  unfoldable pub last_budgets : List (Call F) → Option (List BudgetBindingInput)
  last_budgets [] = none
  last_budgets (budget x ∷ earlier) = some (unwrap_or (last_budgets earlier) [] ++ x ∷ [])
  last_budgets (budgets xs ∷ earlier) = some xs
  last_budgets (no_budgets ∷ earlier) = some []
  last_budgets (_ ∷ earlier) = last_budgets earlier

  -- A delay from a time leads to one that `OffsetDateTime` holds.
  unfoldable pub holds : ℕ → Call F → Bool
  holds latest (delayed now d) = leb (now + d) latest
  holds latest _ = true

  unfoldable pub all_hold : ℕ → List (Call F) → Bool
  unfolding holds
  all_hold latest [] = true
  all_hold latest (c ∷ earlier) = all_hold latest earlier && holds latest c

  module _ {T : Type 0} where
    abbrev pub request_of : JobKind F T → Option (EnqueueBuilder F T) → Option (EnqueueRequest F T)
    request_of kind none = none
    request_of kind (some b) = some (into_request kind b)

    request_of-if :
        (kind : JobKind F T) (h : Bool) (b : EnqueueBuilder F T)
        → request_of kind (if h then some b else none)
          ≡ (if h then some (into_request kind b) else none)
    request_of-if kind true b = refl
    request_of-if kind false b = refl

  module _ {T : Type 0} (latest : ℕ) where
    unfoldable pub call : Call F → EnqueueBuilder F T → Option (EnqueueBuilder F T)
    unfolding set_queue set_priority delay set_ready_at run_at set_retry_limit set_backoff
        set_retention set_unique_key set_batch add_budget set_budgets clear_budgets
    call (to_queue x) b = some (set_queue x b)
    call (priority x) b = some (set_priority x b)
    call (delayed x y) b = delay latest x y b
    call (at x) b = some (set_ready_at x b)
    call (running_at x) b = some (run_at x b)
    call (retries x) b = some (set_retry_limit x b)
    call (backoff x) b = some (set_backoff x b)
    call (retention x) b = some (set_retention x b)
    call (keyed x) b = some (set_unique_key x b)
    call (batched x) b = some (set_batch x b)
    call (budget x) b = some (add_budget x b)
    call (budgets x) b = some (set_budgets x b)
    call no_budgets b = some (clear_budgets b)

    unfoldable and_call : Call F → Option (EnqueueBuilder F T) → Option (EnqueueBuilder F T)
    unfolding call
    and_call c none = none
    and_call c (some b) = call c b

    -- The chain's last call stands first; `none` is a panic.
    unfoldable pub chain : T → List (Call F) → Option (EnqueueBuilder F T)
    unfolding new and_call
    chain payload [] = some (new payload)
    chain payload (c ∷ earlier) = and_call c (chain payload earlier)

    abbrev asked : T → List (Call F) → EnqueueBuilder F T
    asked payload calls = record {
      payload = payload;
      queue = last_of sets_queue calls;
      priority = last_of sets_priority calls;
      ready_at_ms = last_of sets_ready_at_ms calls;
      retry_limit = last_of sets_retry_limit calls;
      backoff = last_of sets_backoff calls;
      retention = last_of sets_retention calls;
      unique_key = last_of sets_unique_key calls;
      batch = last_of sets_batch calls;
      budgets = last_budgets calls;
    }

    call-asked :
        (payload : T) (c : Call F) (earlier : List (Call F))
        → call c (asked payload earlier)
          ≡ (if holds latest c then some (asked payload (c ∷ earlier)) else none)
    unfolding call holds last_of last_budgets set_queue set_priority delay set_ready_at run_at
        set_retry_limit set_backoff set_retention set_unique_key set_batch add_budget set_budgets
        clear_budgets sets_queue sets_priority sets_ready_at_ms sets_retry_limit sets_backoff
        sets_retention sets_unique_key sets_batch
    call-asked payload (to_queue x) earlier = refl
    call-asked payload (priority x) earlier = refl
    call-asked payload (delayed x y) earlier = refl
    call-asked payload (at x) earlier = refl
    call-asked payload (running_at x) earlier = refl
    call-asked payload (retries x) earlier = refl
    call-asked payload (backoff x) earlier = refl
    call-asked payload (retention x) earlier = refl
    call-asked payload (keyed x) earlier = refl
    call-asked payload (batched x) earlier = refl
    call-asked payload (budget x) earlier = refl
    call-asked payload (budgets x) earlier = refl
    call-asked payload no_budgets earlier = refl

    and_call-if :
        (c : Call F) (h : Bool) (b : EnqueueBuilder F T) (made : EnqueueBuilder F T)
        → call c b ≡ (if holds latest c then some made else none)
        → and_call c (if h then some b else none)
          ≡ (if h && holds latest c then some made else none)
    unfolding and_call
    and_call-if c true b made e = e
    and_call-if c false b made e = refl

    chain-asked :
        (payload : T) (calls : List (Call F))
        → chain payload calls ≡ (if all_hold latest calls then some (asked payload calls) else none)
    unfolding chain all_hold new last_of last_budgets
    chain-asked payload [] = refl
    chain-asked payload (c ∷ earlier) =
        ap (and_call c) (chain-asked payload earlier)
        ∙ and_call-if c _ _ _ (call-asked payload c earlier)

    -- A chain of calls panics exactly if some delay leads beyond the last time. Else the request of the
    -- enqueue has in each field what the last call about it sets, and the default of the
    -- job's kind where there is none: the unique key and the batch of the payload itself, and no
    -- time without a call. The budgets are those added since they were last set or cleared, behind those
    -- set, and the kind's only if no call is about budgets.
    pub into_request-chain :
        (kind : JobKind F T) (payload : T) (calls : List (Call F))
        → request_of kind (chain payload calls) ≡ (
            if all_hold latest calls
            then some (record {
              job_type = kind.name;
              queue = unwrap_or (last_of sets_queue calls) kind.queue;
              payload = payload;
              priority = or (last_of sets_priority calls) kind.priority;
              ready_at = last_of sets_ready_at_ms calls;
              retry_limit = or (last_of sets_retry_limit calls) kind.retry_limit;
              backoff = or (last_of sets_backoff calls) kind.backoff;
              retention = or (last_of sets_retention calls) kind.retention;
              unique_key = key_of (or (last_of sets_unique_key calls) (kind.unique_key payload));
              unique_while =
                  scope_of (or (last_of sets_unique_key calls) (kind.unique_key payload));
              batch = or (last_of sets_batch calls) (kind.batch payload);
              budgets = unwrap_or (last_budgets calls) kind.budgets;
            })
            else none)
    unfolding into_request
    into_request-chain kind payload calls =
        ap (request_of kind) (chain-asked payload calls)
        ∙ request_of-if kind (all_hold latest calls) (asked payload calls)
