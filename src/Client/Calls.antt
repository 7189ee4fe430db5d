-- ===== src/Client/Calls.antt =====
-- zizq/src/client.rs: the methods of `Client`, by the resource that they are about. What serde writes and reads of
-- the API's types is a parameter.
pub mod Jobs
pub mod Crons
pub mod Budgets
use zizq_rust.Prelude.{ℕ, String, Bool, List}
use zizq_rust.Patch.Job.{JobPatch}
use zizq_rust.Budget.{BudgetBindingInput, BindingBody, BudgetPolicy}
use zizq_rust.Budget.Patch.{BudgetPatch}
use zizq_rust.Enqueue.{EnqueueRequest}
use zizq_rust.Failure.{FailureRequest}
use zizq_rust.Cron.{CronEntryBody, ReplaceCronGroupBody}
use zizq_rust.Client.{Encoder, Decoder}

pub record VersionResponse : Type 0 where
  pub version : String

pub record QueuesResponse : Type 0 where
  pub queues : List String

pub record CronsResponse : Type 0 where
  pub crons : List String

pub record PausedBody : Type 0 where
  pub paused : Bool

pub record BulkSuccessBody : Type 0 where
  pub ids : List String

pub record DeleteResponse : Type 0 where
  pub deleted : ℕ

pub record CostBody : Type 0 where
  pub cost : ℕ

pub record BudgetsBody : Type 0 where
  pub budgets : List BudgetBindingInput

module _ (J B : Type 0) where
  pub record BulkEnqueueResponse : Type 0 where
    pub jobs : List J

  pub record ListBudgetsResponse : Type 0 where
    pub budgets : List B

module _ (F P : Type 0) where
  pub record BulkEnqueueRequest : Type 0 where
    pub jobs : List (EnqueueRequest F P)

-- The resources that are only decoded, with their decoders, and the encoders of bodies. `N` is the type of
-- `f32`, and `P` that of erased payloads.
pub record Codecs (N P : Type 0) : Type 1 where
  pub Job : Type 0
  pub CronGroup : Type 0
  pub CronEntryRecord : Type 0
  pub ErrorRecord : Type 0
  pub Budget : Type 0
  pub job : Decoder Job
  pub cron_group : Decoder CronGroup
  pub cron_entry : Decoder CronEntryRecord
  pub error_record : Decoder ErrorRecord
  pub budget : Decoder Budget
  pub version_response : Decoder VersionResponse
  pub queues_response : Decoder QueuesResponse
  pub crons_response : Decoder CronsResponse
  pub delete_response : Decoder DeleteResponse
  pub bulk_response : Decoder (BulkEnqueueResponse Job Budget)
  pub budgets_response : Decoder (ListBudgetsResponse Job Budget)
  pub paused_body : Encoder PausedBody
  pub success_body : Encoder BulkSuccessBody
  pub cost_body : Encoder CostBody
  pub budgets_body : Encoder BudgetsBody
  pub binding_body : Encoder BindingBody
  pub policy : Encoder BudgetPolicy
  pub budget_patch : Encoder BudgetPatch
  pub job_patch : Encoder (JobPatch N)
  pub enqueue_request : Encoder (EnqueueRequest N P)
  pub bulk_request : Encoder (BulkEnqueueRequest N P)
  pub failure_request : Encoder FailureRequest
  pub cron_entry_body : Encoder (CronEntryBody N P)
  pub cron_group_body : Encoder (ReplaceCronGroupBody N P)
