-- ===== src/Patch/Job.antt =====
-- zizq/src/job_patch.rs: `JobPatch`, its setters and its serialised body, and
-- zizq/src/resources.rs: `BackoffConfig`.
use zizq_rust.Prelude.{ℕ, String}
use zizq_rust.Patch.{
  Field, keep, clear, set, Doc, num, real, str, obj, Members, end, member, write_field,
}
use zizq_rust.Patch.Retention.{RetentionPatch, write_retention}

pub record BackoffConfig (F : Type 0) : Type 0 where
  pub base_ms : ℕ
  pub exponent : F
  pub jitter_ms : ℕ

pub record JobPatch (F : Type 0) : Type 0 where
  pub queue : Field String
  pub priority : Field ℕ
  pub ready_at : Field ℕ
  pub retry_limit : Field ℕ
  pub backoff : Field (BackoffConfig F)
  pub retention : Field RetentionPatch

module _ {F : Type 0} where
  unfoldable pub new : JobPatch F
  new = record {
    queue = keep;
    priority = keep;
    ready_at = keep;
    retry_limit = keep;
    backoff = keep;
    retention = keep;
  }

  unfoldable pub set_queue : String → JobPatch F → JobPatch F
  set_queue queue p = record p { queue = set queue }

  unfoldable pub move_to_queue : String → JobPatch F → JobPatch F
  unfolding set_queue
  move_to_queue queue p = set_queue queue p

  unfoldable pub keep_queue : JobPatch F → JobPatch F
  keep_queue p = record p { queue = keep }

  unfoldable pub set_priority : ℕ → JobPatch F → JobPatch F
  set_priority priority p = record p { priority = set priority }

  unfoldable pub keep_priority : JobPatch F → JobPatch F
  keep_priority p = record p { priority = keep }

  unfoldable pub set_ready_at : ℕ → JobPatch F → JobPatch F
  set_ready_at ready_at_ms p = record p { ready_at = set ready_at_ms }

  unfoldable pub clear_ready_at : JobPatch F → JobPatch F
  clear_ready_at p = record p { ready_at = clear }

  unfoldable pub ready_now : JobPatch F → JobPatch F
  unfolding clear_ready_at
  ready_now p = clear_ready_at p

  unfoldable pub keep_ready_at : JobPatch F → JobPatch F
  keep_ready_at p = record p { ready_at = keep }

  unfoldable pub set_retry_limit : ℕ → JobPatch F → JobPatch F
  set_retry_limit limit p = record p { retry_limit = set limit }

  unfoldable pub clear_retry_limit : JobPatch F → JobPatch F
  clear_retry_limit p = record p { retry_limit = clear }

  unfoldable pub keep_retry_limit : JobPatch F → JobPatch F
  keep_retry_limit p = record p { retry_limit = keep }

  unfoldable pub set_backoff : BackoffConfig F → JobPatch F → JobPatch F
  set_backoff backoff p = record p { backoff = set backoff }

  unfoldable pub clear_backoff : JobPatch F → JobPatch F
  clear_backoff p = record p { backoff = clear }

  unfoldable pub keep_backoff : JobPatch F → JobPatch F
  keep_backoff p = record p { backoff = keep }

  unfoldable pub set_retention : RetentionPatch → JobPatch F → JobPatch F
  set_retention retention p = record p { retention = set retention }

  unfoldable pub clear_retention : JobPatch F → JobPatch F
  clear_retention p = record p { retention = clear }

  unfoldable pub keep_retention : JobPatch F → JobPatch F
  keep_retention p = record p { retention = keep }

  -- The derived `Serialize`.
  unfoldable pub write_backoff : BackoffConfig F → Doc F
  write_backoff b = obj (
      member "base_ms" (num b.base_ms)
        (member "exponent" (real b.exponent) (member "jitter_ms" (num b.jitter_ms) end)))

  unfoldable pub write_patch : JobPatch F → Members F
  unfolding write_field write_backoff write_retention
  write_patch p = write_field "queue" str p.queue (
      write_field "priority" num p.priority (
        write_field "ready_at" num p.ready_at (
          write_field "retry_limit" num p.retry_limit (
            write_field "backoff" write_backoff p.backoff
              (write_field "retention" write_retention p.retention end)))))
