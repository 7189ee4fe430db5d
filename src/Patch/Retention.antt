-- ===== src/Patch/Retention.antt =====
-- zizq/src/job_patch.rs: `RetentionPatch`, its setters and its serialised body.
use zizq_rust.Prelude.{ℕ}
use zizq_rust.Patch.{Field, keep, clear, set, Doc, num, obj, end, write_field}

pub record RetentionPatch : Type 0 where
  pub completed_ms : Field ℕ
  pub dead_ms : Field ℕ

unfoldable pub new : RetentionPatch
new = record { completed_ms = keep; dead_ms = keep }

unfoldable pub set_completed_ms : ℕ → RetentionPatch → RetentionPatch
set_completed_ms ms p = record p { completed_ms = set ms }

unfoldable pub clear_completed_ms : RetentionPatch → RetentionPatch
clear_completed_ms p = record p { completed_ms = clear }

unfoldable pub keep_completed_ms : RetentionPatch → RetentionPatch
keep_completed_ms p = record p { completed_ms = keep }

unfoldable pub set_dead_ms : ℕ → RetentionPatch → RetentionPatch
set_dead_ms ms p = record p { dead_ms = set ms }

unfoldable pub clear_dead_ms : RetentionPatch → RetentionPatch
clear_dead_ms p = record p { dead_ms = clear }

unfoldable pub keep_dead_ms : RetentionPatch → RetentionPatch
keep_dead_ms p = record p { dead_ms = keep }

-- The derived `Serialize`.
unfoldable pub write_retention : {F : Type 0} → RetentionPatch → Doc F
unfolding write_field
write_retention p =
    obj (write_field "completed_ms" num p.completed_ms (write_field "dead_ms" num p.dead_ms end))
