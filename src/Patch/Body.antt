-- ===== src/Patch/Body.antt =====
-- zizq/src/job_patch.rs: what a server reads of a patch's serialised body.
use text.Mathlib.Text.{◌==◌ as str_eq}
use zizq_rust.Prelude.{String, true, false, Option, some, none, ◌≡◌, refl, ap, ◌∙◌, if◌then◌else◌}
use zizq_rust.Patch.{Field, keep, clear, set, Doc, null, num, str, Members, lookup, write_field}
use zizq_rust.Patch.Retention.{write_retention}
use zizq_rust.Patch.Job.{JobPatch, write_patch, write_backoff}

-- A JSON Merge Patch (RFC 7396): a member that is absent keeps the field, a null clears it.
unfoldable pub read_field : {F : Type 0} → Option (Doc F) → Field (Doc F)
read_field none = keep
read_field (some null) = clear
read_field (some value) = set value

unfoldable pub map_field : {A B : Type 0} → (A → B) → Field A → Field B
map_field f keep = keep
map_field f clear = clear
map_field f (set a) = set (f a)

module _ {F A : Type 0} (n m : String) (write : A → Doc F) where
  pub lookup-skip :
      (f : Field A) (rest : Members F)
      → str_eq n m ≡ false
      → lookup n (write_field m write f rest) ≡ lookup n rest
  unfolding lookup write_field
  lookup-skip keep rest h = refl
  lookup-skip clear rest h = rw h
  lookup-skip (set v) rest h = rw h

  lookup-hit :
      (f : Field A) (rest : Members F)
      → str_eq n m ≡ true
      → lookup n rest ≡ none
      → ((v : A) → read_field (some (write v)) ≡ set (write v))
      → read_field (lookup n (write_field m write f rest)) ≡ map_field write f
  unfolding lookup write_field read_field map_field
  lookup-hit keep rest h absent value = ap read_field absent
  lookup-hit clear rest h absent value =
      ap (λ b. read_field (if◌then◌else◌ b (some null) (lookup n rest))) h
  lookup-hit (set v) rest h absent value =
      ap (λ b. read_field (if◌then◌else◌ b (some (write v)) (lookup n rest))) h ∙ value v

module _ {F : Type 0} where
  -- What a server reads of a member of the body.
  unfoldable pub read : String → Members F → Field (Doc F)
  unfolding read_field lookup
  read name body = read_field (lookup name body)

  module _ (p : JobPatch F) where
    read-queue : read "queue" (write_patch p) ≡ map_field str p.queue
    unfolding read write_patch lookup read_field
    read-queue =
        lookup-hit "queue" "queue" str p.queue _ refl
          (lookup-skip "queue" "priority" num p.priority _ refl
            ∙ lookup-skip "queue" "ready_at" num p.ready_at _ refl
            ∙ lookup-skip "queue" "retry_limit" num p.retry_limit _ refl
            ∙ lookup-skip "queue" "backoff" write_backoff p.backoff _ refl
            ∙ lookup-skip "queue" "retention" write_retention p.retention _ refl
            ∙ refl)
          (λ _. refl)

    read-priority : read "priority" (write_patch p) ≡ map_field num p.priority
    unfolding read write_patch lookup read_field
    read-priority =
        ap read_field (lookup-skip "priority" "queue" str p.queue _ refl)
        ∙ lookup-hit "priority" "priority" num p.priority _ refl
            (lookup-skip "priority" "ready_at" num p.ready_at _ refl
              ∙ lookup-skip "priority" "retry_limit" num p.retry_limit _ refl
              ∙ lookup-skip "priority" "backoff" write_backoff p.backoff _ refl
              ∙ lookup-skip "priority" "retention" write_retention p.retention _ refl
              ∙ refl)
            (λ _. refl)

    read-ready_at : read "ready_at" (write_patch p) ≡ map_field num p.ready_at
    unfolding read write_patch lookup read_field
    read-ready_at =
        ap read_field (
          lookup-skip "ready_at" "queue" str p.queue _ refl
          ∙ lookup-skip "ready_at" "priority" num p.priority _ refl)
        ∙ lookup-hit "ready_at" "ready_at" num p.ready_at _ refl
            (lookup-skip "ready_at" "retry_limit" num p.retry_limit _ refl
              ∙ lookup-skip "ready_at" "backoff" write_backoff p.backoff _ refl
              ∙ lookup-skip "ready_at" "retention" write_retention p.retention _ refl
              ∙ refl)
            (λ _. refl)

    read-retry_limit : read "retry_limit" (write_patch p) ≡ map_field num p.retry_limit
    unfolding read write_patch lookup read_field
    read-retry_limit =
        ap read_field (
          lookup-skip "retry_limit" "queue" str p.queue _ refl
          ∙ lookup-skip "retry_limit" "priority" num p.priority _ refl
          ∙ lookup-skip "retry_limit" "ready_at" num p.ready_at _ refl)
        ∙ lookup-hit "retry_limit" "retry_limit" num p.retry_limit _ refl
            (lookup-skip "retry_limit" "backoff" write_backoff p.backoff _ refl
              ∙ lookup-skip "retry_limit" "retention" write_retention p.retention _ refl
              ∙ refl)
            (λ _. refl)

    read-backoff : read "backoff" (write_patch p) ≡ map_field write_backoff p.backoff
    unfolding read write_patch lookup read_field write_backoff
    read-backoff =
        ap read_field (
          lookup-skip "backoff" "queue" str p.queue _ refl
          ∙ lookup-skip "backoff" "priority" num p.priority _ refl
          ∙ lookup-skip "backoff" "ready_at" num p.ready_at _ refl
          ∙ lookup-skip "backoff" "retry_limit" num p.retry_limit _ refl)
        ∙ lookup-hit "backoff" "backoff" write_backoff p.backoff _ refl
            (lookup-skip "backoff" "retention" write_retention p.retention _ refl ∙ refl)
            (λ _. refl)

    read-retention : read "retention" (write_patch p) ≡ map_field write_retention p.retention
    unfolding read write_patch lookup read_field write_retention
    read-retention =
        ap read_field (
          lookup-skip "retention" "queue" str p.queue _ refl
          ∙ lookup-skip "retention" "priority" num p.priority _ refl
          ∙ lookup-skip "retention" "ready_at" num p.ready_at _ refl
          ∙ lookup-skip "retention" "retry_limit" num p.retry_limit _ refl
          ∙ lookup-skip "retention" "backoff" write_backoff p.backoff _ refl)
        ∙ lookup-hit "retention" "retention" write_retention p.retention _ refl (refl) (λ _. refl)

  -- The body of a patch says of each field what the patch says: it leaves the field out exactly if the
  -- patch keeps it, has a null exactly if the patch clears it, and has the value that is set.
  pub read-write_patch :
      (p : JobPatch F)
      → (read "queue" (write_patch p) ≡ map_field str p.queue)
        × (read "priority" (write_patch p) ≡ map_field num p.priority)
        × (read "ready_at" (write_patch p) ≡ map_field num p.ready_at)
        × (read "retry_limit" (write_patch p) ≡ map_field num p.retry_limit)
        × (read "backoff" (write_patch p) ≡ map_field write_backoff p.backoff)
        × (read "retention" (write_patch p) ≡ map_field write_retention p.retention)
  read-write_patch p = (
    read-queue p,
    read-priority p,
    read-ready_at p,
    read-retry_limit p,
    read-backoff p,
    read-retention p,
  )
