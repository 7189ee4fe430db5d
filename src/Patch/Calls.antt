-- ===== src/Patch/Calls.antt =====
-- zizq/src/job_patch.rs: what any chain of calls on a patch leaves of each field.
use zizq_rust.Prelude.{ℕ, String, Option, some, none, List, [], ◌∷◌, ◌≡◌, refl, ap, ◌∙◌}
use zizq_rust.Patch.{Field, keep, clear, set}
use zizq_rust.Patch.Retention.{RetentionPatch}
use zizq_rust.Patch.Job.{
  BackoffConfig, JobPatch, new, set_queue, move_to_queue, keep_queue, set_priority, keep_priority,
  set_ready_at, clear_ready_at, ready_now, keep_ready_at, set_retry_limit, clear_retry_limit,
  keep_retry_limit, set_backoff, clear_backoff, keep_backoff, set_retention, clear_retention,
  keep_retention,
}

-- The calls, by the field they are about. A queue and a priority have no call that clears them.
pub data Call (F : Type 0) : Type 0 where
  queue move_queue : String → Call F
  unqueue : Call F
  priority : ℕ → Call F
  unpriority : Call F
  ready_at : ℕ → Call F
  no_ready_at now unready_at : Call F
  retry_limit : ℕ → Call F
  no_retry_limit unretry_limit : Call F
  backoff : BackoffConfig F → Call F
  no_backoff unbackoff : Call F
  retention : RetentionPatch → Call F
  no_retention unretention : Call F

abbrev or_keep : {A : Type 0} → Field A → Option (Field A) → Field A
or_keep old none = old
or_keep old (some state) = state

-- The state that the last of the calls asks for; the last call stands first.
unfoldable pub last_asked : {C A : Type 0} → (C → Option (Field A)) → List C → Field A
last_asked asks [] = keep
last_asked asks (c ∷ earlier) = or_keep (last_asked asks earlier) (asks c)

module _ {F : Type 0} where
  unfoldable pub call : Call F → JobPatch F → JobPatch F
  unfolding set_queue move_to_queue keep_queue set_priority keep_priority set_ready_at
      clear_ready_at ready_now keep_ready_at set_retry_limit clear_retry_limit keep_retry_limit
      set_backoff clear_backoff keep_backoff set_retention clear_retention keep_retention
  call (queue q) p = set_queue q p
  call (move_queue q) p = move_to_queue q p
  call unqueue p = keep_queue p
  call (priority n) p = set_priority n p
  call unpriority p = keep_priority p
  call (ready_at ms) p = set_ready_at ms p
  call no_ready_at p = clear_ready_at p
  call now p = ready_now p
  call unready_at p = keep_ready_at p
  call (retry_limit n) p = set_retry_limit n p
  call no_retry_limit p = clear_retry_limit p
  call unretry_limit p = keep_retry_limit p
  call (backoff b) p = set_backoff b p
  call no_backoff p = clear_backoff p
  call unbackoff p = keep_backoff p
  call (retention r) p = set_retention r p
  call no_retention p = clear_retention p
  call unretention p = keep_retention p

  unfoldable pub chain : List (Call F) → JobPatch F
  unfolding new call
  chain [] = new
  chain (c ∷ earlier) = call c (chain earlier)

  abbrev pub asks_queue : Call F → Option (Field String)
  asks_queue (queue q) = some (set q)
  asks_queue (move_queue q) = some (set q)
  asks_queue unqueue = some keep
  asks_queue _ = none

  abbrev pub asks_priority : Call F → Option (Field ℕ)
  asks_priority (priority n) = some (set n)
  asks_priority unpriority = some keep
  asks_priority _ = none

  abbrev pub asks_ready_at : Call F → Option (Field ℕ)
  asks_ready_at (ready_at ms) = some (set ms)
  asks_ready_at no_ready_at = some clear
  asks_ready_at now = some clear
  asks_ready_at unready_at = some keep
  asks_ready_at _ = none

  abbrev pub asks_retry_limit : Call F → Option (Field ℕ)
  asks_retry_limit (retry_limit n) = some (set n)
  asks_retry_limit no_retry_limit = some clear
  asks_retry_limit unretry_limit = some keep
  asks_retry_limit _ = none

  abbrev pub asks_backoff : Call F → Option (Field (BackoffConfig F))
  asks_backoff (backoff b) = some (set b)
  asks_backoff no_backoff = some clear
  asks_backoff unbackoff = some keep
  asks_backoff _ = none

  abbrev pub asks_retention : Call F → Option (Field RetentionPatch)
  asks_retention (retention r) = some (set r)
  asks_retention no_retention = some clear
  asks_retention unretention = some keep
  asks_retention _ = none

  -- A patch with what one call asks for over it.
  abbrev overlay : Call F → JobPatch F → JobPatch F
  overlay c p = record {
    queue = or_keep p.queue (asks_queue c);
    priority = or_keep p.priority (asks_priority c);
    ready_at = or_keep p.ready_at (asks_ready_at c);
    retry_limit = or_keep p.retry_limit (asks_retry_limit c);
    backoff = or_keep p.backoff (asks_backoff c);
    retention = or_keep p.retention (asks_retention c);
  }

  call-overlay : (c : Call F) (p : JobPatch F) → call c p ≡ overlay c p
  unfolding call
  call-overlay (queue q) p = refl
  call-overlay (move_queue q) p = refl
  call-overlay unqueue p = refl
  call-overlay (priority n) p = refl
  call-overlay unpriority p = refl
  call-overlay (ready_at ms) p = refl
  call-overlay no_ready_at p = refl
  call-overlay now p = refl
  call-overlay unready_at p = refl
  call-overlay (retry_limit n) p = refl
  call-overlay no_retry_limit p = refl
  call-overlay unretry_limit p = refl
  call-overlay (backoff b) p = refl
  call-overlay no_backoff p = refl
  call-overlay unbackoff p = refl
  call-overlay (retention r) p = refl
  call-overlay no_retention p = refl
  call-overlay unretention p = refl

  -- The patch that the last calls of each field describe.
  unfoldable pub asked : List (Call F) → JobPatch F
  unfolding last_asked
  asked calls = record {
    queue = last_asked asks_queue calls;
    priority = last_asked asks_priority calls;
    ready_at = last_asked asks_ready_at calls;
    retry_limit = last_asked asks_retry_limit calls;
    backoff = last_asked asks_backoff calls;
    retention = last_asked asks_retention calls;
  }

  -- A patch made by any chain of calls has in each field what the last call about that field asks
  -- for, whatever the calls about other fields are, and keeps a field that no call is about.
  pub chain-asked : (calls : List (Call F)) → chain calls ≡ asked calls
  unfolding chain asked last_asked
  chain-asked [] = refl
  chain-asked (c ∷ earlier) = call-overlay c (chain earlier) ∙ ap (overlay c) (chain-asked earlier)
