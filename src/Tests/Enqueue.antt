-- ===== src/Tests/Enqueue.antt =====
-- The request of an enqueue with some calls.
use zizq_rust.Prelude.{ℕ, ◌≡◌, String, some, none, true, err, List, [], ◌∷◌}
use zizq_rust.Budget.{new_binding}
use zizq_rust.Filter.{to_ms_epoch}
use zizq_rust.Error.{encode}
use zizq_rust.Cron.{CronEntry, new_entry, new_replace, into_body, group_body}
use zizq_rust.Cron.Groups
use zizq_rust.Cron.Groups.{with_entry, with_paused, group_body-chain}
use zizq_rust.Enqueue.{new, JobKind, active}
use zizq_rust.Enqueue.Calls.{
  Call, priority, delayed, budget, no_budgets, all_hold, request_of, chain, last_of, last_budgets,
  sets_queue, sets_priority, sets_ready_at_ms, sets_retry_limit, sets_backoff, sets_retention,
  sets_unique_key, sets_batch, into_request-chain,
}

abbrev send_email : JobKind String ℕ
send_email = record {
  name = "send_email";
  queue = "emails";
  priority = some 7;
  retry_limit = some 5;
  backoff = none;
  retention = none;
  budgets = new_binding "smtp" ∷ [];
  unique_key = λ n. some (record { key = "to:9"; scope = some active });
  batch = λ n. none;
}

abbrev calls : List (Call String)
calls =
    priority 3
    ∷ budget (new_binding "stripe")
    ∷ no_budgets
    ∷ budget (new_binding "old")
    ∷ priority 1
    ∷ delayed 2_000_000 1_000_000
    ∷ []

-- Beyond the last time there is no request; this delay leads just up to it.
into_request-chain_example :
    request_of send_email (chain 3_000_000 9 calls)
    ≡ some (record {
      job_type = "send_email";
      queue = "emails";
      payload = 9;
      priority = some 3;
      ready_at = some 3;
      retry_limit = some 5;
      backoff = none;
      retention = none;
      unique_key = some "to:9";
      unique_while = some active;
      batch = none;
      budgets = new_binding "stripe" ∷ [];
    })
unfolding all_hold last_of last_budgets to_ms_epoch sets_queue sets_priority sets_ready_at_ms
    sets_retry_limit sets_backoff sets_retention sets_unique_key sets_batch
into_request-chain_example = into_request-chain 3_000_000 send_email 9 calls

abbrev daily : CronEntry String ℕ String
daily = new_entry (λ n. n) send_email "daily" "0 9 * * *" (new 9)

abbrev broken : CronEntry String ℕ String
broken = record daily { job = err (encode "no number") }

-- The entry behind the broken one is not reached.
group_body-chain_example :
    group_body (
      Groups.chain
        (new_replace "reports")
        (with_entry daily ∷ with_entry broken ∷ with_paused true ∷ []))
    ≡ err (encode "no number")
unfolding Groups.bodies new_entry into_body
group_body-chain_example =
    group_body-chain "reports" (with_entry daily ∷ with_entry broken ∷ with_paused true ∷ [])
