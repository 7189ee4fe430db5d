-- ===== src/Tests/Endpoints.antt =====
-- The filters, the requests and the stream of pages on concrete builders.
use zizq_rust.Prelude.{ℕ, ◌≡◌, arith, String, some, none, List, [], ◌∷◌, Result, ok}
use zizq_rust.Filter.{dead, at_least, encode, as_str}
use zizq_rust.Filter.Calls.{FilterCall, status, queue, priority, chain}
use zizq_rust.Filter.Asked
use zizq_rust.Filter.Asked.{latest, selects_none, selection}
use zizq_rust.Endpoints.{request, get, empty}
use zizq_rust.Endpoints.Requests.{Endpoint, list, awaited, asked, awaited-asked}
use zizq_rust.Endpoints.Pages.{JobPage, stream, collect, decoded, page_of, ended}
use zizq_rust.Endpoints.Pages.Visits.{collect-stream, expected}

abbrev shown : ℕ → String
shown n = "7"

-- The empty list of queues was replaced later.
abbrev dead_calls : List FilterCall
dead_calls = priority (at_least 7) ∷ queue ("mail" ∷ []) ∷ status (dead ∷ []) ∷ queue [] ∷ []

abbrev by_sevens : Endpoint String
by_sevens = list none none (some 7)

awaited-asked_example :
    awaited {P = String} String shown "no jobs" by_sevens (chain dead_calls)
    ≡ request (record {
      method = get;
      url = record {
        segments = "jobs" ∷ [];
        query =
            some
              (("limit", "7") ∷ ("status", "dead") ∷ ("queue", "mail") ∷ ("priority", "7..") ∷ []);
      };
      body = empty;
    })
unfolding asked selection selects_none latest Asked.sets_status Asked.sets_queue Asked.sets_job_type
    Asked.sets_id Asked.sets_budgets_key Asked.sets_filter Asked.sets_priority Asked.sets_ready_at
    Asked.sets_attempts encode as_str
awaited-asked_example = awaited-asked String shown "no jobs" by_sevens dead_calls

abbrev three_pages : List (Result (JobPage String) String)
three_pages =
    ok (record { jobs = "a" ∷ "b" ∷ []; next_link = some "/jobs?from=b" })
    ∷ ok (record { jobs = []; next_link = some "/jobs?from=c" })
    ∷ ok (record { jobs = "d" ∷ []; next_link = none })
    ∷ []

collect-stream_example :
    collect 4
      (stream shown
        (record { filters = chain dead_calls; from = none; order = none; limit = some 7 }))
      three_pages
    ≡ record {
      calls =
          decoded (record {
            segments = "jobs" ∷ [];
            query = some (
                ("limit", "7") ∷ ("status", "dead") ∷ ("queue", "mail") ∷ ("priority", "7..") ∷ []);
          })
          ∷ page_of "/jobs?from=b"
          ∷ page_of "/jobs?from=c"
          ∷ [];
      jobs = "a" ∷ "b" ∷ "d" ∷ [];
      end = ended;
    }
unfolding expected selection selects_none latest Asked.sets_status Asked.sets_queue
    Asked.sets_job_type Asked.sets_id Asked.sets_budgets_key Asked.sets_filter Asked.sets_priority
    Asked.sets_ready_at Asked.sets_attempts encode as_str
collect-stream_example =
    collect-stream shown none none (some 7) dead_calls three_pages 4 (omega arith)
