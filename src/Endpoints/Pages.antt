-- ===== src/Endpoints/Pages.antt =====
-- zizq/src/list_jobs.rs: `ListJobsBuilder::stream`, the stream of all jobs over the pages of a listing. What the
-- client answers to the requests for pages, each of which is recorded, is a sequence of any answers; `show` is
-- `to_string`.
pub mod Visits
use zizq_rust.Prelude.{
  ℕ, zero, suc, String, Option, some, none, List, [], ◌∷◌, ◌++◌, if◌then◌else◌, Result, ok, err,
}
use zizq_rust.Filter.{matches_nothing}
use zizq_rust.Endpoints.{Url, ListJobsBuilder, list_url}

pub data PageCursor : Type 0 where
  first : Url → PageCursor
  next : String → PageCursor
  done : PageCursor

pub record JobPage (J : Type 0) : Type 0 where
  pub jobs : List J
  pub next_link : Option String

pub record JobStreamState (J : Type 0) : Type 0 where
  pub buffer : List J
  pub cursor : PageCursor

-- A call of the client for a page: `get_decoded` of a URL, or `get_page` of a path.
pub data PageCall : Type 0 where
  decoded : Url → PageCall
  page_of : String → PageCall

-- How a poll ends, and how a consumer that polls until the stream ends does; `waiting` is for an answer that
-- has not come.
pub data End (E : Type 0) : Type 0 where
  ended waiting out_of_fuel : End E
  failed : E → End E

pub data Poll (J E : Type 0) : Type 0 where
  yielded : J → JobStreamState J → List (Result (JobPage J) E) → Poll J E
  stopped : End E → Poll J E

unfoldable pub link_cursor : Option String → PageCursor
link_cursor none = done
link_cursor (some path) = next path

unfoldable pub stream : {J : Type 0} → (ℕ → String) → ListJobsBuilder → JobStreamState J
unfolding matches_nothing list_url
stream show b = record {
  buffer = [];
  cursor = if matches_nothing b.filters then done else first (list_url show b);
}

-- What a consumer has seen: the calls of the client, the jobs, and how it ended.
pub record Seen (J E : Type 0) : Type 0 where
  pub calls : List PageCall
  pub jobs : List J
  pub end : End E

module _ {J E : Type 0} where
  abbrev pub calling : PageCall → (List PageCall) × (Poll J E) → (List PageCall) × (Poll J E)
  calling c (calls, poll) = (c ∷ calls, poll)

  -- The loop of one poll, from the buffer and the cursor, with the calls that it makes.
  unfoldable pub poll_loop :
      List J → PageCursor → List (Result (JobPage J) E) → (List PageCall) × (Poll J E)
  unfolding link_cursor
  poll_loop (job ∷ rest) cursor answers =
      ([], yielded job (record { buffer = rest; cursor = cursor }) answers)
  poll_loop [] done answers = ([], stopped ended)
  poll_loop [] (first url) [] = (decoded url ∷ [], stopped waiting)
  poll_loop [] (next path) [] = (page_of path ∷ [], stopped waiting)
  poll_loop [] (first url) (err e ∷ answers) = (decoded url ∷ [], stopped (failed e))
  poll_loop [] (next path) (err e ∷ answers) = (page_of path ∷ [], stopped (failed e))
  poll_loop [] (first url) (ok page ∷ answers) =
      calling (decoded url) (poll_loop page.jobs (link_cursor page.next_link) answers)
  poll_loop [] (next path) (ok page ∷ answers) =
      calling (page_of path) (poll_loop page.jobs (link_cursor page.next_link) answers)

  unfoldable pub poll_next :
      JobStreamState J → List (Result (JobPage J) E) → (List PageCall) × (Poll J E)
  unfolding poll_loop
  poll_next state answers = poll_loop state.buffer state.cursor answers

  -- What came before, and then the rest.
  abbrev pub onto : List PageCall → List J → Seen J E → Seen J E
  onto calls jobs seen = record {
    calls = calls ++ seen.calls;
    jobs = jobs ++ seen.jobs;
    end = seen.end;
  }

  -- What a poll gives, and what is seen after it.
  abbrev pub then_next :
      (JobStreamState J → List (Result (JobPage J) E) → Seen J E)
      → (List PageCall) × (Poll J E)
      → Seen J E
  then_next rest (calls, stopped end) = record { calls = calls; jobs = []; end = end }
  then_next rest (calls, yielded job state answers) = onto calls (job ∷ []) (rest state answers)

  -- A consumer that polls until the stream stops, at most as many times as there is fuel.
  unfoldable pub collect : ℕ → JobStreamState J → List (Result (JobPage J) E) → Seen J E
  unfolding poll_next
  collect zero state answers = record { calls = []; jobs = []; end = out_of_fuel }
  collect (suc n) state answers = then_next (collect n) (poll_next state answers)
