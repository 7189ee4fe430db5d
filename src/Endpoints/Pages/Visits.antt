-- ===== src/Endpoints/Pages/Visits.antt =====
-- zizq/src/list_jobs.rs: which pages the stream of a listing asks for, and which jobs it gives.
use zizq_rust.Prelude.{
  ℕ, zero, suc, ◌<◌, String, Bool, true, false, Option, some, none, List, [], ◌∷◌, ◌++◌, ◌≡◌, refl,
  ap, sym, subst, ◌∙◌, length, arith, if◌then◌else◌, Result, ok, err,
}
use zizq_rust.Filter.Calls.{FilterCall, chain}
use zizq_rust.Filter.Asked.{selects_none, matches_nothing-chain}
use zizq_rust.Endpoints.{Url, Order}
use zizq_rust.Endpoints.Requests.{list, asked_url, list_url-asked}
use zizq_rust.Endpoints.Pages.{
  PageCursor, first, next, done, JobPage, JobStreamState, PageCall, decoded, page_of, End, ended,
  waiting, failed, Poll, yielded, stopped, link_cursor, stream, Seen, calling, onto, then_next,
  poll_loop, poll_next, collect,
}

unfoldable pub linked : {J : Type 0} → List (JobPage J) → List PageCall
linked [] = []
linked (page ∷ rest) = elim page.next_link [
  | none ↦ linked rest
  | some path ↦ page_of path ∷ linked rest
]

unfoldable pub jobs_of : {J : Type 0} → List (JobPage J) → List J
jobs_of [] = []
jobs_of (page ∷ rest) = page.jobs ++ jobs_of rest

module _ {J E : Type 0} where
  -- The pages up to the first without a link, an error or an answer that has not come.
  unfoldable pub followed : List (Result (JobPage J) E) → List (JobPage J)
  followed [] = []
  followed (err e ∷ answers) = []
  followed (ok page ∷ answers) =
      page ∷ elim page.next_link [ none ↦ [] | some path ↦ followed answers ]

  -- What comes after these pages.
  unfoldable pub ending : List (Result (JobPage J) E) → End E
  ending [] = waiting
  ending (err e ∷ answers) = failed e
  ending (ok page ∷ answers) = elim page.next_link [ none ↦ ended | some path ↦ ending answers ]

  -- What is seen of a listing that is asked for by a call, and of one that selects nothing.
  unfoldable pub seen_from : PageCall → List (Result (JobPage J) E) → Seen J E
  unfolding followed ending linked jobs_of
  seen_from c answers = record {
    calls = c ∷ linked (followed answers);
    jobs = jobs_of (followed answers);
    end = ending answers;
  }

  abbrev pub nothing_seen : Seen J E
  nothing_seen = record { calls = []; jobs = []; end = ended }

  visited : PageCursor → List (Result (JobPage J) E) → Seen J E
  visited done answers = nothing_seen
  visited (first url) answers = seen_from (decoded url) answers
  visited (next path) answers = seen_from (page_of path) answers

  then_next-calling :
      (rest : JobStreamState J → List (Result (JobPage J) E) → Seen J E) (c : PageCall)
      (polled : (List PageCall) × (Poll J E))
      → then_next rest (calling c polled) ≡ onto (c ∷ []) [] (then_next rest polled)
  then_next-calling rest c (calls, stopped end) = refl
  then_next-calling rest c (calls, yielded job state answers) = refl

  seen_from-page :
      (c : PageCall) (jobs : List J) (link : Option String) (answers : List (Result (JobPage J) E))
      → onto (c ∷ []) jobs (visited (link_cursor link) answers)
        ≡ seen_from c (ok (record { jobs = jobs; next_link = link }) ∷ answers)
  unfolding visited link_cursor seen_from followed ending linked jobs_of
  seen_from-page c jobs none answers = refl
  seen_from-page c jobs (some path) answers = refl

  collect-visited :
      (answers : List (Result (JobPage J) E)) (cursor : PageCursor) (buffer : List J) (n : ℕ)
      → length (onto [] buffer (visited cursor answers)).jobs < n
      → collect n (record { buffer = buffer; cursor = cursor }) answers
        ≡ onto [] buffer (visited cursor answers)
  unfolding collect poll_next poll_loop visited seen_from followed ending linked jobs_of
  collect-visited answers cursor buffer zero h = absurd (omega arith)
  collect-visited answers cursor (job ∷ rest) (suc n) h =
      ap (onto [] (job ∷ [])) (collect-visited answers cursor rest n (omega arith))
  collect-visited answers done [] (suc n) h = refl
  collect-visited [] (first url) [] (suc n) h = refl
  collect-visited [] (next path) [] (suc n) h = refl
  collect-visited (err e ∷ answers) (first url) [] (suc n) h = refl
  collect-visited (err e ∷ answers) (next path) [] (suc n) h = refl
  collect-visited (ok page ∷ answers) (first url) [] (suc n) h =
      let same = seen_from-page (decoded url) page.jobs page.next_link answers in
      then_next-calling (collect n) (decoded url)
        (poll_loop page.jobs (link_cursor page.next_link) answers)
      ∙ ap (onto (decoded url ∷ []) []) (
          collect-visited answers (link_cursor page.next_link) page.jobs (suc n)
            (subst (λ x. length x.jobs < suc n) (sym same) h))
      ∙ same
  collect-visited (ok page ∷ answers) (next path) [] (suc n) h =
      let same = seen_from-page (page_of path) page.jobs page.next_link answers in
      then_next-calling (collect n) (page_of path)
        (poll_loop page.jobs (link_cursor page.next_link) answers)
      ∙ ap (onto (page_of path ∷ []) []) (
          collect-visited answers (link_cursor page.next_link) page.jobs (suc n)
            (subst (λ x. length x.jobs < suc n) (sym same) h))
      ∙ same

  -- What the stream of a listing is to show, of what its builder was told.
  unfoldable pub expected :
      (ℕ → String)
      → Option String
      → Option Order
      → Option ℕ
      → List FilterCall
      → List (Result (JobPage J) E)
      → Seen J E
  unfolding asked_url seen_from
  expected show from order limit calls answers = elim (selects_none calls) [
    | true ↦ nothing_seen
    | false ↦
        let url = asked_url {F = Unit {0}} show (list from order limit) ("jobs" ∷ []) calls in
        seen_from (decoded url) answers
  ]

  visited-guarded :
      (m m' : Bool) (url url' : Url) (answers : List (Result (JobPage J) E))
      → m ≡ m'
      → url ≡ url'
      → visited (if m then done else first url) answers
        ≡ elim m' [ true ↦ nothing_seen | false ↦ seen_from (decoded url') answers ]
  unfolding visited
  visited-guarded m true url url' answers h e = rw h
  visited-guarded m false url url' answers h e = rw h (ap (λ u. seen_from (decoded u) answers) e)

  visited-expected :
      (show : ℕ → String) (from : Option String) (order : Option Order) (limit : Option ℕ)
      (calls : List FilterCall) (answers : List (Result (JobPage J) E))
      → visited
          (stream {J = J} show
            (record { filters = chain calls; from = from; order = order; limit = limit })).cursor
          answers
        ≡ expected show from order limit calls answers
  unfolding visited stream expected
  visited-expected show from order limit calls answers =
      visited-guarded _ _ _ _ answers (matches_nothing-chain calls)
        (list_url-asked show calls (Unit {0}) from order limit)

-- Whatever the client answers, a consumer that polls the stream of a listing more often than there are jobs sees this.
-- If the last call about one of the lists sets an empty one, there is no call of the client and no job, and the stream
-- ends. Else the first page is asked for by the URL with exactly the parameters that the builder was told, and each
-- next one by the path that the page before links to. The jobs are those of these pages, each once and in order, empty
-- pages included. The stream ends behind a page without a link, fails with the first error, or waits for an answer.
pub collect-stream :
    {J E : Type 0} (show : ℕ → String) (from : Option String) (order : Option Order)
    (limit : Option ℕ) (calls : List FilterCall) (answers : List (Result (JobPage J) E)) (n : ℕ)
    → length (expected show from order limit calls answers).jobs < n
    → collect n
        (stream show (record { filters = chain calls; from = from; order = order; limit = limit }))
        answers
      ≡ expected show from order limit calls answers
unfolding stream
collect-stream {J} show from order limit calls answers n h =
    let same = visited-expected show from order limit calls answers in
    collect-visited answers _ [] n (subst (λ x. length x.jobs < n) (sym same) h) ∙ same
