-- ===== src/ErrorList/Origin.antt =====
-- zizq/src/list_errors.rs: a stream of errors is read from one server, wherever the links of its pages lead.
use zizq_rust.Prelude.{
  ℕ, zero, suc, ◌≡◌, refl, ap, ◌∙◌, String, Option, some, none, List, [], ◌∷◌, ◌||◌, Result, ok,
  err, and_then, map_err, Bool-cases, inl, inr,
}
use zizq_rust.Error.{ZizqError, transport}
use zizq_rust.Format.{Format}
use zizq_rust.Filter.{is_some}
use zizq_rust.Client.{
  Urls, ApiErrors, Client, Decoder, HttpRequest, Response, url, get, get_decoded, get_page,
  send_decoded, send, http_request, parse_response, response_format,
}
use zizq_rust.Client.PagePath.{SameOrigin, get_page-SameOrigin}
use zizq_rust.ErrorList.{
  ListErrorsBuilder, ErrorPage, PageCursor, first, next, done, ErrorStreamState, Step, yielded,
  ended, out_of_fuel, failed, errors_url, error_stream, link_of, next_error, error_params,
}

-- The consumer of a stream: the records in order, and how the stream ends within the fuel.
pub data End (E : Type 0) : Type 0 where
  end_of_stream no_fuel : End E
  error : E → End E

module _ {F R : Type 0} (urls : Urls F) (api : ApiErrors) (page : Decoder (ErrorPage R))
    (show : ℕ → String) where
  open urls use {Url, push, append_pairs, host_str, port_or_known_default}

  abbrev also : R → List R × End (ZizqError F) → List R × End (ZizqError F)
  also r (records, end) = (r ∷ records, end)

  -- At most `n` records, each over at most `k` pages.
  unfoldable pub read :
      Client urls api → ℕ → ℕ → ErrorStreamState R Url → List R × End (ZizqError F)
  unfolding next_error
  read c k zero state = ([], no_fuel)
  read c k (suc n) state = elim (next_error urls api page show c k state.buffer state.cursor) [
    | yielded r rest ↦ also r (read c k n rest)
    | ended ↦ ([], end_of_stream)
    | out_of_fuel ↦ ([], no_fuel)
    | failed e ↦ ([], error e)
  ]

  module _ (base : Url) (format : Format) (answers others : HttpRequest Url → Result (Response F) F)
      (agree : (r : HttpRequest Url) → SameOrigin urls api r.url base → answers r ≡ others r) where
    abbrev one : Client urls api
    one = record { base_url = base; format = format; http2 = answers }

    abbrev two : Client urls api
    two = record { base_url = base; format = format; http2 = others }

    abbrev AtHome : PageCursor Url → Type 0
    AtHome (first u) = SameOrigin urls api u base
    AtHome (next path) = Unit {0}
    AtHome done = Unit {0}

    link_of-AtHome : (link : Option String) → AtHome (link_of link)
    link_of-AtHome none = tt
    link_of-AtHome (some path) = tt

    -- A step that gives a record keeps to the origin.
    abbrev Keeps : Step R Url (ZizqError F) → Type 0
    Keeps (yielded r state) = AtHome state.cursor
    Keeps ended = Unit {0}
    Keeps out_of_fuel = Unit {0}
    Keeps (failed e) = Unit {0}

    get_decoded-one :
        (u : Url)
        → SameOrigin urls api u base
        → get_decoded urls api page one u ≡ get_decoded urls api page two u
    unfolding get_decoded send_decoded send http_request parse_response response_format
    get_decoded-one u same =
        ap (λ r. and_then (map_err transport r) (parse_response urls api page one))
          (agree (http_request urls api one get u none) same)

    -- What a page is followed by, if the next steps agree.
    followed :
        (k : ℕ)
        → ((buffer : List R) (cursor : PageCursor Url)
            → AtHome cursor
            → (next_error urls api page show one k buffer cursor
                ≡ next_error urls api page show two k buffer cursor)
              × Keeps (next_error urls api page show one k buffer cursor))
        → (r : Result (ErrorPage R) (ZizqError F))
        → (◌≡◌ {A = Step R Url (ZizqError F)}
            (elim r [
              | err e ↦ failed e
              | ok p ↦ next_error urls api page show one k p.errors (link_of p.next_link)
            ])
            (elim r [
              | err e ↦ failed e
              | ok p ↦ next_error urls api page show two k p.errors (link_of p.next_link)
            ]))
          × Keeps (elim r [
            | err e ↦ failed e
            | ok p ↦ next_error urls api page show one k p.errors (link_of p.next_link)
          ])
    followed k again (err e) = (refl, tt)
    followed k again (ok p) = again p.errors (link_of p.next_link) (link_of-AtHome p.next_link)

    both_followed :
        (k : ℕ)
        → ((buffer : List R) (cursor : PageCursor Url)
            → AtHome cursor
            → (next_error urls api page show one k buffer cursor
                ≡ next_error urls api page show two k buffer cursor)
              × Keeps (next_error urls api page show one k buffer cursor))
        → (r s : Result (ErrorPage R) (ZizqError F)) → r ≡ s
        → (◌≡◌ {A = Step R Url (ZizqError F)}
            (elim r [
              | err e ↦ failed e
              | ok p ↦ next_error urls api page show one k p.errors (link_of p.next_link)
            ])
            (elim s [
              | err e ↦ failed e
              | ok p ↦ next_error urls api page show two k p.errors (link_of p.next_link)
            ]))
          × Keeps (elim r [
            | err e ↦ failed e
            | ok p ↦ next_error urls api page show one k p.errors (link_of p.next_link)
          ])
    both_followed k again r s e =
        let (same, keeps) = followed k again r in
        (
          same
              ∙ ap
                  (λ x. elim x [
                    | err e ↦ failed e
                    | ok p ↦ next_error urls api page show two k p.errors (link_of p.next_link)
                  ])
                  e,
          keeps,
        )

    next_error-one :
        (k : ℕ) (buffer : List R) (cursor : PageCursor Url)
        → AtHome cursor
        → (next_error urls api page show one k buffer cursor
            ≡ next_error urls api page show two k buffer cursor)
          × Keeps (next_error urls api page show one k buffer cursor)
    unfolding next_error
    next_error-one k (r ∷ rest) cursor home = (refl, home)
    next_error-one k [] done home = (refl, tt)
    next_error-one zero [] (first u) home = (refl, tt)
    next_error-one zero [] (next path) home = (refl, tt)
    next_error-one (suc k) [] (first u) home =
        both_followed k (next_error-one k) (get_decoded urls api page one u)
          (get_decoded urls api page two u) (get_decoded-one u home)
    next_error-one (suc k) [] (next path) home =
        both_followed k (next_error-one k) (get_page urls api page one path)
          (get_page urls api page two path)
          (get_page-SameOrigin urls api page base format path answers others agree)

    -- What a consumer does with a step.
    abbrev consumed :
        (ErrorStreamState R Url → List R × End (ZizqError F))
        → Step R Url (ZizqError F)
        → List R × End (ZizqError F)
    consumed more (yielded r rest) = also r (more rest)
    consumed more ended = ([], end_of_stream)
    consumed more out_of_fuel = ([], no_fuel)
    consumed more (failed e) = ([], error e)

    read_step :
        (k n : ℕ)
        → ((state : ErrorStreamState R Url)
            → AtHome state.cursor
            → read one k n state ≡ read two k n state)
        → (step : Step R Url (ZizqError F)) → Keeps step
        → consumed (read one k n) step ≡ consumed (read two k n) step
    read_step k n again (yielded r rest) home = ap (also r) (again rest home)
    read_step k n again ended home = refl
    read_step k n again out_of_fuel home = refl
    read_step k n again (failed e) home = refl

    read-one :
        (k n : ℕ) (state : ErrorStreamState R Url)
        → AtHome state.cursor
        → read one k n state ≡ read two k n state
    unfolding read
    read-one k zero state home = refl
    read-one k (suc n) state home =
        let (same, keeps) = next_error-one k state.buffer state.cursor home in
        read_step k n (read-one k n) (next_error urls api page show one k state.buffer state.cursor)
          keeps
        ∙ ap (consumed (read two k n)) same

    errors_url-AtHome :
        ((segments : List String) (u : Url) → SameOrigin urls api (push segments u) u)
        → ((pairs : List (String × String)) (u : Url)
            → SameOrigin urls api (append_pairs pairs u) u)
        → (b : ListErrorsBuilder) → SameOrigin urls api (errors_url urls api page show one b) base
    unfolding errors_url url
    errors_url-AtHome pushed appended b =
        let path = "jobs" ∷ b.job_id ∷ "errors" ∷ [] in
        let (host, port) = pushed path base in
        let (same_host, same_port) = appended (error_params show b) (push path base) in
        elim (Bool-cases (is_some b.from || is_some b.order || is_some b.limit)) [
          | inl e ↦ rw e (same_host ∙ host, same_port ∙ port)
          | inr e ↦ rw e (host, port)
        ]

    -- However many records and pages are read, and wherever the links lead, a stream of errors is read from the host
    -- and port of the base URL only, if segments and parameters that are added to a URL change neither.
    pub read-error_stream :
        ((segments : List String) (u : Url) → SameOrigin urls api (push segments u) u)
        → ((pairs : List (String × String)) (u : Url)
            → SameOrigin urls api (append_pairs pairs u) u)
        → (b : ListErrorsBuilder) (k n : ℕ)
        → read one k n (error_stream urls api page show one b)
          ≡ read two k n (error_stream urls api page show two b)
    unfolding error_stream errors_url url
    read-error_stream pushed appended b k n =
        read-one k n (error_stream urls api page show one b) (errors_url-AtHome pushed appended b)
