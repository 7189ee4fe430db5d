-- ===== src/Endpoints/Requests.antt =====
-- The requests of the builders for a selection of jobs, in zizq/src/count_jobs.rs, delete_jobs.rs,
-- patch_jobs.rs, budget_jobs.rs and list_jobs.rs, against a table of methods, paths, bodies and parameters.
use zizq_rust.Prelude.{
  ℕ, String, Bool, true, false, not, Option, some, none, List, [], ◌∷◌, ◌++◌, ◌≡◌, refl, ap, ◌∙◌,
  if◌then◌else◌, is_empty, Bool-cases, inl, inr, ok, err,
}
use zizq_rust.Error.{missing_patch}
use zizq_rust.Budget.{binding_body}
use zizq_rust.Patch.Job.{JobPatch}
use zizq_rust.Filter.{JobFilter, matches_nothing}
use zizq_rust.Filter.Calls.{
  FilterCall, chain, append_to-has_params, is_empty-append, is_empty-param,
}
use zizq_rust.Filter.Asked.{
  selects_none, matches_nothing-chain, rows, shown, param-rows, selection, append_to-chain,
}
use zizq_rust.Endpoints.{
  Action, answer, request, Method, get, post, put, patch as patch_method, delete as delete_method,
  Body, empty, Url, BudgetChange, job_patch, binding, cost, Operation, Order, order_str, same,
  filtered_url, list_url, count_jobs, delete_all_jobs, patch_all_jobs, budget_jobs, list_jobs,
  operation_request, operation_segments, bind, rebind, set_cost, unbind, clear,
}

-- The endpoints, with what their builders hold beside the filters.
pub data Endpoint (F : Type 0) : Type 0 where
  list : Option String → Option Order → Option ℕ → Endpoint F
  count : Endpoint F
  delete : Endpoint F
  patch : Option (JobPatch F) → Endpoint F
  budget : Operation → Endpoint F

-- What awaiting the builders gives: a page of jobs, how many jobs were selected, or what became of their budgets.
pub data Outcome (P : Type 0) : Type 0 where
  page_of_jobs : P → Outcome P
  number : ℕ → Outcome P
  changes : BudgetChange → Outcome P

unfoldable pub map_action : {F X A B : Type 0} → (A → B) → Action F X A → Action F X B
map_action g (answer (ok a)) = answer (ok (g a))
map_action g (answer (err e)) = answer (err e)
map_action g (request r) = request r

module _ {F P : Type 0} (X : Type 0) (show : ℕ → String) (empty_page : P) where
  -- Awaiting the builder of an endpoint.
  unfoldable pub awaited : Endpoint F → JobFilter → Action F X (Outcome P)
  unfolding map_action list_jobs count_jobs delete_all_jobs patch_all_jobs budget_jobs
  awaited (list from order limit) f = map_action page_of_jobs (
      list_jobs show empty_page (record { filters = f; from = from; order = order; limit = limit }))
  awaited count f = map_action number (count_jobs show f)
  awaited delete f = map_action number (delete_all_jobs show f)
  awaited (patch p) f = map_action number (patch_all_jobs show (record { filters = f; patch = p }))
  awaited (budget operation) f =
      map_action changes (budget_jobs show (record { filters = f; operation = operation }))

-- What an endpoint sends beside its parameters; a patch of jobs without a patch sends nothing.
unfoldable pub routed : {F : Type 0} → Endpoint F → Option (Method × (List String) × (Body F))
unfolding binding_body
routed (list from order limit) = some (get, "jobs" ∷ [], empty)
routed count = some (get, "jobs" ∷ "count" ∷ [], empty)
routed delete = some (delete_method, "jobs" ∷ [], empty)
routed (patch none) = none
routed (patch (some p)) = some (patch_method, "jobs" ∷ [], job_patch p)
routed (budget (bind b)) = some (post, "jobs" ∷ "budgets" ∷ b.key ∷ [], binding (binding_body b))
routed (budget (rebind b)) = some (put, "jobs" ∷ "budgets" ∷ b.key ∷ [], binding (binding_body b))
routed (budget (set_cost key n)) = some (patch_method, "jobs" ∷ "budgets" ∷ key ∷ [], cost n)
routed (budget (unbind key)) = some (delete_method, "jobs" ∷ "budgets" ∷ key ∷ [], empty)
routed (budget clear) = some (delete_method, "jobs" ∷ "budgets" ∷ [], empty)

-- There is no `?` without parameters behind it.
abbrev pub query_of : List (String × String) → Option (List (String × String))
query_of [] = none
query_of (pair ∷ rest) = some (pair ∷ rest)

unfoldable pub paging : {F : Type 0} → (ℕ → String) → Endpoint F → List (String × Option String)
unfolding order_str
paging show (list from order limit) =
    ("from", shown same from) ∷ ("order", shown order_str order) ∷ ("limit", shown show limit) ∷ []
paging show _ = []

-- The URL that the endpoint and the calls on its filters ask for.
unfoldable pub asked_url :
    {F : Type 0} → (ℕ → String) → Endpoint F → List String → List FilterCall → Url
unfolding paging
asked_url show b segments calls = record {
  segments = segments;
  query = query_of (rows (paging show b ++ selection show calls));
}

-- What an empty selection comes to.
unfoldable pub unmatched : {F P : Type 0} → P → Endpoint F → Outcome P
unmatched empty_page (list from order limit) = page_of_jobs empty_page
unmatched empty_page (budget operation) = changes (record { changed = 0; blocked = [] })
unmatched empty_page _ = number 0

unfoldable pub asked :
    {F P : Type 0}
    → (X : Type 0) → (ℕ → String)
    → P
    → Endpoint F
    → List FilterCall
    → Action F X (Outcome P)
unfolding routed asked_url unmatched
asked X show empty_page b calls = elim (routed b) [
  | none ↦ answer (err missing_patch)
  | some (method, segments, body) ↦ elim (selects_none calls) [
    | true ↦ answer (ok (unmatched empty_page b))
    | false ↦
        request (record { method = method; url = asked_url show b segments calls; body = body })
  ]
]

query_if-query_of :
    (c : Bool) (pairs : List (String × String))
    → is_empty pairs ≡ not c
    → (if c then some pairs else none) ≡ query_of pairs
query_if-query_of true [] h = cc
query_if-query_of false [] h = refl
query_if-query_of true (pair ∷ rest) h = refl
query_if-query_of false (pair ∷ rest) h = cc

module _ (show : ℕ → String) (calls : List FilterCall) where
  filtered_url-query :
      (segments : List String)
      → filtered_url show segments (chain calls)
        ≡ record { segments = segments; query = query_of (rows (selection show calls)) }
  unfolding filtered_url
  filtered_url-query segments =
      ap (λ q. record { segments = segments; query = q })
        (query_if-query_of _ _ (append_to-has_params show (chain calls))
          ∙ ap query_of (append_to-chain show calls))

  pub list_url-asked :
      (F : Type 0) (from : Option String) (order : Option Order) (limit : Option ℕ)
      → list_url show (record { filters = chain calls; from = from; order = order; limit = limit })
        ≡ asked_url {F = F} show (list from order limit) ("jobs" ∷ []) calls
  unfolding list_url paging asked_url
  list_url-asked F from order limit =
      ap (λ q. record { segments = "jobs" ∷ []; query = q })
        (query_if-query_of _ _ (
            is_empty-append _ _ _ _ (is_empty-param "from" _ from) (
              is_empty-append _ _ _ _ (is_empty-param "order" _ order) (
                is_empty-append _ _ _ _ (is_empty-param "limit" show limit)
                  (append_to-has_params show (chain calls)))))
          ∙ ap query_of (
              param-rows "from" same from _ (
                param-rows "order" order_str order _
                  (param-rows "limit" show limit _ (append_to-chain show calls)))))

  -- A request that is sent unless the filters match nothing.
  if-guarded :
      {F X A B : Type 0} (g : A → B) (a : A) (method : Method) (body : Body F) (u u' : Url)
      → u ≡ u'
      → map_action {X = X} g (
          if matches_nothing (chain calls)
          then answer (ok a)
          else request (record { method = method; url = u; body = body }))
        ≡ elim (selects_none calls) [
          | true ↦ answer (ok (g a))
          | false ↦ request (record { method = method; url = u'; body = body })
        ]
  unfolding map_action
  if-guarded g a method body u u' h = elim (Bool-cases (selects_none calls)) [
    | inl e ↦ rw (e, matches_nothing-chain calls ∙ e)
    | inr e ↦
        rw (e, matches_nothing-chain calls ∙ e)
          (ap (λ v. request (record { method = method; url = v; body = body })) h)
  ]

-- Awaiting a builder on which the calls were made sends nothing if the last call about one of the lists sets an empty
-- one: it gives the empty page, the number 0, or that nothing was changed. To patch without a patch is an error. Else
-- it sends the method, the path and the body of its endpoint, with the query of exactly the parameters of the page and
-- of the last call about each filter, in their order, and without a query where there is none of them.
pub awaited-asked :
    {F P : Type 0} (X : Type 0) (show : ℕ → String) (empty_page : P) (b : Endpoint F)
    (calls : List FilterCall)
    → awaited X show empty_page b (chain calls) ≡ asked X show empty_page b calls
unfolding awaited count_jobs delete_all_jobs patch_all_jobs budget_jobs list_jobs asked routed
    map_action asked_url paging unmatched operation_request operation_segments
awaited-asked {F} X show page (list from order limit) calls =
    if-guarded show calls page_of_jobs page _ _ _ _ (list_url-asked show calls F from order limit)
awaited-asked X show page count calls =
    if-guarded show calls number 0 _ _ _ _ (filtered_url-query show calls _)
awaited-asked X show page delete calls =
    if-guarded show calls number 0 _ _ _ _ (filtered_url-query show calls _)
awaited-asked X show page (patch none) calls = refl
awaited-asked X show page (patch (some p)) calls =
    if-guarded show calls number 0 _ _ _ _ (filtered_url-query show calls _)
awaited-asked X show page (budget (bind b)) calls =
    if-guarded show calls changes _ _ _ _ _ (filtered_url-query show calls _)
awaited-asked X show page (budget (rebind b)) calls =
    if-guarded show calls changes _ _ _ _ _ (filtered_url-query show calls _)
awaited-asked X show page (budget (set_cost key n)) calls =
    if-guarded show calls changes _ _ _ _ _ (filtered_url-query show calls _)
awaited-asked X show page (budget (unbind key)) calls =
    if-guarded show calls changes _ _ _ _ _ (filtered_url-query show calls _)
awaited-asked X show page (budget clear) calls =
    if-guarded show calls changes _ _ _ _ _ (filtered_url-query show calls _)
