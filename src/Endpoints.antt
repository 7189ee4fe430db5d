-- ===== src/Endpoints.antt =====
-- The builders of the endpoints for a selection of jobs: zizq/src/list_jobs.rs, count_jobs.rs,
-- delete_jobs.rs, patch_jobs.rs and budget_jobs.rs of the same directory. `show` is `to_string` of a number,
-- `F` the type of `f32`, and `X` that of the errors that are foreign to the library.
pub mod Requests
pub mod Pages
pub mod Builders
use zizq_rust.Prelude.{
  ℕ, String, Bool, true, false, ◌||◌, Option, some, none, List, [], ◌∷◌, ◌++◌, if◌then◌else◌,
  Result, ok, err,
}
use zizq_rust.Error.{ZizqError, missing_patch}
use zizq_rust.Patch.Job.{JobPatch}
use zizq_rust.Budget.{BudgetBindingInput, BindingBody, binding_body}
use zizq_rust.Filter.{JobFilter, no_filter, matches_nothing, has_params, append_to, param, is_some}

pub data Method : Type 0 where
  get post put patch delete : Method

pub data Body (F : Type 0) : Type 0 where
  empty : Body F
  job_patch : JobPatch F → Body F
  binding : BindingBody → Body F
  cost : ℕ → Body F

-- The path's segments, and the pairs behind a `?`, where there is one.
pub record Url : Type 0 where
  pub segments : List String
  pub query : Option (List (String × String))

pub record Request (F : Type 0) : Type 0 where
  pub method : Method
  pub url : Url
  pub body : Body F

-- What awaiting a builder does: it answers by itself, or sends a request whose answer, decoded by the
-- client, it returns.
pub data Action (F X A : Type 0) : Type 0 where
  answer : Result A (ZizqError X) → Action F X A
  request : Request F → Action F X A

pub data Order : Type 0 where
  asc desc : Order

unfoldable pub order_str : Order → String
order_str asc = "asc"
order_str desc = "desc"

pub record ListJobsBuilder : Type 0 where
  pub filters : JobFilter
  pub from : Option String
  pub order : Option Order
  pub limit : Option ℕ

pub record PatchJobsBuilder (F : Type 0) : Type 0 where
  pub filters : JobFilter
  pub patch : Option (JobPatch F)

pub data Operation : Type 0 where
  bind : BudgetBindingInput → Operation
  rebind : BudgetBindingInput → Operation
  set_cost : String → ℕ → Operation
  unbind : String → Operation
  clear : Operation

pub record BudgetJobsBuilder : Type 0 where
  pub filters : JobFilter
  pub operation : Operation

pub record BudgetChange : Type 0 where
  pub changed : ℕ
  pub blocked : List String

abbrev same : String → String
same s = s

unfoldable pub operation_segments : Operation → List String
operation_segments (bind b) = "jobs" ∷ "budgets" ∷ b.key ∷ []
operation_segments (rebind b) = "jobs" ∷ "budgets" ∷ b.key ∷ []
operation_segments (set_cost key n) = "jobs" ∷ "budgets" ∷ key ∷ []
operation_segments (unbind key) = "jobs" ∷ "budgets" ∷ key ∷ []
operation_segments clear = "jobs" ∷ "budgets" ∷ []

unfoldable pub operation_request : {F : Type 0} → Operation → Url → Request F
unfolding binding_body
operation_request (bind b) url = record {
  method = post;
  url = url;
  body = binding (binding_body b);
}
operation_request (rebind b) url = record {
  method = put;
  url = url;
  body = binding (binding_body b);
}
operation_request (set_cost key n) url = record { method = patch; url = url; body = cost n }
operation_request (unbind key) url = record { method = delete; url = url; body = empty }
operation_request clear url = record { method = delete; url = url; body = empty }

module _ (show : ℕ → String) where
  -- `build_url` of the builders that have nothing but filters in the query.
  unfoldable pub filtered_url : List String → JobFilter → Url
  unfolding has_params append_to
  filtered_url segments f = record {
    segments = segments;
    query = if has_params f then some (append_to show f) else none;
  }

  unfoldable pub list_url : ListJobsBuilder → Url
  unfolding has_params append_to param order_str
  list_url b = record {
    segments = "jobs" ∷ [];
    query =
        if is_some b.from || (is_some b.order || (is_some b.limit || has_params b.filters))
        then some (
            param "from" same b.from
            ++ (param "order" order_str b.order
                ++ (param "limit" show b.limit ++ append_to show b.filters)))
        else none;
  }

  module _ {F X : Type 0} where
    unfoldable pub count_jobs : JobFilter → Action F X ℕ
    unfolding matches_nothing filtered_url
    count_jobs f =
        if matches_nothing f
        then answer (ok 0)
        else request
            (record { method = get; url = filtered_url ("jobs" ∷ "count" ∷ []) f; body = empty })

    unfoldable pub delete_all_jobs : JobFilter → Action F X ℕ
    unfolding matches_nothing filtered_url
    delete_all_jobs f =
        if matches_nothing f
        then answer (ok 0)
        else request (record { method = delete; url = filtered_url ("jobs" ∷ []) f; body = empty })

    unfoldable pub patch_all_jobs : PatchJobsBuilder F → Action F X ℕ
    unfolding matches_nothing filtered_url
    patch_all_jobs b = elim b.patch [
      | none ↦ answer (err missing_patch)
      | some p ↦
          if matches_nothing b.filters
          then answer (ok 0)
          else request (record {
            method = patch;
            url = filtered_url ("jobs" ∷ []) b.filters;
            body = job_patch p;
          })
    ]

    unfoldable pub budget_jobs : BudgetJobsBuilder → Action F X BudgetChange
    unfolding matches_nothing filtered_url operation_segments operation_request
    budget_jobs b =
        if matches_nothing b.filters
        then answer (ok (record { changed = 0; blocked = [] }))
        else request (
            operation_request b.operation (filtered_url (operation_segments b.operation) b.filters))

    -- The first page, without its links where there is no request.
    unfoldable pub list_jobs : {P : Type 0} → P → ListJobsBuilder → Action F X P
    unfolding matches_nothing list_url
    list_jobs empty_page b =
        if matches_nothing b.filters
        then answer (ok empty_page)
        else request (record { method = get; url = list_url b; body = empty })
