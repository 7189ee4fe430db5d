-- ===== src/Filter/Calls.antt =====
-- zizq/src/job_filter.rs: the setters that every endpoint has, and when the query parameters of a filter are empty.
use zizq_rust.Prelude.{
  ℕ, String, Bool, true, false, not, ◌||◌, Option, some, none, List, [], ◌∷◌, ◌++◌, ◌≡◌, refl,
  is_empty,
}
use zizq_rust.Filter.{
  JobFilter, JobStatus, RangeFilter, Time, no_filter, is_present, is_some, has_params, same,
  list_param, param, append_to, as_str, encode, to_ms_epoch,
}

pub data FilterCall : Type 0 where
  status : List JobStatus → FilterCall
  queue : List String → FilterCall
  job_type : List String → FilterCall
  id : List String → FilterCall
  budgets_key : List String → FilterCall
  filter : String → FilterCall
  priority : RangeFilter ℕ → FilterCall
  ready_at : RangeFilter Time → FilterCall
  attempts : RangeFilter ℕ → FilterCall

unfoldable pub call : FilterCall → JobFilter → JobFilter
call (status statuses) f = record f { status = some statuses }
call (queue queues) f = record f { queue = some queues }
call (job_type types) f = record f { job_type = some types }
call (id ids) f = record f { id = some ids }
call (budgets_key keys) f = record f { budgets_key = some keys }
call (filter expr) f = record f { jq = some expr }
call (priority range) f = record f { priority = some range }
call (ready_at range) f = record f { ready_at = some range }
call (attempts range) f = record f { attempts = some range }

-- The chain's last call stands first.
unfoldable pub chain : List FilterCall → JobFilter
unfolding no_filter call
chain [] = no_filter
chain (c ∷ earlier) = call c (chain earlier)

pub is_empty-append :
    {A : Type 0} (xs ys : List A) (p q : Bool)
    → is_empty xs ≡ not p
    → is_empty ys ≡ not q
    → is_empty (xs ++ ys) ≡ not (p || q)
is_empty-append [] ys true q h k = cc
is_empty-append [] ys false q h k = k
is_empty-append (x ∷ xs) ys true q h k = refl
is_empty-append (x ∷ xs) ys false q h k = cc

module _ {A : Type 0} (name : String) (to_str : A → String) where
  is_empty-list_param :
      (o : Option (List A)) → is_empty (list_param name to_str o) ≡ not (is_present o)
  unfolding list_param is_present
  is_empty-list_param none = refl
  is_empty-list_param (some []) = refl
  is_empty-list_param (some (x ∷ xs)) = refl

  pub is_empty-param : (o : Option A) → is_empty (param name to_str o) ≡ not (is_some o)
  unfolding param
  is_empty-param none = refl
  is_empty-param (some a) = refl

-- The parameters are empty exactly if `has_params` says so.
pub append_to-has_params :
    (show : ℕ → String) (f : JobFilter) → is_empty (append_to show f) ≡ not (has_params f)
unfolding append_to has_params
append_to-has_params show f =
    is_empty-append _ _ _ _ (is_empty-list_param "status" as_str f.status) (
      is_empty-append _ _ _ _ (is_empty-list_param "queue" same f.queue) (
        is_empty-append _ _ _ _ (is_empty-list_param "type" same f.job_type) (
          is_empty-append _ _ _ _ (is_empty-list_param "id" same f.id) (
            is_empty-append _ _ _ _ (is_empty-list_param "budgets.key" same f.budgets_key) (
              is_empty-append _ _ _ _ (is_empty-param "filter" same f.jq) (
                is_empty-append _ _ _ _ (is_empty-param "priority" (encode show) f.priority) (
                  is_empty-append _ _ _ _
                    (is_empty-param "ready_at" (encode (λ t. show (to_ms_epoch t))) f.ready_at)
                    (is_empty-param "attempts" (encode show) f.attempts))))))))
