-- ===== src/Filter/Asked.antt =====
-- zizq/src/job_filter.rs: the filter of any chain of setters, and its query parameters as a table.
use zizq_rust.Prelude.{
  ℕ, String, Bool, true, false, ◌||◌, Option, some, none, List, [], ◌∷◌, ◌++◌, map, ◌≡◌, refl, ap,
  ◌∙◌,
}
use zizq_rust.Filter.{
  JobFilter, JobStatus, RangeFilter, Time, no_filter, matches_nothing, is_explicitly_empty, same,
  list_param, param, append_to, as_str, encode, to_ms_epoch, join_from,
}
use zizq_rust.Filter.Calls.{
  FilterCall, status, queue, job_type, id, budgets_key, filter, priority, ready_at, attempts, call,
  chain,
}

-- What the last call that is about a parameter sets; the last call stands first.
unfoldable pub latest : {A : Type 0} → (FilterCall → Option A) → List FilterCall → Option A
latest sets [] = none
latest sets (c ∷ earlier) = elim (sets c) [ none ↦ latest sets earlier | some a ↦ some a ]

unfoldable pub sets_status : FilterCall → Option (List JobStatus)
sets_status (status x) = some x
sets_status _ = none

unfoldable pub sets_queue : FilterCall → Option (List String)
sets_queue (queue x) = some x
sets_queue _ = none

unfoldable pub sets_job_type : FilterCall → Option (List String)
sets_job_type (job_type x) = some x
sets_job_type _ = none

unfoldable pub sets_id : FilterCall → Option (List String)
sets_id (id x) = some x
sets_id _ = none

unfoldable pub sets_budgets_key : FilterCall → Option (List String)
sets_budgets_key (budgets_key x) = some x
sets_budgets_key _ = none

unfoldable pub sets_filter : FilterCall → Option String
sets_filter (filter x) = some x
sets_filter _ = none

unfoldable pub sets_priority : FilterCall → Option (RangeFilter ℕ)
sets_priority (priority x) = some x
sets_priority _ = none

unfoldable pub sets_ready_at : FilterCall → Option (RangeFilter Time)
sets_ready_at (ready_at x) = some x
sets_ready_at _ = none

unfoldable pub sets_attempts : FilterCall → Option (RangeFilter ℕ)
sets_attempts (attempts x) = some x
sets_attempts _ = none

asked : List FilterCall → JobFilter
asked calls = record {
  status = latest sets_status calls;
  queue = latest sets_queue calls;
  job_type = latest sets_job_type calls;
  id = latest sets_id calls;
  jq = latest sets_filter calls;
  priority = latest sets_priority calls;
  ready_at = latest sets_ready_at calls;
  attempts = latest sets_attempts calls;
  budgets_key = latest sets_budgets_key calls;
}

chain-latest : (calls : List FilterCall) → chain calls ≡ asked calls
unfolding asked chain call no_filter latest sets_status sets_queue sets_job_type sets_id
    sets_budgets_key sets_filter sets_priority sets_ready_at sets_attempts
chain-latest [] = refl
chain-latest (status x ∷ earlier) = ap (call (status x)) (chain-latest earlier)
chain-latest (queue x ∷ earlier) = ap (call (queue x)) (chain-latest earlier)
chain-latest (job_type x ∷ earlier) = ap (call (job_type x)) (chain-latest earlier)
chain-latest (id x ∷ earlier) = ap (call (id x)) (chain-latest earlier)
chain-latest (budgets_key x ∷ earlier) = ap (call (budgets_key x)) (chain-latest earlier)
chain-latest (filter x ∷ earlier) = ap (call (filter x)) (chain-latest earlier)
chain-latest (priority x ∷ earlier) = ap (call (priority x)) (chain-latest earlier)
chain-latest (ready_at x ∷ earlier) = ap (call (ready_at x)) (chain-latest earlier)
chain-latest (attempts x ∷ earlier) = ap (call (attempts x)) (chain-latest earlier)

-- A list that was set, and has nothing in it.
abbrev pub is_none_of : {A : Type 0} → Option (List A) → Bool
is_none_of (some []) = true
is_none_of _ = false

-- The last call about one of the list parameters leaves it empty.
unfoldable pub selects_none : List FilterCall → Bool
selects_none calls =
    is_none_of (latest sets_status calls)
    || (is_none_of (latest sets_queue calls)
        || (is_none_of (latest sets_job_type calls)
            || (is_none_of (latest sets_id calls) || is_none_of (latest sets_budgets_key calls))))

is_explicitly_empty-eq : {A : Type 0} (o : Option (List A)) → is_explicitly_empty o ≡ is_none_of o
unfolding is_explicitly_empty
is_explicitly_empty-eq none = refl
is_explicitly_empty-eq (some []) = refl
is_explicitly_empty-eq (some (x ∷ xs)) = refl

pub matches_nothing-chain :
    (calls : List FilterCall) → matches_nothing (chain calls) ≡ selects_none calls
unfolding matches_nothing selects_none asked
matches_nothing-chain calls = ap matches_nothing (chain-latest calls) ∙ simp is_explicitly_empty-eq

-- A table of parameters: a row without a value is not sent.
abbrev pub rows : List (String × Option String) → List (String × String)
rows [] = []
rows ((name, none) ∷ rest) = rows rest
rows ((name, some value) ∷ rest) = (name, value) ∷ rows rest

abbrev pub joined : {A : Type 0} → (A → String) → Option (List A) → Option String
joined text none = none
joined text (some []) = none
joined text (some (x ∷ xs)) = some (join_from (text x) (map text xs))

abbrev pub shown : {A : Type 0} → (A → String) → Option A → Option String
shown text none = none
shown text (some a) = some (text a)

module _ {A : Type 0} (name : String) (text : A → String) where
  list_param-rows :
      (o : Option (List A)) {pairs : List (String × String)} (rest : List (String × Option String))
      → pairs ≡ rows rest
      → (list_param name text o ++ pairs) ≡ rows ((name, joined text o) ∷ rest)
  unfolding list_param
  list_param-rows none rest h = h
  list_param-rows (some []) rest h = h
  list_param-rows (some (x ∷ xs)) rest h = ap (λ t. (name, join_from (text x) (map text xs)) ∷ t) h

  pub param-rows :
      (o : Option A) {pairs : List (String × String)} (rest : List (String × Option String))
      → pairs ≡ rows rest
      → (param name text o ++ pairs) ≡ rows ((name, shown text o) ∷ rest)
  unfolding param
  param-rows none rest h = h
  param-rows (some a) rest h = ap (λ t. (name, text a) ∷ t) h

  param-row : (o : Option A) → param name text o ≡ rows ((name, shown text o) ∷ [])
  unfolding param
  param-row none = refl
  param-row (some a) = refl

module _ (show : ℕ → String) where
  -- The query parameters that the calls ask for.
  unfoldable pub selection : List FilterCall → List (String × Option String)
  selection calls =
      ("status", joined as_str (latest sets_status calls))
      ∷ ("queue", joined same (latest sets_queue calls))
      ∷ ("type", joined same (latest sets_job_type calls))
      ∷ ("id", joined same (latest sets_id calls))
      ∷ ("budgets.key", joined same (latest sets_budgets_key calls))
      ∷ ("filter", shown same (latest sets_filter calls))
      ∷ ("priority", shown (encode show) (latest sets_priority calls))
      ∷ ("ready_at", shown (encode (λ t. show (to_ms_epoch t))) (latest sets_ready_at calls))
      ∷ ("attempts", shown (encode show) (latest sets_attempts calls))
      ∷ []

  pub append_to-chain :
      (calls : List FilterCall) → append_to show (chain calls) ≡ rows (selection calls)
  unfolding append_to selection asked
  append_to-chain calls =
      ap (append_to show) (chain-latest calls)
      ∙ list_param-rows "status" as_str _ _ (
          list_param-rows "queue" same _ _ (
            list_param-rows "type" same _ _ (
              list_param-rows "id" same _ _ (
                list_param-rows "budgets.key" same _ _ (
                  param-rows "filter" same _ _ (
                    param-rows "priority" (encode show) _ _ (
                      param-rows "ready_at" (encode (λ t. show (to_ms_epoch t))) _ _
                        (param-row "attempts" (encode show) _))))))))
