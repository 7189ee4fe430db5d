-- ===== src/Filter.antt =====
-- zizq/src/job_filter.rs, zizq/src/range_filter.rs, zizq/src/timestamp.rs, and `JobStatus` of
-- zizq/src/resources.rs: the selection of jobs and its query parameters.
pub mod Calls
pub mod Asked
use Prim.Native.String.{◌++◌ as str_append}
use zizq_rust.Prelude.{
  ℕ, ◌-◌, ◌/◌, ◌%◌, ◌^◌, String, Bool, true, false, not, ◌||◌, Option, some, none, List, [], ◌∷◌,
  ◌++◌, map,
}

pub data JobStatus : Type 0 where
  ready in_flight scheduled completed dead unknown : JobStatus

unfoldable pub as_str : JobStatus → String
as_str ready = "ready"
as_str in_flight = "in_flight"
as_str scheduled = "scheduled"
as_str completed = "completed"
as_str dead = "dead"
as_str unknown = "unknown"

pub data RangeFilter (T : Type 0) : Type 0 where
  exact : T → RangeFilter T
  bounded : T → T → RangeFilter T
  at_least : T → RangeFilter T
  at_most : T → RangeFilter T
  unbounded : RangeFilter T

unfoldable pub encode : {T : Type 0} → (T → String) → RangeFilter T → String
encode to_str (exact v) = to_str v
encode to_str (bounded a b) = str_append (to_str a) (str_append ".." (to_str b))
encode to_str (at_least a) = str_append (to_str a) ".."
encode to_str (at_most b) = str_append ".." (to_str b)
encode to_str unbounded = ".."

-- `OffsetDateTime`, by its nanoseconds after or before the epoch.
pub data Time : Type 0 where
  after_epoch : ℕ → Time
  before_epoch : ℕ → Time

-- The quotient is rounded towards 0, and the cast to 64 bits wraps around.
unfoldable pub to_ms_epoch : Time → ℕ
to_ms_epoch (after_epoch nanos) = (nanos / 1_000_000) % 2 ^ 64
to_ms_epoch (before_epoch nanos) = (2 ^ 64 - (nanos / 1_000_000) % 2 ^ 64) % 2 ^ 64

pub record JobFilter : Type 0 where
  pub status : Option (List JobStatus)
  pub queue : Option (List String)
  pub job_type : Option (List String)
  pub id : Option (List String)
  pub jq : Option String
  pub priority : Option (RangeFilter ℕ)
  pub ready_at : Option (RangeFilter Time)
  pub attempts : Option (RangeFilter ℕ)
  pub budgets_key : Option (List String)

unfoldable pub no_filter : JobFilter
no_filter = record {
  status = none;
  queue = none;
  job_type = none;
  id = none;
  jq = none;
  priority = none;
  ready_at = none;
  attempts = none;
  budgets_key = none;
}

unfoldable pub is_explicitly_empty : {A : Type 0} → Option (List A) → Bool
is_explicitly_empty none = false
is_explicitly_empty (some []) = true
is_explicitly_empty (some (x ∷ xs)) = false

unfoldable pub is_present : {A : Type 0} → Option (List A) → Bool
is_present none = false
is_present (some []) = false
is_present (some (x ∷ xs)) = true

abbrev pub is_some : {A : Type 0} → Option A → Bool
is_some none = false
is_some (some a) = true

unfoldable pub matches_nothing : JobFilter → Bool
unfolding is_explicitly_empty
matches_nothing f =
    is_explicitly_empty f.status
    || (is_explicitly_empty f.queue
        || (is_explicitly_empty f.job_type
            || (is_explicitly_empty f.id || is_explicitly_empty f.budgets_key)))

unfoldable pub has_params : JobFilter → Bool
unfolding is_present
has_params f =
    is_present f.status
    || (is_present f.queue
        || (is_present f.job_type
            || (is_present f.id
                || (is_present f.budgets_key
                    || (is_some f.jq
                        || (is_some f.priority || (is_some f.ready_at || is_some f.attempts)))))))

-- `join(",")`
abbrev pub join_from : String → List String → String
join_from first [] = first
join_from first (next ∷ rest) = str_append first (str_append "," (join_from next rest))

-- The parameter of a list, none where the list is not there or empty.
unfoldable pub list_param :
    {A : Type 0} → String → (A → String) → Option (List A) → List (String × String)
list_param name to_str none = []
list_param name to_str (some []) = []
list_param name to_str (some (x ∷ xs)) = (name, join_from (to_str x) (map to_str xs)) ∷ []

unfoldable pub param : {A : Type 0} → String → (A → String) → Option A → List (String × String)
param name to_str none = []
param name to_str (some a) = (name, to_str a) ∷ []

abbrev same : String → String
same s = s

module _ (show : ℕ → String) where
  -- The pairs that `append_to` appends; `show` is `to_string` of a number.
  unfoldable pub append_to : JobFilter → List (String × String)
  unfolding list_param param encode as_str to_ms_epoch
  append_to f =
      list_param "status" as_str f.status
      ++ (list_param "queue" same f.queue
          ++ (list_param "type" same f.job_type
              ++ (list_param "id" same f.id
                  ++ (list_param "budgets.key" same f.budgets_key
                      ++ (param "filter" same f.jq
                          ++ (param "priority" (encode show) f.priority
                              ++ (param "ready_at" (encode (λ t. show (to_ms_epoch t))) f.ready_at
                                  ++ (param "attempts" (encode show) f.attempts))))))))
