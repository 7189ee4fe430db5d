-- ===== src/Endpoints/Builders.antt =====
-- The constructors and setters of the builders in zizq/src/list_jobs.rs, patch_jobs.rs and budget_jobs.rs of the
-- same directory. The filters have their own setters.
use zizq_rust.Prelude.{ℕ, String, some, none}
use zizq_rust.Patch.Job.{JobPatch}
use zizq_rust.Filter.{no_filter}
use zizq_rust.Endpoints.{Order, ListJobsBuilder, PatchJobsBuilder, Operation, BudgetJobsBuilder}

unfoldable pub new_list_jobs : ListJobsBuilder
new_list_jobs = record { filters = no_filter; from = none; order = none; limit = none }

unfoldable pub list_from : String → ListJobsBuilder → ListJobsBuilder
list_from id b = record b { from = some id }

unfoldable pub list_order : Order → ListJobsBuilder → ListJobsBuilder
list_order order b = record b { order = some order }

unfoldable pub list_limit : ℕ → ListJobsBuilder → ListJobsBuilder
list_limit n b = record b { limit = some n }

module _ {F : Type 0} where
  unfoldable pub new_patch_jobs : PatchJobsBuilder F
  new_patch_jobs = record { filters = no_filter; patch = none }

  unfoldable pub with_patch : JobPatch F → PatchJobsBuilder F → PatchJobsBuilder F
  with_patch patch b = record b { patch = some patch }

unfoldable pub new_budget_jobs : Operation → BudgetJobsBuilder
new_budget_jobs operation = record { filters = no_filter; operation = operation }
