-- ===== src/Client/Status/Routes.antt =====
-- zizq/src/client.rs: the server's interface, a table of what each method of `Client` is to send and to accept.
use zizq_rust.Prelude.{ℕ, String, Bool, List, [], ◌∷◌}
use zizq_rust.Patch.Job.{JobPatch}
use zizq_rust.Budget.{BudgetBindingInput, BudgetPolicy}
use zizq_rust.Budget.Patch.{BudgetPatch}
use zizq_rust.Enqueue.{EnqueueRequest}
use zizq_rust.Bulk.{BulkEnqueueBuilder}
use zizq_rust.Failure.{FailureBuilder}
use zizq_rust.Cron.{CronEntry, ReplaceCronBuilder}
use zizq_rust.Client.{Method, get, post, put, patch as patch_method, delete, is_success, contains}

-- One call of the client, with its arguments.
pub data ApiCall (F N P : Type 0) : Type 0 where
  to_report_success : String → ApiCall F N P
  to_report_success_bulk : List String → ApiCall F N P
  to_health : ApiCall F N P
  to_server_version : ApiCall F N P
  to_list_queues : ApiCall F N P
  to_get_job : String → ApiCall F N P
  to_erase_all_data : ApiCall F N P
  to_delete_job : String → ApiCall F N P
  to_patch_job : String → JobPatch N → ApiCall F N P
  to_get_error : String → ℕ → ApiCall F N P
  to_enqueue_raw : EnqueueRequest N P → ApiCall F N P
  to_enqueue_bulk : BulkEnqueueBuilder N P F → ApiCall F N P
  to_report_failure : FailureBuilder → ApiCall F N P
  to_list_crons : ApiCall F N P
  to_get_cron : String → ApiCall F N P
  to_delete_cron : String → ApiCall F N P
  to_delete_all_crons : ApiCall F N P
  to_pause_cron : String → ApiCall F N P
  to_resume_cron : String → ApiCall F N P
  to_add_cron_entry : String → CronEntry N P F → ApiCall F N P
  to_get_cron_entry : String → String → ApiCall F N P
  to_put_cron_entry : String → CronEntry N P F → ApiCall F N P
  to_delete_cron_entry : String → String → ApiCall F N P
  to_pause_cron_entry : String → String → ApiCall F N P
  to_resume_cron_entry : String → String → ApiCall F N P
  to_replace_cron : ReplaceCronBuilder N P F → ApiCall F N P
  to_list_budgets : ApiCall F N P
  to_get_budget : String → ApiCall F N P
  to_create_budget : String → BudgetPolicy → ApiCall F N P
  to_put_budget : String → BudgetPolicy → ApiCall F N P
  to_update_budget : String → BudgetPatch → ApiCall F N P
  to_delete_budget : String → ApiCall F N P
  to_bind_budget : String → BudgetBindingInput → ApiCall F N P
  to_rebind_budget : String → BudgetBindingInput → ApiCall F N P
  to_set_budget_cost : String → String → ℕ → ApiCall F N P
  to_unbind_budget : String → String → ApiCall F N P
  to_unbind_all_budgets : String → ApiCall F N P
  to_replace_budgets : String → List BudgetBindingInput → ApiCall F N P

module _ {F N P : Type 0} where
  abbrev pub method_of : ApiCall F N P → Method
  method_of (to_report_success _) = post
  method_of (to_report_success_bulk _) = post
  method_of to_health = get
  method_of to_server_version = get
  method_of to_list_queues = get
  method_of (to_get_job _) = get
  method_of to_erase_all_data = post
  method_of (to_delete_job _) = delete
  method_of (to_patch_job _ _) = patch_method
  method_of (to_get_error _ _) = get
  method_of (to_enqueue_raw _) = post
  method_of (to_enqueue_bulk _) = post
  method_of (to_report_failure _) = post
  method_of to_list_crons = get
  method_of (to_get_cron _) = get
  method_of (to_delete_cron _) = delete
  method_of to_delete_all_crons = delete
  method_of (to_pause_cron _) = patch_method
  method_of (to_resume_cron _) = patch_method
  method_of (to_add_cron_entry _ _) = post
  method_of (to_get_cron_entry _ _) = get
  method_of (to_put_cron_entry _ _) = put
  method_of (to_delete_cron_entry _ _) = delete
  method_of (to_pause_cron_entry _ _) = patch_method
  method_of (to_resume_cron_entry _ _) = patch_method
  method_of (to_replace_cron _) = put
  method_of to_list_budgets = get
  method_of (to_get_budget _) = get
  method_of (to_create_budget _ _) = post
  method_of (to_put_budget _ _) = put
  method_of (to_update_budget _ _) = patch_method
  method_of (to_delete_budget _) = delete
  method_of (to_bind_budget _ _) = post
  method_of (to_rebind_budget _ _) = put
  method_of (to_set_budget_cost _ _ _) = patch_method
  method_of (to_unbind_budget _ _) = delete
  method_of (to_unbind_all_budgets _) = delete
  method_of (to_replace_budgets _ _) = put

  abbrev pub path_of : (ℕ → String) → ApiCall F N P → List String
  path_of _ (to_report_success id) = "jobs" ∷ id ∷ "success" ∷ []
  path_of _ (to_report_success_bulk _) = "jobs" ∷ "success" ∷ []
  path_of _ to_health = "health" ∷ []
  path_of _ to_server_version = "version" ∷ []
  path_of _ to_list_queues = "queues" ∷ []
  path_of _ (to_get_job id) = "jobs" ∷ id ∷ []
  path_of _ to_erase_all_data = "reset" ∷ []
  path_of _ (to_delete_job id) = "jobs" ∷ id ∷ []
  path_of _ (to_patch_job id _) = "jobs" ∷ id ∷ []
  path_of show (to_get_error id attempt) = "jobs" ∷ id ∷ "errors" ∷ show attempt ∷ []
  path_of _ (to_enqueue_raw _) = "jobs" ∷ []
  path_of _ (to_enqueue_bulk _) = "jobs" ∷ "bulk" ∷ []
  path_of _ (to_report_failure b) = "jobs" ∷ b.job_id ∷ "failure" ∷ []
  path_of _ to_list_crons = "crons" ∷ []
  path_of _ (to_get_cron name) = "crons" ∷ name ∷ []
  path_of _ (to_delete_cron name) = "crons" ∷ name ∷ []
  path_of _ to_delete_all_crons = "crons" ∷ []
  path_of _ (to_pause_cron name) = "crons" ∷ name ∷ []
  path_of _ (to_resume_cron name) = "crons" ∷ name ∷ []
  path_of _ (to_add_cron_entry group _) = "crons" ∷ group ∷ "entries" ∷ []
  path_of _ (to_get_cron_entry group entry) = "crons" ∷ group ∷ "entries" ∷ entry ∷ []
  path_of _ (to_put_cron_entry group entry) = "crons" ∷ group ∷ "entries" ∷ entry.name ∷ []
  path_of _ (to_delete_cron_entry group entry) = "crons" ∷ group ∷ "entries" ∷ entry ∷ []
  path_of _ (to_pause_cron_entry group entry) = "crons" ∷ group ∷ "entries" ∷ entry ∷ []
  path_of _ (to_resume_cron_entry group entry) = "crons" ∷ group ∷ "entries" ∷ entry ∷ []
  path_of _ (to_replace_cron b) = "crons" ∷ b.name ∷ []
  path_of _ to_list_budgets = "budgets" ∷ []
  path_of _ (to_get_budget key) = "budgets" ∷ key ∷ []
  path_of _ (to_create_budget key _) = "budgets" ∷ key ∷ []
  path_of _ (to_put_budget key _) = "budgets" ∷ key ∷ []
  path_of _ (to_update_budget key _) = "budgets" ∷ key ∷ []
  path_of _ (to_delete_budget key) = "budgets" ∷ key ∷ []
  path_of _ (to_bind_budget id binding) = "jobs" ∷ id ∷ "budgets" ∷ binding.key ∷ []
  path_of _ (to_rebind_budget id binding) = "jobs" ∷ id ∷ "budgets" ∷ binding.key ∷ []
  path_of _ (to_set_budget_cost id key _) = "jobs" ∷ id ∷ "budgets" ∷ key ∷ []
  path_of _ (to_unbind_budget id key) = "jobs" ∷ id ∷ "budgets" ∷ key ∷ []
  path_of _ (to_unbind_all_budgets id) = "jobs" ∷ id ∷ "budgets" ∷ []
  path_of _ (to_replace_budgets id _) = "jobs" ∷ id ∷ "budgets" ∷ []

  -- Most calls accept every status of success.
  abbrev pub accepts : ApiCall F N P → ℕ → Bool
  accepts (to_report_success _) = λ status. contains status (204 ∷ [])
  accepts (to_report_success_bulk _) = λ status. contains status (204 ∷ 422 ∷ [])
  accepts to_health = λ status. contains status (200 ∷ [])
  accepts to_erase_all_data = λ status. contains status (204 ∷ [])
  accepts (to_delete_job _) = λ status. contains status (204 ∷ [])
  accepts (to_delete_cron _) = λ status. contains status (204 ∷ [])
  accepts (to_pause_cron _) = λ status. contains status (200 ∷ [])
  accepts (to_resume_cron _) = λ status. contains status (200 ∷ [])
  accepts (to_delete_cron_entry _ _) = λ status. contains status (204 ∷ [])
  accepts (to_pause_cron_entry _ _) = λ status. contains status (200 ∷ [])
  accepts (to_resume_cron_entry _ _) = λ status. contains status (200 ∷ [])
  accepts (to_delete_budget _) = λ status. contains status (204 ∷ [])
  accepts _ = is_success
