-- ===== src/Client/Status/Exchange.antt =====
-- zizq/src/client.rs: a call that succeeds has made the exchange that the table says.
use zizq_rust.Prelude.{ℕ, String, Bool, true, Result, ok, err, [], ◌∷◌, ◌≡◌, ap, sym, subst}
use zizq_rust.Error.{ZizqError}
use zizq_rust.Enqueue.{EnqueueRequest}
use zizq_rust.Cron.{CronEntry, CronEntryBody, into_body, group_body}
use zizq_rust.Client.{
  Urls, ApiErrors, Client, get, post, put, patch as patch_method, delete, is_success, url,
}
use zizq_rust.Client.Calls.{Codecs}
use zizq_rust.Client.Calls.Jobs.{
  report_success, report_success_bulk, health, server_version, list_queues, get_job, reset,
  erase_all_data, delete_job, patch_job, get_error, enqueue_raw, enqueue_bulk_raw,
  report_failure_raw, enqueue_bulk, report_failure,
}
use zizq_rust.Client.Calls.Crons.{
  list_crons, get_cron, delete_cron, delete_all_crons, patch_paused, pause_cron, resume_cron,
  add_cron_entry, get_cron_entry, put_cron_entry, delete_cron_entry, pause_cron_entry,
  resume_cron_entry, replace_cron,
}
use zizq_rust.Client.Calls.Budgets.{
  list_budgets, get_budget, create_budget, put_budget, update_budget, delete_budget, send_binding,
  bind_budget, rebind_budget, set_budget_cost, unbind_budget, unbind_all_budgets, replace_budgets,
}
use zizq_rust.Client.Status.{
  is_ok, and_then-is_ok, fst_ok, Sent, send_decoded-Sent, get_decoded-Sent, delete_decoded-Sent,
  send_body_decoded-Sent, send_expect-Sent, send_body_expect-Sent,
}
use zizq_rust.Client.Status.Routes.{
  ApiCall, to_report_success, to_report_success_bulk, to_health, to_server_version, to_list_queues,
  to_get_job, to_erase_all_data, to_delete_job, to_patch_job, to_get_error, to_enqueue_raw,
  to_enqueue_bulk, to_report_failure, to_list_crons, to_get_cron, to_delete_cron,
  to_delete_all_crons, to_pause_cron, to_resume_cron, to_add_cron_entry, to_get_cron_entry,
  to_put_cron_entry, to_delete_cron_entry, to_pause_cron_entry, to_resume_cron_entry,
  to_replace_cron, to_list_budgets, to_get_budget, to_create_budget, to_put_budget,
  to_update_budget, to_delete_budget, to_bind_budget, to_rebind_budget, to_set_budget_cost,
  to_unbind_budget, to_unbind_all_budgets, to_replace_budgets, method_of, path_of, accepts,
}

named :
    {F N P : Type 0} (made : Result (EnqueueRequest N P) (ZizqError F)) (e : CronEntry N P F)
    (body : CronEntryBody N P)
    → into_body (record e { job = made }) ≡ ok body
    → body.name ≡ e.name
unfolding into_body
named (ok job) e body h = ap (λ r. elim r [ ok x ↦ x.name | err _ ↦ e.name ]) (sym h)
named (err failure) e body h = cc

module _ {F N P : Type 0} (urls : Urls F) (api : ApiErrors) (codecs : Codecs N P)
    (show : ℕ → String) where
  -- Whether the call returns a value.
  unfoldable pub succeeds : Client urls api → ApiCall F N P → Bool
  unfolding report_success report_success_bulk health server_version list_queues get_job
      erase_all_data delete_job patch_job get_error enqueue_raw enqueue_bulk report_failure
      list_crons get_cron delete_cron delete_all_crons pause_cron resume_cron add_cron_entry
      get_cron_entry put_cron_entry delete_cron_entry pause_cron_entry resume_cron_entry
      replace_cron list_budgets get_budget create_budget put_budget update_budget delete_budget
      bind_budget rebind_budget set_budget_cost unbind_budget unbind_all_budgets replace_budgets
  succeeds c (to_report_success id) = is_ok (report_success urls api codecs c id)
  succeeds c (to_report_success_bulk ids) = is_ok (report_success_bulk urls api codecs c ids)
  succeeds c to_health = is_ok (health urls api codecs c)
  succeeds c to_server_version = is_ok (server_version urls api codecs c)
  succeeds c to_list_queues = is_ok (list_queues urls api codecs c)
  succeeds c (to_get_job id) = is_ok (get_job urls api codecs c id)
  succeeds c to_erase_all_data = is_ok (erase_all_data urls api codecs c)
  succeeds c (to_delete_job id) = is_ok (delete_job urls api codecs c id)
  succeeds c (to_patch_job id patch) = is_ok (patch_job urls api codecs c id patch)
  succeeds c (to_get_error id attempt) = is_ok (get_error urls api codecs c show id attempt)
  succeeds c (to_enqueue_raw request) = is_ok (enqueue_raw urls api codecs c request)
  succeeds c (to_enqueue_bulk bulk) = is_ok (enqueue_bulk urls api codecs c bulk)
  succeeds c (to_report_failure b) = is_ok (report_failure urls api codecs c b)
  succeeds c to_list_crons = is_ok (list_crons urls api codecs c)
  succeeds c (to_get_cron name) = is_ok (get_cron urls api codecs c name)
  succeeds c (to_delete_cron name) = is_ok (delete_cron urls api codecs c name)
  succeeds c to_delete_all_crons = is_ok (delete_all_crons urls api codecs c)
  succeeds c (to_pause_cron name) = is_ok (pause_cron urls api codecs c name)
  succeeds c (to_resume_cron name) = is_ok (resume_cron urls api codecs c name)
  succeeds c (to_add_cron_entry group entry) = is_ok (add_cron_entry urls api codecs c group entry)
  succeeds c (to_get_cron_entry group entry) = is_ok (get_cron_entry urls api codecs c group entry)
  succeeds c (to_put_cron_entry group entry) = is_ok (put_cron_entry urls api codecs c group entry)
  succeeds c (to_delete_cron_entry group entry) =
      is_ok (delete_cron_entry urls api codecs c group entry)
  succeeds c (to_pause_cron_entry group entry) =
      is_ok (pause_cron_entry urls api codecs c group entry)
  succeeds c (to_resume_cron_entry group entry) =
      is_ok (resume_cron_entry urls api codecs c group entry)
  succeeds c (to_replace_cron b) = is_ok (replace_cron urls api codecs c b)
  succeeds c to_list_budgets = is_ok (list_budgets urls api codecs c)
  succeeds c (to_get_budget key) = is_ok (get_budget urls api codecs c key)
  succeeds c (to_create_budget key policy) = is_ok (create_budget urls api codecs c key policy)
  succeeds c (to_put_budget key policy) = is_ok (put_budget urls api codecs c key policy)
  succeeds c (to_update_budget key patch) = is_ok (update_budget urls api codecs c key patch)
  succeeds c (to_delete_budget key) = is_ok (delete_budget urls api codecs c key)
  succeeds c (to_bind_budget id binding) = is_ok (bind_budget urls api codecs c id binding)
  succeeds c (to_rebind_budget id binding) = is_ok (rebind_budget urls api codecs c id binding)
  succeeds c (to_set_budget_cost id key cost) =
      is_ok (set_budget_cost urls api codecs c id key cost)
  succeeds c (to_unbind_budget id key) = is_ok (unbind_budget urls api codecs c id key)
  succeeds c (to_unbind_all_budgets id) = is_ok (unbind_all_budgets urls api codecs c id)
  succeeds c (to_replace_budgets id budgets) = is_ok (replace_budgets urls api codecs c id budgets)

  -- A call that returns a value has sent a request with the method and to the path that the table gives, and the
  -- server has answered it with a status that the call accepts.
  pub succeeds-Sent :
      (c : Client urls api) (call : ApiCall F N P)
      → succeeds c call ≡ true
      → Sent urls api c (method_of call) (url urls api c (path_of show call)) (accepts call)
  unfolding patch_paused reset send_binding enqueue_bulk_raw report_failure_raw succeeds
      report_success report_success_bulk health server_version list_queues get_job erase_all_data
      delete_job patch_job get_error enqueue_raw enqueue_bulk report_failure list_crons get_cron
      delete_cron delete_all_crons pause_cron resume_cron add_cron_entry get_cron_entry
      put_cron_entry delete_cron_entry pause_cron_entry resume_cron_entry replace_cron list_budgets
      get_budget create_budget put_budget update_budget delete_budget bind_budget rebind_budget
      set_budget_cost unbind_budget unbind_all_budgets replace_budgets
  succeeds-Sent c (to_report_success id) h =
      send_expect-Sent urls api c post (url urls api c ("jobs" ∷ id ∷ "success" ∷ [])) (204 ∷ []) h
  succeeds-Sent c (to_report_success_bulk ids) h =
      send_body_expect-Sent urls api codecs.success_body c post
        (url urls api c ("jobs" ∷ "success" ∷ [])) _ (204 ∷ 422 ∷ []) h
  succeeds-Sent c to_health h =
      send_expect-Sent urls api c get (url urls api c ("health" ∷ [])) (200 ∷ []) h
  succeeds-Sent c to_server_version h =
      get_decoded-Sent urls api _ c (url urls api c ("version" ∷ [])) (fst_ok _ _ h)
  succeeds-Sent c to_list_queues h =
      get_decoded-Sent urls api _ c (url urls api c ("queues" ∷ [])) (fst_ok _ _ h)
  succeeds-Sent c (to_get_job id) h =
      send_decoded-Sent urls api _ c get (url urls api c ("jobs" ∷ id ∷ [])) h
  succeeds-Sent c to_erase_all_data h =
      send_expect-Sent urls api c post (url urls api c ("reset" ∷ [])) (204 ∷ []) h
  succeeds-Sent c (to_delete_job id) h =
      send_expect-Sent urls api c delete (url urls api c ("jobs" ∷ id ∷ [])) (204 ∷ []) h
  succeeds-Sent c (to_patch_job id patch) h =
      send_body_decoded-Sent urls api _ codecs.job_patch c patch_method
        (url urls api c ("jobs" ∷ id ∷ [])) _ h
  succeeds-Sent c (to_get_error id attempt) h =
      get_decoded-Sent urls api _ c (url urls api c ("jobs" ∷ id ∷ "errors" ∷ show attempt ∷ [])) h
  succeeds-Sent c (to_enqueue_raw request) h =
      send_body_decoded-Sent urls api _ codecs.enqueue_request c post (url urls api c ("jobs" ∷ []))
        _ h
  succeeds-Sent c (to_enqueue_bulk bulk) h =
      let (x, e, k) = and_then-is_ok bulk.state _ h in
      send_body_decoded-Sent urls api _ codecs.bulk_request c post
        (url urls api c ("jobs" ∷ "bulk" ∷ [])) _ (fst_ok _ _ k)
  succeeds-Sent c (to_report_failure b) h =
      send_body_decoded-Sent urls api _ codecs.failure_request c post
        (url urls api c ("jobs" ∷ b.job_id ∷ "failure" ∷ [])) _ h
  succeeds-Sent c to_list_crons h =
      get_decoded-Sent urls api _ c (url urls api c ("crons" ∷ [])) (fst_ok _ _ h)
  succeeds-Sent c (to_get_cron name) h =
      get_decoded-Sent urls api _ c (url urls api c ("crons" ∷ name ∷ [])) h
  succeeds-Sent c (to_delete_cron name) h =
      send_expect-Sent urls api c delete (url urls api c ("crons" ∷ name ∷ [])) (204 ∷ []) h
  succeeds-Sent c to_delete_all_crons h =
      delete_decoded-Sent urls api _ c (url urls api c ("crons" ∷ [])) (fst_ok _ _ h)
  succeeds-Sent c (to_pause_cron name) h =
      send_body_expect-Sent urls api codecs.paused_body c patch_method
        (url urls api c ("crons" ∷ name ∷ [])) _ (200 ∷ []) h
  succeeds-Sent c (to_resume_cron name) h =
      send_body_expect-Sent urls api codecs.paused_body c patch_method
        (url urls api c ("crons" ∷ name ∷ [])) _ (200 ∷ []) h
  succeeds-Sent c (to_add_cron_entry group entry) h =
      let (x, e, k) = and_then-is_ok (into_body entry) _ h in
      send_body_decoded-Sent urls api _ codecs.cron_entry_body c post
        (url urls api c ("crons" ∷ group ∷ "entries" ∷ [])) _ k
  succeeds-Sent c (to_get_cron_entry group entry) h =
      get_decoded-Sent urls api _ c (url urls api c ("crons" ∷ group ∷ "entries" ∷ entry ∷ [])) h
  succeeds-Sent c (to_put_cron_entry group entry) h =
      let (x, e, k) = and_then-is_ok (into_body entry) _ h in
      subst
        (λ name.
          Sent urls api c put (url urls api c ("crons" ∷ group ∷ "entries" ∷ name ∷ [])) is_success)
        (named entry.job entry x e)
        (send_body_decoded-Sent urls api _ codecs.cron_entry_body c put
          (url urls api c ("crons" ∷ group ∷ "entries" ∷ x.name ∷ [])) _ k)
  succeeds-Sent c (to_delete_cron_entry group entry) h =
      send_expect-Sent urls api c delete (url urls api c ("crons" ∷ group ∷ "entries" ∷ entry ∷ []))
        (204 ∷ []) h
  succeeds-Sent c (to_pause_cron_entry group entry) h =
      send_body_expect-Sent urls api codecs.paused_body c patch_method
        (url urls api c ("crons" ∷ group ∷ "entries" ∷ entry ∷ [])) _ (200 ∷ []) h
  succeeds-Sent c (to_resume_cron_entry group entry) h =
      send_body_expect-Sent urls api codecs.paused_body c patch_method
        (url urls api c ("crons" ∷ group ∷ "entries" ∷ entry ∷ [])) _ (200 ∷ []) h
  succeeds-Sent c (to_replace_cron b) h =
      let (x, e, k) = and_then-is_ok (group_body b) _ h in
      send_body_decoded-Sent urls api _ codecs.cron_group_body c put
        (url urls api c ("crons" ∷ b.name ∷ [])) _ k
  succeeds-Sent c to_list_budgets h =
      get_decoded-Sent urls api _ c (url urls api c ("budgets" ∷ [])) (fst_ok _ _ h)
  succeeds-Sent c (to_get_budget key) h =
      get_decoded-Sent urls api _ c (url urls api c ("budgets" ∷ key ∷ [])) h
  succeeds-Sent c (to_create_budget key policy) h =
      send_body_decoded-Sent urls api _ codecs.policy c post (url urls api c ("budgets" ∷ key ∷ []))
        _ h
  succeeds-Sent c (to_put_budget key policy) h =
      send_body_decoded-Sent urls api _ codecs.policy c put (url urls api c ("budgets" ∷ key ∷ []))
        _ h
  succeeds-Sent c (to_update_budget key patch) h =
      send_body_decoded-Sent urls api _ codecs.budget_patch c patch_method
        (url urls api c ("budgets" ∷ key ∷ [])) _ h
  succeeds-Sent c (to_delete_budget key) h =
      send_expect-Sent urls api c delete (url urls api c ("budgets" ∷ key ∷ [])) (204 ∷ []) h
  succeeds-Sent c (to_bind_budget id binding) h =
      send_body_decoded-Sent urls api _ codecs.binding_body c post
        (url urls api c ("jobs" ∷ id ∷ "budgets" ∷ binding.key ∷ [])) _ h
  succeeds-Sent c (to_rebind_budget id binding) h =
      send_body_decoded-Sent urls api _ codecs.binding_body c put
        (url urls api c ("jobs" ∷ id ∷ "budgets" ∷ binding.key ∷ [])) _ h
  succeeds-Sent c (to_set_budget_cost id key cost) h =
      send_body_decoded-Sent urls api _ codecs.cost_body c patch_method
        (url urls api c ("jobs" ∷ id ∷ "budgets" ∷ key ∷ [])) _ h
  succeeds-Sent c (to_unbind_budget id key) h =
      delete_decoded-Sent urls api _ c (url urls api c ("jobs" ∷ id ∷ "budgets" ∷ key ∷ [])) h
  succeeds-Sent c (to_unbind_all_budgets id) h =
      delete_decoded-Sent urls api _ c (url urls api c ("jobs" ∷ id ∷ "budgets" ∷ [])) h
  succeeds-Sent c (to_replace_budgets id budgets) h =
      send_body_decoded-Sent urls api _ codecs.budgets_body c put
        (url urls api c ("jobs" ∷ id ∷ "budgets" ∷ [])) _ h
