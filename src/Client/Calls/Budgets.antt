-- ===== src/Client/Calls/Budgets.antt =====
-- zizq/src/client.rs: budgets, and the budgets of one job.
use zizq_rust.Prelude.{ℕ, String, List, [], ◌∷◌, Result, ok, and_then}
use zizq_rust.Error.{ZizqError}
use zizq_rust.Budget.{BudgetBindingInput, BudgetPolicy, binding_body}
use zizq_rust.Budget.Patch.{BudgetPatch}
use zizq_rust.Client.{
  Urls, ApiErrors, Client, Method, post, put, patch as patch_method, delete, url, get_decoded,
  delete_decoded, send_body_decoded, send_expect,
}
use zizq_rust.Client.Calls.{Codecs}

module _ {F N P : Type 0} (urls : Urls F) (api : ApiErrors) (codecs : Codecs N P) where
  open codecs use {Job, CronGroup, CronEntryRecord, ErrorRecord, Budget}

  unfoldable pub list_budgets : Client urls api → Result (List Budget) (ZizqError F)
  unfolding get_decoded url
  list_budgets c =
      and_then (get_decoded urls api codecs.budgets_response c (url urls api c ("budgets" ∷ [])))
        (λ r. ok r.budgets)

  unfoldable pub get_budget : Client urls api → String → Result Budget (ZizqError F)
  unfolding get_decoded url
  get_budget c key = get_decoded urls api codecs.budget c (url urls api c ("budgets" ∷ key ∷ []))

  unfoldable pub create_budget :
      Client urls api → String → BudgetPolicy → Result Budget (ZizqError F)
  unfolding send_body_decoded url
  create_budget c key policy =
      send_body_decoded urls api codecs.budget codecs.policy c post
        (url urls api c ("budgets" ∷ key ∷ [])) policy

  unfoldable pub put_budget : Client urls api → String → BudgetPolicy → Result Budget (ZizqError F)
  unfolding send_body_decoded url
  put_budget c key policy =
      send_body_decoded urls api codecs.budget codecs.policy c put
        (url urls api c ("budgets" ∷ key ∷ [])) policy

  unfoldable pub update_budget :
      Client urls api → String → BudgetPatch → Result Budget (ZizqError F)
  unfolding send_body_decoded url
  update_budget c key patch =
      send_body_decoded urls api codecs.budget codecs.budget_patch c patch_method
        (url urls api c ("budgets" ∷ key ∷ [])) patch

  unfoldable pub delete_budget : Client urls api → String → Result (Unit {0}) (ZizqError F)
  unfolding send_expect url
  delete_budget c key =
      send_expect urls api c delete (url urls api c ("budgets" ∷ key ∷ [])) (204 ∷ [])

  unfoldable pub send_binding :
      Client urls api → Method → String → BudgetBindingInput → Result Job (ZizqError F)
  unfolding send_body_decoded url binding_body
  send_binding c method id binding =
      send_body_decoded urls api codecs.job codecs.binding_body c method
        (url urls api c ("jobs" ∷ id ∷ "budgets" ∷ binding.key ∷ [])) (binding_body binding)

  unfoldable pub bind_budget :
      Client urls api → String → BudgetBindingInput → Result Job (ZizqError F)
  unfolding send_binding
  bind_budget c id binding = send_binding c post id binding

  unfoldable pub rebind_budget :
      Client urls api → String → BudgetBindingInput → Result Job (ZizqError F)
  unfolding send_binding
  rebind_budget c id binding = send_binding c put id binding

  unfoldable pub set_budget_cost : Client urls api → String → String → ℕ → Result Job (ZizqError F)
  unfolding send_body_decoded url
  set_budget_cost c id key cost =
      send_body_decoded urls api codecs.job codecs.cost_body c patch_method
        (url urls api c ("jobs" ∷ id ∷ "budgets" ∷ key ∷ [])) (record { cost = cost })

  unfoldable pub unbind_budget : Client urls api → String → String → Result Job (ZizqError F)
  unfolding delete_decoded url
  unbind_budget c id key =
      delete_decoded urls api codecs.job c (url urls api c ("jobs" ∷ id ∷ "budgets" ∷ key ∷ []))

  unfoldable pub unbind_all_budgets : Client urls api → String → Result Job (ZizqError F)
  unfolding delete_decoded url
  unbind_all_budgets c id =
      delete_decoded urls api codecs.job c (url urls api c ("jobs" ∷ id ∷ "budgets" ∷ []))

  unfoldable pub replace_budgets :
      Client urls api → String → List BudgetBindingInput → Result Job (ZizqError F)
  unfolding send_body_decoded url
  replace_budgets c id budgets =
      send_body_decoded urls api codecs.job codecs.budgets_body c put
        (url urls api c ("jobs" ∷ id ∷ "budgets" ∷ [])) (record { budgets = budgets })
