-- ===== src/Client/Calls/Crons.antt =====
-- zizq/src/client.rs: cron groups and their entries, with zizq/src/cron.rs.
use zizq_rust.Prelude.{ℕ, String, Bool, true, false, List, [], ◌∷◌, Result, ok, and_then}
use zizq_rust.Error.{ZizqError}
use zizq_rust.Cron.{CronEntry, ReplaceCronBuilder, into_body, group_body}
use zizq_rust.Client.{
  Urls, ApiErrors, Client, post, put, patch as patch_method, delete, url, get_decoded,
  delete_decoded, send_body_decoded, send_expect, send_body_expect,
}
use zizq_rust.Client.Calls.{Codecs}

module _ {F N P : Type 0} (urls : Urls F) (api : ApiErrors) (codecs : Codecs N P) where
  open codecs use {Job, CronGroup, CronEntryRecord, ErrorRecord, Budget}

  unfoldable pub list_crons : Client urls api → Result (List String) (ZizqError F)
  unfolding get_decoded url
  list_crons c =
      and_then (get_decoded urls api codecs.crons_response c (url urls api c ("crons" ∷ [])))
        (λ r. ok r.crons)

  unfoldable pub get_cron : Client urls api → String → Result CronGroup (ZizqError F)
  unfolding get_decoded url
  get_cron c name = get_decoded urls api codecs.cron_group c (url urls api c ("crons" ∷ name ∷ []))

  unfoldable pub delete_cron : Client urls api → String → Result (Unit {0}) (ZizqError F)
  unfolding send_expect url
  delete_cron c name =
      send_expect urls api c delete (url urls api c ("crons" ∷ name ∷ [])) (204 ∷ [])

  unfoldable pub delete_all_crons : Client urls api → Result ℕ (ZizqError F)
  unfolding delete_decoded url
  delete_all_crons c =
      and_then (delete_decoded urls api codecs.delete_response c (url urls api c ("crons" ∷ [])))
        (λ r. ok r.deleted)

  unfoldable pub patch_paused :
      Client urls api → List String → Bool → Result (Unit {0}) (ZizqError F)
  unfolding send_body_expect url
  patch_paused c segments paused =
      send_body_expect urls api codecs.paused_body c patch_method (url urls api c (segments))
        (record { paused = paused }) (200 ∷ [])

  unfoldable pub pause_cron : Client urls api → String → Result (Unit {0}) (ZizqError F)
  unfolding patch_paused
  pause_cron c name = patch_paused c ("crons" ∷ name ∷ []) true

  unfoldable pub resume_cron : Client urls api → String → Result (Unit {0}) (ZizqError F)
  unfolding patch_paused
  resume_cron c name = patch_paused c ("crons" ∷ name ∷ []) false

  unfoldable pub add_cron_entry :
      Client urls api → String → CronEntry N P F → Result CronEntryRecord (ZizqError F)
  unfolding into_body send_body_decoded url
  add_cron_entry c group entry = and_then (into_body entry) (λ body.
      send_body_decoded urls api codecs.cron_entry codecs.cron_entry_body c post
        (url urls api c ("crons" ∷ group ∷ "entries" ∷ [])) body)

  unfoldable pub get_cron_entry :
      Client urls api → String → String → Result CronEntryRecord (ZizqError F)
  unfolding get_decoded url
  get_cron_entry c group entry =
      get_decoded urls api codecs.cron_entry c
        (url urls api c ("crons" ∷ group ∷ "entries" ∷ entry ∷ []))

  unfoldable pub put_cron_entry :
      Client urls api → String → CronEntry N P F → Result CronEntryRecord (ZizqError F)
  unfolding into_body send_body_decoded url
  put_cron_entry c group entry = and_then (into_body entry) (λ body.
      send_body_decoded urls api codecs.cron_entry codecs.cron_entry_body c put
        (url urls api c ("crons" ∷ group ∷ "entries" ∷ body.name ∷ [])) body)

  unfoldable pub delete_cron_entry :
      Client urls api → String → String → Result (Unit {0}) (ZizqError F)
  unfolding send_expect url
  delete_cron_entry c group entry =
      send_expect urls api c delete (url urls api c ("crons" ∷ group ∷ "entries" ∷ entry ∷ []))
        (204 ∷ [])

  unfoldable pub pause_cron_entry :
      Client urls api → String → String → Result (Unit {0}) (ZizqError F)
  unfolding patch_paused
  pause_cron_entry c group entry = patch_paused c ("crons" ∷ group ∷ "entries" ∷ entry ∷ []) true

  unfoldable pub resume_cron_entry :
      Client urls api → String → String → Result (Unit {0}) (ZizqError F)
  unfolding patch_paused
  resume_cron_entry c group entry = patch_paused c ("crons" ∷ group ∷ "entries" ∷ entry ∷ []) false

  unfoldable pub replace_cron :
      Client urls api → ReplaceCronBuilder N P F → Result CronGroup (ZizqError F)
  unfolding group_body send_body_decoded url
  replace_cron c b = and_then (group_body b) (λ body.
      send_body_decoded urls api codecs.cron_group codecs.cron_group_body c put
        (url urls api c ("crons" ∷ b.name ∷ [])) body)
