-- ===== src/Client/Calls/Jobs.antt =====
-- zizq/src/client.rs: jobs, queues and the server, with zizq/src/bulk_enqueue.rs and zizq/src/failure.rs.
use zizq_rust.Prelude.{ℕ, String, List, [], ◌∷◌, Result, ok, and_then}
use zizq_rust.Error.{ZizqError}
use zizq_rust.Patch.Job.{JobPatch}
use zizq_rust.Enqueue.{EnqueueRequest}
use zizq_rust.Bulk.{BulkEnqueueBuilder}
use zizq_rust.Failure.{FailureBuilder, FailureRequest, failure_request}
use zizq_rust.Client.{
  Urls, ApiErrors, Client, get, post, patch as patch_method, delete, url, send_decoded, get_decoded,
  send_body_decoded, send_expect, send_body_expect,
}
use zizq_rust.Client.Calls.{Codecs, BulkEnqueueRequest}

module _ {F N P : Type 0} (urls : Urls F) (api : ApiErrors) (codecs : Codecs N P) where
  open codecs use {Job, CronGroup, CronEntryRecord, ErrorRecord, Budget}

  unfoldable pub report_success : Client urls api → String → Result (Unit {0}) (ZizqError F)
  unfolding send_expect url
  report_success c id =
      send_expect urls api c post (url urls api c ("jobs" ∷ id ∷ "success" ∷ [])) (204 ∷ [])

  unfoldable pub report_success_bulk :
      Client urls api → List String → Result (Unit {0}) (ZizqError F)
  unfolding send_body_expect url
  report_success_bulk c ids =
      send_body_expect urls api codecs.success_body c post
        (url urls api c ("jobs" ∷ "success" ∷ [])) (record { ids = ids }) (204 ∷ 422 ∷ [])

  unfoldable pub health : Client urls api → Result (Unit {0}) (ZizqError F)
  unfolding send_expect url
  health c = send_expect urls api c get (url urls api c ("health" ∷ [])) (200 ∷ [])

  unfoldable pub server_version : Client urls api → Result String (ZizqError F)
  unfolding get_decoded url
  server_version c =
      and_then (get_decoded urls api codecs.version_response c (url urls api c ("version" ∷ [])))
        (λ r. ok r.version)

  unfoldable pub list_queues : Client urls api → Result (List String) (ZizqError F)
  unfolding get_decoded url
  list_queues c =
      and_then (get_decoded urls api codecs.queues_response c (url urls api c ("queues" ∷ [])))
        (λ r. ok r.queues)

  unfoldable pub get_job : Client urls api → String → Result Job (ZizqError F)
  unfolding send_decoded url
  get_job c id = send_decoded urls api codecs.job c get (url urls api c ("jobs" ∷ id ∷ []))

  unfoldable pub reset : Client urls api → Result (Unit {0}) (ZizqError F)
  unfolding send_expect url
  reset c = send_expect urls api c post (url urls api c ("reset" ∷ [])) (204 ∷ [])

  unfoldable pub erase_all_data : Client urls api → Result (Unit {0}) (ZizqError F)
  unfolding reset
  erase_all_data c = reset c

  unfoldable pub delete_job : Client urls api → String → Result (Unit {0}) (ZizqError F)
  unfolding send_expect url
  delete_job c id = send_expect urls api c delete (url urls api c ("jobs" ∷ id ∷ [])) (204 ∷ [])

  unfoldable pub patch_job : Client urls api → String → JobPatch N → Result Job (ZizqError F)
  unfolding send_body_decoded url
  patch_job c id patch =
      send_body_decoded urls api codecs.job codecs.job_patch c patch_method
        (url urls api c ("jobs" ∷ id ∷ [])) patch

  unfoldable pub get_error :
      Client urls api → (ℕ → String) → String → ℕ → Result ErrorRecord (ZizqError F)
  unfolding get_decoded url
  get_error c show id attempt =
      get_decoded urls api codecs.error_record c
        (url urls api c ("jobs" ∷ id ∷ "errors" ∷ show attempt ∷ []))

  unfoldable pub enqueue_raw : Client urls api → EnqueueRequest N P → Result Job (ZizqError F)
  unfolding send_body_decoded url
  enqueue_raw c request =
      send_body_decoded urls api codecs.job codecs.enqueue_request c post
        (url urls api c ("jobs" ∷ [])) request

  unfoldable pub enqueue_bulk_raw :
      Client urls api → BulkEnqueueRequest N P → Result (List Job) (ZizqError F)
  unfolding send_body_decoded url
  enqueue_bulk_raw c request =
      and_then
        (send_body_decoded urls api codecs.bulk_response codecs.bulk_request c post
          (url urls api c ("jobs" ∷ "bulk" ∷ [])) request)
        (λ r. ok r.jobs)

  unfoldable pub report_failure_raw :
      Client urls api → String → FailureRequest → Result Job (ZizqError F)
  unfolding send_body_decoded url
  report_failure_raw c id request =
      send_body_decoded urls api codecs.job codecs.failure_request c post
        (url urls api c ("jobs" ∷ id ∷ "failure" ∷ [])) request

  unfoldable pub enqueue_bulk :
      Client urls api → BulkEnqueueBuilder N P F → Result (List Job) (ZizqError F)
  unfolding enqueue_bulk_raw
  enqueue_bulk c bulk = and_then bulk.state (λ jobs. enqueue_bulk_raw c (record { jobs = jobs }))

  unfoldable pub report_failure : Client urls api → FailureBuilder → Result Job (ZizqError F)
  unfolding report_failure_raw failure_request
  report_failure c b = report_failure_raw c b.job_id (failure_request b)
