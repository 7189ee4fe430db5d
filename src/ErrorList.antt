-- ===== src/ErrorList.antt =====
-- zizq/src/list_errors.rs: `ListErrorsBuilder`, its requests through the client, and its stream over the pages of
-- a listing. `show` is `to_string` of a number, and `R` the type of error records.
pub mod Origin
use zizq_rust.Prelude.{
  ℕ, zero, suc, String, Bool, true, false, ◌||◌, Option, some, none, List, [], ◌∷◌, ◌++◌,
  if◌then◌else◌, Result, ok, err,
}
use zizq_rust.Error.{ZizqError}
use zizq_rust.Filter.{is_some}
use zizq_rust.Endpoints.{Order, order_str}
use zizq_rust.Client.{Urls, ApiErrors, Client, Decoder, url, get_decoded, get_page}

pub record ListErrorsBuilder : Type 0 where
  pub job_id : String
  pub from : Option ℕ
  pub order : Option Order
  pub limit : Option ℕ

unfoldable pub new_listing : String → ListErrorsBuilder
new_listing job_id = record { job_id = job_id; from = none; order = none; limit = none }

unfoldable pub set_from : ℕ → ListErrorsBuilder → ListErrorsBuilder
set_from attempt b = record b { from = some attempt }

unfoldable pub set_order : Order → ListErrorsBuilder → ListErrorsBuilder
set_order order b = record b { order = some order }

unfoldable pub set_limit : ℕ → ListErrorsBuilder → ListErrorsBuilder
set_limit n b = record b { limit = some n }

pub record ErrorPage (R : Type 0) : Type 0 where
  pub errors : List R
  pub next_link : Option String

pub data PageCursor (U : Type 0) : Type 0 where
  first : U → PageCursor U
  next : String → PageCursor U
  done : PageCursor U

pub record ErrorStreamState (R U : Type 0) : Type 0 where
  pub buffer : List R
  pub cursor : PageCursor U

-- `try_unfold`'s step: a record and the state behind it, the end, or an error. The loop over empty pages may need more
-- fuel.
pub data Step (R U E : Type 0) : Type 0 where
  yielded : R → ErrorStreamState R U → Step R U E
  ended out_of_fuel : Step R U E
  failed : E → Step R U E

abbrev pub pair : {A : Type 0} → String → (A → String) → Option A → List (String × String)
pair key text none = []
pair key text (some a) = (key, text a) ∷ []

abbrev pub link_of : {U : Type 0} → Option String → PageCursor U
link_of none = done
link_of (some path) = next path

unfoldable pub error_params : (ℕ → String) → ListErrorsBuilder → List (String × String)
unfolding order_str
error_params show b =
    pair "from" show b.from ++ (pair "order" order_str b.order ++ pair "limit" show b.limit)

module _ {F R : Type 0} (urls : Urls F) (api : ApiErrors) (page : Decoder (ErrorPage R))
    (show : ℕ → String) where
  open urls use {Url, append_pairs}

  unfoldable pub errors_url : Client urls api → ListErrorsBuilder → Url
  unfolding url error_params
  errors_url c b =
      let base = url urls api c ("jobs" ∷ b.job_id ∷ "errors" ∷ []) in
      if is_some b.from || is_some b.order || is_some b.limit
      then append_pairs (error_params show b) base
      else base

  unfoldable pub list_errors :
      Client urls api → ListErrorsBuilder → Result (ErrorPage R) (ZizqError F)
  unfolding errors_url get_decoded
  list_errors c b = get_decoded urls api page c (errors_url c b)

  unfoldable pub error_stream : Client urls api → ListErrorsBuilder → ErrorStreamState R Url
  unfolding errors_url
  error_stream c b = record { buffer = []; cursor = first (errors_url c b) }

  -- The loop of one step.
  unfoldable pub next_error :
      Client urls api → ℕ → List R → PageCursor Url → Step R Url (ZizqError F)
  unfolding get_decoded get_page
  next_error c k (r ∷ rest) cursor = yielded r (record { buffer = rest; cursor = cursor })
  next_error c k [] done = ended
  next_error c zero [] (first u) = out_of_fuel
  next_error c zero [] (next path) = out_of_fuel
  next_error c (suc k) [] (first u) = elim (get_decoded urls api page c u) [
    | err e ↦ failed e
    | ok p ↦ next_error c k p.errors (link_of p.next_link)
  ]
  next_error c (suc k) [] (next path) = elim (get_page urls api page c path) [
    | err e ↦ failed e
    | ok p ↦ next_error c k p.errors (link_of p.next_link)
  ]
