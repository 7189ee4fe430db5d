-- ===== src/Client/Stream.antt =====
-- zizq/src/client.rs and zizq/src/take.rs: `TakeBuilder`, and the request that opens the stream of jobs. `show` is
-- `to_string` of a number.
use Prim.Native.String.{◌++◌ as str_append}
use zizq_rust.Prelude.{
  ℕ, String, not, ◌||◌, Option, some, none, List, [], ◌∷◌, ◌++◌, is_empty, if◌then◌else◌, Result,
  ok, err, and_then, map_err,
}
use zizq_rust.Error.{ZizqError, response, transport}
use zizq_rust.Format.{stream_content_type}
use zizq_rust.Filter.{is_some}
use zizq_rust.Take.{BodyEvent, TakeStream, open_stream}
use zizq_rust.Client.{
  Urls, ApiErrors, Client, HttpRequest, Response, get, url, response_format, extract_error_message,
  is_success,
}

pub record TakeBuilder : Type 0 where
  pub queues : List String
  pub prefetch : Option ℕ

unfoldable pub new_take : TakeBuilder
new_take = record { queues = []; prefetch = none }

unfoldable pub set_take_queues : List String → TakeBuilder → TakeBuilder
set_take_queues queues b = record b { queues = queues }

unfoldable pub set_take_prefetch : ℕ → TakeBuilder → TakeBuilder
set_take_prefetch n b = record b { prefetch = some n }

-- A response whose body is read as a whole or as a stream.
pub record StreamResponse (F : Type 0) : Type 0 where
  pub response : Response F
  pub bytes_stream : List (BodyEvent F)

-- `join(",")`
abbrev pub comma_joined : List String → String
comma_joined [] = ""
comma_joined (s ∷ []) = s
comma_joined (s ∷ t ∷ rest) = str_append s (str_append "," (comma_joined (t ∷ rest)))

abbrev pub queue_pairs : List String → List (String × String)
queue_pairs [] = []
queue_pairs (s ∷ rest) = ("queue", comma_joined (s ∷ rest)) ∷ []

abbrev pub prefetch_pairs : (ℕ → String) → Option ℕ → List (String × String)
prefetch_pairs show none = []
prefetch_pairs show (some n) = ("prefetch", show n) ∷ []

module _ {F : Type 0} (urls : Urls F) (api : ApiErrors) (show : ℕ → String) where
  open urls use {Url, append_pairs}

  unfoldable pub take_url : Client urls api → TakeBuilder → Url
  unfolding url
  take_url c b =
      let base = url urls api c ("jobs" ∷ "take" ∷ []) in
      if not (is_empty b.queues) || is_some b.prefetch
      then append_pairs (queue_pairs b.queues ++ prefetch_pairs show b.prefetch) base
      else base

  -- What the client makes of the response to the request for a stream.
  unfoldable pub opened : Client urls api → StreamResponse F → Result (TakeStream F) (ZizqError F)
  unfolding response_format extract_error_message open_stream
  opened c r =
      let format = response_format urls api c r.response in
      if is_success r.response.status
      then ok (open_stream r.bytes_stream format)
      else and_then (map_err transport r.response.bytes)
          (λ bytes. err (response r.response.status (extract_error_message api bytes format)))

  -- `http1` is the client for HTTP/1.1.
  unfoldable pub take_raw :
      Client urls api
      → (HttpRequest Url → Result (StreamResponse F) F)
      → TakeBuilder
      → Result (TakeStream F) (ZizqError F)
  unfolding take_url opened stream_content_type
  take_raw c http1 b =
      and_then
        (map_err transport (
          http1 (record {
            method = get;
            url = take_url c b;
            accept = stream_content_type c.format;
            body = none;
          })))
        (opened c)
