-- ===== src/Client.antt =====
-- zizq/src/client.rs: `Client`, the requests that it sends and what it makes of the responses. The crates
-- url, reqwest, serde_json and rmp_serde are parameters; `F` is the type of url's and reqwest's errors.
pub mod Calls
pub mod Builder
pub mod Status
pub mod Remote
pub mod PagePath
pub mod Stream
use text.Mathlib.Text.{◌==◌ as str_eq}
use zizq_rust.Prelude.{
  ℕ, String, Bool, true, false, ◌||◌, Option, some, none, List, [], ◌∷◌, if◌then◌else◌, ◌==◌, leb,
  ◌&&◌, Result, ok, err, and_then, map_err, Bytes, is_empty,
}
use zizq_rust.Error.{ZizqError, response, transport, encode, decode, invalid_url}
use zizq_rust.Format.{Format, json, message_pack, content_type, from_content_type}

pub data Method : Type 0 where
  get post put patch delete : Method

-- What the client uses of the crate url. `push` is `path_segments_mut().pop_if_empty().extend(…)`, and
-- `append_pairs` is `query_pairs_mut()` with appended pairs.
pub record Urls (F : Type 0) : Type 1 where
  pub Url : Type 0
  pub parse : String → Result Url F
  pub join : Url → String → Result Url F
  pub push : List String → Url → Url
  pub append_pairs : List (String × String) → Url → Url
  pub host_str : Url → Option String
  pub port_or_known_default : Url → Option ℕ

-- What serde_json and rmp_serde write of a value, and read of bytes, with the texts of their errors.
pub record Encoder (B : Type 0) : Type 0 where
  pub to_json : B → Result Bytes String
  pub to_msgpack : B → Result Bytes String

pub record Decoder (A : Type 0) : Type 0 where
  pub from_json : Bytes → Result A String
  pub from_msgpack : Bytes → Result A String

-- A request as it is handed to reqwest, with its `Accept` header, and its body with the `Content-Type`.
pub record HttpRequest (U : Type 0) : Type 0 where
  pub method : Method
  pub url : U
  pub accept : List ℕ
  pub body : Option (List ℕ × Bytes)

-- `content_type` is the header's text, if there is one that `to_str` reads; reading the body may fail.
pub record Response (F : Type 0) : Type 0 where
  pub status : ℕ
  pub content_type : Option (List ℕ)
  pub bytes : Result Bytes F

-- `StatusCode::is_success`
abbrev pub is_success : ℕ → Bool
is_success status = leb 200 status && leb status 299

abbrev pub contains : ℕ → List ℕ → Bool
contains status [] = false
contains status (s ∷ rest) = (s == status) || contains status rest

module _ {F : Type 0} where
  unfoldable pub encode_body : {B : Type 0} → Encoder B → B → Format → Result Bytes (ZizqError F)
  encode_body e body json = map_err encode (e.to_json body)
  encode_body e body message_pack = map_err encode (e.to_msgpack body)

  unfoldable pub decode_body : {A : Type 0} → Decoder A → Bytes → Format → Result A (ZizqError F)
  decode_body d bytes json = map_err decode (d.from_json bytes)
  decode_body d bytes message_pack = map_err decode (d.from_msgpack bytes)

-- The body of an error of the API, and `String::from_utf8_lossy`.
pub record ApiErrors : Type 0 where
  pub api_error : Decoder String
  pub lossy : Bytes → String

abbrev pub or_json : ApiErrors → Bytes → Format → String
or_json api body json = api.lossy body
or_json api body message_pack = elim (decode_body {F = Unit {0}} api.api_error body json) [
  | ok message ↦ message
  | err _ ↦ api.lossy body
]

unfoldable pub extract_error_message : ApiErrors → Bytes → Format → String
unfolding decode_body
extract_error_message api body format =
    elim (decode_body {F = Unit {0}} api.api_error body format) [
      | ok message ↦ message
      | err _ ↦ or_json api body format
    ]

abbrev pub same_host : Option String → Option String → Bool
same_host none none = true
same_host (some a) (some b) = str_eq a b
same_host _ _ = false

abbrev pub same_port : Option ℕ → Option ℕ → Bool
same_port none none = true
same_port (some a) (some b) = a == b
same_port _ _ = false

module _ {F : Type 0} (urls : Urls F) (api : ApiErrors) where
  open urls use {Url, join, push, host_str, port_or_known_default}

  -- `Inner`. The HTTP/2 client answers a request with a response, or fails.
  pub record Client : Type 0 where
    pub base_url : Url
    pub format : Format
    pub http2 : HttpRequest Url → Result (Response F) F

  unfoldable pub url : Client → List String → Url
  url c segments = push segments c.base_url

  unfoldable pub response_format : Client → Response F → Format
  unfolding from_content_type
  response_format c r = elim r.content_type [
    | none ↦ c.format
    | some text ↦ elim (from_content_type text) [ none ↦ c.format | some format ↦ format ]
  ]

  -- The request that `send` builds.
  unfoldable pub http_request : Client → Method → Url → Option Bytes → HttpRequest Url
  unfolding content_type
  http_request c method url body = record {
    method = method;
    url = url;
    accept = content_type c.format;
    body = elim body [ none ↦ none | some bytes ↦ some (content_type c.format, bytes) ];
  }

  unfoldable pub send : Client → Method → Url → Option Bytes → Result (Response F) (ZizqError F)
  unfolding http_request
  send c method url body = map_err transport (c.http2 (http_request c method url body))

  -- The error for a response of another status than was expected.
  unfoldable pub refused : {A : Type 0} → Client → Response F → Result A (ZizqError F)
  unfolding extract_error_message response_format
  refused c r =
      and_then (map_err transport r.bytes)
        (λ bytes. err (response r.status (extract_error_message api bytes (response_format c r))))

  unfoldable pub expect_status : Client → List ℕ → Response F → Result (Unit {0}) (ZizqError F)
  unfolding refused
  expect_status c oks r = if contains r.status oks then ok tt else refused c r

  -- What `send_decoded`, `patch_decoded`, `send_body_decoded`, `enqueue_bulk_raw` and `parse_job_response`
  -- do with a response.
  unfoldable pub parse_response :
      {A : Type 0} → Decoder A → Client → Response F → Result A (ZizqError F)
  unfolding decode_body extract_error_message response_format
  parse_response d c r = and_then (map_err transport r.bytes) (λ bytes.
      if is_success r.status
      then decode_body d bytes (response_format c r)
      else err (response r.status (extract_error_message api bytes (response_format c r))))

  unfoldable pub send_decoded :
      {A : Type 0} → Decoder A → Client → Method → Url → Result A (ZizqError F)
  unfolding send parse_response
  send_decoded d c method url = and_then (send c method url none) (parse_response d c)

  unfoldable pub get_decoded : {A : Type 0} → Decoder A → Client → Url → Result A (ZizqError F)
  unfolding send_decoded
  get_decoded d c url = send_decoded d c get url

  unfoldable pub delete_decoded : {A : Type 0} → Decoder A → Client → Url → Result A (ZizqError F)
  unfolding send_decoded
  delete_decoded d c url = send_decoded d c delete url

  unfoldable pub send_body_decoded :
      {A B : Type 0} → Decoder A → Encoder B → Client → Method → Url → B → Result A (ZizqError F)
  unfolding encode_body send parse_response
  send_body_decoded d e c method url body =
      and_then (encode_body e body c.format)
        (λ bytes. and_then (send c method url (some bytes)) (parse_response d c))

  unfoldable pub send_expect : Client → Method → Url → List ℕ → Result (Unit {0}) (ZizqError F)
  unfolding send expect_status
  send_expect c method url oks = and_then (send c method url none) (expect_status c oks)

  unfoldable pub send_body_expect :
      {B : Type 0}
      → Encoder B
      → Client
      → Method
      → Url
      → B
      → List ℕ
      → Result (Unit {0}) (ZizqError F)
  unfolding encode_body send expect_status
  send_body_expect e c method url body oks =
      and_then (encode_body e body c.format)
        (λ bytes. and_then (send c method url (some bytes)) (expect_status c oks))

  unfoldable pub resolve_page_path : Client → String → Result Url (ZizqError F)
  resolve_page_path c path = and_then (map_err invalid_url (join c.base_url path)) (λ resolved.
      if same_host (host_str resolved) (host_str c.base_url)
        && same_port (port_or_known_default resolved) (port_or_known_default c.base_url)
      then ok resolved
      else err (decode "page path resolved to a different host than the configured base URL"))

  unfoldable pub get_page : {A : Type 0} → Decoder A → Client → String → Result A (ZizqError F)
  unfolding resolve_page_path get_decoded
  get_page d c path = and_then (resolve_page_path c path) (get_decoded d c)
