-- ===== src/Client/Remote.antt =====
-- zizq/src/client.rs: what awaiting a call promises, the outcome that the server gave, and a server of the
-- wire protocol that the client's methods are run against.
use zizq_rust.Prelude.{
  ℕ, ◌≡◌, refl, ap, String, true, false, Option, some, none, List, ◌∷◌, ◌++◌, Result, ok, err,
  and_then, map_err, Bytes,
}
use zizq_rust.Error.{ZizqError, transport, response}
use zizq_rust.Format.{
  Format, json, message_pack, content_type, from_content_type, from_content_type-parameters,
  from_content_type-content_type,
}
use zizq_rust.Client.{
  Method, Urls, ApiErrors, Client, Encoder, Decoder, HttpRequest, Response, encode_body,
  decode_body, is_success, extract_error_message, http_request, send, response_format,
  parse_response, send_decoded, send_body_decoded,
}

-- The bytes of a value in either format, which the encoder writes and the decoder reads back.
pub record Wire {A : Type 0} (e : Encoder A) (d : Decoder A) : Type 0 where
  pub in_json : A → Bytes
  pub in_msgpack : A → Bytes
  pub to_json-in_json : (a : A) → e.to_json a ≡ ok (in_json a)
  pub to_msgpack-in_msgpack : (a : A) → e.to_msgpack a ≡ ok (in_msgpack a)
  pub from_json-in_json : (a : A) → d.from_json (in_json a) ≡ ok a
  pub from_msgpack-in_msgpack : (a : A) → d.from_msgpack (in_msgpack a) ≡ ok a

abbrev pub written : {A : Type 0} {e : Encoder A} {d : Decoder A} → Wire e d → Format → A → Bytes
written w json a = w.in_json a
written w message_pack a = w.in_msgpack a

-- The messages of refusal that a server knows, the one for requests that it cannot read among them, with their
-- bytes in either format.
pub record Refusals (api : ApiErrors) (M : Type 0) : Type 0 where
  pub text : M → String
  pub unreadable : M
  pub error_json : M → Bytes
  pub error_msgpack : M → Bytes
  pub from_json-error_json : (m : M) → api.api_error.from_json (error_json m) ≡ ok (text m)
  pub from_msgpack-error_msgpack :
      (m : M) → api.api_error.from_msgpack (error_msgpack m) ≡ ok (text m)

abbrev pub error_bytes : {api : ApiErrors} {M : Type 0} → Refusals api M → Format → M → Bytes
error_bytes r json m = r.error_json m
error_bytes r message_pack m = r.error_msgpack m

-- What a server means to answer: a value, a message of refusal, or nothing, as the connection is lost.
pub data Reply (F A M : Type 0) : Type 0 where
  accepted : ℕ → A → Reply F A M
  refusal : ℕ → M → Reply F A M
  lost : F → Reply F A M

-- The status says of a reply whether it is a value.
abbrev pub IsReply : {F A M : Type 0} → Reply F A M → Type 0
IsReply (accepted status a) = is_success status ≡ true
IsReply (refusal status message) = is_success status ≡ false
IsReply (lost failure) = Unit {0}

-- How a server labels a body: not at all, if it is in the format that the request accepts, or by a format and
-- parameters behind it.
pub data Label : Type 0 where
  unlabelled : Label
  labelled : Format → Option (List ℕ) → Label

abbrev pub body_format : Format → Label → Format
body_format asked unlabelled = asked
body_format asked (labelled f parameters) = f

abbrev pub header_of : Label → Option (List ℕ)
unfolding content_type
header_of unlabelled = none
header_of (labelled f none) = some (content_type f)
header_of (labelled f (some parameters)) = some (content_type f ++ b';' ∷ parameters)

-- The outcome of a call that a reply is answered to.
abbrev pub outcome : {F A M : Type 0} → (M → String) → Reply F A M → Result A (ZizqError F)
outcome text (accepted status a) = ok a
outcome text (refusal status message) = err (response status (text message))
outcome text (lost failure) = err (transport failure)

pub encode_body-written :
    {F B : Type 0} {e : Encoder B} {d : Decoder B} (w : Wire e d) (f : Format) (b : B)
    → encode_body {F = F} e b f ≡ ok (written w f b)
unfolding encode_body
encode_body-written w json b = ap (map_err _) (w.to_json-in_json b)
encode_body-written w message_pack b = ap (map_err _) (w.to_msgpack-in_msgpack b)

pub decode_body-written :
    {F B : Type 0} {e : Encoder B} {d : Decoder B} (w : Wire e d) (f : Format) (b : B)
    → decode_body {F = F} d (written w f b) f ≡ ok b
unfolding decode_body
decode_body-written w json b = ap (map_err _) (w.from_json-in_json b)
decode_body-written w message_pack b = ap (map_err _) (w.from_msgpack-in_msgpack b)

decode_body-error_bytes :
    {F M : Type 0} {api : ApiErrors} (r : Refusals api M) (f : Format) (m : M)
    → decode_body {F = F} api.api_error (error_bytes r f m) f ≡ ok (r.text m)
unfolding decode_body
decode_body-error_bytes r json m = ap (map_err _) (r.from_json-error_json m)
decode_body-error_bytes r message_pack m = ap (map_err _) (r.from_msgpack-error_msgpack m)

extract_error_message-error_bytes :
    {M : Type 0} (api : ApiErrors) (r : Refusals api M) (f : Format) (m : M)
    → extract_error_message api (error_bytes r f m) f ≡ r.text m
unfolding extract_error_message
extract_error_message-error_bytes api r f m =
    rw (decode_body-error_bytes {F = Unit {0}} r f m, extract_error_message) refl

module _ {F A B M : Type 0} {ae : Encoder A} {ad : Decoder A} {be : Encoder B} {bd : Decoder B}
    (api : ApiErrors) (values : Wire ae ad) (bodies : Wire be bd) (errors : Refusals api M) where
  -- The body of a request, read by its `Content-Type`.
  abbrev pub received : Option (List ℕ × Bytes) → Result (Option B) (ZizqError F)
  unfolding from_content_type decode_body
  received none = ok none
  received (some (text, bytes)) = elim (from_content_type text) [
    | none ↦ err (response 415 "unsupported media type")
    | some f ↦ and_then (decode_body bd bytes f) (λ b. ok (some b))
  ]

  abbrev pub respond : Label → Format → Reply F A M → Result (Response F) F
  unfolding content_type
  respond label f (accepted status a) =
      ok (record {
        status = status;
        content_type = header_of label;
        bytes = ok (written values f a);
      })
  respond label f (refusal status message) = ok (record {
    status = status;
    content_type = header_of label;
    bytes = ok (error_bytes errors f message);
  })
  respond label f (lost failure) = err failure

  -- A server that answers requests as `handler` says, and labels its responses in any way.
  unfoldable pub serve :
      {U : Type 0}
      → (Method → U → Option B → Reply F A M)
      → (U → Label)
      → HttpRequest U
      → Result (Response F) F
  unfolding from_content_type
  serve handler label r = elim (received r.body) [
    | err _ ↦ respond unlabelled message_pack (refusal 400 errors.unreadable)
    | ok body ↦ elim (from_content_type r.accept) [
      | none ↦ respond unlabelled message_pack (refusal 406 errors.unreadable)
      | some asked ↦
          respond (label r.url) (body_format asked (label r.url)) (handler r.method r.url body)
    ]
  ]

  module _ (urls : Urls F) (c : Client urls api) where
    open urls use {Url}

    response_format-header_of :
        (label : Label) (status : ℕ) (bytes : Result Bytes F)
        → response_format urls api c
            (record { status = status; content_type = header_of label; bytes = bytes })
          ≡ body_format c.format label
    unfolding response_format header_of
    response_format-header_of unlabelled status bytes = refl
    response_format-header_of (labelled f none) status bytes =
        rw ((from_content_type-content_type f).0, response_format) refl
    response_format-header_of (labelled f (some parameters)) status bytes =
        rw ((from_content_type-parameters f parameters).0, response_format) refl

    -- What a call that hands a response to `parse_response` makes of a reply.
    understood :
        (label : Label) (reply : Reply F A M)
        → IsReply reply
        → and_then
            (map_err transport (respond label (body_format c.format label) reply))
            (parse_response urls api ad c)
          ≡ outcome errors.text reply
    unfolding parse_response respond
    understood label (accepted status a) good =
        rw
          (
            good,
            response_format-header_of label status
                (ok (written values (body_format c.format label) a)),
            decode_body-written {F = F} values (body_format c.format label) a,
          )
          refl
    understood label (refusal status message) good =
        rw
          (
            good,
            response_format-header_of label status
                (ok (error_bytes errors (body_format c.format label) message)),
            extract_error_message-error_bytes api errors (body_format c.format label) message,
          )
          refl
    understood label (lost failure) good = refl

  module _ (urls : Urls F) where
    open urls use {Url}

    -- A client of the server.
    abbrev pub remote :
        (Method → Url → Option B → Reply F A M) → (Url → Label) → Url → Format → Client urls api
    remote handler label base format = record {
      base_url = base;
      format = format;
      http2 = serve handler label;
    }

    -- A call with or without a body.
    unfoldable pub call : Client urls api → Method → Url → Option B → Result A (ZizqError F)
    unfolding send_decoded send_body_decoded
    call c method url none = send_decoded urls api ad c method url
    call c method url (some body) = send_body_decoded urls api ad be c method url body

    served :
        (handler : Method → Url → Option B → Reply F A M) (label : Url → Label) (base : Url)
        (format : Format) (method : Method) (url : Url) (body : Option B)
        → serve handler label (
            http_request urls api
              (remote handler label base format)
              method
              url
              (elim body [ none ↦ none | some b ↦ some (written bodies format b) ]))
          ≡ respond (label url) (body_format format (label url)) (handler method url body)
    unfolding serve http_request received
    served handler label base format method url none =
        rw ((from_content_type-content_type format).0) refl
    served handler label base format method url (some b) =
        rw
          (
            (from_content_type-content_type format).0,
            decode_body-written {F = F} bodies format b,
            (from_content_type-content_type format).0,
          )
          refl

    -- Over the wire, in either format and under any labels of the responses, a call that decodes its answer returns
    -- what the server's handler answers to its method, URL and body: a value, a message of refusal or a lost
    -- connection. The bytes of values, bodies and messages are read back as they were written, and the status of the
    -- reply says whether it is a value.
    pub call-serve :
        (handler : Method → Url → Option B → Reply F A M) (label : Url → Label) (base : Url)
        (format : Format) (method : Method) (url : Url) (body : Option B)
        → IsReply (handler method url body)
        → call (remote handler label base format) method url body
          ≡ outcome errors.text (handler method url body)
    unfolding send_decoded send_body_decoded send call
    call-serve handler label base format method url none good =
        rw (served handler label base format method url none) (
          understood urls (remote handler label base format) (label url) (handler method url none)
            good)
    call-serve handler label base format method url (some b) good =
        rw
          (
            encode_body-written {F = F} bodies format b,
            served handler label base format method url (some b),
          )
          (understood urls (remote handler label base format) (label url)
            (handler method url (some b)) good)
