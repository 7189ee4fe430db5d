-- ===== src/Client/Status.antt =====
-- zizq/src/client.rs: what a method's success says of the exchange that it made.
pub mod Routes
pub mod Exchange
use zizq_rust.Prelude.{
  ℕ, Bool, true, false, Option, some, none, List, [], ◌∷◌, ◌≡◌, refl, ap, sym, ◌∙◌, if◌then◌else◌,
  Result, ok, err, and_then, map_err, Bytes, Bool-cases, inl, inr,
}
use zizq_rust.Error.{ZizqError, transport}
use zizq_rust.Client.{
  Urls, ApiErrors, Client, Method, get, delete, HttpRequest, Response, Encoder, Decoder,
  http_request, send, is_success, contains, refused, expect_status, parse_response, send_decoded,
  get_decoded, delete_decoded, send_body_decoded, send_expect, send_body_expect, encode_body,
}

abbrev pub is_ok : {A E : Type 0} → Result A E → Bool
is_ok (ok a) = true
is_ok (err e) = false

-- What a chain of two steps succeeds by.
pub and_then-is_ok :
    {A B E : Type 0} (r : Result A E) (f : A → Result B E)
    → is_ok (and_then r f) ≡ true
    → (a : A) × (r ≡ ok a) × (is_ok (f a) ≡ true)
and_then-is_ok (ok a) f h = (a, refl, h)
and_then-is_ok (err e) f h = cc

guard-is_ok :
    {A B E : Type 0} (b : Bool) (r : Result B E) (f : B → Result A E) (g : B → E)
    → is_ok (and_then r (λ v. if b then f v else err (g v))) ≡ true
    → b ≡ true
guard-is_ok true r f g h = refl
guard-is_ok false (ok v) f g h = cc
guard-is_ok false (err e) f g h = cc

no-is_ok :
    {A B E : Type 0} (r : Result B E) (f : B → Result A E)
    → ((v : B) → is_ok (f v) ≡ true → ⊥)
    → is_ok (and_then r f) ≡ true
    → ⊥
no-is_ok (ok v) f fails h = fails v h
no-is_ok (err e) f fails h = cc

-- A chain that ends by taking a part of a value succeeds only where the value is there.
pub fst_ok :
    {A B E : Type 0} (r : Result A E) (f : A → B)
    → is_ok (and_then r (λ a. ok (f a))) ≡ true
    → is_ok r ≡ true
fst_ok (ok a) f h = refl
fst_ok (err e) f h = cc

module _ {F : Type 0} (urls : Urls F) (api : ApiErrors) where
  open urls use {Url}

  -- The client sent a request by that method to that URL, and the status of the response is one that is accepted.
  pub record Sent (c : Client urls api) (method : Method) (url : Url) (accepts : ℕ → Bool)
      : Type 0 where
    pub body : Option Bytes
    pub response : Response F
    pub answered : c.http2 (http_request urls api c method url body) ≡ ok response
    pub accepted : accepts response.status ≡ true

  map_err-ok : {A E D : Type 0} (f : E → D) (r : Result A E) (a : A) → map_err f r ≡ ok a → r ≡ ok a
  map_err-ok f (ok b) a h = ap (λ x. elim x [ ok v ↦ ok v | err _ ↦ ok b ]) h
  map_err-ok f (err e) a h = cc

  parse_response-is_success :
      {A : Type 0} (d : Decoder A) (c : Client urls api) (r : Response F)
      → is_ok (parse_response urls api d c r) ≡ true
      → is_success r.status ≡ true
  unfolding parse_response
  parse_response-is_success d c r h =
      guard-is_ok (is_success r.status) (map_err transport r.bytes) _ _ h

  expect_status-contains :
      (c : Client urls api) (oks : List ℕ) (r : Response F)
      → is_ok (expect_status urls api c oks r) ≡ true
      → contains r.status oks ≡ true
  unfolding expect_status refused
  expect_status-contains c oks r h = elim (Bool-cases (contains r.status oks)) [
    | inl e ↦ e
    | inr e ↦ absurd (
        no-is_ok (map_err transport r.bytes) _ (λ v k. cc)
          (ap (λ b. is_ok (if b then ok tt else refused urls api c r)) (sym e) ∙ h))
  ]

  send-Sent :
      {A : Type 0} (c : Client urls api) (method : Method) (url : Url) (body : Option Bytes)
      (accepts : ℕ → Bool) (f : Response F → Result A (ZizqError F))
      → ((r : Response F) → is_ok (f r) ≡ true → accepts r.status ≡ true)
      → is_ok (and_then (send urls api c method url body) f) ≡ true
      → Sent c method url accepts
  unfolding send
  send-Sent c method url body accepts f checks h =
      let (r, e, k) = and_then-is_ok (send urls api c method url body) f h in
      record {
        body = body;
        response = r;
        answered = map_err-ok transport (c.http2 (http_request urls api c method url body)) r e;
        accepted = checks r k;
      }

  pub send_decoded-Sent :
      {A : Type 0} (d : Decoder A) (c : Client urls api) (method : Method) (url : Url)
      → is_ok (send_decoded urls api d c method url) ≡ true
      → Sent c method url is_success
  unfolding send_decoded
  send_decoded-Sent d c method url h =
      send-Sent c method url none is_success (parse_response urls api d c)
        (parse_response-is_success d c) h

  pub get_decoded-Sent :
      {A : Type 0} (d : Decoder A) (c : Client urls api) (url : Url)
      → is_ok (get_decoded urls api d c url) ≡ true
      → Sent c get url is_success
  unfolding get_decoded
  get_decoded-Sent d c url h = send_decoded-Sent d c get url h

  pub delete_decoded-Sent :
      {A : Type 0} (d : Decoder A) (c : Client urls api) (url : Url)
      → is_ok (delete_decoded urls api d c url) ≡ true
      → Sent c delete url is_success
  unfolding delete_decoded
  delete_decoded-Sent d c url h = send_decoded-Sent d c delete url h

  pub send_body_decoded-Sent :
      {A B : Type 0} (d : Decoder A) (e : Encoder B) (c : Client urls api) (method : Method)
      (url : Url) (body : B)
      → is_ok (send_body_decoded urls api d e c method url body) ≡ true
      → Sent c method url is_success
  unfolding send_body_decoded
  send_body_decoded-Sent d e c method url body h =
      let (bytes, _, k) =
        and_then-is_ok (encode_body e body c.format)
          (λ bytes.
            and_then (send urls api c method url (some bytes)) (parse_response urls api d c))
          h in
      send-Sent c method url (some bytes) is_success (parse_response urls api d c)
        (parse_response-is_success d c) k

  pub send_expect-Sent :
      (c : Client urls api) (method : Method) (url : Url) (oks : List ℕ)
      → is_ok (send_expect urls api c method url oks) ≡ true
      → Sent c method url (λ status. contains status oks)
  unfolding send_expect
  send_expect-Sent c method url oks h =
      send-Sent c method url none (λ status. contains status oks) (expect_status urls api c oks)
        (expect_status-contains c oks) h

  pub send_body_expect-Sent :
      {B : Type 0} (e : Encoder B) (c : Client urls api) (method : Method) (url : Url) (body : B)
      (oks : List ℕ)
      → is_ok (send_body_expect urls api e c method url body oks) ≡ true
      → Sent c method url (λ status. contains status oks)
  unfolding send_body_expect
  send_body_expect-Sent e c method url body oks h =
      let (bytes, _, k) =
        and_then-is_ok (encode_body e body c.format)
          (λ bytes.
            and_then (send urls api c method url (some bytes)) (expect_status urls api c oks))
          h in
      send-Sent c method url (some bytes) (λ status. contains status oks)
        (expect_status urls api c oks) (expect_status-contains c oks) k
