-- ===== src/Client/PagePath.antt =====
-- zizq/src/client.rs: a page path of a response cannot send the client to another server.
use zizq_rust.Prelude.{
  ℕ, ◌≡◌, refl, ap, String, Bool, true, false, ◌&&◌, Option, some, none, Result, ok, err, and_then,
  map_err, eq_iff, ==_iff, if◌then◌else◌, Bool-cases, inl, inr,
}
use zizq_rust.Error.{ZizqError, invalid_url, transport}
use zizq_rust.Format.{Format}
use zizq_rust.Client.{
  Client, Urls, ApiErrors, HttpRequest, Response, Decoder, same_host, same_port, resolve_page_path,
  get_page, get_decoded, send_decoded, send, http_request, get, parse_response, response_format,
}

same_host-eq : (a b : Option String) → same_host a b ≡ true → a ≡ b
same_host-eq none none h = refl
same_host-eq (some a) (some b) h = ap some ((eq_iff a b).0 h)
same_host-eq none (some b) h = cc
same_host-eq (some a) none h = cc

same_port-eq : (a b : Option ℕ) → same_port a b ≡ true → a ≡ b
same_port-eq none none h = refl
same_port-eq (some a) (some b) h = ap some ((==_iff a b).0 h)
same_port-eq none (some b) h = cc
same_port-eq (some a) none h = cc

both : (a b : Bool) → a && b ≡ true → (a ≡ true) × (b ≡ true)
both true true h = (refl, refl)
both true false h = cc
both false b h = cc

module _ {F : Type 0} (urls : Urls F) (api : ApiErrors) where
  open urls use {Url, join, host_str, port_or_known_default}

  -- Two URLs have the same host, and the same port, be it written or the one of the scheme.
  abbrev pub SameOrigin : Url → Url → Type 0
  SameOrigin u v = (host_str u ≡ host_str v) × (port_or_known_default u ≡ port_or_known_default v)

  -- Behind the test, the URL has passed it.
  tested :
      {A : Type 0} (base : Url) (r : Result Url (ZizqError F)) (failure : ZizqError F)
      (f g : Url → Result A (ZizqError F))
      → ((u : Url) → SameOrigin u base → f u ≡ g u)
      → and_then
          (and_then r (λ u.
            if same_host (host_str u) (host_str base)
              && same_port (port_or_known_default u) (port_or_known_default base)
            then ok u
            else err failure))
          f
        ≡ and_then
            (and_then r (λ u.
              if same_host (host_str u) (host_str base)
                && same_port (port_or_known_default u) (port_or_known_default base)
              then ok u
              else err failure))
            g
  tested base (err e) failure f g agree = refl
  tested base (ok u) failure f g agree =
      elim (Bool-cases (
        same_host (host_str u) (host_str base)
        && same_port (port_or_known_default u) (port_or_known_default base))) [
          | inr e ↦ rw e refl
          | inl e ↦
              rw e (let (h, p) = both _ _ e in agree u (same_host-eq _ _ h, same_port-eq _ _ p))
        ]

  -- Whatever path it is given, a client gets a page from the host and port of its base URL only: the answers of all
  -- other servers make no difference to what it returns.
  pub get_page-SameOrigin :
      {A : Type 0} (d : Decoder A) (base : Url) (format : Format) (path : String)
      (answers others : HttpRequest Url → Result (Response F) F)
      → ((r : HttpRequest Url) → SameOrigin r.url base → answers r ≡ others r)
      → get_page urls api d (record { base_url = base; format = format; http2 = answers }) path
        ≡ get_page urls api d (record { base_url = base; format = format; http2 = others }) path
  unfolding get_page resolve_page_path parse_response response_format get_decoded send_decoded send
      http_request
  get_page-SameOrigin d base format path answers others agree =
      tested base (map_err invalid_url (join base path)) _ _ _ (λ u same.
        let c : Client urls api = record { base_url = base; format = format; http2 = answers } in
        ap (λ r. and_then (map_err transport r) (parse_response urls api d c))
          (agree (http_request urls api c get u none) same))
