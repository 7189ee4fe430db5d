-- ===== src/Client/Builder.antt =====
-- zizq/src/client.rs: `ClientBuilder`, with the feature rustls-tls. A duration is a number of seconds. What reqwest
-- makes of certificates and of the options of a client is a parameter.
use Prim.Native.String.{◌++◌ as str_append}
use zizq_rust.Prelude.{
  ℕ, String, Bool, false, Option, some, none, [], ◌∷◌, ◌++◌, ◌==◌, if◌then◌else◌, Result, ok, err,
  and_then, map_err, Bytes, unwrap_or,
}
use zizq_rust.Error.{ZizqError, missing_url, invalid_url, transport, tls}
use zizq_rust.Format.{Format, default_format}
use zizq_rust.Client.{Urls, ApiErrors, Client, HttpRequest, Response}

pub record ClientBuilder : Type 0 where
  pub url : Option String
  pub format : Option Format
  pub connect_timeout : Option ℕ
  pub read_timeout : Option ℕ
  pub stream_idle_timeout : Option ℕ
  pub ca_cert : Option Bytes
  pub identity : Option (Bytes × Bytes)

unfoldable pub builder : ClientBuilder
builder = record {
  url = none;
  format = none;
  connect_timeout = none;
  read_timeout = none;
  stream_idle_timeout = none;
  ca_cert = none;
  identity = none;
}

unfoldable pub set_url : String → ClientBuilder → ClientBuilder
set_url url b = record b { url = some url }

unfoldable pub set_format : Format → ClientBuilder → ClientBuilder
set_format format b = record b { format = some format }

unfoldable pub set_connect_timeout : ℕ → ClientBuilder → ClientBuilder
set_connect_timeout d b = record b { connect_timeout = some d }

unfoldable pub set_read_timeout : ℕ → ClientBuilder → ClientBuilder
set_read_timeout d b = record b { read_timeout = some d }

unfoldable pub set_stream_idle_timeout : ℕ → ClientBuilder → ClientBuilder
set_stream_idle_timeout d b = record b { stream_idle_timeout = some d }

unfoldable pub set_ca_certificate : Bytes → ClientBuilder → ClientBuilder
set_ca_certificate pem b = record b { ca_cert = some pem }

unfoldable pub set_client_identity : Bytes → Bytes → ClientBuilder → ClientBuilder
set_client_identity cert_pem key_pem b = record b { identity = some (cert_pem, key_pem) }

pub data HttpVersion : Type 0 where
  http2_prior_knowledge http1_only : HttpVersion

-- The options that a client of reqwest is built with.
pub record HttpOptions (C I : Type 0) : Type 0 where
  pub version : HttpVersion
  pub pool_idle_timeout : ℕ
  pub tcp_keepalive : ℕ
  pub connect_timeout : ℕ
  pub read_timeout : ℕ
  pub root_certificate : Option C
  pub client_identity : Option I

-- What reqwest makes: certificates and identities of PEM documents, with the texts of its errors, and clients.
pub record Http (F U : Type 0) : Type 1 where
  pub Certificate : Type 0
  pub Identity : Type 0
  pub certificate_from_pem : Bytes → Result Certificate String
  pub identity_from_pem : Bytes → Result Identity String
  pub build : HttpOptions Certificate Identity → Result (HttpRequest U → Result (Response F) F) F

abbrev pub ends_with_newline : Bytes → Bool
ends_with_newline [] = false
ends_with_newline (b ∷ []) = b == 10
ends_with_newline (b ∷ c ∷ rest) = ends_with_newline (c ∷ rest)

abbrev pub combined : Bytes → Bytes → Bytes
combined cert_pem key_pem =
    (if ends_with_newline cert_pem then cert_pem else cert_pem ++ 10 ∷ []) ++ key_pem

module _ {F : Type 0} (urls : Urls F) (api : ApiErrors) (http : Http F urls.Url) where
  open http use {Certificate, Identity}

  -- The client for everything but the stream of jobs, and the HTTP/1.1 client of that stream.
  pub record Inner : Type 0 where
    pub client : Client urls api
    pub http1 : HttpRequest urls.Url → Result (Response F) F

  unfoldable pub load_identity : Bytes → Bytes → Result Identity (ZizqError F)
  load_identity cert_pem key_pem =
      map_err (λ e. tls (str_append "invalid client identity: " e))
        (http.identity_from_pem (combined cert_pem key_pem))

  abbrev pub add_ca :
      ClientBuilder
      → HttpOptions Certificate Identity
      → Result (HttpOptions Certificate Identity) (ZizqError F)
  add_ca b options = elim b.ca_cert [
    | none ↦ ok options
    | some ca ↦
        and_then
          (map_err (λ e. tls (str_append "invalid CA certificate: " e))
            (http.certificate_from_pem ca))
          (λ cert. ok (record options { root_certificate = some cert }))
  ]

  unfoldable pub apply_tls :
      ClientBuilder
      → HttpOptions Certificate Identity
      → Result (HttpOptions Certificate Identity) (ZizqError F)
  unfolding load_identity
  apply_tls b options = and_then (add_ca b options) (λ with_ca. elim b.identity [
    | none ↦ ok with_ca
    | some (cert_pem, key_pem) ↦
        and_then (load_identity cert_pem key_pem)
          (λ i. ok (record with_ca { client_identity = some i }))
  ])

  abbrev pub options_of : HttpVersion → ℕ → ℕ → HttpOptions Certificate Identity
  options_of version connect_timeout read_timeout = record {
    version = version;
    pool_idle_timeout = 90;
    tcp_keepalive = 60;
    connect_timeout = connect_timeout;
    read_timeout = read_timeout;
    root_certificate = none;
    client_identity = none;
  }

  abbrev pub connected :
      ClientBuilder
      → HttpOptions Certificate Identity
      → Result (HttpRequest urls.Url → Result (Response F) F) (ZizqError F)
  unfolding apply_tls
  connected b options = and_then (apply_tls b options) (λ o. map_err transport (http.build o))

  unfoldable pub build : ClientBuilder → Result Inner (ZizqError F)
  unfolding apply_tls
  build b = elim b.url [
    | none ↦ err missing_url
    | some raw_url ↦ and_then (map_err invalid_url (urls.parse raw_url)) (λ base_url.
        let connect_timeout = unwrap_or b.connect_timeout 10 in
        and_then
          (connected b
            (options_of http2_prior_knowledge connect_timeout (unwrap_or b.read_timeout 30)))
          (λ http2.
            and_then
              (connected b
                (options_of http1_only connect_timeout (unwrap_or b.stream_idle_timeout 30)))
              (λ http1. ok (record {
                client = record {
                  base_url = base_url;
                  format = unwrap_or b.format default_format;
                  http2 = http2;
                };
                http1 = http1;
              }))))
  ]
