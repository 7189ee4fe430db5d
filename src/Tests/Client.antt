-- ===== src/Tests/Client.antt =====
-- A client of concrete servers, with lists of segments for URLs.
use zizq_rust.Prelude.{
  unwrap_or, ap, if◌then◌else◌, ℕ, ◌≡◌, refl, String, Option, some, none, List, [], ◌∷◌, ◌++◌,
  Result, ok, err, Bytes,
}
use zizq_rust.Format.{json, message_pack}
use zizq_rust.Client.{
  Method, post, delete, Urls, ApiErrors, Client, Encoder, Decoder, HttpRequest, Response, contains,
  url,
}
use zizq_rust.Client.Calls.{Codecs}
use zizq_rust.Client.Status.{Sent}
use zizq_rust.Client.Status.Routes.{to_delete_job}
use zizq_rust.Client.Status.Exchange.{succeeds, succeeds-Sent}
use zizq_rust.Client.Remote.{
  Wire, Refusals, Reply, accepted, refusal, labelled, remote, call, call-serve,
}
use zizq_rust.ErrorList.{ListErrorsBuilder, ErrorPage, error_stream}
use zizq_rust.ErrorList.Origin.{read, read-error_stream}
use text.Mathlib.Text.{◌==◌ as str_eq}

-- A host and the segments of a path.
abbrev list_urls : Urls String
list_urls = record {
  Url = String × List String;
  parse = λ s. ok (s, []);
  join = λ base s. ok (s, []);
  push = λ segments u. (u.0, u.1 ++ segments);
  append_pairs = λ pairs u. u;
  host_str = λ u. some u.0;
  port_or_known_default = λ u. some 80;
}

abbrev reads : {A : Type 0} → A → Decoder A
reads a = record { from_json = λ b. ok a; from_msgpack = λ b. ok a }

abbrev writes : {A : Type 0} → Encoder A
writes = record { to_json = λ a. ok []; to_msgpack = λ a. ok [] }

abbrev messages : ApiErrors
messages = record { api_error = reads "no such job"; lossy = λ b. "?" }

abbrev codecs : Codecs ℕ ℕ
codecs = record {
  Job = ℕ;
  CronGroup = ℕ;
  CronEntryRecord = ℕ;
  ErrorRecord = ℕ;
  Budget = ℕ;
  job = reads 1;
  cron_group = reads 1;
  cron_entry = reads 1;
  error_record = reads 1;
  budget = reads 1;
  version_response = reads (record { version = "1.0" });
  queues_response = reads (record { queues = [] });
  crons_response = reads (record { crons = [] });
  delete_response = reads (record { deleted = 0 });
  bulk_response = reads (record { jobs = [] });
  budgets_response = reads (record { budgets = [] });
  paused_body = writes;
  success_body = writes;
  cost_body = writes;
  budgets_body = writes;
  binding_body = writes;
  policy = writes;
  budget_patch = writes;
  job_patch = writes;
  enqueue_request = writes;
  bulk_request = writes;
  failure_request = writes;
  cron_entry_body = writes;
  cron_group_body = writes;
}

-- A server that has deleted the job.
abbrev deleting : Client list_urls messages
deleting = record {
  base_url = ("zizq.test", []);
  format = json;
  http2 = λ r. ok (record { status = 204; content_type = none; bytes = ok [] });
}

succeeds-Sent_example :
    Sent list_urls messages deleting delete
      ("zizq.test", "jobs" ∷ "j1" ∷ [])
      (λ status. contains status (204 ∷ []))
unfolding url succeeds
succeeds-Sent_example =
    succeeds-Sent list_urls messages codecs (λ n. "0") deleting (to_delete_job "j1") (refl)

abbrev one_byte : Encoder ℕ
one_byte = record { to_json = λ n. ok (n ∷ []); to_msgpack = λ n. ok (0 ∷ n ∷ []) }

abbrev one_of : Bytes → Result ℕ String
one_of [] = err "empty"
one_of (n ∷ rest) = ok n

abbrev two_of : Bytes → Result ℕ String
two_of [] = err "empty"
two_of (n ∷ rest) = one_of rest

abbrev byte_reader : Decoder ℕ
byte_reader = record { from_json = one_of; from_msgpack = two_of }

abbrev byte_wire : Wire one_byte byte_reader
byte_wire = record {
  in_json = λ n. n ∷ [];
  in_msgpack = λ n. 0 ∷ n ∷ [];
  to_json-in_json = λ n. refl;
  to_msgpack-in_msgpack = λ n. refl;
  from_json-in_json = λ n. refl;
  from_msgpack-in_msgpack = λ n. refl;
}

abbrev refusals : Refusals messages (Unit {0})
refusals = record {
  text = λ m. "no such job";
  unreadable = tt;
  error_json = λ m. [];
  error_msgpack = λ m. [];
  from_json-error_json = λ m. refl;
  from_msgpack-error_msgpack = λ m. refl;
}

-- A server that gives back what it gets, in JSON with a charset.
abbrev echo : Method → String × List String → Option ℕ → Reply String ℕ (Unit {0})
echo method u none = refusal 404 tt
echo method u (some n) = accepted 201 n

call-serve_example :
    call messages byte_wire byte_wire refusals list_urls
      (remote messages byte_wire byte_wire refusals list_urls echo
        (λ u. labelled json (some []))
        ("zizq.test", [])
        message_pack)
      post
      ("zizq.test", "jobs" ∷ [])
      (some 7)
    ≡ ok 7
call-serve_example =
    call-serve messages byte_wire byte_wire refusals list_urls echo (λ u. labelled json (some []))
      ("zizq.test", []) message_pack post ("zizq.test", "jobs" ∷ []) (some 7) refl

-- Servers that answer differently, where the pages link to another host.
abbrev page : Response String
page = record { status = 200; content_type = none; bytes = ok (1 ∷ []) }

abbrev answers : HttpRequest (String × List String) → Result (Response String) String
answers r = ok page

abbrev at_home : String → Result (Response String) String
at_home host = if str_eq host "zizq.test" then ok page else err "lost"

abbrev others : HttpRequest (String × List String) → Result (Response String) String
others r = at_home r.url.0

agree :
    (host : String)
    → ◌≡◌ {A = Option String} (some host) (some "zizq.test")
    → ok page ≡ at_home host
agree host h = rw (ap (λ o. unwrap_or o "") h) refl

abbrev error_page : Decoder (ErrorPage ℕ)
error_page = reads (record { errors = 4 ∷ []; next_link = some "other.test" })

abbrev listing : ListErrorsBuilder
listing = record { job_id = "j1"; from = none; order = none; limit = some 5 }

abbrev client_of :
    (HttpRequest (String × List String) → Result (Response String) String)
    → Client list_urls messages
client_of http2 = record { base_url = ("zizq.test", []); format = json; http2 = http2 }

read-error_stream_example :
    read list_urls messages error_page
      (λ n. "5")
      (client_of answers)
      3
      2
      (error_stream list_urls messages error_page (λ n. "5") (client_of answers) listing)
    ≡ read list_urls messages error_page
        (λ n. "5")
        (client_of others)
        3
        2
        (error_stream list_urls messages error_page (λ n. "5") (client_of others) listing)
read-error_stream_example =
    read-error_stream list_urls messages error_page (λ n. "5") ("zizq.test", []) json answers others
      (λ r same. agree r.url.0 same.0) (λ segments u. (refl, refl)) (λ pairs u. (refl, refl))
      listing 3 2
