-- ===== src/Tests/Router.antt =====
-- A router with three registrations, two of them for one type.
use zizq_rust.Prelude.{
  ℕ, ◌*◌, ◌==◌, ◌≡◌, String, some, List, [], ◌∷◌, Result, ok, err, if◌then◌else◌,
}
use zizq_rust.Router.{Job, handler_failed, JobKind, handle}
use zizq_rust.Router.Routes.{Registration, stateful, stateless, chain, dispatched, handle-chain}

-- Values are numbers, with 0 for null, and a kind's payload is any number but 0.
abbrev read_number : ℕ → Result ℕ String
read_number n = if n == 0 then err "null" else ok n

abbrev send_email : JobKind ℕ
send_email = record {
  Payload = ℕ;
  name = "send_email";
  type_name = "SendEmail";
  from_value = read_number;
}

abbrev report : JobKind ℕ
report = record { Payload = ℕ; name = "report"; type_name = "Report"; from_value = read_number }

abbrev registered : List (Registration ℕ ℕ ℕ)
registered =
    stateful send_email (λ state n. err (n * state))
    ∷ stateless report (λ n. ok tt)
    ∷ stateless send_email (λ n. ok tt)
    ∷ []

abbrev email : Job ℕ
email = record { job_type = "send_email"; payload = some 5 }

handle-chain_example : handle (chain {E = ℕ} 0 2 registered) email ≡ err (handler_failed 10)
unfolding dispatched
handle-chain_example = handle-chain 0 2 registered email
