-- ===== src/Worker/Builder/Calls.antt =====
-- zizq/src/worker.rs: what any chain of builder calls builds.
use zizq_rust.Prelude.{
  ℕ, ◌≤◌, ◌<◌, ◌≡◌, ◌↔◌, ◌⊎◌, inl, inr, ◌^◌, ◌*◌, ◌%◌, ◌∙◌, sym, ap, ◌==◌, ==_iff, Bool-cases,
  Option-cases, if◌then◌else◌, String, Bool, true, false, Option, some, none, List, [], ◌∷◌, Result,
  ok, err, max, arith, refl,
}
use zizq_rust.Error.{missing_client, missing_handler}
use zizq_rust.Worker.Builder.{
  Worker, WorkerBuilder, builder, set_client, set_handler, set_concurrency, set_queues,
  set_prefetch, set_reconnect, set_shutdown_timeout, build, get_or, ack_capacity,
}

pub data Call (C H : Type 0) : Type 0 where
  client : C → Call C H
  handler : H → Call C H
  concurrency : ℕ → Call C H
  queues : List String → Call C H
  prefetch : ℕ → Call C H
  reconnect : Bool → Call C H
  shutdown_timeout : ℕ → Call C H

abbrev is_some : {A : Type 0} → Option A → Bool
is_some none = false
is_some (some a) = true

-- The error of a result that failed.
abbrev pub failure : {A E : Type 0} → Result A E → Option E
failure (ok a) = none
failure (err e) = some e

double_zero : (n : ℕ) → n < 2 ^ 64 → (n * 2) % 2 ^ 64 ≡ 0 → (n ≡ 0) ⊎ (n ≡ 2 ^ 63)
double_zero n small h = elim (Bool-cases (n == 0)) [
  | inl e ↦ inl ((==_iff n 0).0 e)
  | inr e ↦ inr (ground arith)
]

-- The product of a prefetch and 2, for a prefetch that may have been asked for and is 1 otherwise.
capacity_zero :
    (asked : Option ℕ) (n d : ℕ)
    → n ≡ get_or asked d
    → n < 2 ^ 64
    → (asked ≡ none → d ≡ 1)
    → ((n * 2) % 2 ^ 64 ≡ 0) ↔ ((asked ≡ some 0) ⊎ (asked ≡ some (2 ^ 63)))
capacity_zero none n d e small default =
    let one : n ≡ 1 = e ∙ default refl in
    (λ h. absurd (omega arith), λ h. elim h [ inl f ↦ cc | inr f ↦ cc ])
capacity_zero (some p) n d e small default = (
  λ h. elim (double_zero n small h) [
    | inl f ↦ inl (ap some (sym e ∙ f))
    | inr f ↦ inr (ap some (sym e ∙ f))
  ],
  λ h. elim h [ inl f ↦ rw (e ∙ ap (λ o. get_or o d) f) | inr f ↦ rw (e ∙ ap (λ o. get_or o d) f) ],
)

module _ {C H : Type 0} where
  unfoldable pub call : Call C H → WorkerBuilder C H → WorkerBuilder C H
  unfolding set_client set_handler set_concurrency set_queues set_prefetch set_reconnect
      set_shutdown_timeout
  call (client c) b = set_client c b
  call (handler h) b = set_handler h b
  call (concurrency n) b = set_concurrency n b
  call (queues qs) b = set_queues qs b
  call (prefetch n) b = set_prefetch n b
  call (reconnect enabled) b = set_reconnect enabled b
  call (shutdown_timeout d) b = set_shutdown_timeout d b

  -- The chain's last call stands first.
  unfoldable pub chain : List (Call C H) → WorkerBuilder C H
  unfolding call builder
  chain [] = builder
  chain (c ∷ earlier) = call c (chain earlier)

  -- The concurrency that the chain asks for.
  unfoldable pub asked_concurrency : List (Call C H) → ℕ
  asked_concurrency [] = 1
  asked_concurrency (concurrency n ∷ earlier) = max n 1
  asked_concurrency (_ ∷ earlier) = asked_concurrency earlier

  -- The last explicit prefetch, and without one the first concurrency.
  unfoldable pub asked_prefetch : List (Call C H) → Option ℕ
  asked_prefetch [] = none
  asked_prefetch (prefetch n ∷ earlier) = some n
  asked_prefetch (concurrency n ∷ earlier) = elim (asked_prefetch earlier) [
    | none ↦ some (max n 1)
    | some p ↦ some p
  ]
  asked_prefetch (_ ∷ earlier) = asked_prefetch earlier

  chain-concurrency :
      (calls : List (Call C H)) → (chain calls).concurrency ≡ asked_concurrency calls
  unfolding chain asked_concurrency
  chain-concurrency [] = refl
  chain-concurrency (concurrency n ∷ earlier) = refl
  chain-concurrency (_ ∷ earlier) = chain-concurrency earlier

  chain-prefetch : (calls : List (Call C H)) → (chain calls).prefetch ≡ asked_prefetch calls
  unfolding chain asked_prefetch
  chain-prefetch [] = refl
  chain-prefetch (concurrency n ∷ earlier) = rw (chain-prefetch earlier)
  chain-prefetch (prefetch n ∷ earlier) = refl
  chain-prefetch (_ ∷ earlier) = chain-prefetch earlier

  unfoldable pub has_client : List (Call C H) → Bool
  has_client [] = false
  has_client (client c ∷ earlier) = true
  has_client (_ ∷ earlier) = has_client earlier

  unfoldable pub has_handler : List (Call C H) → Bool
  has_handler [] = false
  has_handler (handler h ∷ earlier) = true
  has_handler (_ ∷ earlier) = has_handler earlier

  chain-client : (calls : List (Call C H)) → is_some (chain calls).client ≡ has_client calls
  unfolding chain has_client
  chain-client [] = refl
  chain-client (client c ∷ earlier) = refl
  chain-client (_ ∷ earlier) = chain-client earlier

  chain-handler : (calls : List (Call C H)) → is_some (chain calls).handler ≡ has_handler calls
  unfolding chain has_handler
  chain-handler [] = refl
  chain-handler (handler h ∷ earlier) = refl
  chain-handler (_ ∷ earlier) = chain-handler earlier

  asked_concurrency_pos : (calls : List (Call C H)) → 1 ≤ asked_concurrency calls
  unfolding asked_concurrency
  asked_concurrency_pos [] = omega arith
  asked_concurrency_pos (concurrency n ∷ earlier) = omega arith
  asked_concurrency_pos (_ ∷ earlier) = asked_concurrency_pos earlier

  -- A chain of builder calls builds a worker exactly if it sets a client and a handler. A chain
  -- without a client fails for that, with or without a handler.
  pub build-failure :
      {F : Type 0} (calls : List (Call C H))
      → failure (build {F = F} (chain calls)) ≡ (
          if has_client calls
          then (if has_handler calls then none else some missing_handler)
          else some missing_client)
  unfolding build
  build-failure calls = ground (arith, chain-client calls, chain-handler calls)

  -- The worker that a chain builds has the concurrency last asked for, at least 1, and the prefetch
  -- last asked for; where none was asked for, that of the first call of `concurrency`, and the
  -- default of 1 where there was no such call.
  pub build-settings :
      {F : Type 0} (calls : List (Call C H)) (w : Worker C H)
      → build {F = F} (chain calls) ≡ ok w
      → (w.concurrency ≡ asked_concurrency calls)
        × (1 ≤ w.concurrency)
        × (w.prefetch ≡ get_or (asked_prefetch calls) w.concurrency)
  unfolding build
  build-settings calls w e =
      ground (arith, chain-concurrency calls, chain-prefetch calls, asked_concurrency_pos calls)

  asked_concurrency-one :
      (calls : List (Call C H)) → asked_prefetch calls ≡ none → asked_concurrency calls ≡ 1
  unfolding asked_concurrency asked_prefetch
  asked_concurrency-one [] h = refl
  asked_concurrency-one (concurrency n ∷ earlier) h = elim (Option-cases (asked_prefetch earlier)) [
    | inl e ↦ ground arith
    | inr (p, e) ↦ ground arith
  ]
  asked_concurrency-one (prefetch n ∷ earlier) h = cc
  asked_concurrency-one (client c ∷ earlier) h = asked_concurrency-one earlier h
  asked_concurrency-one (_ ∷ earlier) h = asked_concurrency-one earlier h

  -- The channel of acknowledgements of a worker that was built, with a prefetch of 64 bits, is asked for
  -- with a capacity of 0 exactly if the prefetch that the chain asks for is 0, or is 2 ^ 63, twice which wraps around
  -- to 0 where overflow is not checked.
  pub ack_capacity-zero :
      {F : Type 0} (calls : List (Call C H)) (w : Worker C H)
      → build {F = F} (chain calls) ≡ ok w
      → w.prefetch < 2 ^ 64
      → (ack_capacity w ≡ 0)
        ↔ ((asked_prefetch calls ≡ some 0) ⊎ (asked_prefetch calls ≡ some (2 ^ 63)))
  unfolding ack_capacity
  ack_capacity-zero {F} calls w e small =
      let facts = build-settings {F = F} calls w e in
      capacity_zero (asked_prefetch calls) w.prefetch w.concurrency facts.2 small
        (λ absent. facts.0 ∙ asked_concurrency-one calls absent)
