-- ===== src/Error/Classes.antt =====
-- zizq/src/error.rs: how the classes of errors lie to one another.
use zizq_rust.Prelude.{◌≡◌, refl, ◌⊎◌, ◌≤◌, Bool, true, false, ◌||◌, arith, inl, inr, ℕ, String}
use zizq_rust.Error.{
  ZizqError, missing_url, transport, response, is_not_found, is_conflict, is_forbidden,
  is_invalid_request, is_unsupported_format, is_client_error, is_retryable,
}

module _ {F : Type 0} where
  -- One of the predicates for particular statuses holds.
  abbrev pub is_named : ZizqError F → Bool
  is_named e =
      is_not_found e
      || is_conflict e
      || is_forbidden e
      || is_invalid_request e
      || is_unsupported_format e

  -- A client error is a response between 400 and 499.
  pub client_error-cases :
      (e : ZizqError F)
      → is_client_error e ≡ true
      → (s : ℕ) × (m : String) × (e ≡ response s m) × (400 ≤ s) × (s ≤ 499)
  unfolding is_client_error
  client_error-cases (response s m) h = (s, m, refl, ground arith, ground arith)
  client_error-cases _ h = ground arith

  -- An error that a predicate for particular statuses recognises (404, 409, 403, 400 or 422, 406 or
  -- 415) is a client error, and is not worth sending again.
  pub named-is_client_error :
      (e : ZizqError F) → is_named e ≡ true → (is_client_error e ≡ true) × (is_retryable e ≡ false)
  unfolding is_not_found is_conflict is_forbidden is_invalid_request is_unsupported_format
      is_client_error is_retryable
  named-is_client_error missing_url h = ground arith
  named-is_client_error _ h = ground arith

  -- A client error is never worth sending again.
  pub client_error-not_retryable :
      (e : ZizqError F) → is_client_error e ≡ true → is_retryable e ≡ false
  unfolding is_client_error is_retryable
  client_error-not_retryable missing_url h = ground arith
  client_error-not_retryable _ h = ground arith

  -- What is worth sending again is a transport failure or a response between 500 and 599.
  pub retryable-cases :
      (e : ZizqError F)
      → is_retryable e ≡ true
      → ((f : F) × (e ≡ transport f))
        ⊎ ((s : ℕ) × (m : String) × (e ≡ response s m) × (500 ≤ s) × (s ≤ 599))
  unfolding is_retryable
  retryable-cases (transport f) h = inl (f, refl)
  retryable-cases (response s m) h = inr (s, m, refl, ground arith, ground arith)
  retryable-cases _ h = ground arith
