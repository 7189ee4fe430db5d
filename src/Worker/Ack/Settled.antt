-- ===== src/Worker/Ack/Settled.antt =====
-- zizq/src/worker.rs: what `ack_processor` does with the ids that handlers send.
use zizq_rust.Prelude.{
  ℕ, ◌≡◌, refl, sym, ◌∙◌, ap, ap₂, String, Bool, true, false, some, none, List, [], ◌∷◌, ◌++◌,
  Result, ok, err, length, append_assoc, append-nil, Bool-cases, inl, inr, if◌then◌else◌, ltb,
  bind-eq-some,
}
use zizq_rust.Error.{ZizqError, is_client_error}
use zizq_rust.Worker.Ack.{
  Fate, acked, dropped, AckPhase, receiving, draining, sending, sleeping, returned, AckState,
  AckEvent, send, close, receive, reply, wake, step, run, spawn, step_at, settle, recv, try_recv,
}

-- The ids of the settled batches, in order.
unfoldable pub settled_ids : List (List String × Fate) → List String
settled_ids [] = []
settled_ids ((batch, fate) ∷ rest) = batch ++ settled_ids rest

-- The batch that the task holds.
abbrev pub held : AckPhase → List String
held receiving = []
held (draining batch) = batch
held (sending batch backoff) = batch
held (sleeping batch backoff) = batch
held returned = []

-- The ids that handlers sent.
unfoldable pub sent : {F : Type 0} → List (AckEvent F) → List String
sent [] = []
sent (send id ∷ events) = id ∷ sent events
sent (_ ∷ events) = sent events

-- All ids that the task knows of, in the order in which they were sent.
abbrev pub known : AckState → List String
known s = settled_ids s.settled ++ (held s.phase ++ s.queue)

abbrev sent_by : {F : Type 0} → AckEvent F → List String
sent_by (send id) = id ∷ []
sent_by _ = []

settled_ids-append :
    (log : List (List String × Fate)) (batch : List String) (fate : Fate)
    → settled_ids (log ++ (batch, fate) ∷ []) ≡ settled_ids log ++ batch
unfolding settled_ids
settled_ids-append [] batch fate = append-nil batch
settled_ids-append ((b, f) ∷ log) batch fate =
    ap (λ t. b ++ t) (settled_ids-append log batch fate)
    ∙ sym (append_assoc b (settled_ids log) batch)

known_after :
    (x s' : AckState) (ids : List String) → some x ≡ some s' → known x ≡ ids → known s' ≡ ids
known_after x s' ids e p = ap (λ o. elim o [ none ↦ known x | some y ↦ known y ]) (sym e) ∙ p

known_at :
    (s : AckState) (phase : AckPhase) (queue : List String)
    → s.phase ≡ phase
    → s.queue ≡ queue
    → settled_ids s.settled ++ (held phase ++ queue) ≡ known s ++ []
known_at s phase queue at holds =
    sym (append-nil (known s) ∙ ap₂ (λ p q. settled_ids s.settled ++ (held p ++ q)) at holds)

permitted :
    (closed room : Bool) (x s' : AckState)
    → (if closed then none else (if room then some x else none)) ≡ some s'
    → some x ≡ some s'
permitted true room x s' e = cc
permitted false true x s' e = e
permitted false false x s' e = cc

recv-known :
    (queue : List String) (closed : Bool) (s s' : AckState)
    → s.phase ≡ receiving
    → s.queue ≡ queue
    → recv queue closed s ≡ some s'
    → known s' ≡ known s ++ []
recv-known [] false s s' at holds e = cc
recv-known [] true s s' at holds e =
    known_after _ s' _ e
      (ap (λ q. settled_ids s.settled ++ q) holds ∙ known_at s receiving [] at holds)
recv-known (id ∷ ids) closed s s' at holds e =
    known_after _ s' _ e (known_at s receiving (id ∷ ids) at holds)

try_recv-known :
    (batch queue : List String) (s : AckState)
    → s.phase ≡ draining batch
    → s.queue ≡ queue
    → known (try_recv batch queue s) ≡ known s ++ []
try_recv-known batch [] s at holds =
    ap (λ q. settled_ids s.settled ++ (batch ++ q)) holds ∙ known_at s (draining batch) [] at holds
try_recv-known batch (id ∷ ids) s at holds =
    ap (λ t. settled_ids s.settled ++ t) (append_assoc batch (id ∷ []) ids)
    ∙ known_at s (draining batch) (id ∷ ids) at holds

module _ {F : Type 0} where
  settle-known :
      (r : Result (Unit {0}) (ZizqError F)) (batch : List String) (backoff : ℕ) (s : AckState)
      → known (settle r batch backoff s) ≡ settled_ids s.settled ++ (batch ++ s.queue)
  settle-known (ok u) batch backoff s =
      rw (settled_ids-append s.settled batch acked)
        (append_assoc (settled_ids s.settled) batch s.queue)
  settle-known (err e) batch backoff s = elim (Bool-cases (is_client_error e)) [
    | inl fatal ↦
        rw (fatal, settled_ids-append s.settled batch dropped)
          (append_assoc (settled_ids s.settled) batch s.queue)
    | inr transient ↦ rw transient refl
  ]

  step-known :
      (phase : AckPhase) (event : AckEvent F) (s s' : AckState)
      → s.phase ≡ phase
      → step_at phase event s ≡ some s'
      → known s' ≡ known s ++ sent_by event
  step-known phase (send id) s s' at e =
      known_after _ s' _ (permitted s.closed (ltb (length s.queue) s.capacity) _ s' e)
        (simp append_assoc)
  step-known phase close s s' at e = known_after _ s' _ e (sym (append-nil (known s)))
  step-known receiving receive s s' at e = recv-known s.queue s.closed s s' at refl e
  step-known (draining batch) receive s s' at e =
      known_after _ s' _ e (try_recv-known batch s.queue s at refl)
  step-known (sending batch backoff) (reply r) s s' at e =
      known_after _ s' _ e
        (settle-known r batch backoff s ∙ known_at s (sending batch backoff) s.queue at refl)
  step-known (sleeping batch backoff) wake s s' at e =
      known_after _ s' _ e (known_at s (sleeping batch backoff) s.queue at refl)
  step-known _ _ s s' at e = cc

  sent-cons :
      (event : AckEvent F) (events : List (AckEvent F))
      → sent (event ∷ events) ≡ sent_by event ++ sent events
  unfolding sent
  sent-cons (send id) events = refl
  sent-cons _ events = refl

  run-known :
      (events : List (AckEvent F)) (s s' : AckState)
      → run s events ≡ some s'
      → known s' ≡ known s ++ sent events
  unfolding run step
  run-known [] s s' e = known_after s s' _ e (unfold sent in sym (append-nil (known s)))
  run-known (event ∷ events) s s' e =
      let (t, now, later) = bind-eq-some (step s event) (λ t. run t events) e in
      run-known events t s' later
      ∙ (ap (λ k. k ++ sent events) (step-known s.phase event s t refl now)
          ∙ (append_assoc (known s) (sent_by event) (sent events)
              ∙ ap (λ ids. known s ++ ids) (sym (sent-cons event events))))

  -- No id is lost, repeated or moved: after any events that can happen, the ids of the settled
  -- batches, those of the batch that the task holds and those in the channel are, in this order, the
  -- ids that handlers sent.
  pub run-conserves :
      (capacity : ℕ) (events : List (AckEvent F)) (s : AckState)
      → run (spawn capacity) events ≡ some s
      → settled_ids s.settled ++ (held s.phase ++ s.queue) ≡ sent events
  unfolding spawn settled_ids
  run-conserves capacity events s e = run-known events (spawn capacity) s e
