-- ===== src/Worker/Ack/Retry.antt =====
-- zizq/src/worker.rs: how `ack_processor` retries, and the bounds it keeps.
use zizq_rust.Prelude.{
  ℕ, suc, ◌+◌, ◌*◌, ◌≤◌, ◌<◌, ◌^◌, min, subst, ◌≡◌, refl, sym, ◌∙◌, ap, String, Bool, true, false,
  some, none, List, [], ◌∷◌, ◌++◌, Result, ok, err, length, arith, Bool-cases, inl, inr,
  if◌then◌else◌, ltb, length-append, All, bind-eq-some, ltb→lt,
}
use native.Mathlib.Nat.{add-zero}
use zizq_rust.Error.{ZizqError, is_client_error}
use zizq_rust.Worker.Backoff.{
  initial_backoff, max_backoff, next_backoff, backoff_after, next_backoff-bounds, backoff_after-eq,
}
use zizq_rust.Worker.Ack.{
  AckPhase, receiving, draining, sending, sleeping, returned, AckState, AckEvent, send, close,
  receive, reply, wake, step, run, spawn, step_at, settle, recv, try_recv,
}

-- A batch is never empty, and a wait is between half a second and 30 seconds.
abbrev pub IsPhaseValid : AckPhase → Type 0
IsPhaseValid receiving = Unit {0}
IsPhaseValid (draining batch) = 1 ≤ length batch
IsPhaseValid (sending batch backoff) =
    (1 ≤ length batch) × (initial_backoff ≤ backoff) × (backoff ≤ max_backoff)
IsPhaseValid (sleeping batch backoff) =
    (1 ≤ length batch) × (initial_backoff ≤ backoff) × (backoff ≤ max_backoff)
IsPhaseValid returned = Unit {0}

pub record IsValid (s : AckState) : Type 0 where
  pub within : length s.queue ≤ s.capacity
  pub phased : IsPhaseValid s.phase

IsValid-after : (x s' : AckState) → some x ≡ some s' → IsValid x → IsValid s'
IsValid-after x s' e v = subst (λ o. elim o [ none ↦ Unit {0} | some y ↦ IsValid y ]) e v

own_phase :
    (s : AckState) (phase : AckPhase) → s.phase ≡ phase → IsPhaseValid phase → IsPhaseValid s.phase
own_phase s phase at v = subst IsPhaseValid (sym at) v

send-IsValid :
    (id : String) (s s' : AckState) (closed room : Bool)
    → room ≡ ltb (length s.queue) s.capacity
    → IsValid s
    → (if closed
        then none
        else (if room then some (record s { queue = s.queue ++ id ∷ [] }) else none))
      ≡ some s'
    → IsValid s'
send-IsValid id s s' true room h v e = cc
send-IsValid id s s' false false h v e = cc
send-IsValid id s s' false true h v e =
    let free : length s.queue < s.capacity = ltb→lt _ _ (sym h) in
    IsValid-after _ s' e
      (record { within = omega (arith, length-append s.queue (id ∷ []), free); phased = v.phased })

recv-IsValid :
    (queue : List String) (closed : Bool) (s s' : AckState)
    → length queue ≤ s.capacity
    → length s.queue ≤ s.capacity
    → recv queue closed s ≡ some s'
    → IsValid s'
recv-IsValid [] false s s' w w' e = cc
recv-IsValid [] true s s' w w' e = IsValid-after _ s' e (record { within = w'; phased = tt })
recv-IsValid (id ∷ ids) closed s s' w w' e =
    IsValid-after _ s' e (record { within = omega arith; phased = omega arith })

try_recv-IsValid :
    (batch queue : List String) (s : AckState)
    → 1 ≤ length batch
    → length queue ≤ s.capacity
    → length s.queue ≤ s.capacity
    → IsValid (try_recv batch queue s)
try_recv-IsValid batch [] s v w w' = record { within = w'; phased = (v, omega arith, omega arith) }
try_recv-IsValid batch (id ∷ ids) s v w w' = record {
  within = omega arith;
  phased = omega (arith, length-append batch (id ∷ []));
}

-- The state of a task that sends a batch.
abbrev pub sending_state : AckState → List String → ℕ → AckState
sending_state s batch backoff = record s { phase = sending batch backoff }

module _ {F : Type 0} where
  settle-IsValid :
      (r : Result (Unit {0}) (ZizqError F)) (batch : List String) (backoff : ℕ) (s : AckState)
      → IsPhaseValid (sending batch backoff)
      → length s.queue ≤ s.capacity
      → IsValid (settle r batch backoff s)
  settle-IsValid (ok u) batch backoff s v w = record { within = w; phased = tt }
  settle-IsValid (err e) batch backoff s v w = elim (Bool-cases (is_client_error e)) [
    | inl fatal ↦ rw fatal (record { within = w; phased = tt })
    | inr transient ↦ rw transient (record { within = w; phased = v })
  ]

  step-IsValid :
      (phase : AckPhase) (event : AckEvent F) (s s' : AckState)
      → s.phase ≡ phase
      → IsPhaseValid phase
      → length s.queue ≤ s.capacity
      → step_at phase event s ≡ some s'
      → IsValid s'
  step-IsValid phase (send id) s s' at v w e =
      send-IsValid id s s' s.closed (ltb (length s.queue) s.capacity) refl
        (record { within = w; phased = own_phase s phase at v }) e
  step-IsValid phase close s s' at v w e =
      IsValid-after _ s' e (record { within = w; phased = own_phase s phase at v })
  step-IsValid receiving receive s s' at v w e = recv-IsValid s.queue s.closed s s' w w e
  step-IsValid (draining batch) receive s s' at v w e =
      IsValid-after _ s' e (try_recv-IsValid batch s.queue s v w w)
  step-IsValid (sending batch backoff) (reply r) s s' at v w e =
      IsValid-after _ s' e (settle-IsValid r batch backoff s v w)
  step-IsValid (sleeping batch backoff) wake s s' at v w e = IsValid-after _ s' e (record {
    within = w;
    phased = (v.0, (next_backoff-bounds backoff v.1).0, (next_backoff-bounds backoff v.1).1);
  })
  step-IsValid _ _ s s' at v w e = cc

  run_from-IsValid :
      (events : List (AckEvent F)) (s s' : AckState)
      → IsValid s
      → run s events ≡ some s'
      → IsValid s'
  unfolding run step
  run_from-IsValid [] s s' v e = IsValid-after s s' e v
  run_from-IsValid (event ∷ events) s s' v e =
      let (t, now, later) = bind-eq-some (step s event) (λ t. run t events) e in
      run_from-IsValid events t s' (step-IsValid s.phase event s t refl v.phased v.within now) later

  -- After any events that can happen the channel holds no more ids than its capacity, the batch that
  -- is drained, sent or waited for is not empty, and every wait is between half a second and 30
  -- seconds.
  pub run-IsValid :
      (capacity : ℕ) (events : List (AckEvent F)) (s : AckState)
      → run (spawn capacity) events ≡ some s
      → IsValid s
  unfolding spawn
  run-IsValid capacity events s e =
      run_from-IsValid events (spawn capacity) s (record { within = omega arith; phased = tt }) e

  -- The events of failed attempts that are not client errors, each followed by its wait.
  unfoldable pub attempts : List (ZizqError F) → List (AckEvent F)
  attempts [] = []
  attempts (e ∷ es) = reply (err e) ∷ wake ∷ attempts es

  abbrev pub IsTransient : ZizqError F → Type 0
  IsTransient e = is_client_error e ≡ false

  failed_attempt :
      (s : AckState) (batch : List String) (backoff : ℕ) (e : ZizqError F)
      (rest : List (AckEvent F))
      → is_client_error e ≡ false
      → run (sending_state s batch backoff) (reply (err e) ∷ wake ∷ rest)
        ≡ run (sending_state s batch (next_backoff backoff)) rest
  unfolding run step
  failed_attempt s batch backoff e rest h = rw (h, run) refl

  attempts-run :
      (s : AckState) (batch : List String) (n : ℕ) (es : List (ZizqError F))
      → All IsTransient es
      → run (sending_state s batch (backoff_after n)) (attempts es)
        ≡ some (sending_state s batch (backoff_after (n + length es)))
  unfolding attempts backoff_after
  attempts-run s batch n [] h =
      unfold run in ap (λ k. some (sending_state s batch (backoff_after k))) (sym (add-zero n))
  attempts-run s batch n (e ∷ es) h =
      failed_attempt s batch (backoff_after n) e (attempts es) h.0
      ∙ (attempts-run s batch (suc n) es h.1
          ∙ ap (λ k. some (sending_state s batch (backoff_after k))) (omega arith))

  -- Errors that are not client errors never end the attempts to send a batch: after each of any
  -- number of them the task waits and still has the whole batch to send, and the wait then doubles,
  -- up to 30 seconds.
  pub attempts-retry :
      (s : AckState) (batch : List String) (es : List (ZizqError F))
      → All IsTransient es
      → run (sending_state s batch initial_backoff) (attempts es)
        ≡ some (sending_state s batch (min (initial_backoff * 2 ^ length es) max_backoff))
  attempts-retry s batch es h =
      unfold backoff_after in
      attempts-run s batch 0 es h
      ∙ ap (λ k. some (sending_state s batch k))
          (ap backoff_after (omega arith) ∙ backoff_after-eq (length es))
