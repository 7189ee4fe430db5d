-- ===== src/Worker/Dispatch/Bounds.antt =====
-- zizq/src/worker.rs: what every step of the worker keeps.
use zizq_rust.Prelude.{
  ℕ, zero, suc, ◌≤◌, ◌≡◌, refl, ap, subst, String, Bool, true, false, Option, some, none, List, [],
  ◌∷◌, Result, ok, err, if◌then◌else◌, length, arith, ltb→lt, length-append, bind-eq-some,
  Bool-cases, inl, inr, ◌⊎◌,
}
use zizq_rust.Error.{ZizqError, is_client_error}
use zizq_rust.Worker.Backoff.{initial_backoff, max_backoff, next_backoff-bounds}
use zizq_rust.Worker.Dispatch.{
  Phase, connecting, session, waiting, draining, stopped, Task, State, Config, Event, connected,
  shutdown, slept, next_job, stream_ended, stream_failed, finish, join, drained, deadline,
  finish_task, join_task, add_task, reconnect_or, after_connect, with_tasks, with_joined, free_slot,
  when, step_at, step, run, start, Returned,
}

length-finish_task :
    (i : ℕ) (ts us : List Task) → finish_task i ts ≡ some us → length us ≡ length ts
unfolding finish_task
length-finish_task i [] us e = cc
length-finish_task zero (t ∷ ts) us e = ground arith
length-finish_task (suc i) (t ∷ ts) us e =
    let (vs, found, same) = bind-eq-some (finish_task i ts) (λ vs. some (t ∷ vs)) e in
    ground (arith, length-finish_task i ts vs found)

-- A join takes one task out of `n`.
abbrev TakesOne : ℕ → Option (String × List Task) → Type 0
TakesOne n none = Unit {0}
TakesOne n (some (id, us)) = n ≡ suc (length us)

TakesOne-add_task :
    (n : ℕ) (t : Task) (o : Option (String × List Task))
    → TakesOne n o
    → TakesOne (suc n) (add_task t o)
TakesOne-add_task n t none h = tt
TakesOne-add_task n t (some (id, us)) h = ap suc h

TakesOne-if :
    (b : Bool) (t : Task) (ts : List Task)
    → TakesOne (suc (length ts)) (if b then some (t.job, ts) else none)
TakesOne-if true t ts = refl
TakesOne-if false t ts = tt

join_task-TakesOne : (i : ℕ) (ts : List Task) → TakesOne (length ts) (join_task i ts)
unfolding join_task
join_task-TakesOne i [] = tt
join_task-TakesOne zero (t ∷ ts) = TakesOne-if t.done t ts
join_task-TakesOne (suc i) (t ∷ ts) =
    TakesOne-add_task (length ts) t (join_task i ts) (join_task-TakesOne i ts)

-- The wait that the loop would use next.
abbrev pub BackoffIsValid : {F : Type 0} → Phase F → Type 0
BackoffIsValid (connecting b) = (initial_backoff ≤ b) × (b ≤ max_backoff)
BackoffIsValid (session b) = (initial_backoff ≤ b) × (b ≤ max_backoff)
BackoffIsValid (waiting b) = (initial_backoff ≤ b) × (b ≤ max_backoff)
BackoffIsValid (draining held r) = Unit {0}
BackoffIsValid (stopped r) = Unit {0}

-- How `dispatch_loop` returns: with its stream only after a shutdown; without an error after a
-- shutdown, or where the worker does not reconnect; with an error where that is a client error, or
-- where the worker does not reconnect.
abbrev pub Ends : {F : Type 0} → Config → Bool → Returned F → Bool → Type 0
Ends config true (ok u) seen = seen ≡ true
Ends config true (err e) seen = ⊥
Ends config false (ok u) seen = (seen ≡ true) ⊎ (config.reconnect ≡ false)
Ends config false (err e) seen = (is_client_error e ≡ true) ⊎ (config.reconnect ≡ false)

abbrev pub Stops : {F : Type 0} → Config → Returned F → Bool → Type 0
Stops config r seen = (held : Bool) × Ends config held r seen

abbrev pub EndIsValid : {F : Type 0} → Config → Phase F → Bool → Type 0
EndIsValid config (connecting b) seen = Unit {0}
EndIsValid config (session b) seen = Unit {0}
EndIsValid config (waiting b) seen = Unit {0}
EndIsValid config (draining held r) seen = Ends config held r seen
EndIsValid config (stopped r) seen = Stops config r seen

abbrev PhaseIsValid : {F : Type 0} → Config → Phase F → Bool → Type 0
PhaseIsValid config phase seen = BackoffIsValid phase × EndIsValid config phase seen

pub record IsSound {F : Type 0} (config : Config) (s : State F) : Type 0 where
  pub tasks : length s.inflight ≤ config.concurrency
  pub phased : PhaseIsValid config s.phase s.shutdown_seen

module _ {F : Type 0} (config : Config) where
  IsSound-after : (x s' : State F) → some x ≡ some s' → IsSound config x → IsSound config s'
  IsSound-after x s' e v = subst (λ o. elim o [ none ↦ Unit {0} | some y ↦ IsSound config y ]) e v

  when-IsSound :
      (b : Bool) (x s' : State F)
      → when b x ≡ some s'
      → (b ≡ true → IsSound config x)
      → IsSound config s'
  when-IsSound true x s' e v = IsSound-after x s' e (v refl)
  when-IsSound false x s' e v = cc

  with_tasks-IsSound :
      (o : Option (List Task)) (s s' : State F)
      → ((us : List Task) → o ≡ some us → length us ≡ length s.inflight)
      → IsSound config s
      → with_tasks s o ≡ some s'
      → IsSound config s'
  with_tasks-IsSound none s s' h v e = cc
  with_tasks-IsSound (some us) s s' h v e =
      IsSound-after _ s' e (record { tasks = omega (arith, h us refl, v.tasks); phased = v.phased })

  with_joined-IsSound :
      (o : Option (String × List Task)) (s s' : State F)
      → TakesOne (length s.inflight) o
      → IsSound config s
      → with_joined s o ≡ some s'
      → IsSound config s'
  with_joined-IsSound none s s' h v e = cc
  with_joined-IsSound (some (id, us)) s s' h v e =
      IsSound-after _ s' e (record { tasks = omega (arith, h, v.tasks); phased = v.phased })

  finish-IsSound :
      (i : ℕ) (s s' : State F)
      → IsSound config s
      → with_tasks s (finish_task i s.inflight) ≡ some s'
      → IsSound config s'
  finish-IsSound i s s' v e =
      with_tasks-IsSound (finish_task i s.inflight) s s' (length-finish_task i s.inflight) v e

  join-IsSound :
      (i : ℕ) (s s' : State F)
      → IsSound config s
      → with_joined s (join_task i s.inflight) ≡ some s'
      → IsSound config s'
  join-IsSound i s s' v e =
      with_joined-IsSound (join_task i s.inflight) s s' (join_task-TakesOne i s.inflight) v e

  reconnect_or-PhaseIsValid :
      (b : Bool) (backoff : ℕ) (r : Returned F) (seen : Bool)
      → (initial_backoff ≤ backoff) × (backoff ≤ max_backoff)
      → (b ≡ false → Ends config false r seen)
      → PhaseIsValid config (reconnect_or b backoff r) seen
  reconnect_or-PhaseIsValid true backoff r seen v end = (v, tt)
  reconnect_or-PhaseIsValid false backoff r seen v end = (tt, end refl)

  after_connect-PhaseIsValid :
      (backoff : ℕ) (r : Result (Unit {0}) (ZizqError F)) (seen : Bool)
      → (initial_backoff ≤ backoff) × (backoff ≤ max_backoff)
      → PhaseIsValid config (after_connect config backoff r) seen
  after_connect-PhaseIsValid backoff (ok u) seen v = ((omega arith, omega arith), tt)
  after_connect-PhaseIsValid backoff (err e) seen v = elim (Bool-cases (is_client_error e)) [
    | inl fatal ↦ rw fatal (tt, inl fatal)
    | inr transient ↦
        rw transient
          (reconnect_or-PhaseIsValid config.reconnect backoff (err e) seen v (λ off. inr off))
  ]

  end_session-IsSound :
      (backoff : ℕ) (r : Returned F) (s s' : State F)
      → IsSound config s
      → s.phase ≡ session backoff
      → (config.reconnect ≡ false → Ends config false r s.shutdown_seen)
      → when (free_slot config s) (record s { phase = reconnect_or config.reconnect backoff r })
        ≡ some s'
      → IsSound config s'
  end_session-IsSound backoff r s s' v at end e =
      let open_session : PhaseIsValid {F = F} config (session backoff) s.shutdown_seen =
        subst (λ p. PhaseIsValid {F = F} config p s.shutdown_seen) at v.phased in
      when-IsSound (free_slot config s) _ s' e (λ free. record {
        tasks = v.tasks;
        phased =
            reconnect_or-PhaseIsValid config.reconnect backoff r s.shutdown_seen open_session.0 end;
      })

  step-IsSound :
      (phase : Phase F) (event : Event F) (s s' : State F)
      → s.phase ≡ phase
      → PhaseIsValid config phase s.shutdown_seen
      → IsSound config s
      → step_at phase event config s ≡ some s'
      → IsSound config s'
  unfolding step_at
  step-IsSound (stopped r) event s s' at p v e = cc
  step-IsSound (connecting backoff) (connected r) s s' at p v e = IsSound-after _ s' e (record {
    tasks = v.tasks;
    phased = after_connect-PhaseIsValid backoff r s.shutdown_seen p.0;
  })
  step-IsSound (connecting backoff) (finish i) s s' at p v e = finish-IsSound i s s' v e
  step-IsSound (connecting backoff) _ s s' at p v e = cc
  step-IsSound (waiting backoff) shutdown s s' at p v e =
      IsSound-after _ s' e (record { tasks = v.tasks; phased = (tt, inl refl) })
  step-IsSound (waiting backoff) slept s s' at p v e =
      IsSound-after _ s' e
        (record { tasks = v.tasks; phased = (next_backoff-bounds backoff p.0.0, tt) })
  step-IsSound (waiting backoff) (finish i) s s' at p v e = finish-IsSound i s s' v e
  step-IsSound (waiting backoff) _ s s' at p v e = cc
  step-IsSound (session backoff) shutdown s s' at p v e =
      IsSound-after _ s' e (record { tasks = v.tasks; phased = (tt, refl) })
  step-IsSound (session backoff) (join i) s s' at p v e = elim (Bool-cases (free_slot config s)) [
    | inl free ↦ cc (rw free at e)
    | inr full ↦ join-IsSound i s s' v (rw full at e)
  ]
  step-IsSound (session backoff) (next_job id) s s' at p v e =
      when-IsSound (free_slot config s) _ s' e (λ free. record {
        tasks = omega (
          arith,
          ltb→lt _ _ free,
          length-append s.inflight (record { job = id; done = false } ∷ []),
        );
        phased = v.phased;
      })
  step-IsSound (session backoff) stream_ended s s' at p v e =
      end_session-IsSound backoff (ok tt) s s' v at (λ off. inr off) e
  step-IsSound (session backoff) (stream_failed x) s s' at p v e =
      end_session-IsSound backoff (err x) s s' v at (λ off. inr off) e
  step-IsSound (session backoff) (finish i) s s' at p v e = finish-IsSound i s s' v e
  step-IsSound (session backoff) _ s s' at p v e = cc
  step-IsSound (draining held r) (join i) s s' at p v e = join-IsSound i s s' v e
  step-IsSound (draining held r) (finish i) s s' at p v e = finish-IsSound i s s' v e
  step-IsSound (draining held r) drained s s' at p v e = drain-IsSound s.inflight e
    where
      drain-IsSound :
          (ts : List Task)
          → elim ts [ [] ↦ some (record s { phase = stopped r }) | _ ∷ _ ↦ none ] ≡ some s'
          → IsSound config s'
      drain-IsSound [] q =
          IsSound-after _ s' q (record { tasks = v.tasks; phased = (tt, (held, p.1)) })
      drain-IsSound (t ∷ ts) q = cc
  step-IsSound (draining held r) deadline s s' at p v e =
      IsSound-after _ s' e (record { tasks = omega arith; phased = (tt, (held, p.1)) })
  step-IsSound (draining held r) _ s s' at p v e = cc

  run-IsSound :
      (events : List (Event F)) (s s' : State F)
      → IsSound config s
      → run config s events ≡ some s'
      → IsSound config s'
  unfolding run step
  run-IsSound [] s s' v e = IsSound-after s s' e v
  run-IsSound (event ∷ events) s s' v e =
      let (t, now, later) = bind-eq-some (step config s event) (λ t. run config t events) e in
      run-IsSound events t s' (step-IsSound s.phase event s t refl v.phased v now) later

  pub start-IsSound :
      (events : List (Event F)) (s : State F) → run config start events ≡ some s → IsSound config s
  unfolding start
  start-IsSound events s e =
      run-IsSound events start s
        (record { tasks = omega arith; phased = ((omega arith, omega arith), tt) }) e
