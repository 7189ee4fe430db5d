-- ===== src/Worker/Dispatch/Jobs.antt =====
-- zizq/src/worker.rs: no job that the stream yields is lost or handled twice.
use zizq_rust.Prelude.{
  ℕ, zero, suc, ◌+◌, ◌≡◌, refl, sym, ap, String, Bool, true, false, Option, some, none, List, [],
  ◌∷◌, ◌++◌, if◌then◌else◌, map, arith, bind-eq-some, Bool-cases, inl, inr, ◌∙◌,
}
use zizq_rust.Worker.Dispatch.{
  Phase, connecting, session, waiting, draining, stopped, Task, State, Config, Event, connected,
  shutdown, slept, next_job, stream_ended, stream_failed, finish, join, drained, deadline,
  finish_task, join_task, add_task, with_tasks, with_joined, free_slot, when, step_at, step, run,
  start,
}

-- The jobs that the stream yields.
unfoldable pub pulled : {F : Type 0} → List (Event F) → List String
pulled [] = []
pulled (next_job id ∷ events) = id ∷ pulled events
pulled (_ ∷ events) = pulled events

-- How many of the ids satisfy `p`.
unfoldable pub count : (String → Bool) → List String → ℕ
count p [] = 0
count p (id ∷ ids) = (if p id then 1 else 0) + count p ids

count-append :
    (p : String → Bool) (xs ys : List String) → count p (xs ++ ys) ≡ count p xs + count p ys
unfolding count
count-append p [] ys = omega arith
count-append p (x ∷ xs) ys = omega (arith, count-append p xs ys)

abbrev pub jobs : List Task → List String
jobs = map (λ t. t.job)

jobs-append : (ts : List Task) (t : Task) → jobs (ts ++ t ∷ []) ≡ jobs ts ++ t.job ∷ []
jobs-append [] t = refl
jobs-append (u ∷ ts) t = ap (λ l. u.job ∷ l) (jobs-append ts t)

jobs-finish_task : (i : ℕ) (ts us : List Task) → finish_task i ts ≡ some us → jobs us ≡ jobs ts
unfolding finish_task
jobs-finish_task i [] us e = cc
jobs-finish_task zero (t ∷ ts) us e =
    sym (ap (λ o. elim o [ none ↦ t.job ∷ jobs ts | some l ↦ jobs l ]) e)
jobs-finish_task (suc i) (t ∷ ts) us e =
    let (vs, found, same) = bind-eq-some (finish_task i ts) (λ vs. some (t ∷ vs)) e in
    sym (ap (λ o. elim o [ none ↦ [] | some l ↦ jobs l ]) same)
    ∙ ap (λ l. t.job ∷ l) (jobs-finish_task i ts vs found)

module _ (p : String → Bool) where
  -- What a join takes out, it returns.
  abbrev Moves : ℕ → Option (String × List Task) → Type 0
  Moves n none = Unit {0}
  Moves n (some (id, us)) = n ≡ count p (id ∷ []) + count p (jobs us)

  Moves-add_task :
      (n : ℕ) (t : Task) (o : Option (String × List Task))
      → Moves n o
      → Moves ((if p t.job then 1 else 0) + n) (add_task t o)
  unfolding count
  Moves-add_task n t none h = tt
  Moves-add_task n t (some (id, us)) h = omega (arith, h)

  Moves-if :
      (b : Bool) (t : Task) (ts : List Task)
      → Moves (count p (t.job ∷ jobs ts)) (if b then some (t.job, ts) else none)
  unfolding count
  Moves-if true t ts = omega arith
  Moves-if false t ts = tt

  join_task-Moves : (i : ℕ) (ts : List Task) → Moves (count p (jobs ts)) (join_task i ts)
  unfolding join_task count
  join_task-Moves i [] = tt
  join_task-Moves zero (t ∷ ts) = Moves-if t.done t ts
  join_task-Moves (suc i) (t ∷ ts) =
      Moves-add_task (count p (jobs ts)) t (join_task i ts) (join_task-Moves i ts)

  -- The jobs that a state accounts for.
  abbrev pub accounted : {F : Type 0} → State F → ℕ
  accounted s = count p s.joined + count p s.aborted + count p (jobs s.inflight)

  abbrev pulled_by : {F : Type 0} → Event F → ℕ
  pulled_by (next_job id) = count p (id ∷ [])
  pulled_by _ = 0

unmoved : (n : ℕ) → n ≡ n + 0
unmoved n = omega arith

module _ {F : Type 0} (p : String → Bool) (config : Config) where
  accounted-after :
      (x s' : State F) (n : ℕ) → some x ≡ some s' → accounted p x ≡ n → accounted p s' ≡ n
  accounted-after x s' n e h =
      ap (λ o. elim o [ none ↦ accounted p x | some y ↦ accounted p y ]) (sym e) ∙ h

  tasks_accounted :
      (o : Option (List Task)) (s s' : State F)
      → ((us : List Task) → o ≡ some us → jobs us ≡ jobs s.inflight)
      → with_tasks s o ≡ some s'
      → accounted p s' ≡ accounted p s
  tasks_accounted none s s' h e = cc
  tasks_accounted (some us) s s' h e =
      accounted-after _ s' _ e
        (ap (λ l. count p s.joined + count p s.aborted + count p l) (h us refl))

  joined_accounted :
      (o : Option (String × List Task)) (s s' : State F)
      → Moves p (count p (jobs s.inflight)) o
      → with_joined s o ≡ some s'
      → accounted p s' ≡ accounted p s
  joined_accounted none s s' h e = cc
  joined_accounted (some (id, us)) s s' h e =
      accounted-after _ s' _ e (omega (arith, h, count-append p s.joined (id ∷ [])))

  when-accounted :
      (b : Bool) (x s' : State F) (n : ℕ)
      → when b x ≡ some s'
      → accounted p x ≡ n
      → accounted p s' ≡ n
  when-accounted true x s' n e h = accounted-after x s' n e h
  when-accounted false x s' n e h = cc

  finish_accounted :
      (i : ℕ) (s s' : State F)
      → with_tasks s (finish_task i s.inflight) ≡ some s'
      → accounted p s' ≡ accounted p s + 0
  finish_accounted i s s' e =
      tasks_accounted (finish_task i s.inflight) s s' (jobs-finish_task i s.inflight) e ∙ unmoved _

  join_accounted :
      (i : ℕ) (s s' : State F)
      → with_joined s (join_task i s.inflight) ≡ some s'
      → accounted p s' ≡ accounted p s + 0
  join_accounted i s s' e =
      joined_accounted (join_task i s.inflight) s s' (join_task-Moves p i s.inflight) e ∙ unmoved _

  step-accounted :
      (phase : Phase F) (event : Event F) (s s' : State F)
      → step_at phase event config s ≡ some s'
      → accounted p s' ≡ accounted p s + pulled_by p event
  unfolding step_at
  step-accounted (stopped r) event s s' e = cc
  step-accounted (connecting b) (connected r) s s' e = accounted-after _ s' _ e (unmoved _)
  step-accounted (connecting b) (finish i) s s' e = finish_accounted i s s' e
  step-accounted (connecting b) _ s s' e = cc
  step-accounted (waiting b) shutdown s s' e = accounted-after _ s' _ e (unmoved _)
  step-accounted (waiting b) slept s s' e = accounted-after _ s' _ e (unmoved _)
  step-accounted (waiting b) (finish i) s s' e = finish_accounted i s s' e
  step-accounted (waiting b) _ s s' e = cc
  step-accounted (session b) shutdown s s' e = accounted-after _ s' _ e (unmoved _)
  step-accounted (session b) (join i) s s' e = elim (Bool-cases (free_slot config s)) [
    | inl free ↦ cc (rw free at e)
    | inr full ↦ join_accounted i s s' (rw full at e)
  ]
  step-accounted (session b) (next_job id) s s' e = when-accounted (free_slot config s) _ s' _ e (
      ap (λ l. count p s.joined + count p s.aborted + count p l)
        (jobs-append s.inflight (record { job = id; done = false }))
      ∙ omega (arith, count-append p (jobs s.inflight) (id ∷ [])))
  step-accounted (session b) stream_ended s s' e =
      when-accounted (free_slot config s) _ s' _ e (unmoved _)
  step-accounted (session b) (stream_failed x) s s' e =
      when-accounted (free_slot config s) _ s' _ e (unmoved _)
  step-accounted (session b) (finish i) s s' e = finish_accounted i s s' e
  step-accounted (session b) _ s s' e = cc
  step-accounted (draining held r) (join i) s s' e = join_accounted i s s' e
  step-accounted (draining held r) (finish i) s s' e = finish_accounted i s s' e
  step-accounted (draining held r) drained s s' e = drain_accounted s.inflight e
    where
      drain_accounted :
          (ts : List Task)
          → elim ts [ [] ↦ some (record s { phase = stopped r }) | _ ∷ _ ↦ none ] ≡ some s'
          → accounted p s' ≡ accounted p s + 0
      drain_accounted [] q = accounted-after _ s' _ q (unmoved _)
      drain_accounted (t ∷ ts) q = cc
  step-accounted (draining held r) deadline s s' e =
      accounted-after _ s' _ e
        (unfold count in omega (arith, count-append p s.aborted (jobs s.inflight)))
  step-accounted (draining held r) _ s s' e = cc

  pulled-cons :
      (event : Event F) (events : List (Event F))
      → count p (pulled (event ∷ events)) ≡ pulled_by p event + count p (pulled events)
  unfolding pulled count
  pulled-cons (next_job id) events = omega arith
  pulled-cons _ events = omega arith

  run-accounted :
      (events : List (Event F)) (s s' : State F)
      → run config s events ≡ some s'
      → accounted p s' ≡ accounted p s + count p (pulled events)
  unfolding run step
  run-accounted [] s s' e = accounted-after s s' _ e (unfold pulled count in unmoved _)
  run-accounted (event ∷ events) s s' e =
      let (t, now, later) = bind-eq-some (step config s event) (λ t. run config t events) e in
      omega (
        arith,
        run-accounted events t s' later,
        step-accounted s.phase event s t now,
        pulled-cons event events,
      )

module _ {F : Type 0} where
  -- Every job that the stream yields is accounted for once: whatever property of ids one counts by,
  -- the tasks joined, those aborted by the deadline and those still in the set are together as many
  -- as the jobs pulled, over all sessions.
  pub jobs-conserved :
      (p : String → Bool) (config : Config) (events : List (Event F)) (s : State F)
      → run config start events ≡ some s
      → count p s.joined + count p s.aborted + count p (jobs s.inflight) ≡ count p (pulled events)
  unfolding start
  jobs-conserved p config events s e =
      unfold count in run-accounted p config events start s e ∙ omega arith
