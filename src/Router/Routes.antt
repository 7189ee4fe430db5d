-- ===== src/Router/Routes.antt =====
-- zizq/src/router.rs: which handler a router gives a job to, after any registrations.
use text.Mathlib.Text.{◌==◌ as str_eq}
use zizq_rust.Prelude.{
  String, Bool, true, false, Option, some, none, List, [], ◌∷◌, ◌≡◌, refl, ap, sym, ◌∙◌,
  if◌then◌else◌, Result, err, Bool-cases, Option-cases, inl, inr, eq_iff,
}
use zizq_rust.Router.{
  Job, RouteError, no_route, JobKind, ErasedRouteHandler, Router, into_stateful, into_stateless,
  typed, payload_or, insert, get, with_state, route, handle,
}

-- A call of `route`.
pub data Registration (V S E : Type 0) : Type 1 where
  stateful : (kind : JobKind V) → (S → kind.Payload → Result (Unit {0}) E) → Registration V S E
  stateless : (kind : JobKind V) → (kind.Payload → Result (Unit {0}) E) → Registration V S E

module _ {V E : Type 0} where
  get-insert :
      (name key : String) (h : ErasedRouteHandler V E)
      (routes : List (String × ErasedRouteHandler V E))
      → get name (insert key h routes) ≡ (if str_eq name key then some h else get name routes)
  unfolding get insert
  get-insert name key h [] = refl
  get-insert name key h ((key', old) ∷ rest) = elim (Bool-cases (str_eq key key')) [
    | inl e ↦ elim (Bool-cases (str_eq name key)) [
      | inl f ↦ rw (e, f) refl
      | inr f ↦ rw (e, f, ap (str_eq name) (sym ((eq_iff key key').0 e))) (rw f refl)
    ]
    | inr e ↦ elim (Bool-cases (str_eq name key)) [
      | inl f ↦
          rw (e, f, ap (λ n. str_eq n key') ((eq_iff name key).0 f) ∙ e)
            (get-insert name key h rest ∙ rw f refl)
      | inr f ↦ rw (e, f, get-insert name key h rest) (rw f refl)
    ]
  ]

  abbrev serve : Job V → Option (ErasedRouteHandler V E) → Result (Unit {0}) (RouteError E)
  serve job none = err (no_route job.job_type)
  serve job (some handler) = handler job

  handle-serve :
      {S : Type 0} (r : Router V E S) (job : Job V)
      → handle r job ≡ serve job (get job.job_type r.routes)
  unfolding handle
  handle-serve r job = elim (Option-cases (get job.job_type r.routes)) [
    | inl e ↦ rw (e, handle) refl
    | inr (h, e) ↦ rw (e, handle) refl
  ]

  serve-if :
      (b : Bool) (job : Job V) (h : ErasedRouteHandler V E) (o : Option (ErasedRouteHandler V E))
      → serve job (if b then some h else o) ≡ (if b then h job else serve job o)
  serve-if true job h o = refl
  serve-if false job h o = refl

module _ {V S E : Type 0} (nil : V) where
  abbrev pub name_of : Registration V S E → String
  name_of (stateful kind f) = kind.name
  name_of (stateless kind f) = kind.name

  unfoldable pub register : Registration V S E → Router V E S → Router V E S
  unfolding route into_stateful into_stateless
  register (stateful kind f) r = route kind (into_stateful nil kind f) r
  register (stateless kind f) r = route kind (into_stateless nil kind f) r

  -- The last registration stands first.
  unfoldable pub chain : S → List (Registration V S E) → Router V E S
  unfolding register with_state
  chain state [] = with_state state
  chain state (r ∷ earlier) = register r (chain state earlier)

  -- A handler on a job: the payload, null if the job has none, is read as the kind's type, and goes to the
  -- handler with the router's state.
  unfoldable pub answer : S → Registration V S E → Job V → Result (Unit {0}) (RouteError E)
  answer state (stateful kind f) job =
      typed kind.type_name (f state) (kind.from_value (payload_or nil job.payload))
  answer state (stateless kind f) job =
      typed kind.type_name f (kind.from_value (payload_or nil job.payload))

  -- The latest registration for the job's type answers.
  unfoldable pub dispatched :
      S → List (Registration V S E) → Job V → Result (Unit {0}) (RouteError E)
  unfolding answer
  dispatched state [] job = err (no_route job.job_type)
  dispatched state (r ∷ earlier) job =
      if str_eq job.job_type (name_of r) then answer state r job else dispatched state earlier job

  chain_state : (state : S) (rs : List (Registration V S E)) → (chain state rs).state ≡ state
  unfolding chain register route with_state
  chain_state state [] = refl
  chain_state state (stateful kind f ∷ earlier) = chain_state state earlier
  chain_state state (stateless kind f ∷ earlier) = chain_state state earlier

  serve-get :
      (state : S) (rs : List (Registration V S E)) (job : Job V)
      → serve job (get job.job_type (chain state rs).routes) ≡ dispatched state rs job
  unfolding chain register route with_state dispatched answer get into_stateful into_stateless
  serve-get state [] job = refl
  serve-get state (stateful kind f ∷ earlier) job =
      let found = str_eq job.job_type kind.name in
      let before = chain state earlier in
      ap (serve job) (get-insert job.job_type kind.name _ before.routes)
      ∙ serve-if found job _ _
      ∙ ap
          (λ s.
            if found
            then into_stateful nil kind f s job
            else serve job (get job.job_type before.routes))
          (chain_state state earlier)
      ∙ ap (λ x. if found then into_stateful nil kind f state job else x)
          (serve-get state earlier job)
  serve-get state (stateless kind f ∷ earlier) job =
      let found = str_eq job.job_type kind.name in
      let before = chain state earlier in
      ap (serve job) (get-insert job.job_type kind.name _ before.routes)
      ∙ serve-if found job _ _
      ∙ ap (λ x. if found then into_stateless nil kind f before.state job else x)
          (serve-get state earlier job)

  -- After any registrations, a job is answered by the latest one for its type, with the payload read as that
  -- kind's type and the router's state; a job of a type that none is for fails as one without a route.
  pub handle-chain :
      (state : S) (rs : List (Registration V S E)) (job : Job V)
      → handle (chain state rs) job ≡ dispatched state rs job
  handle-chain state rs job = handle-serve (chain state rs) job ∙ serve-get state rs job
