-- ===== src/Router.antt =====
-- zizq/src/router.rs: handlers by type of job. `V` is the type of JSON values with its null `nil`, `S` that of the
-- router's state, `E` that of the errors of handlers; a handler is the result of the future that it returns.
pub mod Routes
use text.Mathlib.Text.{◌==◌ as str_eq}
use zizq_rust.Prelude.{String, Option, some, none, List, [], ◌∷◌, if◌then◌else◌, Result, ok, err}

-- What the router reads of a job.
pub record Job (V : Type 0) : Type 0 where
  pub job_type : String
  pub payload : Option V

-- What `HandlerError::from_typed` is made of.
pub data RouteError (E : Type 0) : Type 0 where
  no_route : String → RouteError E
  payload_deserialize : String → String → RouteError E
  handler_failed : E → RouteError E

-- A `JobKind`: its name, the name of the Rust type, and how serde reads it from a value.
pub record JobKind (V : Type 0) : Type 1 where
  pub Payload : Type 0
  pub name : String
  pub type_name : String
  pub from_value : V → Result Payload String

module _ (V E : Type 0) where
  abbrev pub ErasedRouteHandler : Type 0
  ErasedRouteHandler = Job V → Result (Unit {0}) (RouteError E)

  pub record Router (S : Type 0) : Type 0 where
    pub routes : List (String × ErasedRouteHandler)
    pub state : S

abbrev pub payload_or : {V : Type 0} → V → Option V → V
payload_or nil none = nil
payload_or nil (some v) = v

module _ {E : Type 0} where
  abbrev pub map_err : Result (Unit {0}) E → Result (Unit {0}) (RouteError E)
  map_err (ok u) = ok u
  map_err (err e) = err (handler_failed e)

  abbrev pub typed :
      {T : Type 0}
      → String
      → (T → Result (Unit {0}) E)
      → Result T String
      → Result (Unit {0}) (RouteError E)
  typed target f (err source) = err (payload_deserialize target source)
  typed target f (ok t) = map_err (f t)

module _ {V E : Type 0} where
  module _ (nil : V) {S : Type 0} where
    -- The handlers that take a state, and those that do not.
    unfoldable pub into_stateful :
        (kind : JobKind V) → (S → kind.Payload → Result (Unit {0}) E) → S → ErasedRouteHandler V E
    into_stateful kind f state job =
        typed kind.type_name (f state) (kind.from_value (payload_or nil job.payload))

    unfoldable pub into_stateless :
        (kind : JobKind V) → (kind.Payload → Result (Unit {0}) E) → S → ErasedRouteHandler V E
    into_stateless kind f state job =
        typed kind.type_name f (kind.from_value (payload_or nil job.payload))

  -- The map of routes: one handler for each name.
  unfoldable pub insert :
      String
      → ErasedRouteHandler V E
      → List (String × ErasedRouteHandler V E)
      → List (String × ErasedRouteHandler V E)
  insert name h [] = (name, h) ∷ []
  insert name h ((key, old) ∷ rest) =
      if str_eq name key then (name, h) ∷ rest else (key, old) ∷ insert name h rest

  unfoldable pub get :
      String → List (String × ErasedRouteHandler V E) → Option (ErasedRouteHandler V E)
  get name [] = none
  get name ((key, h) ∷ rest) = if str_eq name key then some h else get name rest

  unfoldable pub with_state : {S : Type 0} → S → Router V E S
  with_state state = record { routes = []; state = state }

  -- `into` is the conversion of the handler that is registered.
  unfoldable pub route :
      {S : Type 0} → JobKind V → (S → ErasedRouteHandler V E) → Router V E S → Router V E S
  unfolding insert
  route kind into r = record r { routes = insert kind.name (into r.state) r.routes }

  unfoldable pub handle : {S : Type 0} → Router V E S → Job V → Result (Unit {0}) (RouteError E)
  unfolding get
  handle r job = elim (get job.job_type r.routes) [
    | some handler ↦ handler job
    | none ↦ err (no_route job.job_type)
  ]
