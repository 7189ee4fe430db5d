-- ===== src/JqPath.antt =====
-- zizq/src/jq_path.rs and zizq/src/hashable.rs: values addressed by paths, and the parts of a payload
-- that keys are hashed from. `serde_json::Value` and its map are the interface `JqPath.Values.Json`.
pub mod Values
pub mod Hops
pub mod Removal
pub mod Siblings
pub mod Picking
use zizq_rust.Prelude.{
  ℕ, zero, suc, ◌+◌, String, Bool, true, false, Option, some, none, List, [], ◌∷◌, ◌++◌,
  if◌then◌else◌, length, ltb,
}
use zizq_rust.JqPath.Values.{Json, Shape, null, scalar, array, object}

pub data PathStep : Type 0 where
  field : String → PathStep
  index : ℕ → PathStep

module _ {ℓ} {A : Type ℓ} where
  -- `Vec::get`, a write within bounds, and `Vec::remove` within bounds.
  abbrev pub nth : ℕ → List A → Option A
  nth i [] = none
  nth zero (x ∷ xs) = some x
  nth (suc i) (x ∷ xs) = nth i xs

  abbrev pub put : ℕ → A → List A → List A
  put i v [] = []
  put zero v (x ∷ xs) = v ∷ xs
  put (suc i) v (x ∷ xs) = x ∷ put i v xs

  abbrev pub cut : ℕ → List A → List A
  cut i [] = []
  cut zero (x ∷ xs) = xs
  cut (suc i) (x ∷ xs) = x ∷ cut i xs

  -- `while arr.len() <= idx { arr.push(fill) }`
  abbrev pub pad : ℕ → A → List A → List A
  pad zero fill [] = fill ∷ []
  pad (suc i) fill [] = fill ∷ pad i fill []
  pad zero fill (x ∷ xs) = x ∷ xs
  pad (suc i) fill (x ∷ xs) = x ∷ pad i fill xs

abbrev or_else : {A : Type 0} → A → Option A → A
or_else d none = d
or_else d (some a) = a

module _ (json : Json) where
  open json use {Value, Map, Scalar, view, of, empty, get, insert, remove as remove_key}

  -- One hop of a walk: a field of an object or an element of an array.
  abbrev pub hop : PathStep → Shape Value Map Scalar → Option Value
  hop (field name) (object map) = get name map
  hop (index i) (array arr) = nth i arr
  hop _ _ = none

  unfoldable pub walk : Value → List PathStep → Option Value
  walk value [] = some value
  walk value (step ∷ path) = elim (hop step (view value)) [
    | none ↦ none
    | some next ↦ walk next path
  ]

  -- The value with another one behind a hop that exists (the effect of a write through `get_mut`).
  abbrev pub put_child : PathStep → Value → Shape Value Map Scalar → Shape Value Map Scalar
  put_child (field name) child (object map) = object (insert name child map)
  put_child (index i) child (array arr) = array (put i child arr)
  put_child _ child shape = shape

  abbrev pub delete : PathStep → Shape Value Map Scalar → Shape Value Map Scalar
  delete (field name) (object map) = object (remove_key name map)
  delete (index i) (array arr) = array (cut i arr)
  delete _ shape = shape

  -- The walk to the parent of the last step, and its deletion; a hop that is missing leaves the value
  -- as it is.
  unfoldable pub remove : Value → List PathStep → Value
  remove value [] = of null
  remove value (step ∷ []) = of (delete step (view value))
  remove value (step ∷ step' ∷ path) = elim (hop step (view value)) [
    | none ↦ value
    | some next ↦ of (put_child step (remove next (step' ∷ path)) (view value))
  ]

  abbrev pub container_for : PathStep → Value
  container_for (field name) = of (object empty)
  container_for (index i) = of (array [])

  -- `if v.is_null() { v = init }`
  abbrev pub init_null : Shape Value Map Scalar → Value → Value → Value
  init_null null init value = init
  init_null _ init value = value

  abbrev child_at : Value → Option Value → Value
  child_at init none = init
  child_at init (some child) = init_null (view child) init child

  abbrev set_leaf : PathStep → Value → Shape Value Map Scalar → Shape Value Map Scalar
  set_leaf (field name) value (object map) = object (insert name value map)
  set_leaf (index i) value (array arr) = array (put i value (pad i (of null) arr))
  set_leaf _ value shape = shape

  -- The child that the walk of `set_path` goes on with, made of `init` where there is none.
  abbrev enter : PathStep → Value → Shape Value Map Scalar → Option Value
  enter (field name) init (object map) = some (or_else init (get name map))
  enter (index i) init (array arr) = some (child_at init (nth i (pad i (of null) arr)))
  enter _ init shape = none

  -- The value with that child written back.
  abbrev leave : PathStep → Value → Shape Value Map Scalar → Shape Value Map Scalar
  leave (field name) child (object map) = object (insert name child map)
  leave (index i) child (array arr) = array (put i child (pad i (of null) arr))
  leave _ child shape = shape

  -- From a target that has its root container on: a shape that does not fit is left as it is.
  unfoldable pub set_from : Value → PathStep → List PathStep → Value → Value
  set_from target step [] value = of (set_leaf step value (view target))
  set_from target step (step' ∷ path) value =
      elim (enter step (container_for step') (view target)) [
        | none ↦ target
        | some child ↦ of (leave step (set_from child step' path value) (view target))
      ]

  -- The empty path is not used.
  unfoldable pub set_path : Value → List PathStep → Value → Value
  unfolding set_from
  set_path target [] value = target
  set_path target (step ∷ path) value =
      set_from (init_null (view target) (container_for step) target) step path value

  abbrev pick_into : Value → List PathStep → Option Value → Value
  pick_into target steps none = target
  pick_into target steps (some v) = set_path target steps v

  -- The loop of `pick`, from the target that it has so far.
  unfoldable pub pick_from : Value → Value → List (List PathStep) → Value
  unfolding walk set_path
  pick_from source target [] = init_null (view target) (of (object empty)) target
  pick_from source target ([] ∷ paths) = source
  pick_from source target ((step ∷ path) ∷ paths) =
      pick_from source (pick_into target (step ∷ path) (walk source (step ∷ path))) paths

  unfoldable pub pick : Value → List (List PathStep) → Value
  unfolding pick_from
  pick source paths = pick_from source (of null) paths

  -- `value` is the serialised payload.
  unfoldable pub payload_except : Value → List (List PathStep) → Value
  unfolding remove
  payload_except value [] = value
  payload_except value (path ∷ paths) = payload_except (remove value path) paths

  unfoldable pub payload_only : Value → List (List PathStep) → Value
  unfolding pick
  payload_only value paths = pick value paths
