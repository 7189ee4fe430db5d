-- ===== src/JqPath/Hops.antt =====
-- zizq/src/jq_path.rs: one hop of a path, through the writes that other hops make.
use text.Mathlib.Text.{◌==◌ as str_eq}
use zizq_rust.Prelude.{false, ℕ, zero, suc, String, some, none, List, [], ◌∷◌, ◌≡◌, refl, ap}
use zizq_rust.JqPath.{PathStep, field, index, nth, put, cut, pad, hop, put_child, delete}
use zizq_rust.JqPath.Values.{Json, Shape, null, scalar, array, object}

module _ {A : Type 0} (v : A) where
  pub nth-put : (i : ℕ) (xs : List A) (y : A) → nth i xs ≡ some y → nth i (put i v xs) ≡ some v
  nth-put i [] y h = cc
  nth-put zero (x ∷ xs) y h = refl
  nth-put (suc i) (x ∷ xs) y h = nth-put i xs y h

  put-put : (i : ℕ) (w : A) (xs : List A) → put i v (put i w xs) ≡ put i v xs
  put-put i w [] = refl
  put-put zero w (x ∷ xs) = refl
  put-put (suc i) w (x ∷ xs) = rw (put-put i w xs) refl

  cut-put : (i : ℕ) (xs : List A) → cut i (put i v xs) ≡ cut i xs
  cut-put i [] = refl
  cut-put zero (x ∷ xs) = refl
  cut-put (suc i) (x ∷ xs) = rw (cut-put i xs) refl

  pub nth-pad : (i : ℕ) → nth i (pad i v []) ≡ some v
  nth-pad zero = refl
  nth-pad (suc i) = nth-pad i

module _ (json : Json) where
  open json use {
    Value, Map, Scalar, view, of, view-of, get-empty, get-insert_self, get-remove_self,
    get-remove_other, insert-insert, remove-insert,
  }

  pub hop-put_child :
      (s : PathStep) (v c : Value) (shape : Shape Value Map Scalar)
      → hop json s shape ≡ some c
      → hop json s (put_child json s v shape) ≡ some v
  hop-put_child (field k) v c (object map) h = get-insert_self k v map
  hop-put_child (index i) v c (array arr) h = nth-put v i arr c h
  hop-put_child (field k) v c null h = cc
  hop-put_child (field k) v c (scalar x) h = cc
  hop-put_child (field k) v c (array arr) h = cc
  hop-put_child (index i) v c null h = cc
  hop-put_child (index i) v c (scalar x) h = cc
  hop-put_child (index i) v c (object map) h = cc

  pub put_child-put_child :
      (s : PathStep) (v w : Value) (shape : Shape Value Map Scalar)
      → put_child json s v (put_child json s w shape) ≡ put_child json s v shape
  put_child-put_child (field k) v w (object map) = ap object (insert-insert k v w map)
  put_child-put_child (index i) v w (array arr) = ap array (put-put v i w arr)
  put_child-put_child (field k) v w null = refl
  put_child-put_child (field k) v w (scalar x) = refl
  put_child-put_child (field k) v w (array arr) = refl
  put_child-put_child (index i) v w null = refl
  put_child-put_child (index i) v w (scalar x) = refl
  put_child-put_child (index i) v w (object map) = refl

  pub delete-put_child :
      (s : PathStep) (w : Value) (shape : Shape Value Map Scalar)
      → delete json s (put_child json s w shape) ≡ delete json s shape
  delete-put_child (field k) w (object map) = ap object (remove-insert k w map)
  delete-put_child (index i) w (array arr) = ap array (cut-put w i arr)
  delete-put_child (field k) w null = refl
  delete-put_child (field k) w (scalar x) = refl
  delete-put_child (field k) w (array arr) = refl
  delete-put_child (index i) w null = refl
  delete-put_child (index i) w (scalar x) = refl
  delete-put_child (index i) w (object map) = refl

  -- A deleted field is gone from a value of any shape.
  pub hop-delete :
      (k : String) (shape : Shape Value Map Scalar)
      → hop json (field k) (delete json (field k) shape) ≡ none
  hop-delete k null = refl
  hop-delete k (scalar x) = refl
  hop-delete k (array arr) = refl
  hop-delete k (object map) = get-remove_self k map

  -- Another field is still there.
  pub hop-delete_other :
      (j k : String) (shape : Shape Value Map Scalar)
      → str_eq j k ≡ false
      → hop json (field k) (delete json (field j) shape) ≡ hop json (field k) shape
  hop-delete_other j k null h = refl
  hop-delete_other j k (scalar x) h = refl
  hop-delete_other j k (array arr) h = refl
  hop-delete_other j k (object map) h = get-remove_other j k map h
