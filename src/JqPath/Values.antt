-- ===== src/JqPath/Values.antt =====
-- What the client uses of `serde_json`: the shapes of a value, and a map from keys to values.
use text.Mathlib.Text.{◌==◌ as str_eq}
use zizq_rust.Prelude.{String, false, Option, some, none, List, ◌≡◌}

-- What a match on a value finds. `S` stands for the Booleans, numbers and strings.
pub data Shape (V M S : Type 0) : Type 0 where
  null : Shape V M S
  scalar : S → Shape V M S
  array : List V → Shape V M S
  object : M → Shape V M S

-- `view` and `of` are matching and building. The laws are those of `serde_json::Map`, an ordered map with
-- one value for each key.
pub record Json : Type 1 where
  pub Value : Type 0
  pub Map : Type 0
  pub Scalar : Type 0
  pub view : Value → Shape Value Map Scalar
  pub of : Shape Value Map Scalar → Value
  pub view-of : (s : Shape Value Map Scalar) → view (of s) ≡ s
  pub empty : Map
  pub get : String → Map → Option Value
  pub insert : String → Value → Map → Map
  pub remove : String → Map → Map
  pub get-empty : (k : String) → get k empty ≡ none
  pub get-insert_self : (k : String) (v : Value) (m : Map) → get k (insert k v m) ≡ some v
  pub get-remove_self : (k : String) (m : Map) → get k (remove k m) ≡ none
  pub get-remove_other :
      (j k : String) (m : Map) → str_eq j k ≡ false → get k (remove j m) ≡ get k m
  pub insert-insert :
      (k : String) (v w : Value) (m : Map) → insert k v (insert k w m) ≡ insert k v m
  pub remove-insert : (k : String) (v : Value) (m : Map) → remove k (insert k v m) ≡ remove k m
