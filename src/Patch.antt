-- ===== src/Patch.antt =====
-- zizq/src/job_patch.rs: the three states of a field, and its share of a serialised body. `F` is the
-- type of `f32`.
pub mod Retention
pub mod Job
pub mod Calls
pub mod Body
use zizq_rust.Prelude.{ℕ, String, Bool, true, false, Option, some, none, if◌then◌else◌}
use text.Mathlib.Text.{◌==◌ as str_eq}

pub data Field (A : Type 0) : Type 0 where
  keep : Field A
  clear : Field A
  set : A → Field A

unfoldable pub is_keep : {A : Type 0} → Field A → Bool
is_keep keep = true
is_keep _ = false

-- A JSON document: objects are the members in the order in which they are written.
mutual
  pub data Doc (F : Type 0) : Type 0 where
    null : Doc F
    num : ℕ → Doc F
    real : F → Doc F
    str : String → Doc F
    obj : Members F → Doc F

  pub data Members (F : Type 0) : Type 0 where
    end : Members F
    member : String → Doc F → Members F → Members F

unfoldable pub lookup : {F : Type 0} → String → Members F → Option (Doc F)
lookup name end = none
lookup name (member key value rest) = if str_eq name key then some value else lookup name rest

-- What serde writes for a field that is tagged `skip_serializing_if`, before the rest of the struct.
unfoldable pub write_field :
    {F : Type 0} {A : Type 0} → String → (A → Doc F) → Field A → Members F → Members F
write_field name write keep rest = rest
write_field name write clear rest = member name null rest
write_field name write (set value) rest = member name (write value) rest
