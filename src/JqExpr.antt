-- ===== src/JqExpr.antt =====
-- zizq/src/jq_expr.rs: the expressions that match payloads. What serde_json makes of a value is a parameter: its text,
-- the value that it converts to, an array's elements, and the text of a converted value.
use Prim.Native.String.{◌++◌ as str_append}
use zizq_rust.Prelude.{
  ℕ, String, Option, some, none, List, length, Result, ok, err, and_then, map_err,
}
use zizq_rust.Error.{ZizqError, encode}

pub record Serde (T V : Type 0) : Type 0 where
  pub to_string : T → Result String String
  pub to_value : T → Result V String
  pub as_array : V → Option (List V)
  pub render : V → String

module _ {T V F : Type 0} (serde : Serde T V) (show : ℕ → String) where
  unfoldable pub to_json : T → Result String (ZizqError F)
  to_json value = map_err encode (serde.to_string value)

  unfoldable pub jq_eq : T → Result String (ZizqError F)
  unfolding to_json
  jq_eq value = and_then (to_json value) (λ json. ok (str_append ". == " json))

  unfoldable pub jq_contains : T → Result String (ZizqError F)
  unfolding to_json
  jq_contains value =
      and_then (to_json value) (λ json. ok (str_append ". | contains(" (str_append json ")")))

  unfoldable pub jq_array_prefix_eq : T → Result String (ZizqError F)
  jq_array_prefix_eq value = and_then (map_err encode (serde.to_value value)) (λ json.
      elim (serde.as_array json) [
        | none ↦ err (encode "jq_array_prefix_eq expects a value that serialises to a JSON array")
        | some items ↦ ok (
            str_append ".[0:"
              (str_append (show (length items)) (str_append "] == " (serde.render json))))
      ])
