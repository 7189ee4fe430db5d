-- ===== src/UniqueKey.antt =====
-- zizq/src/unique_key.rs: the constructors of `UniqueKey`. `V` is serde_json's type of values; the hash of a value, as
-- hexadecimal digits, is a parameter here.
pub mod Order
pub mod Canonical
use Prim.Native.String.{◌++◌ as str_append}
use zizq_rust.Prelude.{String, some, none}
use zizq_rust.Enqueue.{UniqueKey, UniqueScope}

unfoldable pub raw : String → UniqueKey
raw key = record { key = key; scope = none }

unfoldable pub set_scope : UniqueScope → UniqueKey → UniqueKey
set_scope scope k = record k { scope = some scope }

module _ {V : Type 0} (hash_hex : V → String) where
  unfoldable pub hash_of : V → UniqueKey
  unfolding raw
  hash_of value = raw (hash_hex value)

  unfoldable pub tagged_hash_of : String → V → UniqueKey
  unfolding raw
  tagged_hash_of tag value = raw (str_append tag (str_append ":" (hash_hex value)))
