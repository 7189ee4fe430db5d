-- ===== src/Tests/UniqueKey.antt =====
-- The canonical form of two orders of an object's keys.
use zizq_rust.Prelude.{◌≡◌, refl, ap, arith, ◌+◌, ℕ, [], ◌∷◌, ◌++◌, Bytes, codes}
use zizq_rust.UniqueKey.{hash_of, tagged_hash_of}
use zizq_rust.UniqueKey.Canonical.{
  Value, scalar, array, object, no_items, item, no_members, member, Tokens, write_canonical,
  hash_hex, in_array, in_object, this_item, later_item, swapped, still, move, hash_of-Moves,
}

abbrev digits : Tokens ℕ
digits = record { scalar_token = λ n. (48 + n) ∷ []; key_token = λ key. b'"' ∷ (key ++ b'"' ∷ []) }

abbrev given : Value ℕ
given = array (
    item (scalar 1) (
      item (object (member (codes "b") (scalar 2) (member (codes "a") (scalar 3) no_members)))
        no_items))

abbrev other : Value ℕ
other = array (
    item (scalar 1) (
      item (object (member (codes "a") (scalar 3) (member (codes "b") (scalar 2) no_members)))
        no_items))

-- [1,{"a":3,"b":2}]
sorted_keys : write_canonical digits given ≡ codes "[1,{\"a\":3,\"b\":2}]"
unfolding write_canonical
sorted_keys = refl

abbrev first : Bytes → ℕ
first [] = 0
first (b ∷ rest) = b

differ : codes "b" ≡ codes "a" → ⊥
differ h = omega (arith, ap first h)

hash_of-Moves_example :
    (hash_of (hash_hex digits (λ b. "00")) given ≡ hash_of (hash_hex digits (λ b. "00")) other)
    × (tagged_hash_of (hash_hex digits (λ b. "00")) "t" given
        ≡ tagged_hash_of (hash_hex digits (λ b. "00")) "t" other)
hash_of-Moves_example =
    hash_of-Moves digits (λ b. "00") "t" given other
      (move (in_array (later_item (this_item (in_object (swapped differ))))) still)
