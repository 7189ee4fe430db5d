-- ===== src/UniqueKey/Canonical.antt =====
-- zizq/src/unique_key.rs: `write_canonical` and `hash_hex`. A hasher is fed bytes, and SHA-256 (sha2) of them in
-- hexadecimal digits is a parameter, as are the tokens that serde_json writes of scalars and of keys.
use Prim.Native.String.{◌++◌ as str_append}
use zizq_rust.Prelude.{◌≡◌, refl, ap, ◌∙◌, String, List, [], ◌∷◌, ◌++◌, Bytes}
use zizq_rust.UniqueKey.{raw, hash_of, tagged_hash_of}
use zizq_rust.UniqueKey.Order.{Entry, insert, sort, insert-insert}

-- serde_json's values. The keys of an object are in whichever order its map keeps them.
mutual
  pub data Value (S : Type 0) : Type 0 where
    scalar : S → Value S
    array : Items S → Value S
    object : Members S → Value S

  pub data Items (S : Type 0) : Type 0 where
    no_items : Items S
    item : Value S → Items S → Items S

  pub data Members (S : Type 0) : Type 0 where
    no_members : Members S
    member : Bytes → Value S → Members S → Members S

-- What `serde_json::to_string` writes of a scalar and of a key.
pub record Tokens (S : Type 0) : Type 0 where
  pub scalar_token : S → Bytes
  pub key_token : Bytes → Bytes

-- The loops over elements and keys, with a comma before each but the first.
abbrev pub listed : List Bytes → Bytes
listed [] = []
listed (x ∷ rest) = b',' ∷ (x ++ listed rest)

abbrev pub separated : List Bytes → Bytes
separated [] = []
separated (x ∷ rest) = x ++ listed rest

module _ {S : Type 0} (tokens : Tokens S) where
  abbrev pub entry_text : Entry → Bytes
  entry_text (key, text) = tokens.key_token key ++ (b':' ∷ text)

  abbrev pub entry_texts : List Entry → List Bytes
  entry_texts [] = []
  entry_texts (e ∷ rest) = entry_text e ∷ entry_texts rest

  abbrev pub object_text : List Entry → Bytes
  unfolding sort
  object_text entries = b'{' ∷ (separated (entry_texts (sort entries)) ++ b'}' ∷ [])

  abbrev pub array_text : List Bytes → Bytes
  array_text texts = b'[' ∷ (separated texts ++ b']' ∷ [])

  -- What the hasher is fed.
  unfoldable mutual
    unfolding object_text

    pub write_canonical : Value S → Bytes
    write_canonical (scalar s) = tokens.scalar_token s
    write_canonical (array items) = array_text (item_texts items)
    write_canonical (object members) = object_text (member_texts members)

    pub item_texts : Items S → List Bytes
    item_texts no_items = []
    item_texts (item v rest) = write_canonical v ∷ item_texts rest

    pub member_texts : Members S → List Entry
    member_texts no_members = []
    member_texts (member key v rest) = (key, write_canonical v) ∷ member_texts rest

  unfoldable pub hash_hex : (Bytes → String) → Value S → String
  unfolding write_canonical
  hash_hex sha256_hex value = sha256_hex (write_canonical value)

-- One entry of an object somewhere in a value changes places with the next, which has another key.
mutual
  pub data Move {S : Type 0} : Value S → Value S → Type 0 where
    in_array : {xs ys : Items S} → MoveItem xs ys → Move (array xs) (array ys)
    in_object : {es fs : Members S} → MoveMember es fs → Move (object es) (object fs)

  pub data MoveItem {S : Type 0} : Items S → Items S → Type 0 where
    this_item : {v w : Value S} {rest : Items S} → Move v w → MoveItem (item v rest) (item w rest)
    later_item : {v : Value S} {xs ys : Items S} → MoveItem xs ys → MoveItem (item v xs) (item v ys)

  pub data MoveMember {S : Type 0} : Members S → Members S → Type 0 where
    this_value :
        {key : Bytes} {v w : Value S} {rest : Members S}
        → Move v w
        → MoveMember (member key v rest) (member key w rest)
    later_member :
        {key : Bytes} {v : Value S} {es fs : Members S}
        → MoveMember es fs
        → MoveMember (member key v es) (member key v fs)
    swapped :
        {key next : Bytes} {v w : Value S} {rest : Members S}
        → (key ≡ next → ⊥)
        → MoveMember (member key v (member next w rest)) (member next w (member key v rest))

pub data Moves {S : Type 0} : Value S → Value S → Type 0 where
  still : {v : Value S} → Moves v v
  move : {u v w : Value S} → Move u v → Moves v w → Moves u w

module _ {S : Type 0} (tokens : Tokens S) where
  mutual
    unfolding write_canonical item_texts member_texts sort

    write_canonical-Move :
        {v w : Value S} → Move v w → write_canonical tokens v ≡ write_canonical tokens w
    write_canonical-Move (in_array m) = ap (array_text tokens) (item_texts-Move m)
    write_canonical-Move (in_object m) =
        ap (λ es. b'{' ∷ (separated (entry_texts tokens es) ++ b'}' ∷ [])) (sort-Move m)

    item_texts-Move :
        {xs ys : Items S} → MoveItem xs ys → item_texts tokens xs ≡ item_texts tokens ys
    item_texts-Move (this_item {rest = rest} m) =
        ap (λ t. t ∷ item_texts tokens rest) (write_canonical-Move m)
    item_texts-Move (later_item {v} m) =
        ap (λ ts. write_canonical tokens v ∷ ts) (item_texts-Move m)

    sort-Move :
        {es fs : Members S}
        → MoveMember es fs
        → sort (member_texts tokens es) ≡ sort (member_texts tokens fs)
    sort-Move (this_value {key} {v} {w} {rest} m) =
        ap (λ t. insert (key, t) (sort (member_texts tokens rest))) (write_canonical-Move m)
    sort-Move (later_member {key} {v} m) = ap (insert (key, write_canonical tokens v)) (sort-Move m)
    sort-Move (swapped {key} {next} {v} {w} {rest} differ) =
        insert-insert (key, write_canonical tokens v) (next, write_canonical tokens w) differ
          (sort (member_texts tokens rest))

  write_canonical-Moves :
      {v w : Value S} → Moves v w → write_canonical tokens v ≡ write_canonical tokens w
  write_canonical-Moves still = refl
  write_canonical-Moves (move m rest) = write_canonical-Move m ∙ write_canonical-Moves rest

  -- The keys of two values are the same if one value comes of the other by moving entries of objects, at any depth and
  -- any number of times, with a tag and without.
  pub hash_of-Moves :
      (sha256_hex : Bytes → String) (tag : String) (v w : Value S)
      → Moves v w
      → (hash_of (hash_hex tokens sha256_hex) v ≡ hash_of (hash_hex tokens sha256_hex) w)
        × (tagged_hash_of (hash_hex tokens sha256_hex) tag v
            ≡ tagged_hash_of (hash_hex tokens sha256_hex) tag w)
  unfolding hash_of tagged_hash_of hash_hex raw
  hash_of-Moves sha256_hex tag v w moves =
      let same = ap sha256_hex (write_canonical-Moves moves) in
      (ap raw same, ap (λ h. raw (str_append tag (str_append ":" h))) same)
