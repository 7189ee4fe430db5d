-- ===== src/UniqueKey/Order.antt =====
-- zizq/src/unique_key.rs: the order that `sort_unstable` puts keys in, that of their bytes, and sorting by it.
use zizq_rust.Prelude.{
  ℕ, ◌≡◌, refl, ap, ap₂, sym, arith, Bool, true, false, List, [], ◌∷◌, Bytes, ltb, ◌==◌,
  if◌then◌else◌, Bool-cases, inl, inr,
}

abbrev pub lex_le : Bytes → Bytes → Bool
lex_le [] t = true
lex_le (c ∷ s) [] = false
lex_le (c ∷ s) (d ∷ t) =
    let rest = lex_le s t in if ltb c d then true else if c == d then rest else false

lex_le_total : (s t : Bytes) → lex_le s t ≡ false → lex_le t s ≡ true
lex_le_total [] t h = cc
lex_le_total (c ∷ s) [] h = refl
lex_le_total (c ∷ s) (d ∷ t) h = ground (arith, lex_le_total s t)

heads :
    (c d : ℕ) (s t : Bytes)
    → lex_le (c ∷ s) (d ∷ t) ≡ true
    → lex_le (d ∷ t) (c ∷ s) ≡ true
    → (c ≡ d) × (lex_le s t ≡ true) × (lex_le t s ≡ true)
heads c d s t h k = (ground arith, ground arith, ground arith)

lex_le_antisym : (s t : Bytes) → lex_le s t ≡ true → lex_le t s ≡ true → s ≡ t
lex_le_antisym [] [] h k = refl
lex_le_antisym [] (d ∷ t) h k = cc
lex_le_antisym (c ∷ s) [] h k = cc
lex_le_antisym (c ∷ s) (d ∷ t) h k =
    let (e, more, back) = heads c d s t h k in ap₂ (λ x l. x ∷ l) e (lex_le_antisym s t more back)

lex_le_trans : (s t u : Bytes) → lex_le s t ≡ true → lex_le t u ≡ true → lex_le s u ≡ true
lex_le_trans [] t u h k = refl
lex_le_trans (c ∷ s) [] u h k = cc
lex_le_trans (c ∷ s) (d ∷ t) [] h k = cc
lex_le_trans (c ∷ s) (d ∷ t) (e ∷ u) h k = ground (arith, lex_le_trans s t u)

-- An entry of an object: its key, and what is written of its value.
abbrev pub Entry : Type 0
Entry = Bytes × Bytes

-- The keys in order, each with what belongs to it.
abbrev pub insert : Entry → List Entry → List Entry
insert e [] = e ∷ []
insert e (f ∷ rest) = let more = insert e rest in if lex_le e.0 f.0 then e ∷ f ∷ rest else f ∷ more

unfoldable pub sort : List Entry → List Entry
sort [] = []
sort (e ∷ rest) = insert e (sort rest)

-- Of two entries with different keys, the first is before the second.
insert-insert_before :
    (a b : Entry)
    → lex_le a.0 b.0 ≡ true
    → lex_le b.0 a.0 ≡ false
    → (l : List Entry) → insert a (insert b l) ≡ insert b (insert a l)
insert-insert_before a b h k [] = rw (h, k) refl
insert-insert_before a b h k (f ∷ rest) = elim (Bool-cases (lex_le b.0 f.0)) [
  | inl e ↦ rw (e, lex_le_trans a.0 b.0 f.0 h e, h, k, e) refl
  | inr e ↦ elim (Bool-cases (lex_le a.0 f.0)) [
    | inl g ↦ rw (e, g, k, e) refl
    | inr g ↦ rw (e, g, e) (ap (λ r. f ∷ r) (insert-insert_before a b h k rest))
  ]
]

-- Entries with different keys may be inserted in either order.
pub insert-insert :
    (a b : Entry)
    → (a.0 ≡ b.0 → ⊥)
    → (l : List Entry) → insert a (insert b l) ≡ insert b (insert a l)
insert-insert a b differ l = elim (Bool-cases (lex_le a.0 b.0)) [
  | inr e ↦ sym (insert-insert_before b a (lex_le_total a.0 b.0 e) e l)
  | inl e ↦ elim (Bool-cases (lex_le b.0 a.0)) [
    | inl back ↦ absurd (differ (lex_le_antisym a.0 b.0 e back))
    | inr back ↦ insert-insert_before a b e back l
  ]
]
