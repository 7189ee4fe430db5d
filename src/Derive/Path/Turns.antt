-- ===== src/Derive/Path/Turns.antt =====
-- zizq-derive/src/jq_path.rs: one turn of the parser ends, and leaves no more than it got.
use zizq_rust.Prelude.{
  ℕ, zero, suc, ◌+◌, ◌≤◌, arith, Bool, true, false, ◌&&◌, ◌==◌, ltb, if◌then◌else◌, Option, some,
  none, List, [], ◌∷◌, ◌++◌, length, ok, err, Bool-cases, inl, inr,
}
use zizq_rust.Derive.Path.{
  Run, done, panicked, out_of_fuel, two_bytes, three_bytes, four_bytes, first_char, quoted, span,
  Turn, invalid_index, unexpected_character, index, close_key, close_index, index_at, bracket, turn,
  fails, is_name_cont, is_digit, is_name_start, parse_usize,
}

-- A character does not give back more than is behind its first byte.
abbrev Shorter : ℕ → Option (ℕ × (ℕ × List ℕ)) → Type 0
Shorter n none = Unit {0}
Shorter n (some ch) = length ch.1.1 ≤ n

two_bytes-Shorter : (c : ℕ) (rest : List ℕ) → Shorter (length rest) (two_bytes c rest)
two_bytes-Shorter c [] = tt
two_bytes-Shorter c (b ∷ rest) = omega arith

three_bytes-Shorter : (c : ℕ) (rest : List ℕ) → Shorter (length rest) (three_bytes c rest)
three_bytes-Shorter c [] = tt
three_bytes-Shorter c (b ∷ []) = tt
three_bytes-Shorter c (b ∷ d ∷ rest) = omega arith

four_bytes-Shorter : (c : ℕ) (rest : List ℕ) → Shorter (length rest) (four_bytes c rest)
four_bytes-Shorter c [] = tt
four_bytes-Shorter c (b ∷ []) = tt
four_bytes-Shorter c (b ∷ d ∷ []) = tt
four_bytes-Shorter c (b ∷ d ∷ e ∷ rest) = omega arith

-- Both branches of a test.
pub either_way {ℓ} :
    {A : Type ℓ} (P : A → Type 0) (b : Bool) (x y : A) → P x → P y → P (if b then x else y)
either_way P true x y p q = p
either_way P false x y p q = q

first_char-Shorter : (c : ℕ) (rest : List ℕ) → Shorter (length rest) (first_char c rest)
unfolding first_char
first_char-Shorter c rest =
    let P : Option (ℕ × (ℕ × List ℕ)) → Type 0 = Shorter (length rest) in
    either_way P (ltb c 128) _ _ (omega arith) (
      either_way P (ltb c 192) _ _ tt (
        either_way P (ltb c 224) _ _ (two_bytes-Shorter c rest)
          (either_way P (ltb c 240) _ _ (three_bytes-Shorter c rest) (four_bytes-Shorter c rest))))

-- The loop over a key ends, and leaves no more than it got.
abbrev KeyWithin : ℕ → Run (List ℕ × (ℕ × List ℕ)) → Type 0
KeyWithin n (done key) = length key.1.1 ≤ n
KeyWithin n panicked = Unit {0}
KeyWithin n out_of_fuel = ⊥

KeyWithin-le : (m n : ℕ) (r : Run (List ℕ × (ℕ × List ℕ))) → m ≤ n → KeyWithin m r → KeyWithin n r
KeyWithin-le m n (done key) h k = omega (arith, h, k)
KeyWithin-le m n panicked h k = tt
KeyWithin-le m n out_of_fuel h k = absurd k

-- One turn of the loop on either kind of character, if the rest of the loop ends.
module _ (k : ℕ) (name : List ℕ) (i : ℕ)
    (again : (name : List ℕ) (i : ℕ) (rest : List ℕ)
      → length rest ≤ k
      → KeyWithin (length rest) (quoted k name i rest)) where
  escaped :
      (rest : List ℕ)
      → length rest ≤ k
      → KeyWithin
          (suc (length rest))
          (elim rest [ [] ↦ panicked | b ∷ more ↦ quoted k (name ++ b ∷ []) (i + 2) more ])
  escaped [] h = tt
  escaped (b ∷ more) h =
      KeyWithin-le (length more) (suc (suc (length more))) (quoted k (name ++ b ∷ []) (i + 2) more)
        (omega arith) (again (name ++ b ∷ []) (i + 2) more (omega (arith, h)))

  copied :
      (n : ℕ) (o : Option (ℕ × (ℕ × List ℕ)))
      → Shorter n o
      → n ≤ k
      → KeyWithin
          (suc n)
          (elim o [ none ↦ panicked | some ch ↦ quoted k (name ++ ch.0 ∷ []) (i + ch.1.0) ch.1.1 ])
  copied n none less h = tt
  copied n (some ch) less h =
      KeyWithin-le (length ch.1.1) (suc n) (quoted k (name ++ ch.0 ∷ []) (i + ch.1.0) ch.1.1)
        (omega (arith, less))
        (again (name ++ ch.0 ∷ []) (i + ch.1.0) ch.1.1 (omega (arith, less, h)))

quoted-KeyWithin :
    (k : ℕ) (name : List ℕ) (i : ℕ) (rest : List ℕ)
    → length rest ≤ k
    → KeyWithin (length rest) (quoted k name i rest)
unfolding quoted
quoted-KeyWithin k name i [] h = omega arith
quoted-KeyWithin zero name i (c ∷ rest) h = absurd (omega (arith, h))
quoted-KeyWithin (suc k) name i (c ∷ rest) h = elim (Bool-cases (c == b'"')) [
  | inl e ↦ rw (e, KeyWithin) (omega arith)
  | inr e ↦
      rw (e, KeyWithin)
        (elim (Bool-cases ((c == b'\\') && ltb 0 (length rest))) [
          | inl escape ↦
              rw (escape, KeyWithin) (escaped k name i (quoted-KeyWithin k) rest (omega (arith, h)))
          | inr plain ↦
              rw (plain, KeyWithin)
                (copied k name i (quoted-KeyWithin k) (length rest) (first_char c rest)
                  (first_char-Shorter c rest) (omega (arith, h)))
        ])
]

abbrev pub TurnWithin : ℕ → Turn → Type 0
TurnWithin n (done (ok next)) = length next.1.1 ≤ n
TurnWithin n (done (err e)) = Unit {0}
TurnWithin n panicked = Unit {0}
TurnWithin n out_of_fuel = ⊥

span-le : (test : ℕ → Bool) (rest : List ℕ) → length (span test rest).1 ≤ length rest
span-le test [] = omega arith
span-le test (c ∷ rest) =
    either_way {A = List ℕ × List ℕ} (λ p. length p.1 ≤ suc (length rest)) (test c) _ _
      (omega (arith, span-le test rest)) (omega arith)

TurnWithin-le : (m n : ℕ) (r : Turn) → m ≤ n → TurnWithin m r → TurnWithin n r
TurnWithin-le m n (done (ok next)) h k = omega (arith, h, k)
TurnWithin-le m n (done (err e)) h k = tt
TurnWithin-le m n panicked h k = tt
TurnWithin-le m n out_of_fuel h k = absurd k

close_key-TurnWithin :
    (n : ℕ) (name : List ℕ) (i : ℕ) (left : List ℕ)
    → length left ≤ n
    → TurnWithin n (close_key (name, (i, left)))
close_key-TurnWithin n name i [] h = tt
close_key-TurnWithin n name i (q ∷ []) h = tt
close_key-TurnWithin n name i (q ∷ c ∷ rest) h =
    either_way (TurnWithin n) (c == b']') _ _ (omega (arith, h)) tt

read_index :
    (n start : ℕ) (digits rest : List ℕ) (o : Option ℕ) (i : ℕ)
    → length rest ≤ n
    → TurnWithin n (elim o [
      | none ↦ fails (invalid_index digits) start
      | some m ↦ done (ok (some (index m), (i, rest)))
    ])
read_index n start digits rest none i h = tt
read_index n start digits rest (some m) i h = h

close_index-TurnWithin :
    (n start : ℕ) (digits left : List ℕ)
    → length left ≤ n
    → TurnWithin n (close_index start digits left)
close_index-TurnWithin n start [] left h = tt
close_index-TurnWithin n start (d ∷ digits) [] h = tt
close_index-TurnWithin n start (d ∷ digits) (c ∷ rest) h =
    either_way (TurnWithin n) (c == b']') _ _
      (read_index n start (d ∷ digits) rest (parse_usize (d ∷ digits))
        (start + length (d ∷ digits) + 1) (omega (arith, h)))
      tt

index_at-TurnWithin : (i : ℕ) (rest : List ℕ) → TurnWithin (length rest) (index_at i rest)
index_at-TurnWithin i rest =
    close_index-TurnWithin (length rest) i (span is_digit rest).0 (span is_digit rest).1
      (span-le is_digit rest)

close_quoted :
    (n : ℕ) (r : Run (List ℕ × (ℕ × List ℕ)))
    → KeyWithin n r
    → TurnWithin n
        (elim r [ done key ↦ close_key key | panicked ↦ panicked | out_of_fuel ↦ out_of_fuel ])
close_quoted n (done key) h = close_key-TurnWithin n key.0 key.1.0 key.1.1 h
close_quoted n panicked h = tt
close_quoted n out_of_fuel h = absurd h

bracket-TurnWithin :
    (k i : ℕ) (rest : List ℕ) → length rest ≤ k → TurnWithin (length rest) (bracket k i rest)
unfolding bracket
bracket-TurnWithin k i [] h = index_at-TurnWithin i []
bracket-TurnWithin k i (c ∷ rest) h =
    either_way (TurnWithin (suc (length rest))) (c == b'"') _ _
      (TurnWithin-le (length rest) (suc (length rest)) _ (omega arith) (
        close_quoted (length rest) (quoted k [] (i + 1) rest)
          (quoted-KeyWithin k [] (i + 1) rest (omega (arith, h)))))
      (index_at-TurnWithin i (c ∷ rest))

refused :
    (n i : ℕ) (o : Option (ℕ × (ℕ × List ℕ)))
    → TurnWithin n (elim o [ none ↦ panicked | some ch ↦ fails (unexpected_character ch.0) i ])
refused n i none = tt
refused n i (some ch) = tt

pub turn-TurnWithin :
    (k i c : ℕ) (rest : List ℕ) → length rest ≤ k → TurnWithin (length rest) (turn k i c rest)
unfolding turn
turn-TurnWithin k i c rest h =
    let P : Turn → Type 0 = TurnWithin (length rest) in
    either_way P (c == b'[') _ _ (bracket-TurnWithin k (i + 1) rest h) (
      either_way P (c == b'.') _ _ (omega arith) (
        either_way P (is_name_start c) _ _ (span-le is_name_cont rest)
          (refused (length rest) i (first_char c rest))))
