-- ===== src/Derive/Path.antt =====
-- zizq-derive/src/jq_path.rs: the parser of paths, over the bytes of its input. A text in a step is its code
-- points.
pub mod Turns
pub mod Termination
use zizq_rust.Prelude.{
  ℕ, zero, suc, ◌+◌, ◌-◌, ◌*◌, ◌^◌, Bool, true, false, ◌&&◌, ◌||◌, ◌==◌, leb, ltb, if◌then◌else◌,
  Option, some, none, List, [], ◌∷◌, ◌++◌, length, Result, ok, err, and_then, Bytes,
}

pub data PathStep : Type 0 where
  field : List ℕ → PathStep
  index : ℕ → PathStep

-- The texts of the errors.
pub data Message : Type 0 where
  path_is_empty must_start_with_dot unterminated_key expected_bracket_after_key
        expected_digit_or_key :
      Message
  expected_bracket_after_index : Message
  invalid_index : List ℕ → Message
  unexpected_character : ℕ → Message

pub record PathParseError : Type 0 where
  pub message : Message
  pub position : ℕ

-- A run returns, panics, or needs more fuel.
pub data Run (A : Type 0) : Type 0 where
  done : A → Run A
  panicked : Run A
  out_of_fuel : Run A

abbrev pub fails : {A : Type 0} → Message → ℕ → Run (Result A PathParseError)
fails message position = done (err (record { message = message; position = position }))

-- `chars().next().unwrap()` of a slice, with the length of the character and what is behind it. A slice that
-- does not start at a character panics.
abbrev pub two_bytes : ℕ → List ℕ → Option (ℕ × (ℕ × List ℕ))
two_bytes c [] = none
two_bytes c (b ∷ rest) = some ((c - 192) * 64 + (b - 128), (2, rest))

abbrev pub three_bytes : ℕ → List ℕ → Option (ℕ × (ℕ × List ℕ))
three_bytes c (b ∷ d ∷ rest) = some (((c - 224) * 64 + (b - 128)) * 64 + (d - 128), (3, rest))
three_bytes c _ = none

abbrev pub four_bytes : ℕ → List ℕ → Option (ℕ × (ℕ × List ℕ))
four_bytes c (b ∷ d ∷ e ∷ rest) =
    some ((((c - 240) * 64 + (b - 128)) * 64 + (d - 128)) * 64 + (e - 128), (4, rest))
four_bytes c _ = none

unfoldable pub first_char : ℕ → List ℕ → Option (ℕ × (ℕ × List ℕ))
first_char c rest =
    if ltb c 128
    then some (c, (1, rest))
    else if ltb c 192
    then none
    else if ltb c 224
    then two_bytes c rest
    else if ltb c 240
    then three_bytes c rest
    else four_bytes c rest

-- The loop over a quoted key, to its closing quote or the end: the name, the position and what is left.
unfoldable pub quoted : ℕ → List ℕ → ℕ → List ℕ → Run (List ℕ × (ℕ × List ℕ))
unfolding first_char
quoted k name i [] = done (name, (i, []))
quoted zero name i (c ∷ rest) = if c == b'"' then done (name, (i, c ∷ rest)) else out_of_fuel
quoted (suc k) name i (c ∷ rest) = elim (c == b'"') [
  | true ↦ done (name, (i, c ∷ rest))
  | false ↦ elim ((c == b'\\') && ltb 0 (length rest)) [
    | true ↦ elim rest [ [] ↦ panicked | b ∷ more ↦ quoted k (name ++ b ∷ []) (i + 2) more ]
    | false ↦ elim (first_char c rest) [
      | none ↦ panicked
      | some ch ↦ quoted k (name ++ ch.0 ∷ []) (i + ch.1.0) ch.1.1
    ]
  ]
]

abbrev pub is_digit : ℕ → Bool
is_digit c = leb b'0' c && leb c b'9'

abbrev pub is_alphabetic : ℕ → Bool
is_alphabetic c = (leb b'a' c && leb c b'z') || (leb b'A' c && leb c b'Z')

abbrev pub is_name_start : ℕ → Bool
is_name_start c = is_alphabetic c || (c == b'_')

abbrev pub is_name_cont : ℕ → Bool
is_name_cont c = is_alphabetic c || is_digit c || (c == b'_')

-- The bytes that pass a test, and those from the first on that does not.
abbrev pub span : (ℕ → Bool) → List ℕ → List ℕ × List ℕ
span test [] = ([], [])
span test (c ∷ rest) =
    let (taken, left) = span test rest in if test c then (c ∷ taken, left) else ([], c ∷ rest)

-- `parse::<usize>()` of digits, of 64 bits.
abbrev pub value : ℕ → List ℕ → ℕ
value n [] = n
value n (c ∷ rest) = value (n * 10 + (c - b'0')) rest

abbrev pub parse_usize : List ℕ → Option ℕ
parse_usize digits = let n = value 0 digits in if ltb n (2 ^ 64) then some n else none

-- One turn of the loop: the step that it pushes, if it does, the position and what is left.
abbrev pub Turn : Type 0
Turn = Run (Result (Option PathStep × (ℕ × List ℕ)) PathParseError)

abbrev pub close_key : List ℕ × (ℕ × List ℕ) → Turn
close_key (name, (i, [])) = fails unterminated_key i
close_key (name, (i, _ ∷ [])) = fails expected_bracket_after_key (i + 1)
close_key (name, (i, _ ∷ c ∷ rest)) =
    if c == b']'
    then done (ok (some (field name), (i + 2, rest)))
    else fails expected_bracket_after_key (i + 1)

abbrev pub close_index : ℕ → List ℕ → List ℕ → Turn
close_index start [] left = fails expected_digit_or_key start
close_index start (d ∷ digits) [] = fails expected_bracket_after_index (start + length (d ∷ digits))
close_index start (d ∷ digits) (c ∷ rest) =
    let i = start + length (d ∷ digits) in
    if c == b']'
    then elim (parse_usize (d ∷ digits)) [
      | none ↦ fails (invalid_index (d ∷ digits)) start
      | some n ↦ done (ok (some (index n), (i + 1, rest)))
    ]
    else fails expected_bracket_after_index i

abbrev pub index_at : ℕ → List ℕ → Turn
index_at i rest = close_index i (span is_digit rest).0 (span is_digit rest).1

unfoldable pub bracket : ℕ → ℕ → List ℕ → Turn
unfolding quoted
bracket k i [] = index_at i []
bracket k i (c ∷ rest) =
    if c == b'"'
    then elim (quoted k [] (i + 1) rest) [
      | done key ↦ close_key key
      | panicked ↦ panicked
      | out_of_fuel ↦ out_of_fuel
    ]
    else index_at i (c ∷ rest)

unfoldable pub turn : ℕ → ℕ → ℕ → List ℕ → Turn
unfolding bracket first_char
turn k i c rest =
    if c == b'['
    then bracket k (i + 1) rest
    else if c == b'.'
    then done (ok (none, (i + 1, rest)))
    else if is_name_start c
    then done (
        ok (
          some (field (c ∷ (span is_name_cont rest).0)),
          (i + 1 + length (span is_name_cont rest).0, (span is_name_cont rest).1),
        ))
    else elim (first_char c rest) [
      | none ↦ panicked
      | some ch ↦ fails (unexpected_character ch.0) i
    ]

abbrev pub pushed : List PathStep → Option PathStep → List PathStep
pushed steps none = steps
pushed steps (some step) = steps ++ step ∷ []

unfoldable pub steps_loop :
    ℕ → List PathStep → ℕ → List ℕ → Run (Result (List PathStep) PathParseError)
unfolding turn
steps_loop k steps i [] = done (ok steps)
steps_loop zero steps i (c ∷ rest) = out_of_fuel
steps_loop (suc k) steps i (c ∷ rest) = elim (turn k i c rest) [
  | panicked ↦ panicked
  | out_of_fuel ↦ out_of_fuel
  | done r ↦ elim r [
    | err e ↦ done (err e)
    | ok next ↦ steps_loop k (pushed steps next.0) next.1.0 next.1.1
  ]
]

-- The fuel is the length of the input.
unfoldable pub parse_path : Bytes → Run (Result (List PathStep) PathParseError)
unfolding steps_loop
parse_path [] = fails path_is_empty 0
parse_path (c ∷ rest) =
    if c == b'.' then steps_loop (length rest) [] 1 rest else fails must_start_with_dot 0
