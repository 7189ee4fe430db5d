-- ===== src/Derive/Path/Termination.antt =====
-- zizq-derive/src/jq_path.rs: the loops of the parser end within as many turns as the input has bytes.
use zizq_rust.Prelude.{
  ℕ, zero, suc, ◌+◌, ◌≤◌, arith, ◌==◌, Option, some, none, List, [], ◌∷◌, length, Result, ok, err,
  length-append, Bytes, ◌-◌,
}
use zizq_rust.Derive.Path.{
  PathStep, PathParseError, Run, done, panicked, out_of_fuel, Turn, turn, pushed, steps_loop,
  parse_path,
}
use zizq_rust.Derive.Path.Turns.{either_way, TurnWithin, turn-TurnWithin}

-- The parser has ended: it panicked, or gave an error, or no more steps than the bound.
abbrev pub EndedWithin : ℕ → Run (Result (List PathStep) PathParseError) → Type 0
EndedWithin n (done (ok steps)) = length steps ≤ n
EndedWithin n (done (err e)) = Unit {0}
EndedWithin n panicked = Unit {0}
EndedWithin n out_of_fuel = ⊥

length-pushed :
    (steps : List PathStep) (o : Option PathStep) → length (pushed steps o) ≤ suc (length steps)
length-pushed steps none = omega arith
length-pushed steps (some step) = omega (arith, length-append steps (step ∷ []))

EndedWithin-le :
    (m n : ℕ) (r : Run (Result (List PathStep) PathParseError))
    → m ≤ n
    → EndedWithin m r
    → EndedWithin n r
EndedWithin-le m n (done (ok steps)) h k = omega (arith, h, k)
EndedWithin-le m n (done (err e)) h k = tt
EndedWithin-le m n panicked h k = tt
EndedWithin-le m n out_of_fuel h k = absurd k

-- What follows a turn, if the loop behind it ends.
taken :
    (k : ℕ) (steps : List PathStep) (n : ℕ)
    → n ≤ k
    → ((steps : List PathStep) (i : ℕ) (rest : List ℕ)
        → length rest ≤ k
        → EndedWithin (length steps + length rest) (steps_loop k steps i rest))
    → (r : Turn) → TurnWithin n r
    → EndedWithin (length steps + suc n) (elim r [
      | panicked ↦ panicked
      | out_of_fuel ↦ out_of_fuel
      | done result ↦ elim result [
        | err e ↦ done (err e)
        | ok next ↦ steps_loop k (pushed steps next.0) next.1.0 next.1.1
      ]
    ])
taken k steps n small again panicked h = tt
taken k steps n small again out_of_fuel h = absurd h
taken k steps n small again (done (err e)) h = tt
taken k steps n small again (done (ok next)) h =
    EndedWithin-le (length (pushed steps next.0) + length next.1.1) (length steps + suc n)
      (steps_loop k (pushed steps next.0) next.1.0 next.1.1)
      (omega (arith, h, length-pushed steps next.0))
      (again (pushed steps next.0) next.1.0 next.1.1 (omega (arith, h, small)))

steps_loop-EndedWithin :
    (k : ℕ) (steps : List PathStep) (i : ℕ) (rest : List ℕ)
    → length rest ≤ k
    → EndedWithin (length steps + length rest) (steps_loop k steps i rest)
unfolding steps_loop
steps_loop-EndedWithin k steps i [] h = omega arith
steps_loop-EndedWithin zero steps i (c ∷ rest) h = absurd (omega (arith, h))
steps_loop-EndedWithin (suc k) steps i (c ∷ rest) h =
    taken k steps (length rest) (omega (arith, h)) (steps_loop-EndedWithin k) (turn k i c rest)
      (turn-TurnWithin k i c rest (omega (arith, h)))

-- Whatever the input, the fuel that the parser is given is enough, and it makes fewer steps than the input has
-- bytes.
pub parse_path-EndedWithin : (input : Bytes) → EndedWithin (length input - 1) (parse_path input)
unfolding parse_path
parse_path-EndedWithin [] = tt
parse_path-EndedWithin (c ∷ rest) =
    either_way (EndedWithin (suc (length rest) - 1)) (c == b'.') _ _
      (EndedWithin-le (0 + length rest) (suc (length rest) - 1) (steps_loop (length rest) [] 1 rest)
        (omega arith) (steps_loop-EndedWithin (length rest) [] 1 rest (omega arith)))
      tt
