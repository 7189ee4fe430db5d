-- ===== src/Budget/Mixed.antt =====
-- zizq/src/budget.rs: which chains of calls send a change to the strategy without a clock along with a period or a
-- burst, in the body of the patch.
use text.Mathlib.Text.{◌==◌ as str_eq}
use zizq_rust.Prelude.{
  String, Bool, true, false, not, ◌&&◌, ◌||◌, Option, some, none, List, [], ◌∷◌, ◌≡◌, refl, ap, ap₂,
  sym, subst, ◌∙◌, Bool-cases, inl, inr, eq_refl,
}
use zizq_rust.Patch.{
  Field, keep, clear, set, is_keep, Doc, num, str, obj, Members, end, lookup, write_field,
}
use zizq_rust.Patch.Body.{lookup-skip}
use zizq_rust.Budget.{kind, time_based, while_in_flight, unknown}
use zizq_rust.Budget.Patch.{BudgetPatch, StrategyPatch, write_patch, write_strategy}
use zizq_rust.Budget.Changes.{
  Call, allocation, strategy, duration, burst, no_burst, chain, latest, asks_kind, asks_duration,
  asks_burst, about_strategy, asked_strategy, asked, chain-stated,
}

abbrev in_flight : String
in_flight = "while_in_flight"

abbrev is_there : {A : Type 0} → Option A → Bool
is_there none = false
is_there (some a) = true

abbrev is_in_flight : {F : Type 0} → Option (Doc F) → Bool
is_in_flight (some (str name)) = str_eq name in_flight
is_in_flight _ = false

module _ {F : Type 0} where
  -- A strategy names the one without a clock, and has a period or a burst, be it null.
  unfoldable pub mixes_fields : Option (Doc F) → Bool
  unfolding lookup
  mixes_fields (some (obj fields)) =
      is_in_flight (lookup "type" fields)
      && (is_there (lookup "duration_ms" fields) || is_there (lookup "burst" fields))
  mixes_fields _ = false

  unfoldable pub mixes : Members F → Bool
  unfolding mixes_fields lookup
  mixes body = mixes_fields (lookup "strategy" body)

-- The last strategy that the calls state is the one without a clock.
unfoldable pub switched : List Call → Bool
unfolding kind
switched [] = false
switched (strategy s ∷ earlier) = str_eq (kind s) in_flight
switched (_ ∷ earlier) = switched earlier

-- A call about the period or the burst stands behind it.
unfoldable pub mixed_by : List Call → Bool
unfolding switched
mixed_by [] = false
mixed_by (allocation n ∷ earlier) = mixed_by earlier
mixed_by (strategy s ∷ earlier) = false
mixed_by (_ ∷ earlier) = switched earlier

abbrev sent : {A : Type 0} → Field A → Bool
sent f = not (is_keep f)

abbrev named : Field String → Bool
named (set name) = str_eq name in_flight
named _ = false

module _ {F A : Type 0} (n : String) (write : A → Doc F) where
  is_there-write_field :
      (f : Field A) (rest : Members F)
      → lookup n rest ≡ none
      → is_there (lookup n (write_field n write f rest)) ≡ sent f
  unfolding lookup write_field is_keep
  is_there-write_field keep rest h = rw h
  is_there-write_field clear rest h = rw (eq_refl n)
  is_there-write_field (set a) rest h = rw (eq_refl n)

is_in_flight-write_field :
    {F : Type 0} (f : Field String) (rest : Members F)
    → lookup "type" rest ≡ none
    → is_in_flight (lookup "type" (write_field "type" str f rest)) ≡ named f
unfolding lookup write_field
is_in_flight-write_field keep rest h = rw h
is_in_flight-write_field clear rest h = refl
is_in_flight-write_field (set name) rest h = refl

abbrev mixing : Field StrategyPatch → Bool
mixing (set s) = named s.kind && (sent s.duration_ms || sent s.burst)
mixing _ = false

module _ (F : Type 0) where
  mixes_fields-write_strategy :
      (s : StrategyPatch)
      → mixes_fields {F = F} (some (write_strategy s))
        ≡ (named s.kind && (sent s.duration_ms || sent s.burst))
  unfolding mixes_fields write_strategy lookup
  mixes_fields-write_strategy s =
      ap₂ (λ a b. a && b)
        (is_in_flight-write_field s.kind _ (
          lookup-skip "type" "duration_ms" num s.duration_ms _ refl
          ∙ lookup-skip "type" "burst" num s.burst _ refl))
        (ap₂ (λ a b. a || b)
          (ap is_there (lookup-skip "duration_ms" "type" str s.kind _ refl)
            ∙ is_there-write_field "duration_ms" num s.duration_ms _
                (lookup-skip "duration_ms" "burst" num s.burst _ refl))
          (ap is_there (
              lookup-skip "burst" "type" str s.kind _ refl
              ∙ lookup-skip "burst" "duration_ms" num s.duration_ms _ refl)
            ∙ is_there-write_field "burst" num s.burst _ refl))

  mixes_fields-write_field :
      (f : Field StrategyPatch)
      → mixes_fields (lookup "strategy" (write_field {F = F} "strategy" write_strategy f end))
        ≡ mixing f
  unfolding mixes_fields lookup write_field
  mixes_fields-write_field keep = refl
  mixes_fields-write_field clear = refl
  mixes_fields-write_field (set s) = mixes_fields-write_strategy s

and_false : (b : Bool) → (b && false) ≡ false
and_false true = refl
and_false false = refl

and_true : (b : Bool) → (b && true) ≡ b
and_true true = refl
and_true false = refl

or_true : (b : Bool) → (b || true) ≡ true
or_true true = refl
or_true false = refl

named-latest : (calls : List Call) → named (latest asks_kind calls) ≡ switched calls
unfolding latest asks_kind switched
named-latest [] = refl
named-latest (allocation n ∷ earlier) = named-latest earlier
named-latest (strategy s ∷ earlier) = refl
named-latest (duration d ∷ earlier) = named-latest earlier
named-latest (burst n ∷ earlier) = named-latest earlier
named-latest (no_burst ∷ earlier) = named-latest earlier

abbrev extras : List Call → Bool
extras calls = sent (latest asks_duration calls) || sent (latest asks_burst calls)

switched-extras : (calls : List Call) → (switched calls && extras calls) ≡ mixed_by calls
unfolding switched mixed_by latest asks_duration asks_burst is_keep kind
switched-extras [] = refl
switched-extras (allocation n ∷ earlier) = switched-extras earlier
switched-extras (strategy (time_based d none) ∷ earlier) = refl
switched-extras (strategy (time_based d (some b)) ∷ earlier) = refl
switched-extras (strategy while_in_flight ∷ earlier) = refl
switched-extras (strategy (unknown name) ∷ earlier) = and_false _
switched-extras (duration d ∷ earlier) = and_true _
switched-extras (burst n ∷ earlier) = rw or_true (and_true _)
switched-extras (no_burst ∷ earlier) = rw or_true (and_true _)

mixed_by-untouched : (calls : List Call) → about_strategy calls ≡ false → mixed_by calls ≡ false
unfolding about_strategy mixed_by
mixed_by-untouched [] h = refl
mixed_by-untouched (allocation n ∷ earlier) h = mixed_by-untouched earlier h
mixed_by-untouched (_ ∷ earlier) h = cc

mixing-asked : (calls : List Call) → mixing (asked calls).strategy ≡ mixed_by calls
unfolding asked asked_strategy
mixing-asked calls = elim (Bool-cases (about_strategy calls)) [
  | inl e ↦ rw e (ap (λ b. b && extras calls) (named-latest calls) ∙ switched-extras calls)
  | inr e ↦ rw e (sym (mixed_by-untouched calls e))
]

mixes-asked :
    (F : Type 0) (calls : List Call) → mixes {F = F} (write_patch (asked calls)) ≡ mixed_by calls
unfolding mixes write_patch
mixes-asked F calls =
    ap mixes_fields (lookup-skip "strategy" "allocation" num (asked calls).allocation _ refl)
    ∙ mixes_fields-write_field F (asked calls).strategy
    ∙ mixing-asked calls

abbrev patch_or : BudgetPatch → Option BudgetPatch → BudgetPatch
patch_or p none = p
patch_or p (some q) = q

-- The body of a chain's patch names the strategy without a clock along with a period or a burst, be it null, exactly if
-- a call about the period or the burst stands behind the last strategy that is stated, and that is named so.
pub mixes-write_patch :
    (F : Type 0) (calls : List Call) (p : BudgetPatch)
    → chain calls ≡ some p
    → mixes {F = F} (write_patch p) ≡ mixed_by calls
mixes-write_patch F calls p h =
    let made : asked calls ≡ p = ap (patch_or p) (sym (chain-stated calls) ∙ h) in
    subst (λ q. mixes {F = F} (write_patch q) ≡ mixed_by calls) made (mixes-asked F calls)
