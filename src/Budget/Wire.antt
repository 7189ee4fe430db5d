-- ===== src/Budget/Wire.antt =====
-- zizq/src/budget.rs: strategies through their wire form.
use text.Mathlib.Text.{◌==◌ as str_eq}
use zizq_rust.Prelude.{
  ℕ, ◌^◌, ◌<◌, String, false, some, none, ◌≡◌, refl, arith, Bool-cases, Option-cases, eq_iff, inl,
  inr, ap, ◌∙◌, sym,
}
use zizq_rust.Budget.{
  BudgetStrategy, StrategyWire, time_based, while_in_flight, unknown, from_millis, as_millis,
  from_wire, to_wire, kind,
}

as_millis-from_millis : (ms : ℕ) → ms < 2 ^ 64 → as_millis (from_millis ms) ≡ ms
unfolding as_millis from_millis
as_millis-from_millis ms h = omega arith

-- A strategy whose wire form stands for it alone: a period of whole milliseconds that 64 bits hold, or a
-- name that is not one of a strategy without fields.
unfoldable pub IsCarried : BudgetStrategy → Type 0
IsCarried (time_based duration burst) = (ms : ℕ) × (ms < 2 ^ 64) × (duration ≡ from_millis ms)
IsCarried while_in_flight = Unit
IsCarried (unknown name) = str_eq name "while_in_flight" ≡ false

from_wire-named :
    (name : String)
    → str_eq name "while_in_flight" ≡ false
    → from_wire (record { kind = name; duration_ms = none; burst = none }) ≡ unknown name
unfolding from_wire
from_wire-named name h = elim (Bool-cases (str_eq name "time_based")) [
  | inl e ↦ rw e
  | inr e ↦ rw (e, h)
]

-- A strategy with a period of whole milliseconds that 64 bits hold, one without a clock, and one that is
-- unknown and not named like the one without a clock, is read back from its wire form as it was; and
-- the wire form has its kind.
pub from_wire-to_wire :
    (s : BudgetStrategy) → IsCarried s → (from_wire (to_wire s) ≡ s) × ((to_wire s).kind ≡ kind s)
unfolding to_wire kind IsCarried from_wire
from_wire-to_wire (time_based duration burst) (ms, small, e) = (
  ap (λ d. time_based d burst)
      (ap from_millis (ap as_millis e ∙ as_millis-from_millis ms small) ∙ sym e),
  refl,
)
from_wire-to_wire while_in_flight h = (refl, refl)
from_wire-to_wire (unknown name) h = (from_wire-named name h, refl)

IsCarried-from_wire :
    (w : StrategyWire) (fits : (ms : ℕ) → w.duration_ms ≡ some ms → ms < 2 ^ 64)
    → IsCarried (from_wire w)
unfolding from_wire IsCarried
IsCarried-from_wire w fits = elim (Bool-cases (str_eq w.kind "time_based")) [
  | inl e ↦ elim (Option-cases w.duration_ms) [
    | inl absent ↦
        rw (e, absent) (ap (λ k. str_eq k "while_in_flight") ((eq_iff w.kind "time_based").0 e))
    | inr (ms, present) ↦ rw (e, present) (ms, fits ms present, refl)
  ]
  | inr e ↦ elim (Bool-cases (str_eq w.kind "while_in_flight")) [
    | inl f ↦ rw (e, f) tt
    | inr f ↦ rw (e, f) f
  ]
]

-- What is read from a wire form whose duration is a number of 64 bits, known or not, and is then
-- written, is read as the same strategy again.
pub from_wire-again :
    (w : StrategyWire) (fits : (ms : ℕ) → w.duration_ms ≡ some ms → ms < 2 ^ 64)
    → from_wire (to_wire (from_wire w)) ≡ from_wire w
from_wire-again w fits = (from_wire-to_wire (from_wire w) (IsCarried-from_wire w fits)).0
