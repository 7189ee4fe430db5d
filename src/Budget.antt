-- ===== src/Budget.antt =====
-- zizq/src/budget.rs: the strategies and their wire form, policies, bindings and request bodies.
pub mod Wire
pub mod Patch
pub mod Changes
pub mod Mixed
use text.Mathlib.Text.{◌==◌ as str_eq}
use zizq_rust.Prelude.{ℕ, ◌*◌, ◌/◌, ◌%◌, ◌^◌, String, Bool, Option, some, none, List, if◌then◌else◌}

-- `std::time::Duration`, in nanoseconds.
pub record Duration : Type 0 where
  pub nanos : ℕ

abbrev nanos_per_milli : ℕ
nanos_per_milli = 1_000_000

unfoldable pub from_millis : ℕ → Duration
from_millis ms = record { nanos = ms * nanos_per_milli }

-- `duration.as_millis() as u64`
unfoldable pub as_millis : Duration → ℕ
as_millis d = (d.nanos / nanos_per_milli) % 2 ^ 64

pub data BudgetStrategy : Type 0 where
  time_based : Duration → Option ℕ → BudgetStrategy
  while_in_flight : BudgetStrategy
  unknown : String → BudgetStrategy

-- `BudgetStrategy::time_based`
unfoldable pub time_based_strategy : Duration → BudgetStrategy
time_based_strategy duration = time_based duration none

unfoldable pub kind : BudgetStrategy → String
kind (time_based duration burst) = "time_based"
kind while_in_flight = "while_in_flight"
kind (unknown name) = name

pub record StrategyWire : Type 0 where
  pub kind : String
  pub duration_ms : Option ℕ
  pub burst : Option ℕ

unfoldable pub from_wire : StrategyWire → BudgetStrategy
unfolding from_millis
from_wire w =
    if str_eq w.kind "time_based"
    then elim w.duration_ms [
      | none ↦ unknown w.kind
      | some ms ↦ time_based (from_millis ms) w.burst
    ]
    else if str_eq w.kind "while_in_flight"
    then while_in_flight
    else unknown w.kind

unfoldable pub to_wire : BudgetStrategy → StrategyWire
unfolding as_millis
to_wire (time_based duration burst) = record {
  kind = "time_based";
  duration_ms = some (as_millis duration);
  burst = burst;
}
to_wire while_in_flight = record { kind = "while_in_flight"; duration_ms = none; burst = none }
to_wire (unknown name) = record { kind = name; duration_ms = none; burst = none }

pub record BudgetPolicy : Type 0 where
  pub allocation : ℕ
  pub strategy : BudgetStrategy

unfoldable pub new_policy : ℕ → BudgetStrategy → BudgetPolicy
new_policy allocation strategy = record { allocation = allocation; strategy = strategy }

pub record BudgetBindingInput : Type 0 where
  pub key : String
  pub cost : Option ℕ
  pub create_with : Option BudgetPolicy

unfoldable pub new_binding : String → BudgetBindingInput
new_binding key = record { key = key; cost = none; create_with = none }

unfoldable pub with_policy : String → BudgetPolicy → BudgetBindingInput
with_policy key policy = record { key = key; cost = none; create_with = some policy }

unfoldable pub set_cost : ℕ → BudgetBindingInput → BudgetBindingInput
set_cost cost binding = record binding { cost = some cost }

unfoldable pub create_with : BudgetPolicy → BudgetBindingInput → BudgetBindingInput
create_with policy binding = record binding { create_with = some policy }

pub record BindingBody : Type 0 where
  pub cost : Option ℕ
  pub create_with : Option BudgetPolicy

unfoldable pub binding_body : BudgetBindingInput → BindingBody
binding_body binding = record { cost = binding.cost; create_with = binding.create_with }
