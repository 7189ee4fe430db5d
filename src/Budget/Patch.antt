-- ===== src/Budget/Patch.antt =====
-- zizq/src/budget.rs: `BudgetPatch`, its setters and its serialised body.
use zizq_rust.Prelude.{ℕ, String, true, false, Option, some, none}
use zizq_rust.Patch.{
  Field, keep, clear, set, is_keep, Doc, num, str, obj, Members, end, write_field,
}
use zizq_rust.Budget.{BudgetStrategy, Duration, time_based, while_in_flight, unknown, as_millis}

pub record StrategyPatch : Type 0 where
  pub kind : Field String
  pub duration_ms : Field ℕ
  pub burst : Field ℕ

pub record BudgetPatch : Type 0 where
  pub allocation : Field ℕ
  pub strategy : Field StrategyPatch

unfoldable pub default_strategy : StrategyPatch
default_strategy = record { kind = keep; duration_ms = keep; burst = keep }

unfoldable pub new : BudgetPatch
new = record { allocation = keep; strategy = keep }

unfoldable pub set_allocation : ℕ → BudgetPatch → BudgetPatch
set_allocation allocation p = record p { allocation = set allocation }

abbrev burst_field : Option ℕ → Field ℕ
burst_field none = clear
burst_field (some burst) = set burst

-- The patch that states a strategy outright.
unfoldable pub strategy_patch : BudgetStrategy → StrategyPatch
unfolding as_millis default_strategy
strategy_patch (time_based duration burst) = record {
  kind = set "time_based";
  duration_ms = set (as_millis duration);
  burst = burst_field burst;
}
strategy_patch while_in_flight = record default_strategy { kind = set "while_in_flight" }
strategy_patch (unknown kind) = record default_strategy { kind = set kind }

unfoldable pub set_strategy : BudgetStrategy → BudgetPatch → BudgetPatch
unfolding strategy_patch
set_strategy strategy p = record p { strategy = set (strategy_patch strategy) }

-- What `strategy_mut` gives, for the caller to write a field of; no setter makes the strategy a `clear`,
-- at which the code panics.
unfoldable pub strategy_mut : Field StrategyPatch → Option StrategyPatch
unfolding is_keep default_strategy
strategy_mut field = elim (is_keep field) [
  | true ↦ some default_strategy
  | false ↦ elim field [ set patch ↦ some patch | _ ↦ none ]
]

-- A write through `strategy_mut`.
unfoldable pub edit_strategy : (StrategyPatch → StrategyPatch) → BudgetPatch → Option BudgetPatch
unfolding strategy_mut
edit_strategy write p = elim (strategy_mut p.strategy) [
  | none ↦ none
  | some patch ↦ some (record p { strategy = set (write patch) })
]

unfoldable pub set_duration : Duration → BudgetPatch → Option BudgetPatch
unfolding edit_strategy as_millis
set_duration duration = edit_strategy (λ s. record s { duration_ms = set (as_millis duration) })

unfoldable pub set_burst : ℕ → BudgetPatch → Option BudgetPatch
unfolding edit_strategy
set_burst burst = edit_strategy (λ s. record s { burst = set burst })

unfoldable pub clear_burst : BudgetPatch → Option BudgetPatch
unfolding edit_strategy
clear_burst = edit_strategy (λ s. record s { burst = clear })

module _ {F : Type 0} where
  -- The derived `Serialize`.
  unfoldable pub write_strategy : StrategyPatch → Doc F
  unfolding write_field
  write_strategy s = obj (
      write_field "type" str s.kind
        (write_field "duration_ms" num s.duration_ms (write_field "burst" num s.burst end)))

  unfoldable pub write_patch : BudgetPatch → Members F
  unfolding write_field write_strategy
  write_patch p =
      write_field "allocation" num p.allocation
        (write_field "strategy" write_strategy p.strategy end)
