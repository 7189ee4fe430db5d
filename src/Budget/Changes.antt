-- ===== src/Budget/Changes.antt =====
-- zizq/src/budget.rs: what any chain of calls on a `BudgetPatch` leaves of each field, and which bodies mix a change to
-- the strategy without a clock with a period or a burst.
use zizq_rust.Prelude.{
  ℕ, String, Bool, true, false, ◌||◌, Option, some, none, List, [], ◌∷◌, ◌≡◌, refl, ap, ◌∙◌,
  if◌then◌else◌,
}
use zizq_rust.Patch.{Field, keep, clear, set, is_keep}
use zizq_rust.Budget.{
  BudgetStrategy, Duration, time_based, while_in_flight, unknown, as_millis, kind,
}
use zizq_rust.Budget.Patch.{
  BudgetPatch, StrategyPatch, new, set_allocation, set_strategy, strategy_patch, strategy_mut,
  default_strategy, edit_strategy, set_duration, set_burst, clear_burst,
}

pub data Call : Type 0 where
  allocation : ℕ → Call
  strategy : BudgetStrategy → Call
  duration : Duration → Call
  burst : ℕ → Call
  no_burst : Call

unfoldable pub call : Call → BudgetPatch → Option BudgetPatch
unfolding set_allocation set_strategy set_duration set_burst clear_burst
call (allocation n) p = some (set_allocation n p)
call (strategy s) p = some (set_strategy s p)
call (duration d) p = set_duration d p
call (burst n) p = set_burst n p
call no_burst p = clear_burst p

unfoldable and_call : Call → Option BudgetPatch → Option BudgetPatch
unfolding call
and_call c none = none
and_call c (some p) = call c p

-- The chain's last call stands first; `none` is a panic.
unfoldable pub chain : List Call → Option BudgetPatch
unfolding new and_call
chain [] = some new
chain (c ∷ earlier) = and_call c (chain earlier)

-- What the last call that is about a field asks for.
unfoldable pub latest : {A : Type 0} → (Call → Option (Field A)) → List Call → Field A
latest asks [] = keep
latest asks (c ∷ earlier) = elim (asks c) [ none ↦ latest asks earlier | some state ↦ state ]

unfoldable pub asks_allocation : Call → Option (Field ℕ)
asks_allocation (allocation n) = some (set n)
asks_allocation _ = none

unfoldable pub asks_kind : Call → Option (Field String)
unfolding kind
asks_kind (strategy s) = some (set (kind s))
asks_kind _ = none

-- A strategy that is stated asks for its own period, and the others for none to be sent.
unfoldable pub asks_duration : Call → Option (Field ℕ)
unfolding as_millis
asks_duration (strategy (time_based d b)) = some (set (as_millis d))
asks_duration (strategy _) = some keep
asks_duration (duration d) = some (set (as_millis d))
asks_duration _ = none

-- A rate limit without a burst asks for none to be kept.
unfoldable pub asks_burst : Call → Option (Field ℕ)
asks_burst (strategy (time_based d none)) = some clear
asks_burst (strategy (time_based d (some b))) = some (set b)
asks_burst (strategy _) = some keep
asks_burst (burst n) = some (set n)
asks_burst no_burst = some clear
asks_burst _ = none

abbrev touches : Call → Bool
touches (allocation n) = false
touches _ = true

-- Some call is about the strategy.
unfoldable pub about_strategy : List Call → Bool
about_strategy [] = false
about_strategy (c ∷ earlier) = touches c || about_strategy earlier

unfoldable pub asked_strategy : List Call → StrategyPatch
asked_strategy calls = record {
  kind = latest asks_kind calls;
  duration_ms = latest asks_duration calls;
  burst = latest asks_burst calls;
}

unfoldable pub asked : List Call → BudgetPatch
unfolding about_strategy asked_strategy
asked calls = record {
  allocation = latest asks_allocation calls;
  strategy = if about_strategy calls then set (asked_strategy calls) else keep;
}

-- What `strategy_mut` is to give: the strategy so far.
strategy_mut-asked :
    (calls : List Call) → strategy_mut (asked calls).strategy ≡ some (asked_strategy calls)
unfolding asked about_strategy asked_strategy strategy_mut is_keep default_strategy latest asks_kind
    asks_duration asks_burst
strategy_mut-asked [] = refl
strategy_mut-asked (allocation n ∷ earlier) = strategy_mut-asked earlier
strategy_mut-asked (strategy s ∷ earlier) = refl
strategy_mut-asked (duration d ∷ earlier) = refl
strategy_mut-asked (burst n ∷ earlier) = refl
strategy_mut-asked (no_burst ∷ earlier) = refl

edit_strategy-asked :
    (write : StrategyPatch → StrategyPatch) (calls : List Call)
    → edit_strategy write (asked calls)
      ≡ some (record (asked calls) { strategy = set (write (asked_strategy calls)) })
unfolding edit_strategy
edit_strategy-asked write calls = rw (strategy_mut-asked calls, edit_strategy) refl

call-asked : (c : Call) (earlier : List Call) → call c (asked earlier) ≡ some (asked (c ∷ earlier))
unfolding call asked about_strategy asked_strategy latest set_allocation set_strategy strategy_patch
    default_strategy set_duration set_burst clear_burst asks_allocation asks_kind asks_duration
    asks_burst kind
call-asked (allocation n) earlier = refl
call-asked (strategy (time_based d none)) earlier = refl
call-asked (strategy (time_based d (some b))) earlier = refl
call-asked (strategy while_in_flight) earlier = refl
call-asked (strategy (unknown name)) earlier = refl
call-asked (duration d) earlier = edit_strategy-asked _ earlier
call-asked (burst n) earlier = edit_strategy-asked _ earlier
call-asked no_burst earlier = edit_strategy-asked _ earlier

-- No chain of calls panics. Its patch keeps the allocation unless a call sets it, and the strategy unless a call is
-- about it. The kind, the period and the burst are what the last call about each asks for: a strategy that is stated is
-- about all three, a rate limit without a burst clears it, and the other strategies send neither period nor burst.
pub chain-stated : (calls : List Call) → chain calls ≡ some (asked calls)
unfolding chain and_call new asked about_strategy latest
chain-stated [] = refl
chain-stated (c ∷ earlier) = ap (and_call c) (chain-stated earlier) ∙ call-asked c earlier
