-- ===== src/Tests/Patch.antt =====
-- Patches of jobs and of budgets on concrete calls.
use zizq_rust.Prelude.{true, ◌≡◌, refl, arith, String, some, List, [], ◌∷◌}
use zizq_rust.Patch.{keep, clear, set, num}
use zizq_rust.Patch.Job.{JobPatch, write_patch}
use zizq_rust.Patch.Calls
use zizq_rust.Patch.Body.{read, map_field, read-write_patch}
use zizq_rust.Budget.{
  BudgetStrategy, time_based, while_in_flight, from_millis, from_wire, to_wire, kind,
}
use zizq_rust.Budget.Wire.{IsCarried, from_wire-to_wire}
use zizq_rust.Budget.Patch
use zizq_rust.Budget.Patch.{BudgetPatch}
use zizq_rust.Budget.Changes
use zizq_rust.Budget.Mixed.{mixes, mixed_by, mixes-write_patch}

abbrev undone : List (Calls.Call String)
undone = Calls.now ∷ Calls.unpriority ∷ Calls.retry_limit 5 ∷ Calls.priority 9 ∷ []

abbrev undone_patch : JobPatch String
undone_patch = record {
  queue = keep;
  priority = keep;
  ready_at = clear;
  retry_limit = set 5;
  backoff = keep;
  retention = keep;
}

chain-asked_example : Calls.chain undone ≡ undone_patch
unfolding Calls.asked Calls.last_asked
chain-asked_example = Calls.chain-asked undone

read-write_patch_example :
    (read "queue" (write_patch undone_patch) ≡ keep)
    × (read "priority" (write_patch undone_patch) ≡ keep)
    × (read "ready_at" (write_patch undone_patch) ≡ clear)
    × (read "retry_limit" (write_patch undone_patch) ≡ set (num 5))
    × (read "backoff" (write_patch undone_patch) ≡ keep)
    × (read "retention" (write_patch undone_patch) ≡ keep)
unfolding map_field
read-write_patch_example = read-write_patch undone_patch

abbrev hourly : BudgetStrategy
hourly = time_based (from_millis 3_600_000) (some 500)

from_wire-to_wire_example :
    (from_wire (to_wire hourly) ≡ hourly) × ((to_wire hourly).kind ≡ "time_based")
unfolding kind IsCarried
from_wire-to_wire_example = from_wire-to_wire hourly (3_600_000, omega arith, refl)

-- The latest call stands first.
abbrev spiky : List Changes.Call
spiky =
    Changes.burst 500
    ∷ Changes.strategy while_in_flight
    ∷ Changes.allocation 20
    ∷ Changes.duration (from_millis 60_000)
    ∷ []

abbrev spiky_patch : BudgetPatch
spiky_patch = record {
  allocation = set 20;
  strategy = set (record { kind = set "while_in_flight"; duration_ms = keep; burst = set 500 });
}

chain-stated_example : Changes.chain spiky ≡ some spiky_patch
unfolding Changes.asked Changes.latest kind Changes.asks_allocation Changes.asks_kind
    Changes.asks_duration Changes.asks_burst
chain-stated_example = Changes.chain-stated spiky

mixes-write_patch_example : mixes (Patch.write_patch {F = String} spiky_patch) ≡ true
unfolding Changes.chain mixed_by
mixes-write_patch_example = mixes-write_patch String spiky spiky_patch refl
