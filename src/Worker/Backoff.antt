-- ===== src/Worker/Backoff.antt =====
-- zizq/src/worker.rs: the exponential backoff of reconnects and retries.
use zizq_rust.Prelude.{ℕ, zero, suc, ◌*◌, ◌^◌, ◌≤◌, ◌≡◌, min, arith}
use native.Mathlib.Nat.{pow-suc}

abbrev pub initial_backoff : ℕ
initial_backoff = 500

abbrev pub max_backoff : ℕ
max_backoff = 30_000

unfoldable pub next_backoff : ℕ → ℕ
next_backoff current = min (current * 2) max_backoff

-- The wait before the retry that follows `n` failed retries.
unfoldable pub backoff_after : ℕ → ℕ
backoff_after zero = initial_backoff
backoff_after (suc n) = next_backoff (backoff_after n)

pub next_backoff-bounds :
    (b : ℕ)
    → initial_backoff ≤ b
    → (initial_backoff ≤ next_backoff b) × (next_backoff b ≤ max_backoff)
unfolding next_backoff
next_backoff-bounds b h = omega arith

-- The waits double from half a second, and stay at 30 seconds once they reach them.
pub backoff_after-eq : (n : ℕ) → backoff_after n ≡ min (initial_backoff * 2 ^ n) max_backoff
unfolding backoff_after next_backoff
backoff_after-eq zero = omega arith
backoff_after-eq (suc n) = omega (arith, backoff_after-eq n, pow-suc 2 n)
