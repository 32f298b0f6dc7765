-- ===== src/Dispatcher/Backoff.antt =====
-- autonomy/dispatcher.py: the delays between the attempts.
use native.Mathlib.Nat.{one-le-pow, pow-le-pow_right}
use cogito_agent.Prelude.{ℕ, ◌+◌, ◌-◌, ◌^◌, ◌≤◌, ◌≡◌, arith}
use cogito_agent.Dispatcher.Send.{compute_backoff}

pow_pos : (k : ℕ) → 1 ≤ 2 ^ k
pow_pos k = one-le-pow k 2 (omega arith)

pow_mono : (k : ℕ) → 2 ^ (k - 1) ≤ 2 ^ k
pow_mono k = pow-le-pow_right {n = 2} (omega arith) (omega arith)

pred_suc : (k : ℕ) → k + 1 - 1 ≡ k
pred_suc k = omega arith

-- Every delay is between half a minute and an hour, and no shorter than the one before it.
pub backoff_bounds :
    (attempt : ℕ)
    → (30 ≤ compute_backoff attempt)
      × (compute_backoff attempt ≤ 3600)
      × (compute_backoff attempt ≤ compute_backoff (attempt + 1))
unfolding compute_backoff
backoff_bounds attempt = (
  omega (arith, pow_pos (attempt - 1)),
  omega arith,
  rw (pred_suc attempt) (omega (arith, pow_mono attempt)),
)
