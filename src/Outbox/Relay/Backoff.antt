-- ===== src/Outbox/Relay/Backoff.antt =====
-- The wait before a retry.
use vp_parts.Base.{ℕ, zero, suc, ◌+◌, ◌-◌, ◌*◌, ◌≤◌, min, ◌≡◌, arith}
use native.Mathlib.Nat.{one-le-pow, pow-succ'}
use vp_parts.Outbox.Relay.{retry_delay_ms, first_retry_ms, longest_retry_ms}

-- The wait lies between the first and the longest, never falls from one attempt to the next, and
-- doubles as long as the double stays within the longest.
pub retry_delay_ms_backoff :
    (a : ℕ)
    → 1 ≤ a
    → (first_retry_ms ≤ retry_delay_ms a)
      × (retry_delay_ms a ≤ longest_retry_ms)
      × (retry_delay_ms (a + 1) ≡ min (2 * retry_delay_ms a) longest_retry_ms)
unfolding retry_delay_ms
retry_delay_ms_backoff zero h = absurd (omega arith)
retry_delay_ms_backoff (suc n) h =
    let e : suc n - 1 ≡ n = omega arith in
    let e' : suc n + 1 - 1 ≡ suc n = omega arith in
    let low = one-le-pow n 2 (omega arith) in
    let double = pow-succ' 2 n in rw (e, e') (omega arith, omega arith, omega arith)
