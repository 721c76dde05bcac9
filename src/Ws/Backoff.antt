-- ===== src/Ws/Backoff.antt =====
-- The delay before a reconnection: `computeBackoff`.
use workflowui.Base.{ℕ, ◌*◌, ◌/◌, ◌^◌, ◌≤◌, ◌<◌, min, arith}
use workflowui.Ws.{compute_backoff, max_retry_ms, base_retry_ms}

scaled-le : (random capped : ℕ) → random < 2 ^ 53 → random * capped / 2 ^ 53 ≤ capped
scaled-le random capped h = grind arith

-- Where `Math.random()` is below 1, the delay before the n-th attempt is at most 15 seconds and at
-- most half a second times two to the n.
pub compute_backoff_bounds :
    (random attempt : ℕ)
    → random < 2 ^ 53
    → (compute_backoff random attempt ≤ 15000)
      × (compute_backoff random attempt ≤ 500 * 2 ^ attempt)
unfolding compute_backoff
compute_backoff_bounds random attempt h =
    let e = scaled-le random (min max_retry_ms (base_retry_ms * 2 ^ attempt)) h in
    (omega (arith, e), omega (arith, e))
