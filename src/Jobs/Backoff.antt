-- ===== src/Jobs/Backoff.antt =====
-- The delays between retries.
use native.Mathlib.Nat.{pow-suc}
use switchpilot.Prelude.{ℕ, zero, suc, ◌+◌, ◌-◌, ◌^◌, ◌≤◌, ◌≡◌, arith}
use switchpilot.Jobs.Service.{backoff_ms}

pow_mono : (a k : ℕ) → 2 ^ a ≤ 2 ^ (k + a)
pow_mono a zero = let e : 0 + a ≡ a = omega arith in rw e (omega arith)
pow_mono a (suc k) =
    let e : suc k + a ≡ suc (k + a) = omega arith in
    rw (e, pow-suc 2 (k + a)) (omega (arith, pow_mono a k))

pow_pos : (a : ℕ) → 1 ≤ 2 ^ a
pow_pos zero = omega arith
pow_pos (suc a) = rw pow-suc (omega (arith, pow_pos a))

-- A later attempt never waits less than an earlier one, and every wait is between 1 second and
-- 5 minutes.
pub backoff_ms_mono :
    (a b : ℕ)
    → a ≤ b
    → (1000 ≤ backoff_ms a) × (backoff_ms a ≤ backoff_ms b) × (backoff_ms b ≤ 300000)
unfolding backoff_ms
backoff_ms_mono a b h =
    let e : b ≡ (b - a) + a = omega arith in
    let grows : 2 ^ a ≤ 2 ^ b = rw e (pow_mono a (b - a)) in let pos = pow_pos a in ground arith
