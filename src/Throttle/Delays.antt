-- ===== src/Throttle/Delays.antt =====
-- The delays of a policy (core/internal/throttle/throttle.go, `Policy.Delay`).
use native.Mathlib.Nat.{pow-suc}
use notekeeper.Common.{ℕ, zero, suc, ◌+◌, ◌-◌, ◌*◌, ◌^◌, ◌≤◌, ◌<◌, ◌≡◌, ◌↔◌, ◌⊎◌, arith, min, ap}
use notekeeper.Throttle.{Policy, delay}

pow-pos : (n : ℕ) → 0 < 2 ^ n
pow-pos zero = omega arith
pow-pos (suc n) = omega (arith, pow-suc 2 n, pow-pos n)

pow_mono : (d n m : ℕ) → d + n ≡ m → 2 ^ n ≤ 2 ^ m
pow_mono zero n m e = let q : n ≡ m = omega arith in rw q (omega arith)
pow_mono (suc d) n zero e = absurd (omega arith)
pow_mono (suc d) n (suc m) e = omega (arith, pow-suc 2 m, pow_mono d n m (omega arith))

-- A delay never passes the policy's ceiling, and it is zero exactly for the free failures or where the
-- ceiling is zero.
pub delay_bounds :
    (p : Policy) (n : ℕ)
    → (delay p n ≤ p.max_delay) × ((delay p n ≡ 0) ↔ ((n ≤ p.free) ⊎ (p.max_delay ≡ 0)))
unfolding delay
delay_bounds p n = (
  ground arith,
  ((λ h. ground (arith, pow-pos (n - p.free))), (λ h. ground (arith, pow-pos (n - p.free)))),
)

-- More failures never shorten the delay.
pub delay_growth : (p : Policy) (n m : ℕ) → n ≤ m → delay p n ≤ delay p m
unfolding delay
delay_growth p n m h = ground (arith, pow_mono (m - n) (n - p.free) (m - p.free))

-- Within twenty failures over the free ones, one failure more doubles the delay, up to the ceiling.
pub delay_doubles :
    (p : Policy) (n : ℕ)
    → p.free < n
    → n < p.free + 20
    → delay p (n + 1) ≡ min (delay p n * 2) p.max_delay
unfolding delay
delay_doubles p n a b = ground (arith, pow-suc 2 (n - p.free), ap (λ k. 2 ^ k) (next p n a))
  where
    next : (p : Policy) (n : ℕ) → p.free < n → n + 1 - p.free ≡ suc (n - p.free)
    next p n a = omega arith
