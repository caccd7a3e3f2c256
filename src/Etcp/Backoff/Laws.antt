-- ===== src/Etcp/Backoff/Laws.antt =====
-- The schedule that `next_delay` follows.
use et_go.Prelude.{ℕ, ◌+◌, ◌-◌, ◌*◌, ◌^◌, ◌≤◌, ◌<◌, ◌≡◌, ap, min, arith}
use native.Mathlib.Decide.{dec_lt}
use native.Mathlib.Nat.{pow-le-pow_right}
use et_go.Etcp.Backoff.{Backoff, next_delay, backoff_base, backoff_max}

-- What Go's floating point gives: within a fifth of `d` either way, and a nanosecond of rounding.
pub record IsJitter (jittered : ℕ → ℕ) : Type 0 where
  pub above : (d : ℕ) → 4 * d ≤ 5 * jittered d + 5
  pub below : (d : ℕ) → 5 * jittered d ≤ 6 * d

pow_mono : {k : ℕ} → 5 ≤ k → 2 ^ 5 ≤ 2 ^ k
pow_mono h = pow-le-pow_right (omega arith) h

clamp_exact :
    (n : ℕ) → min (backoff_base * 2 ^ min n 5) backoff_max ≡ min (backoff_base * 2 ^ n) backoff_max
clamp_exact n = elim (dec_lt n 5) [
  | yes h ↦ let e : min n 5 ≡ n = omega arith in ap (λ k. min (backoff_base * 2 ^ k) backoff_max) e
  | no h ↦ let e : min n 5 ≡ 5 = omega arith in rw e (omega (arith, pow_mono {k = n} (omega arith)))
]

-- With a jitter within a fifth, the first attempt has no delay. The delay before the `n + 2`-nd is the base doubled `n` times, or the
-- cap, whichever is less, to within a fifth either way and a nanosecond; no jitter takes it above the
-- cap, and every attempt counts.
pub next_delay-schedule :
    (jittered : ℕ → ℕ) (b : Backoff)
    → IsJitter jittered
    → let (d, b') = next_delay jittered b in
      let ideal = min (backoff_base * 2 ^ (b.attempt - 1)) backoff_max in
      (b'.attempt ≡ b.attempt + 1)
      × (d ≤ backoff_max)
      × (b.attempt ≡ 0 → d ≡ 0)
      × (0 < b.attempt → (4 * ideal ≤ 5 * d + 5) × (5 * d ≤ 6 * ideal))
unfolding next_delay
next_delay-schedule jittered b j =
    let ideal = min (backoff_base * 2 ^ min (b.attempt - 1) 5) backoff_max in
    ground (arith, clamp_exact (b.attempt - 1), j.above ideal, j.below ideal)
