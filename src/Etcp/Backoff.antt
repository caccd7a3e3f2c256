-- ===== src/Etcp/Backoff.antt =====
-- internal/etcp/backoff.go: the delay before each reconnect attempt, in nanoseconds.
--
-- Go computes the jitter in floating point. `jittered d` stands for
-- `time.Duration(float64(d) * (0.8 + 0.4*j()))`.
pub mod Laws
use et_go.Prelude.{ℕ, ◌+◌, ◌-◌, ◌*◌, ◌^◌, min, ◌==◌, if◌then◌else◌}

abbrev pub millisecond : ℕ
millisecond = 10 ^ 6

-- backoffBase and backoffMax.
abbrev pub backoff_base : ℕ
backoff_base = 250 * millisecond

abbrev pub backoff_max : ℕ
backoff_max = 5000 * millisecond

pub record Backoff : Type 0 where
  pub attempt : ℕ

-- `next`.
unfoldable pub next_delay : (ℕ → ℕ) → Backoff → ℕ × Backoff
next_delay jittered b =
    let n = b.attempt in
    let b' : Backoff = record b { attempt = n + 1 } in
    let d = min (backoff_base * 2 ^ min (n - 1) 5) backoff_max in
    if n == 0 then (0, b') else (min (jittered d) backoff_max, b')

-- `reset`.
unfoldable pub reset : Backoff → Backoff
reset b = record b { attempt = 0 }
