-- ===== src/Wire/Body.antt =====
-- `readBody` of internal/wire/wire.go.
--
-- The buffer is its capacity and the bytes it holds. The loop recurs on a count that stands for the
-- rounds that may be left; `read_body` gives it `n` rounds, and each round but the last adds a byte.
pub mod Laws
use et_go.Prelude.{
  ℕ, zero, suc, ◌-◌, ◌*◌, min, max, [], ◌++◌, Option, none, some, Bytes, length, leb, ltb,
  if◌then◌else◌,
}
use et_go.Wire.Stream.{Stream, read_full, Outcome, ok, err, io, body_err, grow_chunk}

-- The end of the next read step: `min(n, max(2*len(buf), growChunk))`.
pub next_step : ℕ → ℕ → ℕ
next_step n len = min n (max (2 * len) grow_chunk)

-- The capacity for a read up to `next`, grown when that does not fit.
pub grown : ℕ → ℕ → ℕ → ℕ
grown n cap next = if ltb cap next then min (max next (2 * cap)) (max n grow_chunk) else cap

-- The bytes read or the error, what is left of the stream, and the capacity of the buffer.
pub record BodyRead : Type 0 where
  pub outcome : Outcome Bytes
  pub rest : Stream
  pub capacity : ℕ

pub read_loop : ℕ → ℕ → Bytes → ℕ → Stream → BodyRead
read_loop zero n got cap s = record { outcome = ok got; rest = s; capacity = cap }
read_loop (suc rounds) n got cap s =
    let next = next_step n (length got) in
    let cap' = grown n cap next in
    let r = read_full (next - length got) s in
    let more = read_loop rounds n (got ++ r.got) cap' r.rest in
    let step : BodyRead = elim r.failed [
      | none ↦ more
      | some e ↦ record { outcome = err (io (body_err e)); rest = r.rest; capacity = cap' }
    ] in
    if ltb (length got) n then step else record { outcome = ok got; rest = s; capacity = cap }

-- Into a buffer of capacity `cap`.
unfoldable pub read_body : ℕ → ℕ → Stream → BodyRead
unfolding read_loop
read_body cap n s =
    let r = read_full n s in
    let direct : BodyRead = elim r.failed [
      | none ↦ record { outcome = ok r.got; rest = r.rest; capacity = cap }
      | some e ↦ record { outcome = err (io (body_err e)); rest = r.rest; capacity = cap }
    ] in
    let grow = read_loop n n [] cap s in if leb n cap then direct else grow
