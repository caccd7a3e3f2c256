-- ===== src/Etcp/Writer/Passing.antt =====
-- A whole pass of the writer.
use et_go.Prelude.{ℕ, ◌+◌, ◌-◌, ◌≤◌, ◌<◌, ◌≡◌, ◌⊎◌, List, ◌++◌, Bytes, total, length, take, drop}
use et_go.Etcp.Conn.{Conn}
use et_go.Etcp.Conn.Invariant.{IsConn}
use et_go.Etcp.Writer.{write_buf_size, Pass, nothing_new, corrupt_ring, write_broken, passed}
use et_go.Etcp.Writer.Framing.{frames}

-- The history and the state behind a pass that began on `c` and settles on `later`.
abbrev pub Passes : Bytes → List Bytes → List Bytes → Conn → Conn → Pass → Type 0
Passes start h more c later nothing_new = c.flushed ≡ length h
Passes start h more c later (corrupt_ring d) = ⊥
Passes start h more c later (write_broken e w) =
    (n : ℕ) × (rest : Bytes) × (w ++ rest ≡ frames (take n (drop c.flushed h)))
Passes start h more c later (passed n w d) =
    (0 < n)
    × (c.flushed + n ≤ length h)
    × (w ≡ frames (take n (drop c.flushed h)))
    × ((length w ≤ write_buf_size) ⊎ (n ≡ 1))
    × (d.flushed ≡ c.flushed + n)
    × (d.unsent ≡ later.unsent - total (take n (drop c.flushed h)))
    × IsConn start (h ++ more) d
