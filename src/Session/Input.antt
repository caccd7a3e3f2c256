-- ===== src/Session/Input.antt =====
-- internal/session/terminal.go: the keyboard input and the window size that wait for the sender.
--
-- What the code guards with a mutex is one step here, and a channel of capacity 1 that only signals is
-- whether its token is there. `push` gives the mutex back between two passes of its loop, so a pass is
-- one step and a wait ends with what its select received.
pub mod Order
use et_go.Prelude.{
  ℕ, zero, suc, ◌+◌, ◌-◌, ◌*◌, ◌^◌, min, List, [], ◌∷◌, ◌++◌, Bool, true, false, ◌||◌, Option, none,
  some, Bytes, length, take, drop, ◌==◌, if◌then◌else◌,
}

-- maxPending.
abbrev pub max_pending : ℕ
max_pending = 2 ^ 20

pub record PendingInput : Type 0 where
  pub buf : Bytes
  pub stalled : Bool
  pub limit : ℕ
  pub ready : Bool
  pub space : Bool

-- Where a call of `push` stands: it goes round with what is left, waits for room, or has returned.
pub data Push : Type 0 where
  looping waiting : Bytes → Push
  returned : Push

-- One pass of the loop in `push`, by how much goes in.
put_in : ℕ → Bytes → PendingInput → Push × PendingInput
put_in zero b p = (if p.stalled then returned else waiting b, p)
put_in (suc n) b p =
    (looping (drop (suc n) b), record p { buf = p.buf ++ take (suc n) b; ready = true })

unfoldable pub push_pass : Bytes → PendingInput → Push × PendingInput
unfolding put_in
push_pass [] p = (returned, p)
push_pass (x ∷ b) p = put_in (min (length (x ∷ b)) (p.limit - length p.buf)) (x ∷ b) p

-- What a waiting `push` receives: room, the end of the grace period, or the end of the session.
pub data PushWoken : Type 0 where
  room timeout session_done : PushWoken

unfoldable pub push_woken : PushWoken → Bytes → PendingInput → Push × PendingInput
push_woken room b p = (looping b, record p { space = false })
push_woken timeout b p = (returned, record p { stalled = true })
push_woken session_done b p = (returned, p)

-- `take`.
take_some : ℕ → PendingInput → Option Bytes × PendingInput
take_some zero p = (none, p)
take_some (suc n) p = (
  some (take (suc n) p.buf),
  record p { buf = drop (suc n) p.buf; stalled = false; space = true },
)

unfoldable pub take_input : ℕ → PendingInput → Option Bytes × PendingInput
unfolding take_some
take_input limit p = take_some (min limit (length p.buf)) p

pub record Size : Type 0 where
  pub rows : ℕ
  pub cols : ℕ
  pub width : ℕ
  pub height : ℕ

-- `latestSize`, with its two methods.
pub record LatestSize : Type 0 where
  pub sz : Size
  pub dirty : Bool
  pub changed : Bool

abbrev pub set_size : Size → LatestSize → LatestSize
set_size s l = record l { sz = s; dirty = true; changed = true }

abbrev pub take_size : LatestSize → Option Size × LatestSize
take_size l = if l.dirty then (some l.sz, record l { dirty = false }) else (none, l)

-- The size that `terminalInfo` sends; the window counts are within an int32.
abbrev pub terminal_info : Size → Size
terminal_info s = if s.rows == 0 || s.cols == 0 then record s { rows = 24; cols = 80 } else s
