-- ===== src/Session/Queue.antt =====
-- internal/session/router.go: the queue of a service, which the router fills and closes and the
-- service's iterator empties.
--
-- The channel is its packets and whether it is closed. `drained` is that the channel of that name is
-- closed, which the iterator does as it returns.
pub mod Draining
use et_go.Prelude.{
  ℕ, zero, suc, List, [], ◌∷◌, ◌++◌, Bool, true, false, Option, none, some, length, ltb,
  if◌then◌else◌,
}
use et_go.Protocol.{Packet}

-- `queueLen`.
abbrev pub queue_len : ℕ
queue_len = 64

pub record Queue : Type 0 where
  pub items : List Packet
  pub closed : Bool
  pub drained : Bool

abbrev pub new_queue : Queue
new_queue = record { items = []; closed = false; drained = false }

-- The router's send; none is that it waits.
unfoldable pub try_send : Packet → Queue → Option Queue
try_send p q =
    if ltb (length q.items) queue_len then some (record q { items = q.items ++ (p ∷ []) }) else none

unfoldable pub close_queue : Queue → Queue
close_queue q = record q { closed = true }

-- `markDrained`.
unfoldable pub mark_drained : Queue → Queue
mark_drained q = record q { drained = true }

-- The case that the select in `packets` takes; with a packet goes what yield answers to it.
pub data Choice : Type 0 where
  receive : Bool → Choice
  context_done : Choice

-- What a pass of the iterator comes to: a packet yielded, the end, or a wait.
pub data Yielded : Type 0 where
  gave : Packet → Yielded
  finished : Yielded
  waits : Yielded

from_channel : Bool → List Packet → Bool → Queue → Yielded × Queue
from_channel more (p ∷ ps) closed q =
    let q' = record q { items = ps } in (gave p, if more then q' else mark_drained q')
from_channel more [] true q = (finished, mark_drained q)
from_channel more [] false q = (waits, q)

-- A pass of the loop in `packets`.
unfoldable pub pass : Choice → Queue → Yielded × Queue
unfolding from_channel mark_drained
pass context_done q = (finished, mark_drained q)
pass (receive more) q = from_channel more q.items q.closed q

-- Passes for a service that takes all that it is given: what it got, and the queue behind them.
abbrev yielded : Yielded → List Packet
yielded (gave p) = p ∷ []
yielded finished = []
yielded waits = []

unfoldable pub passes : ℕ → Queue → List Packet × Queue
passes zero q = ([], q)
passes (suc n) q =
    let (y, q') = pass (receive true) q in
    let (rest, q'') = passes n q' in if q.drained then ([], q) else (yielded y ++ rest, q'')
