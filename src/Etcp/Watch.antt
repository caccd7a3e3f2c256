-- ===== src/Etcp/Watch.antt =====
-- The watcher of internal/etcp/link.go: when a quiet link is declared dead.
pub mod Silence
use et_go.Prelude.{List, [], ◌∷◌, Bool, true, false, Option, none, some}
use et_go.Seal.{Secretbox}
use et_go.Etcp.Conn.{Conn, Err, link_dead, sealed_none, probe_once}

-- What the select of `watch` received: the end of the link, a sign of life, or the timer, with whether
-- the reader was blocked on its caller then. The connection that a tick finds is that of the moment.
pub data WatchEvent : Type 0 where
  link_ended : Err → WatchEvent
  sign : WatchEvent
  tick : Bool → Conn → WatchEvent

-- A round of the loop: the error it returns, whether a probe is out, and the connection behind a tick.
pub record Watched : Type 0 where
  pub result : Option Err
  pub probed : Bool
  pub behind : Option Conn

module _ (box : Secretbox) where
  -- The switch of a tick, by `delivering`, `sealedNone` and `probed`.
  on_tick : Bool → Bool → Bool → Conn → Watched
  on_tick true unsent probed c = record { result = none; probed = false; behind = some c }
  on_tick false true probed c = record { result = none; probed = false; behind = some c }
  on_tick false false true c = record { result = some link_dead; probed = true; behind = some c }
  on_tick false false false c = record {
    result = none;
    probed = true;
    behind = some (probe_once box c);
  }

  unfoldable pub watch_event : Bool → WatchEvent → Watched
  unfolding on_tick
  watch_event probed (link_ended e) = record { result = some e; probed = probed; behind = none }
  watch_event probed sign = record { result = none; probed = false; behind = none }
  watch_event probed (tick delivering c) = on_tick delivering (sealed_none c) probed c

  -- `watch` over its events; `none` is that it still waits.
  unfoldable pub watch : Bool → List WatchEvent → Option Err
  watch probed [] = none
  watch probed (e ∷ es) =
      let r = watch_event probed e in
      let rest = watch r.probed es in elim r.result [ none ↦ rest | some x ↦ some x ]
