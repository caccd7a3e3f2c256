-- ===== src/Session/Transport.antt =====
-- internal/session/session.go: the Transport that a session reads its packets from, as the contract
-- that the router relies on, and internal/etcp's Conn as one.
pub mod Routed
use et_go.Prelude.{
  ℕ, zero, suc, ◌≡◌, List, [], ◌∷◌, ◌++◌, Bool, true, false, Option, none, some, if◌then◌else◌,
}
use et_go.Protocol.{Packet}
use et_go.Wire.Stream.{clean_eof, io, is_eof}
use et_go.Etcp.Conn.{
  Conn, Err, session_ended, wire, Taken, packet, failed, blocked, read_packet, from_conn,
}
use et_go.Session.Router.{Event, got_packet, at_eof}
use et_go.Session.Router

-- What a ReadPacket gave: a packet, an error that wraps io.EOF or another one, or nothing yet.
pub data Read : Type 0 where
  got : Packet → Read
  eof : Read
  read_error : ℕ → Read
  waits : Read

-- How the packets end: by the server's end of the session, or with an error.
pub data Ending : Type 0 where
  session_end : Ending
  failure : ℕ → Ending

abbrev pub end_read : Ending → Read
end_read session_end = eof
end_read (failure e) = read_error e

-- The contract of `ReadPacket`, on a transport that has come to its end: the packets that still wait are
-- returned one by one, and behind them the end.
pub record IsTransport {S : Type 0} (read : S → Read × S) (waiting : S → List Packet)
    (ending : S → Option Ending) : Type 0 where
  pub gives :
      (s : S) (e : Ending) (p : Packet) (ps : List Packet)
      → ending s ≡ some e
      → waiting s ≡ p ∷ ps
      → ((read s).0 ≡ got p) × (waiting (read s).1 ≡ ps) × (ending (read s).1 ≡ some e)
  pub ends : (s : S) (e : Ending) → ending s ≡ some e → waiting s ≡ [] → (read s).0 ≡ end_read e

-- The reads of the router's loop, as its events.
abbrev pub event_of : Read → List Event
event_of (got p) = got_packet p none ∷ []
event_of eof = at_eof ∷ []
event_of (read_error e) = Router.failed e ∷ []
event_of waits = []

pub reads : {S : Type 0} → (S → Read × S) → ℕ → S → List Event
reads read zero s = []
reads read (suc n) s = let (r, s') = read s in event_of r ++ reads read n s'

-- `errors.Is(err, io.EOF)` for an error of the Conn.
abbrev pub wraps_eof : Err → Bool
wraps_eof session_ended = true
wraps_eof (wire clean_eof) = true
wraps_eof (wire (io e)) = is_eof e
wraps_eof e = false

-- The Conn's ReadPacket, without a caller's context. `name` tells its errors apart.
module _ (name : Err → ℕ) where
  abbrev pub ending_of : Err → Ending
  ending_of e = if wraps_eof e then session_end else failure (name e)

  conn_answer : Taken → Read
  conn_answer (packet p) = got p
  conn_answer (failed e) = end_read (ending_of e)
  conn_answer blocked = waits

  unfoldable pub conn_read : Conn → Read × Conn
  unfolding conn_answer
  conn_read c = let (t, c') = read_packet from_conn c in (conn_answer t, c')

  abbrev pub conn_ending : Conn → Option Ending
  conn_ending c = elim c.ended [
    | none ↦ none
    | some e ↦ if c.readers_done then some (ending_of e) else none
  ]
