-- ===== src/Etcp/Conn.antt =====
-- internal/etcp/conn.go: the state of a connection, the packets that its caller writes and reads.
--
-- What the code guards with `mu` is one step here. A channel of capacity 1 that only signals, `wake` or
-- `space`, is whether its token is there. `ended` is the cause of the connection's context.
pub mod Invariant
pub mod Caller
use et_go.Prelude.{
  ℕ, ◌+◌, ◌-◌, List, [], ◌∷◌, ◌++◌, Bool, true, false, ◌||◌, Option, none, some, Bytes, length, ltb,
  leb, ◌==◌, if◌then◌else◌, replicate, ℤ, pos, at_or_after,
}
use et_go.Protocol.{Packet}
use et_go.Wire.Stream.{WireErr, max_frame_size}
use et_go.Wire.Packet.{append_packet, outside}
use et_go.Seal.{Secretbox, seal, overhead}
use et_go.Seal
use et_go.Etcp.Ring.{Ring, next, push, trim}

-- The errors of the package, by what errors.Is tells apart. `wire` wraps an error of internal/wire,
-- `caller` is the cause of a context that the caller passed.
pub data Err : Type 0 where
  session_ended version_mismatch integrity replay_exceeded rejected : Err
  closed link_dead too_large : Err
  wire : WireErr → Err
  caller : ℕ → Err

pub record Conn : Type 0 where
  pub probe : Packet
  pub ended : Option Err
  pub out : Seal.Stream
  pub ring : Ring
  pub flushed : ℕ
  pub unsent : ℕ
  pub last_probe : ℤ
  pub inward : Seal.Stream
  pub recv_seq : ℕ
  pub pending : List Packet
  pub inbox : List Packet
  pub readers_done : Bool
  pub wake : Bool
  pub space : Bool

-- inboxSize and maxPayload.
abbrev pub inbox_size : ℕ
inbox_size = 64

abbrev pub max_payload : ℕ
max_payload = max_frame_size - 2 - overhead

-- `fail`: only the first cause of a context counts.
unfoldable pub fail : Err → Conn → Conn
fail e c = elim c.ended [ none ↦ record c { ended = some e } | some _ ↦ c ]

-- `releaseLocked`: the trimmed state, and whether the backlog is at or below the limit.
unfoldable pub release : Conn → Conn × Bool
release c = let r = trim c.flushed c.unsent c.ring in (record c { ring = r }, leb c.unsent r.limit)

-- `sealedNone`.
unfoldable pub sealed_none : Conn → Bool
sealed_none c = next c.ring == 0

-- What a call of WritePacket has come to: it returned an error or nil, or waits for room.
pub data Written : Type 0 where
  refused : Err → Written
  queued : Written
  waiting : Written

-- What the select of a waiting call received. `room` takes the token of `space`.
pub data Woken : Type 0 where
  room : Woken
  caller_ended : Err → Woken
  conn_ended : Err → Woken

module _ (box : Secretbox) where
  -- The bytes of one sealed packet, and the stream behind them.
  unfoldable pub seal_packet : Packet → Seal.Stream → Bytes × Seal.Stream
  seal_packet p s =
      let room = replicate (2 + overhead + length p.payload) 0 in
      seal box (append_packet room 0 true p.header (outside [])) p.payload s

  -- `enqueueLocked`.
  unfoldable pub enqueue : Packet → Conn → Conn
  enqueue p c =
      let (d, out) = seal_packet p c.out in
      record c { out = out; ring = push d c.ring; unsent = c.unsent + length d }

  -- `probeOnce`, by whether an earlier probe is still unwritten.
  probe_unless : Bool → Conn → Conn
  probe_unless true c = c
  probe_unless false c = record (enqueue c.probe (record c { last_probe = pos (next c.ring) })) {
    wake = true;
  }

  unfoldable pub probe_once : Conn → Conn
  unfolding probe_unless
  probe_once c = probe_unless (at_or_after c.last_probe c.flushed) c

  -- One pass of the loop in `WritePacket`, up to the select: by whether the backlog has room, and
  -- before that by the cause of the connection's end.
  write_room : Bool → Packet → Conn → Written × Conn
  write_room true p c =
      let c' = enqueue p c in
      (queued, record c' { wake = true; space = c'.space || leb c'.unsent c'.ring.limit })
  write_room false p c = (waiting, c)

  write_alive : Option Err → Packet → Conn → Written × Conn
  write_alive (some e) p c = (refused e, c)
  write_alive none p c = write_room (leb c.unsent c.ring.limit) p c

  unfoldable pub write_pass : Packet → Conn → Written × Conn
  unfolding write_room write_alive
  write_pass p c = write_alive c.ended p c

  -- The call itself, where `ctx` is the cause of a caller's context that has ended.
  write_caller : Option Err → Packet → Conn → Written × Conn
  write_caller (some e) p c = (refused e, c)
  write_caller none p c = write_pass p c

  unfoldable pub write_packet : Option Err → Packet → Conn → Written × Conn
  unfolding write_caller
  write_packet ctx p c =
      if ltb max_payload (length p.payload) then (refused too_large, c) else write_caller ctx p c

  unfoldable pub write_woken : Woken → Packet → Conn → Written × Conn
  write_woken room p c = write_pass p (record c { space = false })
  write_woken (caller_ended e) p c = (refused e, c)
  write_woken (conn_ended e) p c = (refused e, c)

-- What a call of ReadPacket has come to.
pub data Taken : Type 0 where
  packet : Packet → Taken
  failed : Err → Taken
  blocked : Taken

take_inbox : List Packet → Conn → Taken × Conn → Taken × Conn
take_inbox [] c empty = empty
take_inbox (p ∷ ps) c empty = (packet p, record c { inbox = ps })

take_pending : Err → List Packet → Conn → Taken × Conn
take_pending e [] c = (failed e, c)
take_pending e (p ∷ ps) c = (packet p, record c { pending = ps })

-- The case that the select in `ReadPacket` takes; where several are ready, Go takes any of them.
-- `caller_done` is also the case of the inner select, which waits for the readers.
pub data ReadCase : Type 0 where
  from_inbox from_conn : ReadCase
  caller_done : Err → ReadCase

-- `ReadPacket`. Once the connection has ended and the readers have stopped: the inbox, then what is
-- pending, then the cause.
unfoldable pub read_packet : ReadCase → Conn → Taken × Conn
unfolding take_inbox take_pending
read_packet from_inbox c = take_inbox c.inbox c (blocked, c)
read_packet (caller_done e) c = (failed e, c)
read_packet from_conn c = elim c.ended [
  | none ↦ (blocked, c)
  | some e ↦
      if c.readers_done then take_inbox c.inbox c (take_pending e c.pending c) else (blocked, c)
]
