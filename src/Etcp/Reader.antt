-- ===== src/Etcp/Reader.antt =====
-- The reader of internal/etcp/link.go: a packet opened, handed over, or kept for the next link.
--
-- Whether a hand-over succeeds is up to the caller and the link's context. `Link` is one link's part of
-- that: `room` more packets reach the inbox, and the next attempt finds the link ended with `cause`. `alive`
-- is the token of the channel that the watcher waits on.
pub mod Delivery
pub mod Counting
pub mod Authentic
pub mod Loop
use et_go.Prelude.{
  ℕ, zero, suc, ◌+◌, List, [], ◌∷◌, ◌++◌, Bool, true, false, Option, none, some, Bytes, length, ltb,
  if◌then◌else◌,
}
use et_go.Protocol.{Header, Packet}
use et_go.Wire.Stream.{Stream, WireErr, Outcome, ok, err, too_large, max_frame_size}
use et_go.Wire.Packet.{parse_packet}
use et_go.Wire.Frame.{read_frame}
use et_go.Seal.{Secretbox, open_next}
use et_go.Etcp.Ring.{trim}
use et_go.Etcp.Conn.{Conn, Err, integrity, wire, fail}

pub record Link : Type 0 where
  pub room : ℕ
  pub cause : Err
  pub alive : Bool

-- An error or nil, the link, and the connection.
pub record Handed : Type 0 where
  pub failed : Option Err
  pub link : Link
  pub conn : Conn

-- `handOver`, by how many more packets the inbox takes.
give : ℕ → Link → Packet → Conn → Handed
give zero l p c = record { failed = some l.cause; link = l; conn = c }
give (suc room) l p c = record {
  failed = none;
  link = record l { room = room };
  conn = record c { inbox = c.inbox ++ (p ∷ []) };
}

unfoldable pub hand_over : Link → Packet → Conn → Handed
unfolding give
hand_over l p c = give l.room l p c

-- The connection ends with an integrity error.
pub broken : Link → Conn → Handed
broken l c = record { failed = some integrity; link = l; conn = fail integrity c }

-- A packet already counted in recvSeq is kept when it cannot be handed over.
keep_pending : Packet → Handed → Handed
keep_pending p r = elim r.failed [
  | none ↦ r
  | some e ↦ record r { conn = record r.conn { pending = r.conn.pending ++ (p ∷ []) } }
]

-- A packet that opened, or did not.
deliver_plain : Link → Header → Option Bytes → Conn → Handed
deliver_plain l h none c = broken l c
deliver_plain l h (some plain) c =
    let p : Packet = record { header = h; payload = plain } in
    keep_pending p (hand_over l p (record c { recv_seq = c.recv_seq + 1 }))

module _ (box : Secretbox) where
  -- A packet that parsed, by its flag, or did not.
  deliver_parsed : Link → Option (Bool × Header × Bytes) → Conn → Handed
  deliver_parsed l none c = broken l c
  deliver_parsed l (some (false, h, payload)) c = broken l c
  deliver_parsed l (some (true, h, payload)) c =
      let (plain, inward) = open_next box [] payload c.inward in
      deliver_plain l h plain (record c { inward = inward })

  -- `deliver`.
  unfoldable pub deliver : Link → Bytes → Conn → Handed
  unfolding deliver_parsed deliver_plain keep_pending broken
  deliver l b c =
      if ltb max_frame_size (length b) then broken l c else deliver_parsed l (parse_packet b) c

  -- The loop of `readLoop` over the peer's catchup.
  unfoldable pub deliver_all : Link → List Bytes → Conn → Handed
  deliver_all l [] c = record { failed = none; link = l; conn = c }
  deliver_all l (b ∷ bs) c =
      let r = deliver l b c in
      let rest = deliver_all r.link bs r.conn in elim r.failed [ none ↦ rest | some e ↦ r ]

-- `releaseHold`.
unfoldable pub release_hold : Conn → Conn
release_hold c =
    if c.ring.held
    then record c { ring = trim c.flushed c.unsent (record c.ring { held = false }) }
    else c

-- The loop of `readLoop` over the packets that an earlier link left pending.
hand_each : Link → List Packet → Conn → Handed
hand_each l [] c = record { failed = none; link = l; conn = record c { pending = [] } }
hand_each l (p ∷ ps) c =
    let r = hand_over l p c in
    let rest = hand_each r.link ps (record r.conn { pending = ps }) in
    elim r.failed [ none ↦ rest | some e ↦ r ]

unfoldable pub hand_pending : Link → Conn → Handed
unfolding hand_each
hand_pending l c = hand_each l c.pending c

-- A frame behind the read of it: the hold ends with the link's first frame.
unfoldable pub first_frame : Bool → Conn → Conn
first_frame released c = if released then c else release_hold c

-- A failed read ends the link, and a frame that is too large the connection.
pub read_failed : WireErr → Link → Conn → Handed
read_failed too_large l c = broken l c
read_failed e l c = record { failed = some (wire e); link = l; conn = c }

module _ (box : Secretbox) where
  -- The loop of `readLoop` over frames, into a buffer of capacity `cap`, up to the error that ends it.
  -- `none` is that the rounds ran out.
  unfoldable pub read_frames : ℕ → ℕ → Bool → Stream → Link → Conn → Option Handed
  unfolding first_frame read_failed broken
  read_frames zero cap released s l c = none
  read_frames (suc rounds) cap released s l c =
      let f = read_frame cap s in
      elim f.outcome [
        | err e ↦ some (read_failed e l c)
        | ok frame ↦
            let r = deliver box (record l { alive = true }) frame (first_frame released c) in
            elim r.failed [
              | none ↦ read_frames rounds f.capacity true f.rest r.link r.conn
              | some e ↦ some r
            ]
      ]

  -- `readLoop`: what is pending, the catchup, then frames.
  unfoldable pub read_loop : ℕ → List Bytes → Stream → Link → Conn → Option Handed
  read_loop rounds catchup s l c =
      let a = hand_pending l c in
      let b = deliver_all box a.link catchup a.conn in
      let frames = read_frames rounds 4 false s b.link b.conn in
      let caught_up : Option Handed = elim b.failed [ none ↦ frames | some e ↦ some b ] in
      elim a.failed [ none ↦ caught_up | some e ↦ some a ]
