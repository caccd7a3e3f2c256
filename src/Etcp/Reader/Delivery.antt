-- ===== src/Etcp/Reader/Delivery.antt =====
-- Exactly once and in order: what the reader adds to the packets that wait for the caller.
use et_go.Prelude.{
  ℕ, zero, suc, ◌+◌, ◌≡◌, ◌≢◌, ◌⊎◌, inl, inr, refl, Bool-cases, List, [], ◌∷◌, ◌++◌, Bool, true,
  false, Option, none, some, Bytes, length, ltb, arith, append_assoc, append-nil,
}
use et_go.Protocol.{Header, Packet}
use et_go.Seal.{Secretbox, open_next}
use et_go.Wire.Stream.{max_frame_size}
use et_go.Wire.Packet.{parse_packet}
use et_go.Etcp.Conn.{Conn, Err, integrity, fail}
use et_go.Etcp.Reader.{
  Link, Handed, broken, give, keep_pending, deliver_plain, deliver_parsed, hand_over, deliver,
  hand_each, hand_pending,
}

-- The packets that wait for the caller, oldest first.
abbrev pub waiting : Conn → List Packet
waiting c = c.inbox ++ c.pending

hand_each-waiting :
    (room : ℕ) (l : Link) (ps : List Packet) (c : Conn)
    → c.pending ≡ ps
    → let r = hand_each (record l { room = room }) ps c in
      (waiting r.conn ≡ waiting c)
      × (r.conn.recv_seq ≡ c.recv_seq)
      × ((r.failed ≡ none) → r.conn.pending ≡ [])
unfolding hand_each hand_over
hand_each-waiting room l [] c e = ground arith
hand_each-waiting zero l (p ∷ ps) c e = ground arith
hand_each-waiting (suc room) l (p ∷ ps) c e = ground (
  arith,
  append_assoc c.inbox (p ∷ []) ps,
  hand_each-waiting room l ps (record c { inbox = c.inbox ++ (p ∷ []); pending = ps }),
)

-- `readLoop` begins by handing over what is pending: no packet is lost, none is doubled, and their
-- order stays, whether or not the link ends first.
pub hand_pending-waiting :
    (l : Link) (c : Conn)
    → let r = hand_pending l c in
      (waiting r.conn ≡ waiting c)
      × (r.conn.recv_seq ≡ c.recv_seq)
      × ((r.failed ≡ none) → r.conn.pending ≡ [])
unfolding hand_pending
hand_pending-waiting l c = hand_each-waiting l.room l c.pending c refl

-- It opens nothing and ends nothing.
hand_each-keeps :
    (room : ℕ) (l : Link) (ps : List Packet) (c : Conn)
    → let r = hand_each (record l { room = room }) ps c in
      (r.conn.inward ≡ c.inward) × (r.conn.ended ≡ c.ended)
unfolding hand_each hand_over
hand_each-keeps room l [] c = (refl, refl)
hand_each-keeps zero l (p ∷ ps) c = (refl, refl)
hand_each-keeps (suc room) l (p ∷ ps) c =
    hand_each-keeps room l ps (record c { inbox = c.inbox ++ (p ∷ []); pending = ps })

pub hand_pending-inward : (l : Link) (c : Conn) → (hand_pending l c).conn.inward ≡ c.inward
unfolding hand_pending
hand_pending-inward l c = (hand_each-keeps l.room l c.pending c).0

pub hand_pending-ended : (l : Link) (c : Conn) → (hand_pending l c).conn.ended ≡ c.ended
unfolding hand_pending
hand_pending-ended l c = (hand_each-keeps l.room l c.pending c).1

-- What one packet adds: itself, or the end of the connection.
abbrev pub Once : Conn → Handed → Type 0
Once c r =
    ((p : Packet) × (waiting r.conn ≡ waiting c ++ (p ∷ []))
      × (r.conn.recv_seq ≡ c.recv_seq + 1)
      × (r.conn.ended ≡ c.ended)
      × (r.failed ≡ none → r.conn.pending ≡ []))
    ⊎ ((waiting r.conn ≡ waiting c)
        × (r.conn.recv_seq ≡ c.recv_seq)
        × (r.failed ≡ some integrity)
        × (r.conn.ended ≢ none))

fail-ended : (e : Err) (o : Option Err) (c : Conn) → c.ended ≡ o → (fail e c).ended ≢ none
unfolding fail
fail-ended e none c h = ground arith
fail-ended e (some x) c h = ground arith

pub broken-Once : (l : Link) (c : Conn) → Once c (broken l c)
unfolding broken
broken-Once l c = inr (
  unfold fail in ground arith,
  unfold fail in ground arith,
  refl,
  fail-ended integrity c.ended c refl,
)

give-Once :
    (room : ℕ) (l : Link) (p : Packet) (c : Conn)
    → c.pending ≡ []
    → Once c (keep_pending p (give room l p (record c { recv_seq = c.recv_seq + 1 })))
unfolding keep_pending give
give-Once zero l p c e = inl (
  p,
  ground (arith, append-nil c.inbox, append_assoc c.inbox c.pending (p ∷ [])),
  refl,
  refl,
  λ h. absurd (ground (arith, h)),
)
give-Once (suc room) l p c e =
    inl
      (p, ground (arith, append-nil c.inbox, append-nil (c.inbox ++ (p ∷ []))), refl, refl, λ h. e)

deliver_plain-Once :
    (l : Link) (h : Header) (plain : Option Bytes) (c : Conn)
    → c.pending ≡ []
    → Once c (deliver_plain l h plain c)
unfolding deliver_plain hand_over
deliver_plain-Once l h none c e = broken-Once l c
deliver_plain-Once l h (some b) c e = give-Once l.room l (record { header = h; payload = b }) c e

deliver_parsed-Once :
    (box : Secretbox) (l : Link) (o : Option (Bool × Header × Bytes)) (c : Conn)
    → c.pending ≡ []
    → Once c (deliver_parsed box l o c)
unfolding deliver_parsed
deliver_parsed-Once box l none c e = broken-Once l c
deliver_parsed-Once box l (some (false, h, payload)) c e = broken-Once l c
deliver_parsed-Once box l (some (true, h, payload)) c e =
    let (plain, inward) = open_next box [] payload c.inward in
    deliver_plain-Once l h plain (record c { inward = inward }) e

-- When nothing is pending, whatever bytes arrive, `deliver` either adds one packet to those that wait, as the newest, and counts
-- it, or ends the connection and changes neither.
pub deliver-Once :
    (box : Secretbox) (l : Link) (b : Bytes) (c : Conn)
    → c.pending ≡ []
    → Once c (deliver box l b c)
unfolding deliver
deliver-Once box l b c e = elim (Bool-cases (ltb max_frame_size (length b))) [
  | inl big ↦ rw big (broken-Once l c)
  | inr fits ↦ rw fits (deliver_parsed-Once box l (parse_packet b) c e)
]
