-- ===== src/Etcp/Reader/Authentic.antt =====
-- What the reader makes of packets that the peer sealed.
use et_go.Prelude.{
  ℕ, zero, suc, ◌+◌, ◌≤◌, ◌≡◌, replicate, inl, inr, Option-cases, All, take, take-nil, ◌-◌, List,
  [], ◌∷◌, ◌++◌, true, none, some, Bytes, length, arith, append_assoc, append-nil,
}
use et_go.Protocol.{Packet}
use et_go.Seal
use et_go.Seal.{Secretbox, open_next, SecretboxLaws, overhead}
use et_go.Wire.Stream.{max_frame_size}
use et_go.Wire.Packet.{parse_packet, load, outside}
use et_go.Wire.Packet.Laws.{append_packet-layout}
use et_go.Etcp.Conn.{Conn, Err, seal_packet}
use et_go.Etcp.Conn.Invariant.{seal_packet-nonce}
use et_go.Etcp.Reader.{Link, Handed, hand_over, deliver, deliver_all}
use et_go.Etcp.Reader.Delivery.{waiting}

-- A front of `p ∷ ps` that grew by `p` and then by a front of `ps`.
one_more :
    (w : List Packet) {w₁ w₂ : List Packet} (n₀ : ℕ) {n₁ n₂ : ℕ} (p : Packet) (ps : List Packet)
    → w₁ ≡ w ++ (p ∷ [])
    → n₁ ≡ n₀ + 1
    → w₂ ≡ w₁ ++ take (n₂ - n₁) ps
    → n₁ ≤ n₂
    → w₂ ≡ w ++ take (n₂ - n₀) (p ∷ ps)
one_more w n₀ {n₁ = n₁} {n₂ = n₂} p ps a b c d =
    let e : n₂ - n₀ ≡ suc (n₂ - n₁) = omega arith in
    rw e (ground (arith, a, c, append_assoc w (p ∷ []) (take (n₂ - n₁) ps)))

rest_none : (n : ℕ) (w : List Packet) (ps : List Packet) → w ≡ w ++ take (n - n) ps
rest_none n w ps = let e : n - n ≡ 0 = omega arith in rw (e, append-nil)

-- The peer's packets, sealed one after the other.
abbrev pub seal_packets : Secretbox → Seal.Stream → List Packet → List Bytes
seal_packets box s [] = []
seal_packets box s (p ∷ ps) = (seal_packet box p s).0 ∷ seal_packets box (seal_packet box p s).1 ps

-- How far a catchup or a run of frames came: a front of the peer's packets joined those that wait,
-- and recvSeq counts them; all of them did, if the link did not end.
abbrev pub CameTo : List Packet → Conn → Handed → Type 0
CameTo ps c r =
    (waiting r.conn ≡ waiting c ++ take (r.conn.recv_seq - c.recv_seq) ps)
    × (c.recv_seq ≤ r.conn.recv_seq)
    × (r.conn.recv_seq ≤ c.recv_seq + length ps)
    × (r.failed ≡ none → r.conn.recv_seq ≡ c.recv_seq + length ps)

module _ (box : Secretbox) where
  -- A sealed packet is its two prefix bytes and its box, so it parses to its header and its box.
  pub seal_packet-bytes :
      (p : Packet) (s : Seal.Stream)
      → (seal_packet box p s).0
        ≡ 1 ∷ p.header ∷ box.seal_box p.payload (Seal.increment s.nonce) s.key
  unfolding seal_packet Seal.seal load
  seal_packet-bytes p s = rw (
      append_packet-layout (replicate (2 + overhead + length p.payload) 0) 0 true p.header
        (outside []) (omega arith))

  pub parse_packet-seal_packet :
      (p : Packet) (s : Seal.Stream)
      → parse_packet (seal_packet box p s).0
        ≡ some (true, p.header, box.seal_box p.payload (Seal.increment s.nonce) s.key)
  unfolding parse_packet
  parse_packet-seal_packet p s = rw (seal_packet-bytes p s)

  -- The state of a reader that is in step with the peer: `s` is the peer's stream.
  abbrev pub InStep : Seal.Stream → Conn → Type 0
  InStep s c = (c.inward ≡ s) × (c.pending ≡ [])

  module _ (laws : SecretboxLaws box) where
    -- One packet of the peer reaches those that wait, and the streams stay in step.
    deliver-authentic :
        (room : ℕ) (l : Link) (p : Packet) (s : Seal.Stream) (c : Conn)
        → InStep s c
        → length (seal_packet box p s).0 ≤ max_frame_size
        → let r = deliver box (record l { room = room }) (seal_packet box p s).0 c in
          (waiting r.conn ≡ waiting c ++ (p ∷ []))
          × (r.conn.recv_seq ≡ c.recv_seq + 1)
          × (r.conn.inward ≡ (seal_packet box p s).1)
          × (r.failed ≡ none → r.conn.pending ≡ [])
    unfolding deliver hand_over open_next
    deliver-authentic zero l p s c i h = ground (
      arith,
      parse_packet-seal_packet p s,
      laws.opens p.payload (Seal.increment s.nonce) s.key,
      seal_packet-nonce box p s,
      append-nil c.inbox,
    )
    deliver-authentic (suc room) l p s c i h = ground (
      arith,
      parse_packet-seal_packet p s,
      laws.opens p.payload (Seal.increment s.nonce) s.key,
      seal_packet-nonce box p s,
      append-nil c.inbox,
      append-nil (c.inbox ++ (p ∷ [])),
    )

    deliver_all-go :
        (l : Link) (b : Bytes) (bs : List Bytes) (c : Conn)
        → (deliver box l b c).failed ≡ none
        → deliver_all box l (b ∷ bs) c
          ≡ deliver_all box (deliver box l b c).link bs (deliver box l b c).conn
    unfolding deliver_all
    deliver_all-go l b bs c e = ground (arith, e)

    deliver_all-stop :
        (l : Link) (b : Bytes) (bs : List Bytes) (c : Conn) (x : Err)
        → (deliver box l b c).failed ≡ some x
        → deliver_all box l (b ∷ bs) c ≡ deliver box l b c
    unfolding deliver_all
    deliver_all-stop l b bs c x e = ground (arith, e)

    pub deliver_link-authentic :
        (l : Link) (p : Packet) (s : Seal.Stream) (c : Conn)
        → InStep s c
        → length (seal_packet box p s).0 ≤ max_frame_size
        → let r = deliver box l (seal_packet box p s).0 c in
          (waiting r.conn ≡ waiting c ++ (p ∷ []))
          × (r.conn.recv_seq ≡ c.recv_seq + 1)
          × (r.conn.inward ≡ (seal_packet box p s).1)
          × (r.failed ≡ none → r.conn.pending ≡ [])
    deliver_link-authentic l p s c i h = deliver-authentic l.room l p s c i h

    -- When the reader is in step with the peer, nothing is pending, and each packet fits a frame, the
    -- packets that the peer sealed one after the other join those that wait for the caller, in order
    -- and each once, up to where the link ends; all of them do if it does not end. recvSeq counts them.
    pub deliver_all-authentic :
        (l : Link) (ps : List Packet) (s : Seal.Stream) (c : Conn)
        → InStep s c
        → All (λ b. length b ≤ max_frame_size) (seal_packets box s ps)
        → CameTo ps c (deliver_all box l (seal_packets box s ps) c)
    deliver_all-authentic l [] s c i h =
        unfold deliver_all in
        ground (arith, take-nil {A = Packet} (c.recv_seq - c.recv_seq), append-nil (waiting c))
    deliver_all-authentic l (p ∷ ps) s c i (small, rest) =
        let r = deliver box l (seal_packet box p s).0 c in
        let more = deliver_all box r.link (seal_packets box (seal_packet box p s).1 ps) r.conn in
        let one = deliver_link-authentic l p s c i small in
        elim (Option-cases r.failed) [
          | inl e ↦
              let far =
                deliver_all-authentic r.link ps (seal_packet box p s).1 r.conn (one.2, one.3 e)
                  rest in
              rw (deliver_all-go l _ _ c e) (
                one_more (waiting c) c.recv_seq p ps one.0 one.1 far.0 far.1,
                omega (arith, one.1, far.1),
                omega (arith, one.1, far.2),
                λ n. omega (arith, one.1, far.3 n),
              )
          | inr (x, e) ↦ rw (deliver_all-stop l _ _ c x e) (
            one_more (waiting c) c.recv_seq p ps one.0 one.1
                (rest_none r.conn.recv_seq (waiting r.conn) ps) (omega arith),
            omega (arith, one.1),
            omega (arith, one.1),
            λ n. absurd (ground (arith, e, n)),
          )
        ]
