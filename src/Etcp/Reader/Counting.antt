-- ===== src/Etcp/Reader/Counting.antt =====
-- What a run of the reader adds to the packets that wait, and what recvSeq counts.
use et_go.Prelude.{
  ◌+◌, ◌≡◌, ◌≢◌, ◌⊎◌, inl, inr, refl, sym, ap, ◌∙◌, List, [], ◌∷◌, ◌++◌, Bool, Option, none, some,
  Bytes, length, arith, append_assoc, append-nil, length-append, Option-cases,
}
use et_go.Protocol.{Packet}
use et_go.Wire.Stream.{WireErr, too_large, malformed, short_packet, marshal_failed, clean_eof, io}
use et_go.Seal.{Secretbox}
use et_go.Etcp.Conn.{Conn, Err, integrity}
use et_go.Etcp.Reader.{
  Link, Handed, deliver, deliver_all, first_frame, release_hold, read_failed, broken, hand_pending,
}
use et_go.Etcp.Reader.Delivery.{
  waiting, Once, deliver-Once, broken-Once, hand_pending-waiting, hand_pending-ended,
}

-- The packets `ps` joined those that wait, behind them, and recvSeq counts each; the connection ended
-- only where the run ended with an integrity error. Nothing is pending where the run goes on.
pub record Adds (c : Conn) (r : Handed) : Type 0 where
  pub packets : List Packet
  pub joined : waiting r.conn ≡ waiting c ++ packets
  pub counted : r.conn.recv_seq ≡ c.recv_seq + length packets
  pub broke : (r.conn.ended ≡ c.ended) ⊎ ((r.failed ≡ some integrity) × (r.conn.ended ≢ none))
  pub clear : r.failed ≡ none → r.conn.pending ≡ []

Once-Adds : (c : Conn) (r : Handed) → Once c r → Adds c r
Once-Adds c r (inl (p, joined, counted, same, clear)) = record {
  packets = p ∷ [];
  joined = joined;
  counted = counted;
  broke = inl same;
  clear = clear;
}
Once-Adds c r (inr (joined, counted, failed, over)) = record {
  packets = [];
  joined = joined ∙ sym (append-nil (waiting c));
  counted = omega (arith, counted);
  broke = inr (failed, over);
  clear = λ h. absurd (ground (arith, failed, h));
}

-- A run that goes on, and the run behind it.
pub Adds-trans : (c : Conn) (r s : Handed) → r.failed ≡ none → Adds c r → Adds r.conn s → Adds c s
Adds-trans c r s h a b = record {
  packets = a.packets ++ b.packets;
  joined =
      b.joined ∙ (ap (λ w. w ++ b.packets) a.joined ∙ append_assoc (waiting c) a.packets b.packets);
  counted = omega (arith, a.counted, b.counted, length-append a.packets b.packets);
  broke = elim a.broke [
    | inl e ↦ elim b.broke [ inl f ↦ inl (f ∙ e) | inr f ↦ inr f ]
    | inr (f, over) ↦ absurd (ground (arith, f, h))
  ];
  clear = b.clear;
}

-- The same from a state that differs in neither.
pub Adds-from :
    (c c' : Conn) (r : Handed)
    → waiting c' ≡ waiting c
    → c'.recv_seq ≡ c.recv_seq
    → c'.ended ≡ c.ended
    → Adds c' r
    → Adds c r
Adds-from c c' r w n e a = record {
  packets = a.packets;
  joined = a.joined ∙ ap (λ x. x ++ a.packets) w;
  counted = omega (arith, a.counted, n);
  broke = elim a.broke [ inl f ↦ inl (f ∙ e) | inr f ↦ inr f ];
  clear = a.clear;
}

stays-Adds :
    (l : Link) (e : Option Err) (c : Conn)
    → c.pending ≡ []
    → Adds c (record { failed = e; link = l; conn = c })
stays-Adds l e c dry = record {
  packets = [];
  joined = sym (append-nil (waiting c));
  counted = omega arith;
  broke = inl refl;
  clear = λ h. dry;
}

pub hand_pending-Adds : (l : Link) (c : Conn) → Adds c (hand_pending l c)
hand_pending-Adds l c =
    let (same, count, clear) = hand_pending-waiting l c in
    record {
      packets = [];
      joined = same ∙ sym (append-nil (waiting c));
      counted = omega (arith, count);
      broke = inl (hand_pending-ended l c);
      clear = clear;
    }

pub read_failed-Adds :
    (e : WireErr) (l : Link) (c : Conn) → c.pending ≡ [] → Adds c (read_failed e l c)
unfolding read_failed
read_failed-Adds too_large l c dry = Once-Adds c (broken l c) (broken-Once l c)
read_failed-Adds malformed l c dry = stays-Adds l _ c dry
read_failed-Adds short_packet l c dry = stays-Adds l _ c dry
read_failed-Adds marshal_failed l c dry = stays-Adds l _ c dry
read_failed-Adds clean_eof l c dry = stays-Adds l _ c dry
read_failed-Adds (io e) l c dry = stays-Adds l _ c dry

-- The end of the hold touches none of them.
pub first_frame-keeps :
    (released : Bool) (c : Conn)
    → let d = first_frame released c in
      (d.inbox ≡ c.inbox)
      × (d.pending ≡ c.pending)
      × (d.recv_seq ≡ c.recv_seq)
      × (d.ended ≡ c.ended)
unfolding first_frame release_hold
first_frame-keeps released c = ground arith

module _ (box : Secretbox) where
  pub deliver-Adds : (l : Link) (b : Bytes) (c : Conn) → c.pending ≡ [] → Adds c (deliver box l b c)
  deliver-Adds l b c dry = Once-Adds c (deliver box l b c) (deliver-Once box l b c dry)

  -- A frame, behind the end of the hold.
  pub frame-Adds :
      (released : Bool) (l : Link) (b : Bytes) (c : Conn)
      → c.pending ≡ []
      → Adds c (deliver box l b (first_frame released c))
  frame-Adds released l b c dry =
      let (inbox, pending, count, ended) = first_frame-keeps released c in
      let d = first_frame released c in
      Adds-from c d (deliver box l b d) (ground (arith, inbox, pending)) count ended
        (deliver-Adds l b d (pending ∙ dry))

  pub deliver_all-Adds :
      (bs : List Bytes) (l : Link) (c : Conn) → c.pending ≡ [] → Adds c (deliver_all box l bs c)
  unfolding deliver_all
  deliver_all-Adds [] l c dry = stays-Adds l none c dry
  deliver_all-Adds (b ∷ bs) l c dry =
      let r = deliver box l b c in
      let a = deliver-Adds l b c dry in
      elim (Option-cases r.failed) [
        | inl e ↦
            rw (deliver_all, e)
              (Adds-trans c r (deliver_all box r.link bs r.conn) e a
                (deliver_all-Adds bs r.link r.conn (a.clear e)))
        | inr (x, e) ↦ rw (deliver_all, e) a
      ]
