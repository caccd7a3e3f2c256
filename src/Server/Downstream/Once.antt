-- ===== src/Server/Downstream/Once.antt =====
-- What the client's caller reads of what the server sealed.
use et_go.Prelude.{
  ℕ, ◌+◌, ◌≤◌, ◌≡◌, ◌⊎◌, inl, inr, refl, sym, ap, ◌∙◌, List, [], ◌∷◌, ◌++◌, true, false, some,
  Bytes, length, take, drop, arith, append_assoc, length-append, length-drop, take-append_le,
}
use et_go.Protocol.{Packet}
use et_go.Wire.Stream.{max_frame_size}
use et_go.Seal
use et_go.Seal.{Secretbox, SecretboxLaws}
use et_go.Seal.Nonce.{advanced}
use et_go.Etcp.Conn.{Conn, read_packet, seal_packet}
use et_go.Etcp.Conn.Caller.{read_packet-order}
use et_go.Etcp.Reader.{Link, deliver}
use et_go.Etcp.Reader.Delivery.{waiting, hand_pending-waiting, hand_pending-inward}
use et_go.Etcp.Reader.Authentic.{seal_packets, deliver_link-authentic}
use et_go.Server.{Server, new_server}
use et_go.Server.Sealing.{
  stream_after, stream_after_add, stream_after-seal, seal_packets-drop, length-seal_packets,
  seal_packets-append,
}
use et_go.Server.Faithful
use et_go.Server.Faithful.{
  Step, Faithful, fresh-Faithful, step-Faithful, admits, takes_over, accepts, refuses, sends,
  receives, is_notified, is_woken, ends, sets_echo,
}
use et_go.Server.Downstream.{
  Down, fresh_down, Move, serves, writes, arrives, hands, reads, acts, loses, resumes, Moves, stays,
  then,
}
use et_go.Server.Downstream.Carrying.{
  Carries, Carries-at, Carries-grows, Carries-writes, Carries-resumes, Carries-head, Carries-more,
  take_next,
}
use et_go.Server.Downstream.Kept.{step-told, Took-kept, read_packet-keeps}

-- The client is in step with the server's stream `out₀`, and the link with both.
record InOrder (box : Secretbox) (out₀ : Seal.Stream) (d : Down) : Type 0 where
  in_step : d.conn.inward ≡ stream_after d.conn.recv_seq out₀
  in_order : d.taken ++ waiting d.conn ≡ take d.conn.recv_seq d.server.told
  inside : d.conn.recv_seq ≤ length d.server.told
  on_link :
      (d.up ≡ false)
      ⊎ Carries (seal_packets box out₀ d.server.told) d.conn.recv_seq d.link d.flushed

module _ (box : Secretbox) (laws : SecretboxLaws box) (out₀ : Seal.Stream) where
  serves-InOrder :
      (d : Down) (w : Faithful.World) (more : List Packet)
      → InOrder box out₀ d
      → w.told ≡ d.server.told ++ more
      → InOrder box out₀ (record d { server = w })
  serves-InOrder d w more o e = record {
    in_step = o.in_step;
    in_order =
        o.in_order
        ∙ (sym (take-append_le d.conn.recv_seq d.server.told more o.inside)
            ∙ ap (take d.conn.recv_seq) (sym e));
    inside = omega (arith, o.inside, ap length e, length-append d.server.told more);
    on_link = elim o.on_link [
      | inl n ↦ inl n
      | inr c ↦ inr (
          rw (e, seal_packets-append box out₀ d.server.told more)
            (Carries-grows _ _ d.conn.recv_seq d.link d.flushed c))
    ];
  }

  sealed_next :
      (k : ℕ) (p : Packet) → (seal_packet box p (stream_after k out₀)).1 ≡ stream_after (k + 1) out₀
  unfolding advanced
  sealed_next k p =
      stream_after-seal box p (stream_after k out₀) 0 ∙ sym (stream_after_add k 1 out₀)

  -- The reader takes the link's next packet.
  next-InOrder :
      (d : Down) (l : Link) (b : Bytes) (rest : List Bytes)
      → InOrder box out₀ d
      → d.conn.pending ≡ []
      → length b ≤ max_frame_size
      → Carries (seal_packets box out₀ d.server.told) d.conn.recv_seq (b ∷ rest) d.flushed
      → (left : List Packet) → drop d.conn.recv_seq d.server.told ≡ left
      → InOrder box out₀ (record d { conn = (deliver box l b d.conn).conn; link = rest })
  next-InOrder d l b rest o dry small c [] e = absurd (
      omega (
        arith,
        c.0,
        c.1,
        length-seal_packets box out₀ d.server.told,
        length-drop d.conn.recv_seq d.server.told,
        ap length e,
      ))
  next-InOrder d l b rest o dry small c (p ∷ ps) e =
      let s = stream_after d.conn.recv_seq out₀ in
      let next =
        seal_packets-drop box d.conn.recv_seq out₀ d.server.told ∙ ap (seal_packets box s) e in
      let (same, carries) = Carries-head _ d.conn.recv_seq b rest d.flushed _ _ c next in
      let one = deliver_link-authentic box laws l p s d.conn (o.in_step, dry) (rw (← same) small) in
      rw same (record {
        in_step =
            one.2 ∙ (sealed_next d.conn.recv_seq p ∙ ap (λ k. stream_after k out₀) (sym one.1));
        in_order =
            ap (λ ws. d.taken ++ ws) one.0
            ∙ (sym (append_assoc d.taken (waiting d.conn) (p ∷ []))
                ∙ (ap (λ ws. ws ++ (p ∷ [])) o.in_order
                    ∙ (sym (take_next d.conn.recv_seq d.server.told p ps e)
                        ∙ ap (λ k. take k d.server.told) (sym one.1))));
        inside = omega (
          arith,
          one.1,
          Carries-more _ d.conn.recv_seq b rest d.flushed c,
          length-seal_packets box out₀ d.server.told,
        );
        on_link = inr (rw one.1 carries);
      })

  arrives-InOrder :
      (d : Down) (l : Link) (b : Bytes) (rest : List Bytes)
      → InOrder box out₀ d
      → d.link ≡ b ∷ rest
      → d.up ≡ true
      → d.conn.pending ≡ []
      → length b ≤ max_frame_size
      → InOrder box out₀ (record d { conn = (deliver box l b d.conn).conn; link = rest })
  arrives-InOrder d l b rest o e up dry small = elim o.on_link [
    | inl n ↦ absurd (cc)
    | inr c ↦
        next-InOrder d l b rest o dry small (Carries-at _ d.conn.recv_seq d.flushed e c)
          (drop d.conn.recv_seq d.server.told) refl
  ]

  -- What the reads of the client's caller and its reader leave of the invariant.
  kept-InOrder :
      (d : Down) (c : Conn) (taken : List Packet)
      → InOrder box out₀ d
      → taken ++ waiting c ≡ d.taken ++ waiting d.conn
      → c.recv_seq ≡ d.conn.recv_seq
      → c.inward ≡ d.conn.inward
      → InOrder box out₀ (record d { conn = c; taken = taken })
  kept-InOrder d c taken o w r i = record {
    in_step = i ∙ (o.in_step ∙ ap (λ k. stream_after k out₀) (sym r));
    in_order = w ∙ (o.in_order ∙ ap (λ k. take k d.server.told) (sym r));
    inside = omega (arith, o.inside, r);
    on_link = rw r o.on_link;
  }

  move-InOrder :
      {inward₀ : Seal.Stream} {u v : Down}
      → Move box inward₀ u v
      → Faithful box out₀ inward₀ u.server
      → InOrder box out₀ u
      → InOrder box out₀ v
  move-InOrder (serves d w step) f o = let (more, e) = step-told step in serves-InOrder d w more o e
  move-InOrder (writes d n up h) f o = record {
    in_step = o.in_step;
    in_order = o.in_order;
    inside = o.inside;
    on_link = elim o.on_link [
      | inl e ↦ inl e
      | inr c ↦ inr (
          rw f.sealed.0 (
            Carries-writes _ d.conn.recv_seq d.link d.flushed n
              (omega (arith, h, ap length f.sealed.0)) c))
    ];
  }
  move-InOrder (arrives d l b rest e up dry small) f o = arrives-InOrder d l b rest o e up dry small
  move-InOrder (hands d l) f o =
      let h = hand_pending-waiting l d.conn in
      kept-InOrder d _ d.taken o (ap (λ ws. d.taken ++ ws) h.0) h.1 (hand_pending-inward l d.conn)
  move-InOrder (reads d case) f o =
      let k = read_packet-keeps case d.conn in
      kept-InOrder d _ _ o
        (Took-kept (read_packet case d.conn).0 d.conn (read_packet case d.conn).1 d.taken
          (read_packet-order case d.conn))
        k.0 k.1
  move-InOrder (acts d c i r b p) f o = kept-InOrder d c d.taken o (ground (arith, b, p)) r i
  move-InOrder (loses d) f o = record {
    in_step = o.in_step;
    in_order = o.in_order;
    inside = o.inside;
    on_link = inl refl;
  }
  move-InOrder (resumes d down) f o = record {
    in_step = o.in_step;
    in_order = o.in_order;
    inside = o.inside;
    on_link = inr (
        rw f.sealed.0 (
          Carries-resumes _ d.conn.recv_seq
            (omega (arith, o.inside, length-seal_packets box out₀ d.server.told))));
  }

  move-Faithful :
      {inward₀ : Seal.Stream} {u v : Down}
      → Move box inward₀ u v
      → Faithful box out₀ inward₀ u.server
      → Faithful box out₀ inward₀ v.server
  move-Faithful {inward₀} (serves d w step) f = step-Faithful box laws out₀ inward₀ step f
  move-Faithful (writes d n up h) f = f
  move-Faithful (arrives d l b rest e up dry small) f = f
  move-Faithful (hands d l) f = f
  move-Faithful (reads d case) f = f
  move-Faithful (acts d c i r b p) f = f
  move-Faithful (loses d) f = f
  move-Faithful (resumes d down) f = f

  Moves-InOrder :
      {inward₀ : Seal.Stream} {u v : Down}
      → Moves box inward₀ u v
      → Faithful box out₀ inward₀ u.server
      → InOrder box out₀ u
      → Faithful box out₀ inward₀ v.server × InOrder box out₀ v
  Moves-InOrder stays f o = (f, o)
  Moves-InOrder (then ms m) f o =
      let (g, q) = Moves-InOrder ms f o in (move-Faithful m g, move-InOrder m g q)

-- A fresh server and a client whose stream stands where the server's does. Whatever the server does,
-- however far its writer comes on a link, and whichever links die, as long as each packet that arrives
-- fits a frame and a redial's catchup is what the client's count asks for: what the client's caller has
-- read and what still waits for it are together the first packets that the server sealed, in order and
-- each once, as many as the client counts.
pub downstream_once :
    (box : Secretbox) (id passkey : Bytes) (s : Server) (c : Conn) {d : Down}
    → SecretboxLaws box
    → new_server id passkey ≡ some s
    → c.inward ≡ s.out
    → c.recv_seq ≡ 0
    → waiting c ≡ []
    → Moves box s.inward (fresh_down s c) d
    → (d.taken ++ waiting d.conn ≡ take d.conn.recv_seq d.server.told)
      × (d.conn.recv_seq ≤ length d.server.told)
unfolding advanced
downstream_once box id passkey s c laws e same none_yet dry ms =
    let o =
      (Moves-InOrder box laws s.out ms (fresh-Faithful box id passkey s e) (record {
        in_step = rw none_yet same;
        in_order = rw none_yet dry;
        inside = omega (arith, none_yet);
        on_link = inl refl;
      })).1 in
    (o.in_order, o.inside)
