-- ===== src/Server/Accepting.antt =====
-- What the server makes of packets that the client sealed, and of those that it seals itself.
use et_go.Prelude.{
  ◌+◌, ◌≡◌, refl, sym, ap, ◌∙◌, List, [], ◌∷◌, ◌++◌, Bool, true, ◌==◌, ◌&&◌, if◌then◌else◌, none,
  Bytes, length, arith, append_assoc, length-append, append-nil,
}
use et_go.Protocol.{Packet, header_keep_alive}
use et_go.Seal.{Secretbox, SecretboxLaws, open_next, increment}
use et_go.Seal.Nonce.{advanced}
use et_go.Etcp.Conn.{seal_packet}
use et_go.Etcp.Conn.Invariant.{seal_packet-nonce}
use et_go.Etcp.Reader.Authentic.{seal_packets, parse_packet-seal_packet}
use et_go.Server.Sealing.{stream_after, enqueue-sealed, Sealed, Sealed-append, stream_after_add}
use et_go.Server.{Server, accept, accept_all, echoed}

-- The answers to the KEEP_ALIVEs among `ps`.
abbrev pub echo_packet : Packet
echo_packet = record { header = header_keep_alive; payload = [] }

abbrev pub echoes : Bool → List Packet → List Packet
echoes on [] = []
echoes on (p ∷ ps) =
    (if p.header == header_keep_alive && on then echo_packet ∷ [] else []) ++ echoes on ps

-- The server has accepted `ps` between `s` and `s'`: they are queued in order and counted, its stream
-- has moved on by as many, and each KEEP_ALIVE is answered if the server echoes.
pub record Accepted (box : Secretbox) (ps : List Packet) (s s' : Server) : Type 0 where
  pub inward : s'.inward ≡ stream_after (length ps) s.inward
  pub counted : s'.recv_seq ≡ s.recv_seq + length ps
  pub queued : s'.queue ≡ s.queue ++ ps
  pub echo : s'.echo ≡ s.echo
  pub registered : s'.registered ≡ s.registered
  pub sent : s'.sent ≡ s.sent ++ seal_packets box s.out (echoes s.echo ps)
  pub out : s'.out ≡ stream_after (length (echoes s.echo ps)) s.out

-- The server behind a packet that it opened.
abbrev opened_one : Packet → Server → Server
opened_one p s = record s {
  inward = stream_after 1 s.inward;
  recv_seq = s.recv_seq + 1;
  queue = s.queue ++ (p ∷ []);
  notify = true;
}

echoed-Accepted :
    (box : Secretbox) (p : Packet) (s : Server)
    → Accepted box (p ∷ []) s (echoed box p.header (opened_one p s))
unfolding echoed advanced
echoed-Accepted box p s = ground (
  arith,
  enqueue-sealed box echo_packet (opened_one p s),
  append-nil s.sent,
  seal_packet-nonce box echo_packet s.out,
)

module _ (box : Secretbox) (laws : SecretboxLaws box) where
  accept-echoed :
      (p : Packet) (s : Server)
      → accept box (seal_packet box p s.inward).0 s ≡ (none, echoed box p.header (opened_one p s))
  unfolding accept open_next advanced
  accept-echoed p s = rw (
    parse_packet-seal_packet box p s.inward,
    laws.opens p.payload (increment s.inward.nonce) s.inward.key,
  )

  pub accept-Accepted :
      (p : Packet) (s : Server)
      → ((accept box (seal_packet box p s.inward).0 s).0 ≡ none)
        × Accepted box (p ∷ []) s (accept box (seal_packet box p s.inward).0 s).1
  accept-Accepted p s = rw (accept-echoed p s) (refl, echoed-Accepted box p s)

echoes-append :
    (on : Bool) (ps qs : List Packet) → echoes on (ps ++ qs) ≡ echoes on ps ++ echoes on qs
echoes-append on [] qs = refl
echoes-append on (p ∷ ps) qs =
    let one = if p.header == header_keep_alive && on then echo_packet ∷ [] else [] in
    ap (λ es. one ++ es) (echoes-append on ps qs)
    ∙ sym (append_assoc one (echoes on ps) (echoes on qs))

Accepted-nil : (box : Secretbox) (s : Server) → Accepted box [] s s
unfolding advanced
Accepted-nil box s = ground (arith, append-nil s.queue, append-nil s.sent)

Accepted-append :
    {box : Secretbox} (ps qs : List Packet) {s s' s'' : Server}
    → Accepted box ps s s'
    → Accepted box qs s' s''
    → Accepted box (ps ++ qs) s s''
Accepted-append {box} ps qs {s} {s'} {s''} a b =
    let es = echoes s.echo qs in
    let later : Sealed box es (s'.sent, s'.out) (s''.sent, s''.out) =
      rw (← a.echo) (b.sent, b.out) in
    let all =
      Sealed-append box (echoes s.echo ps) es s.sent s'.sent s''.sent s.out s'.out s''.out
        (a.sent, a.out) later in
    record {
      inward =
          b.inward
          ∙ (ap (stream_after (length qs)) a.inward
              ∙ (sym (stream_after_add (length ps) (length qs) s.inward)
                  ∙ ap (λ k. stream_after k s.inward) (sym (length-append ps qs))));
      counted = omega (arith, a.counted, b.counted, length-append {0} ps qs);
      queued = rw (b.queued, a.queued) (append_assoc s.queue ps qs);
      echo = b.echo ∙ a.echo;
      registered = b.registered ∙ a.registered;
      sent = rw (echoes-append s.echo ps qs) all.0;
      out = rw (echoes-append s.echo ps qs) all.1;
    }

module _ (box : Secretbox) (laws : SecretboxLaws box) where
  accept_all-go :
      (b : Bytes) (bs : List Bytes) (s : Server)
      → (accept box b s).0 ≡ none
      → accept_all box (b ∷ bs) s ≡ accept_all box bs (accept box b s).1
  unfolding accept_all
  accept_all-go b bs s e = ground (arith, e)

  in_step :
      (p : Packet) (s s' : Server)
      → Accepted box (p ∷ []) s s'
      → (seal_packet box p s.inward).1 ≡ s'.inward
  unfolding advanced
  in_step p s s' a = seal_packet-nonce box p s.inward ∙ sym a.inward

  -- Packets that the client sealed one after the other, from where the server's stream stands, are all
  -- accepted.
  pub accept_all-Accepted :
      (ps : List Packet) (s : Server)
      → let (e, s') = accept_all box (seal_packets box s.inward ps) s in
        (e ≡ none) × Accepted box ps s s'
  accept_all-Accepted [] s = unfold accept_all in (refl, Accepted-nil box s)
  accept_all-Accepted (p ∷ ps) s =
      let (e, one) = accept-Accepted box laws p s in
      let s' = (accept box (seal_packet box p s.inward).0 s).1 in
      let rest = accept_all-Accepted ps s' in
      rw
        (
          accept_all-go _ (seal_packets box (seal_packet box p s.inward).1 ps) s e,
          in_step p s s' one,
        )
        (rest.0, Accepted-append (p ∷ []) ps one rest.1)
