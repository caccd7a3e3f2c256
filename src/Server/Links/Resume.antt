-- ===== src/Server/Links/Resume.antt =====
-- A redial: internal/etcp's side of the recover exchange against the server's.
use et_go.Prelude.{
  ℕ, ◌≤◌, ◌≡◌, ◌⊎◌, inl, inr, refl, sym, ap, ◌∙◌, List, [], none, Bytes, length, drop, pos, arith,
  length-drop, All, Option, some,
}
use et_go.Protocol.{Packet}
use et_go.Wire.Stream.{ok, max_frame_size}
use et_go.Seal
use et_go.Seal.{Secretbox, SecretboxLaws}
use et_go.Etcp.Conn.{Conn, replay_exceeded}
use et_go.Etcp.Conn.Invariant.{IsConn}
use et_go.Etcp.Reader.{Link, deliver_all}
use et_go.Etcp.Reader.Authentic.{seal_packets, CameTo, deliver_all-authentic}
use et_go.Etcp.Recover
use et_go.Etcp.Recover.{write_recover, done, failed, max_int32}
use et_go.Etcp.Recover.Catchup.{CanReplay, write_recover-at}
use et_go.Server.{Server, accept_all, Failure}
use et_go.Server.Links.{Exchange, flushed_to, int32, accepted, recover}
use et_go.Server.Sealing.{stream_after, seal_packets-drop, length-seal_packets}
use et_go.Server.Accepting.{Accepted, accept_all-Accepted}

-- The two ends of one session: the client has sealed `ps` on the stream `cs`, the server `qs` on `ss`,
-- and each has opened as many packets of the other as it has counted.
pub record Paired (box : Secretbox) (cs ss : Seal.Stream) (ps qs : List Packet) (c : Conn)
    (s : Server) : Type 0 where
  pub history : IsConn cs.nonce (seal_packets box cs ps) c
  pub sent : s.sent ≡ seal_packets box ss qs
  pub server_in : s.inward ≡ stream_after s.recv_seq cs
  pub client_in : c.inward ≡ stream_after c.recv_seq ss
  pub server_got : s.recv_seq ≤ length ps
  pub client_got : c.recv_seq ≤ length qs
  pub handed_over : c.pending ≡ []

-- The exchange of each end brings what the other wrote, no write fails, and no other call comes
-- between. `ours` is the client's catchup.
pub record Wired (ours : List Bytes) (x : Recover.Exchange) (y : Exchange) (c : Conn) (s : Server)
    : Type 0 where
  pub client_sequence : x.write_sequence ≡ none
  pub server_sequence : y.write_sequence (int32 s.recv_seq) ≡ none
  pub client_peer : x.peer ≡ ok (int32 s.recv_seq)
  pub server_peer : y.peer ≡ ok (int32 c.recv_seq)
  pub client_catchup : x.write_catchup ours ≡ none
  pub server_catchup : y.write_catchup (drop c.recv_seq s.sent) ≡ none
  pub server_theirs : y.theirs ≡ ok ours
  pub before_catchup : y.before_catchup s ≡ s
  pub before_accept : y.before_accept s ≡ s

int32-pos : (n : ℕ) → n ≤ max_int32 → int32 n ≡ pos n
unfolding int32
int32-pos n h = ground (arith, h)

module _ (box : Secretbox) where
  -- The server's side, when the client's number is within what was sent.
  recover-flushed :
      (ours : List Bytes) (y : Exchange) (n : ℕ) (s : Server)
      → y.write_sequence (int32 s.recv_seq) ≡ none
      → y.peer ≡ ok (pos n)
      → y.write_catchup (drop n s.sent) ≡ none
      → y.theirs ≡ ok ours
      → y.before_catchup s ≡ s
      → y.before_accept s ≡ s
      → n ≤ length s.sent
      → recover box y s ≡ accepted box (length s.sent) (accept_all box ours s)
  unfolding recover
  recover-flushed ours y n s a b d t e f h = ground (arith, a, b, d, t, e, f)

  accepted-Accepted :
      (n : ℕ) (ps : List Packet) (s : Server) (r : Option Failure × Server)
      → (r.0 ≡ none) × Accepted box ps s r.1
      → ((accepted box n r).0 ≡ flushed_to n) × Accepted box ps s (accepted box n r).1
  unfolding accepted
  accepted-Accepted n ps s (none, s') h = (refl, h.1)
  accepted-Accepted n ps s (some e, s') h = absurd (cc (h.0))

  module _ (laws : SecretboxLaws box) (cs ss : Seal.Stream) (ps qs : List Packet) (c : Conn)
      (s : Server) (p : Paired box cs ss ps qs c s) where
    length-sent : length s.sent ≡ length qs
    length-sent = ap length p.sent ∙ length-seal_packets box ss qs

    -- What each end lacks is sealed from where its stream stands.
    server_lacks :
        drop s.recv_seq (seal_packets box cs ps) ≡ seal_packets box s.inward (drop s.recv_seq ps)
    server_lacks =
        seal_packets-drop box s.recv_seq cs ps
        ∙ ap (λ t. seal_packets box t (drop s.recv_seq ps)) (sym p.server_in)

    client_lacks : drop c.recv_seq s.sent ≡ seal_packets box c.inward (drop c.recv_seq qs)
    client_lacks =
        ap (drop c.recv_seq) p.sent
        ∙ (seal_packets-drop box c.recv_seq ss qs
            ∙ ap (λ t. seal_packets box t (drop c.recv_seq qs)) (sym p.client_in))

    server_resumes :
        (y : Exchange)
        → recover box y s
          ≡ accepted box
              (length s.sent)
              (accept_all box (drop s.recv_seq (seal_packets box cs ps)) s)
        → ((recover box y s).0 ≡ flushed_to (length qs))
          × Accepted box (drop s.recv_seq ps) s (recover box y s).1
    server_resumes y e =
        rw (e, server_lacks, length-sent)
          (accepted-Accepted (length qs) (drop s.recv_seq ps) s _
            (accept_all-Accepted box laws (drop s.recv_seq ps) s))

    client_resumes :
        (l : Link)
        → All (λ b. length b ≤ max_frame_size) (drop c.recv_seq s.sent)
        → CameTo (drop c.recv_seq qs) c (deliver_all box l (drop c.recv_seq s.sent) c)
    client_resumes l fits = rw client_lacks (
        deliver_all-authentic box laws l (drop c.recv_seq qs) c.inward c (refl, p.handed_over)
          (rw (← client_lacks) fits))

    client_offers :
        (x : Recover.Exchange)
        → CanReplay (seal_packets box cs ps) c x s.recv_seq
        → (CanReplay (seal_packets box cs ps) c x s.recv_seq
            × (write_recover x c ≡ done (length (seal_packets box cs ps))))
          ⊎ (¬ CanReplay (seal_packets box cs ps) c x s.recv_seq
              × (write_recover x c ≡ failed replay_exceeded))
        → write_recover x c ≡ done (length ps)
    client_offers x can (inl (_, e)) = e ∙ ap done (length-seal_packets box cs ps)
    client_offers x can (inr (cannot, e)) = absurd (cannot can)

    -- When the client can replay what the server lacks and the exchange runs through, it brings both
    -- ends together: the server has accepted all that the client sealed, what it lacked in order and
    -- each once, and its writer goes on behind its catchup; the client's writer goes on behind the last
    -- packet sealed, and what the server's catchup holds, the packets that the client lacked, joins
    -- those that wait for the caller, in order and each once, as far as the link lasts.
    pub recover-resumes :
        (x : Recover.Exchange) (y : Exchange) (l : Link)
        → CanReplay (seal_packets box cs ps) c x s.recv_seq
        → s.recv_seq ≤ max_int32
        → All (λ b. length b ≤ max_frame_size) (drop c.recv_seq s.sent)
        → Wired (drop s.recv_seq (seal_packets box cs ps)) x y c s
        → (write_recover x c ≡ done (length ps))
          × ((recover box y s).0 ≡ flushed_to (length qs))
          × Accepted box (drop s.recv_seq ps) s (recover box y s).1
          × ((recover box y s).1.recv_seq ≡ length ps)
          × CameTo (drop c.recv_seq qs) c (deliver_all box l (drop c.recv_seq s.sent) c)
    recover-resumes x y l can small fits wired =
        let (flushed, got) = server_resumes y (
          recover-flushed _ y c.recv_seq s wired.server_sequence
            (wired.server_peer ∙ ap ok (int32-pos c.recv_seq (can.0))) wired.server_catchup
            wired.server_theirs wired.before_catchup wired.before_accept
            (omega (arith, length-sent, p.client_got))) in
        (
          client_offers x can (
              write_recover-at c x s.recv_seq p.history wired.client_sequence
                (wired.client_peer ∙ ap ok (int32-pos s.recv_seq small)) wired.client_catchup),
          flushed,
          got,
          omega (arith, got.counted, length-drop {0} s.recv_seq ps, p.server_got),
          client_resumes l fits,
        )
