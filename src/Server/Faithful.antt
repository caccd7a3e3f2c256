-- ===== src/Server/Faithful.antt =====
-- The server's calls in any order, against the packets of a client that seals in order.
use et_go.Prelude.{
  ℕ, ◌≡◌, refl, sym, ap, ◌∙◌, List, [], ◌∷◌, ◌++◌, Bool, Option, none, some, Bytes, length,
  length-append, append_assoc, arith, ◌⊎◌, inl, inr, false,
}
use et_go.Protocol.{Packet, Header}
use et_go.Seal
use et_go.Seal.{Secretbox, SecretboxLaws}
use et_go.Seal.Nonce.{advanced}
use et_go.Wire.Packet.{parse_packet}
use et_go.Etcp.Conn.{seal_packet}
use et_go.Etcp.Conn.Invariant.{seal_packet-nonce}
use et_go.Server.{
  Server, packet, Request, new_server, admit, take_over, end_session, echo_keep_alive, send, recv,
  take_queue, notified, accept,
}
use et_go.Server.Links.{woken}
use et_go.Server.Sealing.{stream_after, stream_after_add, enqueue-sealed, Sealed, Sealed-append}
use et_go.Server.Accepting.{echoes, Accepted, accept-Accepted}

-- `got` are the packets of the client that were accepted, `told` those sealed for it, and `taken`
-- those that `Recv` returned.
pub record World : Type 0 where
  pub server : Server
  pub got : List Packet
  pub told : List Packet
  pub taken : List Packet

abbrev pub fresh_world : Server → World
fresh_world s = record { server = s; got = []; told = []; taken = [] }

-- The steps of one session. `inward₀` is the stream that the client's packets were sealed on from the
-- first on.
pub data Step (box : Secretbox) (inward₀ : Seal.Stream) : World → World → Type 0 where
  admits :
      (w : World) (req : Request)
      → Step box inward₀ w (record w { server = (admit req w.server).server })
  takes_over :
      (w : World) (link : ℕ)
      → Step box inward₀ w (record w { server = (take_over link w.server).1 })
  -- The client's next packet, on whichever link or catchup.
  accepts :
      (w : World) (p : Packet)
      → Step box inward₀ w (record w {
        server =
            (accept box (seal_packet box p (stream_after (length w.got) inward₀)).0 w.server).1;
        got = w.got ++ (p ∷ []);
        told = w.told ++ echoes w.server.echo (p ∷ []);
      })
  -- A frame that is no encrypted packet.
  refuses :
      (w : World) (b : Bytes)
      → (parse_packet b ≡ none)
        ⊎ ((h : Header) × (payload : Bytes) × (parse_packet b ≡ some (false, h, payload)))
      → Step box inward₀ w (record w { server = (accept box b w.server).1 })
  sends :
      (w : World) (p : Packet)
      → Step box inward₀ w
          (record w { server = (send box none p w.server).1; told = w.told ++ (p ∷ []) })
  receives :
      (w : World) (p : Packet) (ctx : Option ℕ)
      → (recv ctx w.server).0 ≡ packet p
      → Step box inward₀ w
          (record w { server = (recv ctx w.server).1; taken = w.taken ++ (p ∷ []) })
  is_notified : (w : World) → Step box inward₀ w (record w { server = notified w.server })
  is_woken : (w : World) → Step box inward₀ w (record w { server = woken w.server })
  ends : (w : World) → Step box inward₀ w (record w { server = end_session w.server })
  sets_echo :
      (w : World) (on : Bool)
      → Step box inward₀ w (record w { server = echo_keep_alive on w.server })

pub data Reach (box : Secretbox) (inward₀ : Seal.Stream) (w : World) : World → Type 0 where
  here : Reach box inward₀ w w
  more : {u v : World} → Reach box inward₀ w u → Step box inward₀ u v → Reach box inward₀ w v

-- The state against what has happened.
pub record Faithful (box : Secretbox) (out₀ inward₀ : Seal.Stream) (w : World) : Type 0 where
  pub sealed : Sealed box w.told ([], out₀) (w.server.sent, w.server.out)
  pub inward : w.server.inward ≡ stream_after (length w.got) inward₀
  pub counted : w.server.recv_seq ≡ length w.got
  pub queued : w.taken ++ w.server.queue ≡ w.got

-- The steps that touch neither stream nor queue.
abbrev SameStreams : Server → Server → Type 0
SameStreams s s' =
    (s'.sent ≡ s.sent)
    × (s'.out ≡ s.out)
    × (s'.inward ≡ s.inward)
    × (s'.recv_seq ≡ s.recv_seq)
    × (s'.queue ≡ s.queue)

module _ (box : Secretbox) (laws : SecretboxLaws box) (out₀ inward₀ : Seal.Stream) where
  same-Faithful :
      (w : World) (s : Server)
      → Faithful box out₀ inward₀ w
      → SameStreams w.server s
      → Faithful box out₀ inward₀ (record w { server = s })
  same-Faithful w s f e = record {
    sealed = (e.0 ∙ f.sealed.0, e.1 ∙ f.sealed.1);
    inward = e.2 ∙ f.inward;
    counted = e.3 ∙ f.counted;
    queued = ap (λ q. w.taken ++ q) e.4 ∙ f.queued;
  }

  admit-SameStreams : (req : Request) (s : Server) → SameStreams s (admit req s).server
  unfolding admit
  admit-SameStreams req s = ground arith

  refuse-SameStreams :
      (b : Bytes) (s : Server)
      → (parse_packet b ≡ none)
        ⊎ ((h : Header) × (payload : Bytes) × (parse_packet b ≡ some (false, h, payload)))
      → SameStreams s (accept box b s).1
  unfolding accept
  refuse-SameStreams b s (inl e) = ground (arith, e)
  refuse-SameStreams b s (inr (h, payload, e)) = ground (arith, e)

  accepts-Faithful :
      (w : World) (p : Packet) (s : Server)
      → Faithful box out₀ inward₀ w
      → Accepted box (p ∷ []) w.server s
      → Faithful box out₀ inward₀ (record w {
        server = s;
        got = w.got ++ (p ∷ []);
        told = w.told ++ echoes w.server.echo (p ∷ []);
      })
  accepts-Faithful w p s f a = record {
    sealed =
        Sealed-append box w.told (echoes w.server.echo (p ∷ [])) [] w.server.sent s.sent out₀
          w.server.out s.out f.sealed (a.sent, a.out);
    inward =
        a.inward
        ∙ (ap (stream_after 1) f.inward
            ∙ (sym (stream_after_add (length w.got) 1 inward₀)
                ∙ ap (λ k. stream_after k inward₀) (sym (length-append w.got (p ∷ [])))));
    counted = omega (arith, a.counted, f.counted, length-append {0} w.got (p ∷ []));
    queued =
        ap (λ q. w.taken ++ q) a.queued
        ∙ (sym (append_assoc w.taken w.server.queue (p ∷ [])) ∙ ap (λ g. g ++ (p ∷ [])) f.queued);
  }

  sends-Faithful :
      (w : World) (p : Packet)
      → Faithful box out₀ inward₀ w
      → Faithful box out₀ inward₀
          (record w { server = (send box none p w.server).1; told = w.told ++ (p ∷ []) })
  unfolding send advanced
  sends-Faithful w p f = rw (enqueue-sealed box p w.server) (record {
    sealed =
        Sealed-append box w.told (p ∷ []) [] w.server.sent _ out₀ w.server.out _ f.sealed
          (refl, seal_packet-nonce box p w.server.out);
    inward = f.inward;
    counted = f.counted;
    queued = f.queued;
  })

  receives-Faithful :
      (w : World) (p : Packet) (ctx : Option ℕ) (q : List Packet)
      → w.server.queue ≡ q
      → Faithful box out₀ inward₀ w
      → (take_queue ctx q w.server).0 ≡ packet p
      → Faithful box out₀ inward₀
          (record w { server = (take_queue ctx q w.server).1; taken = w.taken ++ (p ∷ []) })
  unfolding take_queue
  receives-Faithful w p none [] e f h = absurd (cc)
  receives-Faithful w p (some c) [] e f h = absurd (cc)
  receives-Faithful w p ctx (x ∷ xs) e f h = record {
    sealed = f.sealed;
    inward = f.inward;
    counted = f.counted;
    queued = ground (arith, f.queued, e, h, append_assoc w.taken (p ∷ []) xs);
  }

  pub step-Faithful :
      {u v : World}
      → Step box inward₀ u v
      → Faithful box out₀ inward₀ u
      → Faithful box out₀ inward₀ v
  unfolding recv notified woken end_session echo_keep_alive take_over
  step-Faithful (admits w req) f = same-Faithful w _ f (admit-SameStreams req w.server)
  step-Faithful (takes_over w link) f = same-Faithful w _ f (refl, refl, refl, refl, refl)
  step-Faithful (accepts w p) f =
      rw (← f.inward) (accepts-Faithful w p _ f (accept-Accepted box laws p w.server).1)
  step-Faithful (refuses w b why) f = same-Faithful w _ f (refuse-SameStreams b w.server why)
  step-Faithful (sends w p) f = sends-Faithful w p f
  step-Faithful (receives w p ctx h) f = receives-Faithful w p ctx w.server.queue refl f h
  step-Faithful (is_notified w) f = same-Faithful w _ f (refl, refl, refl, refl, refl)
  step-Faithful (is_woken w) f = same-Faithful w _ f (refl, refl, refl, refl, refl)
  step-Faithful (ends w) f = same-Faithful w _ f (refl, refl, refl, refl, refl)
  step-Faithful (sets_echo w on) f = same-Faithful w _ f (refl, refl, refl, refl, refl)

  reach-Faithful :
      {w v : World}
      → Reach box inward₀ w v
      → Faithful box out₀ inward₀ w
      → Faithful box out₀ inward₀ v
  reach-Faithful here f = f
  reach-Faithful (more r step) f = step-Faithful step (reach-Faithful r f)

pub fresh-Faithful :
    (box : Secretbox) (id passkey : Bytes) (s : Server)
    → new_server id passkey ≡ some s
    → Faithful box s.out s.inward (fresh_world s)
unfolding new_server advanced
fresh-Faithful box id passkey s e = ground (arith, e)

-- From NewServer on, and in whatever order its calls come, the server queues the client's packets each
-- once and in order and counts them: what `Recv` returned and what it will return are together exactly
-- what was accepted. What it keeps for the client is everything that it sealed, echoes included, in
-- order on one stream.
pub server-Faithful :
    (box : Secretbox) (id passkey : Bytes) (s : Server) {w : World}
    → SecretboxLaws box
    → new_server id passkey ≡ some s
    → Reach box s.inward (fresh_world s) w
    → Faithful box s.out s.inward w
server-Faithful box id passkey s laws e r =
    reach-Faithful box laws s.out s.inward r (fresh-Faithful box id passkey s e)
