-- ===== src/Server/EndToEnd.antt =====
-- The client of internal/etcp, over links that die, against the server.
use et_go.Prelude.{
  ℕ, zero, suc, ◌≡◌, refl, sym, ap, ◌∙◌, List, [], ◌∷◌, ◌++◌, Bool, true, false, Option, none,
  Bytes, length, take, arith, append-nil, at_or_after, Bool-cases, inl, inr, take-append_length,
}
use et_go.Protocol.{Packet}
use et_go.Seal
use et_go.Seal.{Secretbox, SecretboxLaws}
use et_go.Seal.Nonce.{advanced}
use et_go.Etcp.Conn.{
  Conn, Err, Written, refused, queued, waiting, seal_packet, enqueue, probe_once, write_packet,
  write_pass, write_woken, release, Woken,
}
use et_go.Etcp.Conn.Invariant.{IsConn, seal_packet-nonce, written_history, probe_history}
use et_go.Etcp.Reader.{release_hold}
use et_go.Etcp.Reader.Authentic.{seal_packets}
use et_go.Etcp.Writer.{settle}
use et_go.Etcp.Recover.{finish_recover}
use et_go.Etcp.Delivery.{
  World, Step, write, resume, probe, send, spill, arrive, speak, lose, offer, recover, Reach, here,
  more,
}
use et_go.Etcp.Delivery.Exactly.{exactly_once}
use et_go.Server.{Server, accept_all}
use et_go.Server.Sealing.{Sealed, Sealed-append}
use et_go.Server.Accepting.{Accepted, accept_all-Accepted}

-- The packet of a call that queued it.
abbrev pub if_queued : Written → Packet → List Packet
if_queued queued p = p ∷ []
if_queued (refused e) p = []
if_queued waiting p = []

abbrev pub if_probed : Bool → Packet → List Packet
if_probed true p = []
if_probed false p = p ∷ []

module _ {box : Secretbox} {start : Bytes} where
  -- The packets that a step queues: those of the callers whose calls returned nil, and the probes.
  abbrev pub queued_by : {u v : World} → Step box start u v → List Packet
  queued_by (write w ctx p) = if_queued (write_packet box ctx p w.conn).0 p
  queued_by (resume w why p) = if_queued (write_woken box why p w.conn).0 p
  queued_by (probe w) = if_probed (at_or_after w.conn.last_probe w.conn.flushed) w.conn.probe
  queued_by (send w n l fits) = []
  queued_by (spill w n l fits) = []
  queued_by (arrive w d rest e) = []
  queued_by (speak w) = []
  queued_by (lose w) = []
  queued_by (offer w ours l dry e) = []
  queued_by (recover w peer snap e) = []

  abbrev pub queued_in : {u v : World} → Reach box start u v → List Packet
  queued_in here = []
  queued_in (more r s) = queued_in r ++ queued_by s

-- What a call seals.
module _ (box : Secretbox) where
  unsealed : (h : List Bytes) (o o' : Seal.Stream) → o' ≡ o → Sealed box [] (h, o) (h, o')
  unfolding advanced
  unsealed h o o' e = (sym (append-nil h), e)

  sealed_one :
      (p : Packet) (h : List Bytes) (o o' : Seal.Stream)
      → o' ≡ (seal_packet box p o).1
      → Sealed box (p ∷ []) (h, o) (h ++ ((seal_packet box p o).0 ∷ []), o')
  unfolding advanced
  sealed_one p h o o' e = (refl, e ∙ seal_packet-nonce box p o)

  -- By what the call came to.
  sealed_call :
      (start : Bytes) (p : Packet) (h : List Bytes) (c : Conn) (r : Written) (o' : Seal.Stream)
      → o' ≡ elim r [ queued ↦ (seal_packet box p c.out).1 | _ ↦ c.out ]
      → Sealed box (if_queued r p) (h, c.out) (written_history box start h p c r, o')
  sealed_call start p h c queued o' e = sealed_one p h c.out o' e
  sealed_call start p h c waiting o' e = unsealed h c.out o' e
  sealed_call start p h c (refused x) o' e = unsealed h c.out o' e

  write_packet-out :
      (ctx : Option Err) (p : Packet) (c : Conn)
      → (write_packet box ctx p c).1.out
        ≡ elim (write_packet box ctx p c).0 [ queued ↦ (seal_packet box p c.out).1 | _ ↦ c.out ]
  unfolding write_packet write_pass enqueue
  write_packet-out ctx p c = ground arith

  write_woken-out :
      (why : Woken) (p : Packet) (c : Conn)
      → (write_woken box why p c).1.out
        ≡ elim (write_woken box why p c).0 [ queued ↦ (seal_packet box p c.out).1 | _ ↦ c.out ]
  unfolding write_woken write_pass enqueue
  write_woken-out why p c = ground arith

  probe-Sealed :
      (start : Bytes) (h : List Bytes) (c : Conn)
      → Sealed box
          (if_probed (at_or_after c.last_probe c.flushed) c.probe)
          (h, c.out)
          (probe_history box start h c, (probe_once box c).out)
  unfolding probe_once enqueue
  probe-Sealed start h c = elim (Bool-cases (at_or_after c.last_probe c.flushed)) [
    | inl e ↦ rw (e, probe_once) (unsealed h c.out c.out refl)
    | inr e ↦ rw (e, probe_once) (sealed_one c.probe h c.out _ refl)
  ]

  step-Sealed :
      {start : Bytes} {u v : World} (s : Step box start u v)
      → Sealed box (queued_by s) (u.history, u.conn.out) (v.history, v.conn.out)
  unfolding settle release_hold finish_recover release
  step-Sealed {start} (write w ctx p) =
      sealed_call start p w.history w.conn (write_packet box ctx p w.conn).0 _
        (write_packet-out ctx p w.conn)
  step-Sealed {start} (resume w why p) =
      sealed_call start p w.history w.conn (write_woken box why p w.conn).0 _
        (write_woken-out why p w.conn)
  step-Sealed {start} (probe w) = probe-Sealed start w.history w.conn
  step-Sealed (send w n l fits) = unsealed w.history w.conn.out _ (ground arith)
  step-Sealed (spill w n l fits) = unsealed w.history w.conn.out _ refl
  step-Sealed (arrive w d rest e) = unsealed w.history w.conn.out _ refl
  step-Sealed (speak w) = unsealed w.history w.conn.out _ (ground arith)
  step-Sealed (lose w) = unsealed w.history w.conn.out _ refl
  step-Sealed (offer w ours l dry e) = unsealed w.history w.conn.out _ refl
  step-Sealed (recover w peer snap e) = unsealed w.history w.conn.out _ (ground arith)

  reach-Sealed :
      {start : Bytes} {w v : World} (r : Reach box start w v)
      → Sealed box (queued_in r) (w.history, w.conn.out) (v.history, v.conn.out)
  reach-Sealed {w} here = unsealed w.history w.conn.out w.conn.out refl
  reach-Sealed {w} {v} (more {u} r s) =
      Sealed-append box (queued_in r) (queued_by s) w.history u.history v.history w.conn.out
        u.conn.out v.conn.out (reach-Sealed r) (step-Sealed s)

  seal_packets-take :
      (k : ℕ) (s : Seal.Stream) (ps : List Packet)
      → take k (seal_packets box s ps) ≡ seal_packets box s (take k ps)
  seal_packets-take zero s ps = refl
  seal_packets-take (suc k) s [] = refl
  seal_packets-take (suc k) s (p ∷ ps) =
      ap (λ bs. (seal_packet box p s).0 ∷ bs) (seal_packets-take k (seal_packet box p s).1 ps)

  accepts_sealed :
      (laws : SecretboxLaws box) (bs : List Bytes) (ps : List Packet) (s : Server)
      → bs ≡ seal_packets box s.inward ps
      → ((accept_all box bs s).0 ≡ none) × Accepted box ps s (accept_all box bs s).1
  accepts_sealed laws bs ps s e = rw e (accept_all-Accepted box laws ps s)

  -- A client with a fresh connection and a server whose stream stands where the client's does. Whatever
  -- the callers write, whatever the probes, and whichever links die, of the packets that the client
  -- queued the server accepts every one that reached it: it queues a front of them for `Recv`, in
  -- order and each once, counts them, and fails on none.
  pub end_to_end :
      {start : Bytes} (laws : SecretboxLaws box) (w v : World) (s : Server)
      → IsConn start [] w.conn
      → w.history ≡ []
      → w.wire ≡ []
      → w.got ≡ []
      → w.offered ≡ none
      → s.inward ≡ w.conn.out
      → (r : Reach box start w v)
      → ((accept_all box v.got s).0 ≡ none)
        × Accepted box (take (length v.got) (queued_in r)) s (accept_all box v.got s).1
        × ((rest : List Bytes) × (v.got ++ rest ≡ seal_packets box w.conn.out (queued_in r)))
  end_to_end laws w v s fresh none_yet dry nothing no_offer same r =
      let (_, (rest, front), _) = exactly_once box w v fresh none_yet dry nothing no_offer r in
      let all : v.history ≡ seal_packets box w.conn.out (queued_in r) =
        (reach-Sealed r).0 ∙ ap (λ h. h ++ seal_packets box w.conn.out (queued_in r)) none_yet in
      let got : v.got ≡ seal_packets box s.inward (take (length v.got) (queued_in r)) =
        sym (take-append_length (length v.got) v.got rest refl)
        ∙ (ap (take (length v.got)) (front ∙ all)
            ∙ (seal_packets-take (length v.got) w.conn.out (queued_in r)
                ∙ ap (λ o. seal_packets box o (take (length v.got) (queued_in r))) (sym same))) in
      let accepted = accepts_sealed laws v.got (take (length v.got) (queued_in r)) s got in
      (accepted.0, accepted.1, (rest, front ∙ all))
