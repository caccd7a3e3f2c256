-- ===== src/Server/Sealing.antt =====
-- Packets sealed one after the other on a stream, and what the server seals.
use et_go.Prelude.{
  ℕ, zero, suc, ◌+◌, ◌≡◌, refl, sym, ap, ◌∙◌, List, [], ◌∷◌, ◌++◌, true, Bytes, length, drop, arith,
  append_assoc, length-append,
}
use et_go.Protocol.{Packet}
use et_go.Seal
use et_go.Seal.{Secretbox, SecretboxLaws, seal, open_next, increment}
use et_go.Seal.Nonce.{advanced, advanced-increment}
use et_go.Wire.Packet.{load, outside}
use et_go.Wire.Packet.Laws.{append_packet-layout}
use et_go.Etcp.Conn.{seal_packet}
use et_go.Etcp.Conn.Invariant.{seal_packet-nonce}
use et_go.Etcp.Reader.Authentic.{seal_packets, seal_packet-bytes}
use et_go.Server.{Server, enqueue}

-- A stream behind `k` packets.
abbrev pub stream_after : ℕ → Seal.Stream → Seal.Stream
stream_after k s = record s { nonce = advanced k s.nonce }

module _ (box : Secretbox) where
  pub stream_after-seal :
      (p : Packet) (s : Seal.Stream) (k : ℕ)
      → stream_after k (seal_packet box p s).1 ≡ stream_after (suc k) s
  stream_after-seal p s k = rw (seal_packet-nonce box p s, advanced-increment k s.nonce)

  -- The packets from the `k`-th on are sealed on the stream behind the first `k`.
  pub seal_packets-drop :
      (k : ℕ) (s : Seal.Stream) (ps : List Packet)
      → drop k (seal_packets box s ps) ≡ seal_packets box (stream_after k s) (drop k ps)
  unfolding advanced
  seal_packets-drop zero s ps = refl
  seal_packets-drop (suc k) s [] = refl
  seal_packets-drop (suc k) s (p ∷ ps) =
      seal_packets-drop k (seal_packet box p s).1 ps
      ∙ ap (λ t. seal_packets box t (drop k ps)) (stream_after-seal p s k)

  pub seal_packets-append :
      (s : Seal.Stream) (ps qs : List Packet)
      → seal_packets box s (ps ++ qs)
        ≡ seal_packets box s ps ++ seal_packets box (stream_after (length ps) s) qs
  unfolding advanced
  seal_packets-append s [] qs = refl
  seal_packets-append s (p ∷ ps) qs =
      ap (λ bs. (seal_packet box p s).0 ∷ bs)
        (seal_packets-append (seal_packet box p s).1 ps qs
          ∙ ap (λ t. seal_packets box (seal_packet box p s).1 ps ++ seal_packets box t qs)
              (stream_after-seal p s (length ps)))

  pub length-seal_packets :
      (s : Seal.Stream) (ps : List Packet) → length (seal_packets box s ps) ≡ length ps
  length-seal_packets s [] = refl
  length-seal_packets s (p ∷ ps) = ap suc (length-seal_packets (seal_packet box p s).1 ps)

  -- The server, which puts the box in a slice of its own first, seals the bytes that the client's
  -- way of sealing in place would.
  pub enqueue-sealed :
      (p : Packet) (s : Server)
      → enqueue box p s ≡ record s {
        out = (seal_packet box p s.out).1;
        sent = s.sent ++ ((seal_packet box p s.out).0 ∷ []);
      }
  unfolding enqueue seal load
  enqueue-sealed p s = rw (
    append_packet-layout [] 0 true p.header
        (outside (box.seal_box p.payload (increment s.out.nonce) s.out.key)) (omega arith),
    seal_packet-bytes box p s.out,
    seal_packet-nonce box p s.out,
  )

advanced_add : (m n : ℕ) (b : Bytes) → advanced (m + n) b ≡ advanced n (advanced m b)
unfolding advanced
advanced_add m zero b = let e : m + zero ≡ m = omega arith in rw e refl
advanced_add m (suc n) b =
    let e : m + suc n ≡ suc (m + n) = omega arith in rw e (ap increment (advanced_add m n b))

pub stream_after_add :
    (m n : ℕ) (s : Seal.Stream) → stream_after (m + n) s ≡ stream_after n (stream_after m s)
stream_after_add m n s = ground (arith, advanced_add m n s.nonce)

-- What a stream has sealed so far, and where it stands, as `ds` were sealed.
abbrev pub Sealed :
    Secretbox → List Packet → List Bytes × Seal.Stream → List Bytes × Seal.Stream → Type 0
Sealed box ds (sent, out) (sent', out') =
    (sent' ≡ sent ++ seal_packets box out ds) × (out' ≡ stream_after (length ds) out)

pub Sealed-append :
    (box : Secretbox) (ds es : List Packet) (x x' x'' : List Bytes) (o o' o'' : Seal.Stream)
    → Sealed box ds (x, o) (x', o')
    → Sealed box es (x', o') (x'', o'')
    → Sealed box (ds ++ es) (x, o) (x'', o'')
Sealed-append box ds es x x' x'' o o' o'' a b = (
  rw (b.0, a.0, a.1, seal_packets-append box o ds es)
      (append_assoc x (seal_packets box o ds) (seal_packets box (stream_after (length ds) o) es)),
  rw (b.1, a.1, length-append ds es) (sym (stream_after_add (length ds) (length es) o)),
)
