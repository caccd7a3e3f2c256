-- ===== src/Etcp/Delivery.antt =====
-- internal/etcp as a whole: the client against a peer and a network that loses links.
--
-- `got` is what the peer has counted, `wire` what the link still carries to it, and `linked` that the
-- client's writer may use the link. The client's steps are those of Conn, Writer and Recover; the
-- network delivers in order, and a dying link loses what it carries. Of a catchup it may deliver a
-- front only, which is more than the peer, who decodes it whole or not at all, allows. Packets may be
-- queued between the catchup, which `offered` notes with the peer's count, and the end of recover.
pub mod Flushed
pub mod Exactly
use et_go.Prelude.{
  ℕ, ◌+◌, ◌≤◌, ◌≡◌, List, [], ◌∷◌, ◌++◌, Bool, true, false, Option, none, some, Bytes, length,
  total, pos,
}
use et_go.Protocol.{Packet}
use et_go.Seal.{Secretbox}
use et_go.Etcp.Ring.{next, append_range, since}
use et_go.Etcp.Conn.{Conn, Err, Woken, write_packet, write_woken, probe_once}
use et_go.Etcp.Conn.Invariant.{written_history, probe_history}
use et_go.Etcp.Reader.{release_hold}
use et_go.Etcp.Writer.{settle}
use et_go.Etcp.Recover.{finish_recover}

pub record World : Type 0 where
  pub conn : Conn
  pub history : List Bytes
  pub wire : List Bytes
  pub got : List Bytes
  pub linked : Bool
  pub offered : Option (ℕ × ℕ)

-- The entries of the next `n` packets of the backlog.
abbrev pub batch : ℕ → Conn → List Bytes
batch n c = append_range [] c.flushed (c.flushed + n) c.ring

-- The client's steps that seal or write packets, and the network's.
pub data Step (box : Secretbox) (start : Bytes) : World → World → Type 0 where
  write :
      (w : World) (ctx : Option Err) (p : Packet)
      → Step box start w (record w {
        conn = (write_packet box ctx p w.conn).1;
        history = written_history box start w.history p w.conn (write_packet box ctx p w.conn).0;
      })
  resume :
      (w : World) (why : Woken) (p : Packet)
      → Step box start w (record w {
        conn = (write_woken box why p w.conn).1;
        history = written_history box start w.history p w.conn (write_woken box why p w.conn).0;
      })
  probe :
      (w : World)
      → Step box start w (record w {
        conn = probe_once box w.conn;
        history = probe_history box start w.history w.conn;
      })
  -- The writer has put a batch on the link, and settles it.
  send :
      (w : World) (n : ℕ)
      → w.linked ≡ true
      → w.conn.flushed + n ≤ next w.conn.ring
      → Step box start w (record w {
        conn = settle n (total (batch n w.conn)) w.conn;
        wire = w.wire ++ batch n w.conn;
      })
  -- A Write has failed behind some packets of a batch, which the peer may still receive.
  spill :
      (w : World) (n : ℕ)
      → w.linked ≡ true
      → w.conn.flushed + n ≤ next w.conn.ring
      → Step box start w (record w { wire = w.wire ++ batch n w.conn; linked = false })
  arrive :
      (w : World) (d : Bytes) (rest : List Bytes)
      → w.wire ≡ d ∷ rest
      → Step box start w (record w { wire = rest; got = w.got ++ (d ∷ []) })
  -- The peer's first frame on the link.
  speak : (w : World) → Step box start w (record w { conn = release_hold w.conn })
  lose : (w : World) → Step box start w (record w { wire = []; linked = false; offered = none })
  -- A redial: the peer tells its count, and writeRecover sends what it lacks.
  offer :
      (w : World) (ours : List Bytes)
      → w.linked ≡ false
      → w.wire ≡ []
      → since (pos (length w.got)) (next w.conn.ring) w.conn.ring ≡ some ours
      → Step box start w (record w { wire = ours; offered = some (length w.got, next w.conn.ring) })
  -- The exchange has succeeded: the link is up.
  recover :
      (w : World) (peer snap : ℕ)
      → w.offered ≡ some (peer, snap)
      → Step box start w
          (record w { conn = finish_recover (pos peer) snap w.conn; linked = true; offered = none })

pub data Reach (box : Secretbox) (start : Bytes) (w : World) : World → Type 0 where
  here : Reach box start w w
  more : {u v : World} → Reach box start w u → Step box start u v → Reach box start w v
