-- ===== src/Server/Downstream.antt =====
-- The server's packets on their way to the client's caller, over links that die.
--
-- `link` is what the link that is `up` still carries, and `flushed` where the server's writer stands on
-- it. The server's steps are those of Server.Faithful, and `serves` is one of them. What the client
-- does besides reading is `acts`.
pub mod Carrying
pub mod Kept
pub mod Once
use et_go.Prelude.{
  ℕ, ◌+◌, ◌≤◌, ◌≡◌, List, [], ◌∷◌, ◌++◌, Bool, true, false, Bytes, length, take, drop,
}
use et_go.Protocol.{Packet}
use et_go.Wire.Stream.{max_frame_size}
use et_go.Seal
use et_go.Seal.{Secretbox}
use et_go.Etcp.Conn.{Conn, Taken, packet, failed, blocked, ReadCase, read_packet}
use et_go.Etcp.Reader.{Link, deliver, hand_pending}
use et_go.Server.{Server}
use et_go.Server.Faithful
use et_go.Server.Faithful.{Step, fresh_world}

pub record Down : Type 0 where
  pub server : Faithful.World
  pub conn : Conn
  pub up : Bool
  pub link : List Bytes
  pub flushed : ℕ
  pub taken : List Packet

-- No link is up yet.
abbrev pub fresh_down : Server → Conn → Down
fresh_down s c = record {
  server = fresh_world s;
  conn = c;
  up = false;
  link = [];
  flushed = 0;
  taken = [];
}

-- What a ReadPacket gave to its caller.
abbrev pub given : Taken → List Packet
given (packet p) = p ∷ []
given (failed e) = []
given blocked = []

pub data Move (box : Secretbox) (inward₀ : Seal.Stream) : Down → Down → Type 0 where
  serves :
      (d : Down) (w : Faithful.World)
      → Step box inward₀ d.server w
      → Move box inward₀ d (record d { server = w })
  -- The writer of the link.
  writes :
      (d : Down) (n : ℕ)
      → d.up ≡ true
      → d.flushed + n ≤ length d.server.server.sent
      → Move box inward₀ d (record d {
        link = d.link ++ take n (drop d.flushed d.server.server.sent);
        flushed = d.flushed + n;
      })
  -- The next frame, or entry of a catchup, at the client's reader, when nothing is pending there.
  arrives :
      (d : Down) (l : Link) (b : Bytes) (rest : List Bytes)
      → d.link ≡ b ∷ rest
      → d.up ≡ true
      → d.conn.pending ≡ []
      → length b ≤ max_frame_size
      → Move box inward₀ d (record d { conn = (deliver box l b d.conn).conn; link = rest })
  hands :
      (d : Down) (l : Link) → Move box inward₀ d (record d { conn = (hand_pending l d.conn).conn })
  reads :
      (d : Down) (c : ReadCase)
      → Move box inward₀ d (record d {
        conn = (read_packet c d.conn).1;
        taken = d.taken ++ given (read_packet c d.conn).0;
      })
  acts :
      (d : Down) (c : Conn)
      → c.inward ≡ d.conn.inward
      → c.recv_seq ≡ d.conn.recv_seq
      → c.inbox ≡ d.conn.inbox
      → c.pending ≡ d.conn.pending
      → Move box inward₀ d (record d { conn = c })
  loses : (d : Down) → Move box inward₀ d (record d { up = false; link = [] })
  -- A redial: the server's catchup is what the client's count asks for, and its writer goes on behind.
  resumes :
      (d : Down)
      → d.up ≡ false
      → Move box inward₀ d (record d {
        up = true;
        link = drop d.conn.recv_seq d.server.server.sent;
        flushed = length d.server.server.sent;
      })

pub data Moves (box : Secretbox) (inward₀ : Seal.Stream) (d : Down) : Down → Type 0 where
  stays : Moves box inward₀ d d
  then : {u v : Down} → Moves box inward₀ d u → Move box inward₀ u v → Moves box inward₀ d v
