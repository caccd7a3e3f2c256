-- ===== src/Etcp/Tests/Fresh.antt =====
-- Concrete runs of the dialer, and of a whole connection.
mod ToServer
use et_go.Prelude.{
  ℕ, ◌+◌, ◌≡◌, ◌≢◌, ◌≤◌, ◌⊎◌, refl, List, [], ◌∷◌, ◌++◌, true, false, Option, none, some, Bytes,
  total, drop, replicate, pos, negsuc, arith,
}
use et_go.Protocol.{Packet}
use et_go.Wire.Stream.{ok}
use et_go.Seal.Nonce.{advanced}
use et_go.Seal.Tests.{plain_box}
use et_go.Etcp.Ring.{next, append_range, push}
use et_go.Etcp.Backoff.{Backoff}
use et_go.Etcp.Backoff.Laws.{IsJitter}
use et_go.Etcp.Conn.{Conn, Err, rejected, closed, seal_packet, write_packet, write_pass, enqueue}
use et_go.Etcp.Conn.Invariant.{IsConn, written_history}
use et_go.Etcp.Dialer.{
  Dialer, Attempt, is_fatal, handshake, new_client, returning_client, fresh, recovering,
  turned_away,
}
use et_go.Etcp.Dialer.Fatal.{handshake-decides}
use et_go.Etcp.Writer.{settle}
use et_go.Etcp.Delivery.{World, Reach, here, more, batch, write, send, arrive, lose}
use et_go.Etcp.Delivery.Exactly.{exactly_once}

abbrev exact : ℕ → ℕ
exact d = d

exact-IsJitter : IsJitter exact
exact-IsJitter = record { above = λ d. omega arith; below = λ d. omega arith }

abbrev third : Backoff
third = record { attempt = 3 }

-- An attempt that the network refuses, and one that the server refuses.
abbrev refused : Attempt
refused = record {
  ctx = none;
  dialled = some closed;
  shaken = none;
  stopped = false;
  deadline = none;
}

abbrev turned_off : Attempt
turned_off = record {
  ctx = none;
  dialled = none;
  shaken = some rejected;
  stopped = false;
  deadline = none;
}

abbrev first_try : Backoff
first_try = record { attempt = 0 }

abbrev tried : List (Option Err × Attempt)
tried = (none, refused) ∷ []

abbrev last : List (Option Err × Attempt)
last = (none, turned_off) ∷ []

abbrev passkey : Bytes
passkey = replicate 32 97

abbrev dialer : Dialer
dialer = record {
  keep_alive = pos 0;
  probe = record { header = 0; payload = [] };
  replay_limit = pos 0;
}

-- A fresh connection with a limit of 50 bytes.
abbrev begun : Conn
begun = record {
  probe = dialer.probe;
  ended = none;
  out = record { key = passkey; nonce = 0 ∷ 0 ∷ [] };
  ring = record { first = 0; entries = []; bytes = 0; limit = 50; held = false; hold = pos 0 };
  flushed = 0;
  unsent = 0;
  last_probe = negsuc 0;
  inward = record { key = passkey; nonce = 0 ∷ 1 ∷ [] };
  recv_seq = 0;
  pending = [];
  inbox = [];
  readers_done = false;
  wake = false;
  space = false;
}

begun-IsConn : IsConn begun.out.nonce [] begun
unfolding advanced
begun-IsConn = record {
  window = record { inside = omega arith; kept = refl; sized = refl };
  from_first = omega arith;
  in_history = omega arith;
  backlog = refl;
  counted = refl;
  probed = refl;
  bounded = omega arith;
}

abbrev a_packet : Packet
a_packet = record { header = 1; payload = 8 ∷ 9 ∷ [] }

abbrev world : World
world = record { conn = begun; history = []; wire = []; got = []; linked = true; offered = none }

-- The world behind a call of WritePacket, a batch of one packet, its arrival, and the link's end.
abbrev wrote : World
wrote = record world {
  conn = (write_packet plain_box none a_packet begun).1;
  history =
      written_history plain_box begun.out.nonce [] a_packet begun
        (write_packet plain_box none a_packet begun).0;
}

abbrev sent_one : World
sent_one = record wrote {
  conn = settle 1 (total (batch 1 wrote.conn)) wrote.conn;
  wire = wrote.wire ++ batch 1 wrote.conn;
}

abbrev sealed_one : Bytes
sealed_one = (seal_packet plain_box a_packet begun.out).0

abbrev arrived : World
arrived = record sent_one { wire = []; got = sealed_one ∷ [] }

abbrev link_gone : World
link_gone = record arrived { wire = []; linked = false; offered = none }

one_unwritten : wrote.conn.flushed + 1 ≤ next wrote.conn.ring
unfolding write_packet write_pass enqueue next push
one_unwritten = omega arith

on_the_wire : sent_one.wire ≡ sealed_one ∷ []
unfolding write_packet write_pass enqueue append_range push
on_the_wire = refl

link_gone-Reach : Reach plain_box begun.out.nonce world link_gone
link_gone-Reach =
    more {u = arrived}
      (more {u = sent_one}
        (more {u = wrote} (more {u = world} here (write world none a_packet))
          (send wrote 1 refl one_unwritten))
        (arrive sent_one sealed_one [] on_the_wire))
      (lose arrived)

exactly_once_example :
    IsConn begun.out.nonce link_gone.history link_gone.conn
    × ((rest : List Bytes) × (link_gone.got ++ rest ≡ link_gone.history))
    × ((link_gone.linked ≡ false)
        ⊎ (link_gone.got ++ (link_gone.wire ++ drop link_gone.conn.flushed link_gone.history)
            ≡ link_gone.history))
exactly_once_example =
    exactly_once plain_box world link_gone begun-IsConn refl refl refl refl link_gone-Reach
