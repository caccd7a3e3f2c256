-- ===== src/Etcp/Tests.antt =====
-- Concrete runs of internal/etcp.
mod Fresh
mod Links
use et_go.Prelude.{
  ℕ, suc, ◌+◌, ◌-◌, ◌*◌, ◌^◌, ◌≡◌, ◌≢◌, ◌≤◌, ◌<◌, ◌⊎◌, inl, inr, refl, min, map, List, [], ◌∷◌,
  ◌++◌, Bool, true, false, Option, none, some, Bytes, length, total, take, drop, All, ltb, ◌||◌,
  if◌then◌else◌, ℤ, pos, negsuc, arith,
}
use et_go.Protocol.{Packet}
use et_go.Wire.Stream.{Outcome, ok, err, IoErr, short_write, max_frame_size, eof}
use et_go.Wire.Stream
use et_go.Seal
use et_go.Seal.Nonce.{advanced}
use et_go.Seal.Tests.{plain_box, plain_box-SecretboxLaws}
use et_go.Etcp.Ring.{Ring, next, trim, since}
use et_go.Etcp.Ring.Window.{IsWindow, since-IsWindow}
use et_go.Etcp.Ring.Trim.{trim-bytes, allowance, MustKeep, trim-keeps}
use et_go.Etcp.Conn.{
  Conn, Err, session_ended, replay_exceeded, link_dead, closed, seal_packet, write_packet,
  probe_once, read_packet, from_conn, packet, failed,
}
use et_go.Etcp.Conn.Invariant.{
  IsConn, write_packet-IsConn, written_history, probe_once-IsConn, probe_history,
}
use et_go.Etcp.Conn.Caller.{Took, read_packet-order, drain, drain_all}
use et_go.Etcp.Reader.{Link, hand_pending, deliver, deliver_all}
use et_go.Etcp.Reader.Delivery.{waiting, hand_pending-waiting, Once, deliver-Once}
use et_go.Etcp.Reader.Authentic.{seal_packets, seal_packet-bytes, CameTo, deliver_all-authentic}
use et_go.Etcp.Writer.{no_entries, frame_batch, write_buf_size, send_pieces, settle}
use et_go.Etcp.Writer.Framing.{frames, frame_batch-frames}
use et_go.Etcp.Writer.Settle.{IsFront, send_pieces-wire, settle-IsConn}
use et_go.Etcp.Watch.{WatchEvent, sign, tick, watch}
use et_go.Etcp.Watch.Silence.{verdict, watch-verdict}
use et_go.Etcp.Recover.{Exchange, done, write_recover, finish_recover}
use et_go.Etcp.Recover
use et_go.Etcp.Recover.Catchup.{
  CanResume, write_recover-exact, finish_recover-IsConn, finish_recover-keeps,
}

-- Two packets sealed, the first written.
abbrev history : List Bytes
history = (1 ∷ 2 ∷ []) ∷ (3 ∷ 4 ∷ 5 ∷ []) ∷ []

abbrev start : Bytes
start = 0 ∷ 0 ∷ []

abbrev a_packet : Packet
a_packet = record { header = 1; payload = 8 ∷ 9 ∷ [] }

abbrev peer_stream : Seal.Stream
peer_stream = record { key = 7 ∷ []; nonce = 0 ∷ 1 ∷ [] }

abbrev ring : Ring
ring = record { first = 0; entries = history; bytes = 5; limit = 4; held = false; hold = pos 0 }

abbrev conn : Conn
conn = record {
  probe = record { header = 0; payload = [] };
  ended = none;
  out = record { key = 7 ∷ []; nonce = advanced 2 start };
  ring = ring;
  flushed = 1;
  unsent = 3;
  last_probe = negsuc 0;
  inward = peer_stream;
  recv_seq = 0;
  pending = [];
  inbox = [];
  readers_done = false;
  wake = false;
  space = false;
}

ring-IsWindow : IsWindow history ring
ring-IsWindow = record { inside = omega arith; kept = refl; sized = refl }

conn-IsConn : IsConn start history conn
conn-IsConn = record {
  window = ring-IsWindow;
  from_first = omega arith;
  in_history = omega arith;
  backlog = refl;
  counted = refl;
  probed = refl;
  bounded = omega arith;
}

trim-keeps_example : (trim 2 0 ring).first ≤ 1
trim-keeps_example = trim-keeps 2 0 1 ring-IsWindow (omega arith) (inl (omega arith))

write_packet-IsConn_example :
    let (r, c') = write_packet plain_box none a_packet conn in
    IsConn start (written_history plain_box start history a_packet conn r) c'
write_packet-IsConn_example = write_packet-IsConn plain_box start none a_packet conn conn-IsConn

-- A connection whose caller still has packets to read when it has ended.
abbrev over : Conn
over = record conn {
  ended = some session_ended;
  readers_done = true;
  inbox = a_packet ∷ [];
  pending = record a_packet { header = 2 } ∷ [];
}

abbrev full_link : Link
full_link = record { room = 1; cause = link_dead; alive = false }

abbrev two_packets : List Packet
two_packets = a_packet ∷ record a_packet { header = 2 } ∷ []

small-fits :
    (p : Packet) (s : Seal.Stream)
    → length p.payload ≤ 100
    → length (seal_packet plain_box p s).0 ≤ max_frame_size
small-fits p s h = rw (seal_packet-bytes plain_box p s) (omega (arith, h))

two_packets-fit :
    All (λ b. length b ≤ max_frame_size) (seal_packets plain_box peer_stream two_packets)
two_packets-fit = (small-fits _ _ (omega arith), (small-fits _ _ (omega arith), tt))

abbrev frame_stream : Stream.Stream
frame_stream = record { bytes = 0 ∷ 0 ∷ 0 ∷ 1 ∷ 5 ∷ []; ending = eof }

-- A socket that takes three bytes and fails.
abbrev socket : ℕ → Bytes → ℕ × Option IoErr
socket at b = (min 3 (length b), some short_write)

abbrev exchanged : Exchange
exchanged = record {
  write_sequence = none;
  peer = ok (pos 1);
  size = λ ds. length ds + total ds;
  write_catchup = λ ds. none;
  theirs = ok [];
}

write_recover-exact_example :
    (CanResume history conn exchanged (pos 1)
      × (write_recover exchanged conn ≡ done (length history)))
    ⊎ (¬ CanResume history conn exchanged (pos 1)
        × (write_recover exchanged conn ≡ Recover.failed replay_exceeded))
write_recover-exact_example = write_recover-exact conn exchanged (pos 1) conn-IsConn refl refl refl

abbrev recovered : Conn
recovered = finish_recover (pos 1) 2 conn

finish_recover-IsConn_example :
    (recovered.flushed ≡ 2)
    × (recovered.unsent ≡ total (drop 2 history))
    × (recovered.ring.held ≡ true)
    × (recovered.ring.hold ≡ pos 1)
    × IsConn start history recovered
finish_recover-IsConn_example =
    finish_recover-IsConn (pos 1) 2 conn conn-IsConn (omega arith) (omega arith)

abbrev two_quiet : List WatchEvent
two_quiet = sign ∷ tick false conn ∷ tick true conn ∷ tick false conn ∷ tick false conn ∷ []

watch-verdict_example : watch plain_box false two_quiet ≡ verdict two_quiet
watch-verdict_example = watch-verdict plain_box two_quiet
