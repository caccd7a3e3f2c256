-- ===== src/Server/Tests/Resuming.antt =====
-- A redial where each side has sealed one packet that the other lacks.
use et_go.Prelude.{
  ◌≡◌, ◌≤◌, refl, List, [], ◌∷◌, true, false, none, Bytes, replicate, length, total, pos, negsuc,
  All, arith, ◌++◌,
}
use et_go.Protocol.{Packet}
use et_go.Wire.Stream.{ok, max_frame_size}
use et_go.Seal.{increment}
use et_go.Seal.Nonce.{advanced}
use et_go.Seal.Tests.{plain_box, plain_box-SecretboxLaws}
use et_go.Etcp.Conn.{Conn, link_dead}
use et_go.Etcp.Conn.Invariant.{IsConn}
use et_go.Etcp.Reader.{Link, deliver_all}
use et_go.Etcp.Reader.Authentic.{seal_packets, seal_packet-bytes, CameTo}
use et_go.Etcp.Recover
use et_go.Etcp.Recover.{write_recover, done}
use et_go.Etcp.Recover.Catchup.{CanReplay}
use et_go.Server.{Server}
use et_go.Server.Links.{Exchange, flushed_to, int32, recover}
use et_go.Server.Links.Resume.{Paired, Wired, recover-resumes}
use et_go.Server.Accepting.{Accepted}
use et_go.Server.Tests.{stream, first_server}

abbrev ours : List Packet
ours = record { header = 1; payload = 8 ∷ [] } ∷ []

abbrev theirs : List Packet
theirs = record { header = 1; payload = 9 ∷ [] } ∷ []

abbrev history : List Bytes
history = seal_packets plain_box (stream 0) ours

abbrev sent : List Bytes
sent = seal_packets plain_box (stream 1) theirs

abbrev pub client : Conn
client = record {
  probe = record { header = 0; payload = [] };
  ended = none;
  out = record (stream 0) { nonce = increment (replicate 23 0 ++ (0 ∷ [])) };
  ring = record {
    first = 0;
    entries = history;
    bytes = total history;
    limit = 100;
    held = false;
    hold = pos 0;
  };
  flushed = 0;
  unsent = total history;
  last_probe = negsuc 0;
  inward = stream 1;
  recv_seq = 0;
  pending = [];
  inbox = [];
  readers_done = false;
  wake = false;
  space = false;
}

abbrev server : Server
server = record first_server { known = true; sent = sent }

client-IsConn : IsConn (stream 0).nonce history client
unfolding advanced
client-IsConn = record {
  window = record { inside = omega arith; kept = refl; sized = refl };
  from_first = omega arith;
  in_history = omega arith;
  backlog = refl;
  counted = refl;
  probed = refl;
  bounded = omega arith;
}

both : Paired plain_box (stream 0) (stream 1) ours theirs client server
unfolding advanced
both = record {
  history = client-IsConn;
  sent = refl;
  server_in = refl;
  client_in = refl;
  server_got = omega arith;
  client_got = omega arith;
  handed_over = refl;
}

abbrev client_side : Recover.Exchange
client_side = record {
  write_sequence = none;
  peer = ok (int32 0);
  size = λ bs. total bs;
  write_catchup = λ bs. none;
  theirs = ok sent;
}

abbrev server_side : Exchange
server_side = record {
  write_sequence = λ n. none;
  peer = ok (int32 0);
  before_catchup = λ s. s;
  write_catchup = λ bs. none;
  theirs = ok history;
  before_accept = λ s. s;
}

abbrev pub link : Link
link = record { room = 3; cause = link_dead; alive = false }

sent-fits : All (λ b. length b ≤ max_frame_size) sent
sent-fits = (
  rw (seal_packet-bytes plain_box (record { header = 1; payload = 9 ∷ [] }) (stream 1))
      (omega arith),
  tt,
)

can_replay : CanReplay history client client_side 0
can_replay = (
  omega arith,
  omega arith,
  omega arith,
  rw (seal_packet-bytes plain_box (record { header = 1; payload = 8 ∷ [] }) (stream 0))
      (omega arith),
)

wired : Wired history client_side server_side client server
wired = record {
  client_sequence = refl;
  server_sequence = refl;
  client_peer = refl;
  server_peer = refl;
  client_catchup = refl;
  server_catchup = refl;
  server_theirs = refl;
  before_catchup = refl;
  before_accept = refl;
}

recover-resumes_example :
    (write_recover client_side client ≡ done 1)
    × ((recover plain_box server_side server).0 ≡ flushed_to 1)
    × Accepted plain_box ours server (recover plain_box server_side server).1
    × ((recover plain_box server_side server).1.recv_seq ≡ 1)
    × CameTo theirs client (deliver_all plain_box link sent client)
recover-resumes_example =
    recover-resumes plain_box plain_box-SecretboxLaws (stream 0) (stream 1) ours theirs client
      server both client_side server_side link can_replay (omega arith) sent-fits wired
