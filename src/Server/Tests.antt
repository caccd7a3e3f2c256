-- ===== src/Server/Tests.antt =====
-- Concrete runs of the server of internal/etservertest.
mod Reading
mod Resuming
use et_go.Prelude.{
  ℕ, ◌+◌, ◌≡◌, ◌≤◌, refl, List, [], ◌∷◌, ◌++◌, Bool, true, false, Option, none, some, Bytes,
  replicate, length, drop, take, pos, negsuc, All, arith, if◌then◌else◌,
}
use et_go.Protocol.{Packet}
use et_go.Wire.Stream.{Writer, conn_closed}
use et_go.Wire.Packet.{append_packet, parse_packet, load}
use et_go.Seal
use et_go.Seal.{seal, open_next}
use et_go.Seal.Nonce.{advanced}
use et_go.Seal.Tests.{plain_box, plain_box-SecretboxLaws}
use et_go.Etcp.Conn.{seal_packet, session_ended}
use et_go.Etcp.Dialer.{handshake, fresh, recovering, turned_away}
use et_go.Etcp.Reader.Authentic.{seal_packet-bytes}
use et_go.Server.{
  Server, Failure, packet, new_server, admit, end_session, recv, accept, enqueue, send,
  session_over,
}
use et_go.Server.Links.{Moment, write_loop, write_pass, write_each}
use et_go.Server.Faithful.{
  World, fresh_world, Reach, here, more, accepts, receives, sends, ends, Faithful, server-Faithful,
}
use et_go.Server.Network.{new_network, dial_context, cut_next, connected, write_all}
use et_go.Server.Network.Cutting.{IsPipe, open_with, cut_after-exact}
use et_go.Server.Greeting.{greet, request, session-lifetime}

abbrev pub name : Bytes
name = 97 ∷ 98 ∷ []

abbrev pub passkey : Bytes
passkey = replicate 32 7

abbrev stream : ℕ → Seal.Stream
stream d = record { key = passkey; nonce = replicate 23 0 ++ (d ∷ []) }

abbrev first_server : Server
first_server = record {
  id = name;
  registered = true;
  known = false;
  echo = true;
  out = stream 1;
  sent = [];
  inward = stream 0;
  recv_seq = 0;
  queue = [];
  cur = none;
  notify = false;
  wake = false;
}

pub made : new_server name passkey ≡ some first_server
unfolding new_server Seal.new
made = refl

abbrev pub keep_alive : Packet
keep_alive = record { header = 0; payload = [] }

-- A KEEP_ALIVE comes, is answered, and is taken.
abbrev asked_alive : World
asked_alive = record (fresh_world first_server) {
  server = (accept plain_box (seal_packet plain_box keep_alive (stream 0)).0 first_server).1;
  got = keep_alive ∷ [];
  told = keep_alive ∷ [];
}

abbrev took_it : World
took_it = record asked_alive { server = (recv none asked_alive.server).1; taken = keep_alive ∷ [] }

takes_keep_alive : (recv none asked_alive.server).0 ≡ packet keep_alive
unfolding accept parse_packet open_next recv enqueue
takes_keep_alive = rw (seal_packet-bytes plain_box keep_alive (stream 0)) refl

probed : Reach plain_box (stream 0) (fresh_world first_server) took_it
unfolding advanced
probed =
    more (more here (accepts (fresh_world first_server) keep_alive))
      (receives asked_alive keep_alive none takes_keep_alive)

server-Faithful_example : Faithful plain_box (stream 1) (stream 0) took_it
server-Faithful_example =
    server-Faithful plain_box name passkey first_server plain_box-SecretboxLaws made probed

-- The session starts, a packet is sent, and it ends.
abbrev started : World
started = fresh_world (admit (request name) first_server).server

abbrev told : World
told = record started {
  server = (send plain_box none keep_alive started.server).1;
  told = keep_alive ∷ [];
}

session-lifetime_example :
    (greet true (request name) first_server ≡ fresh)
    × (greet false (request name) told.server ≡ recovering)
    × (greet false (request name) (end_session told.server) ≡ turned_away session_ended)
session-lifetime_example =
    session-lifetime plain_box (stream 0) name passkey first_server {w = told}
      {v = record told { server = end_session told.server }} made
      (more here (sends started keep_alive)) (tt, tt) here

-- Two packets sealed one after the other, and then the session's end.
abbrev two : List Bytes
two = (1 ∷ 0 ∷ []) ∷ (1 ∷ 2 ∷ []) ∷ []

abbrev moments : List Moment
moments =
    record { server = record first_server { sent = take 1 two }; stopped = none }
    ∷ record { server = record first_server { sent = two; registered = false }; stopped = none }
    ∷ record { server = record first_server { sent = two; registered = false }; stopped = none }
    ∷ []

carries_two : write_loop (λ f. none) 0 moments ≡ (two, 2, some session_over)
unfolding write_loop write_pass write_each
carries_two = refl

-- A pipe as documented.
abbrev pipe : Bool → Writer
pipe false b = (length b, none)
pipe true b = (0, some conn_closed)

pipe-IsPipe : IsPipe pipe
pipe-IsPipe = record { takes = λ b. refl; refuses = λ b. refl }

cut_after-exact_example :
    let a = dial_context none (cut_next (pos 3) new_network) in
    let b = dial_context none a.1 in
    (a.0 ≡ connected 1)
    × (b.0 ≡ connected 2)
    × (b.1.pairs ≡ (1, open_with (pos 3)) ∷ (2, open_with (negsuc 0)) ∷ [])
    × ((write_all pipe two (open_with (pos 3))).0 ≡ 1 ∷ 0 ∷ 1 ∷ [])
    × ((write_all pipe two (open_with (pos 3))).1.closed ≡ true)
    × (write_all pipe two (open_with (negsuc 0)) ≡ (1 ∷ 0 ∷ 1 ∷ 2 ∷ [], open_with (negsuc 0)))
unfolding new_network
cut_after-exact_example = cut_after-exact pipe pipe-IsPipe new_network 3 two two refl refl
