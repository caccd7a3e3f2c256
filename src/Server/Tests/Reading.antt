-- ===== src/Server/Tests/Reading.antt =====
-- A packet of the server that reaches the client's caller on the link of a redial.
use et_go.Prelude.{◌≡◌, ◌≤◌, refl, ap, [], ◌∷◌, ◌++◌, true, none, length, take, arith}
use et_go.Seal.Tests.{plain_box, plain_box-SecretboxLaws}
use et_go.Etcp.Conn.{seal_packet, from_inbox, read_packet}
use et_go.Etcp.Reader.{deliver}
use et_go.Etcp.Reader.Delivery.{waiting}
use et_go.Etcp.Reader.Authentic.{seal_packet-bytes}
use et_go.Server.{send, enqueue}
use et_go.Server.Sealing.{enqueue-sealed}
use et_go.Server.Faithful
use et_go.Server.Faithful.{fresh_world, sends}
use et_go.Server.Downstream.{
  Down, fresh_down, given, Moves, stays, then, serves, resumes, arrives, reads,
}
use et_go.Server.Downstream.Once.{downstream_once}
use et_go.Server.Tests.{stream, name, passkey, first_server, made, keep_alive}
use et_go.Server.Tests.Resuming
use et_go.Server.Tests.Resuming.{link}

abbrev began : Down
began = fresh_down first_server Resuming.client

abbrev told : Faithful.World
told = record (fresh_world first_server) {
  server = (send plain_box none keep_alive first_server).1;
  told = keep_alive ∷ [];
}

abbrev redialed : Down
redialed = record began {
  server = told;
  up = true;
  link = told.server.sent;
  flushed = length told.server.sent;
}

abbrev came : Down
came = record redialed {
  conn =
      (deliver plain_box link (seal_packet plain_box keep_alive (stream 1)).0 Resuming.client).conn;
  link = [];
}

abbrev read_it : Down
read_it = record came {
  conn = (read_packet from_inbox came.conn).1;
  taken = given (read_packet from_inbox came.conn).0;
}

moved : Moves plain_box (stream 0) began read_it
unfolding send enqueue
moved =
    then
      (then
        (then (then stays (serves began told (sends (fresh_world first_server) keep_alive)))
          (resumes (record began { server = told }) refl))
        (arrives redialed link (seal_packet plain_box keep_alive (stream 1)).0 []
          (ap (λ s. s.sent) (enqueue-sealed plain_box keep_alive first_server)) refl refl
          (rw (seal_packet-bytes plain_box keep_alive (stream 1)) (omega arith))))
      (reads came from_inbox)

downstream_once_example :
    (read_it.taken ++ waiting read_it.conn ≡ take read_it.conn.recv_seq told.told)
    × (read_it.conn.recv_seq ≤ length told.told)
downstream_once_example =
    downstream_once plain_box name passkey first_server Resuming.client {d = read_it}
      plain_box-SecretboxLaws made refl refl refl moved
