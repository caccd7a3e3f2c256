-- ===== src/Etcp/Tests/Fresh/ToServer.antt =====
-- The same packet at the server of internal/etservertest.
use et_go.Prelude.{◌≡◌, refl, List, [], true, false, none, Bytes, length, take, ◌++◌}
use et_go.Seal.Tests.{plain_box, plain_box-SecretboxLaws}
use et_go.Etcp.Reader.Authentic.{seal_packets}
use et_go.Server.{Server, accept_all}
use et_go.Server.Accepting.{Accepted}
use et_go.Server.EndToEnd.{queued_in, end_to_end}
use et_go.Etcp.Tests.Fresh.{begun, begun-IsConn, world, link_gone, link_gone-Reach}

abbrev server : Server
server = record {
  id = [];
  registered = true;
  known = true;
  echo = true;
  out = begun.inward;
  sent = [];
  inward = begun.out;
  recv_seq = 0;
  queue = [];
  cur = none;
  notify = false;
  wake = false;
}

end_to_end_example :
    ((accept_all plain_box link_gone.got server).0 ≡ none)
    × Accepted plain_box
        (take (length link_gone.got) (queued_in link_gone-Reach))
        server
        (accept_all plain_box link_gone.got server).1
    × ((rest : List Bytes) × (link_gone.got ++ rest
          ≡ seal_packets plain_box begun.out (queued_in link_gone-Reach)))
end_to_end_example =
    end_to_end plain_box plain_box-SecretboxLaws world link_gone server begun-IsConn refl refl refl
      refl refl link_gone-Reach
