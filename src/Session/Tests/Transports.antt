-- ===== src/Session/Tests/Transports.antt =====
-- A session read from an ended connection of internal/etcp.
use et_go.Prelude.{
  ℕ, ◌≡◌, ◌≢◌, refl, [], ◌∷◌, ◌++◌, true, false, Option, none, some, Bytes, ℤ, pos, negsuc,
}
use et_go.Protocol.{Packet}
use et_go.Etcp.Conn.{Conn, Err, session_ended}
use et_go.Session.Router
use et_go.Session.Router.{Router, run}
use et_go.Session.Transport.{session_end, reads, conn_read, conn_ending}
use et_go.Session.Transport.Routed.{conn-IsTransport, reads-meant_for}

abbrev last_output : Packet
last_output = record { header = 1; payload = 5 ∷ [] }

abbrev conn : Conn
conn = record {
  probe = record { header = 0; payload = [] };
  ended = some session_ended;
  out = record { key = []; nonce = [] };
  ring = record { first = 0; entries = []; bytes = 0; limit = 4; held = false; hold = pos 0 };
  flushed = 0;
  unsent = 0;
  last_probe = negsuc 0;
  inward = record { key = []; nonce = [] };
  recv_seq = 2;
  pending = last_output ∷ [];
  inbox = record last_output { header = 0 } ∷ [];
  readers_done = true;
  wake = false;
  space = false;
}

abbrev code : Err → ℕ
code e = 0

abbrev no_status : Bytes → Option (Option ℤ)
no_status b = some none

abbrev router : Router
router = record { exit = none; put = λ s. [] }

reads-meant_for_example :
    let ran = run no_status ((1, 0) ∷ []) none (reads (conn_read code) 3 conn) router in
    (ran.1.put 0 ≡ last_output ∷ []) × (ran.0 ≢ none)
reads-meant_for_example =
    reads-meant_for (conn_read code) (λ c. c.inbox ++ c.pending) (conn_ending code)
      (conn-IsTransport code) no_status ((1, 0) ∷ []) none 0 conn session_end router refl
