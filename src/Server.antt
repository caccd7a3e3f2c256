-- ===== src/Server.antt =====
-- internal/etservertest/server.go: the server of one session that the connection is tested against,
-- written independently of internal/etcp.
--
-- What the code guards with `mu` is one step here; `wake` and `notify` are whether the token of the
-- channel is there. `inward` is the field `in`, and a link is a number. What the peer and the network
-- answered is an argument.
pub mod Links
pub mod Sealing
pub mod Accepting
pub mod Faithful
pub mod Greeting
pub mod Network
pub mod EndToEnd
pub mod Downstream
mod Tests
use et_go.Prelude.{
  ℕ, ◌+◌, List, [], ◌∷◌, ◌++◌, Bool, true, false, not, Option, none, some, Bytes, length, ◌==◌,
  ◌||◌, if◌then◌else◌, ℤ, pos, negsuc,
}
use et_go.Protocol.{Header, Packet, header_keep_alive, version}
use et_go.Strings.{equal}
use et_go.Wire.Stream.{WireErr}
use et_go.Wire.Packet.{append_packet, parse_packet, outside}
use et_go.Seal
use et_go.Seal.{Secretbox, seal, open_next, client_to_server, server_to_client}
use et_go.Etcp.Dialer.{
  Status, new_client, returning_client, invalid_key, mismatched_protocol, unknown,
}

pub record Server : Type 0 where
  pub id : Bytes
  pub registered : Bool
  pub known : Bool
  pub echo : Bool
  pub out : Seal.Stream
  pub sent : List Bytes
  pub inward : Seal.Stream
  pub recv_seq : ℕ
  pub queue : List Packet
  pub cur : Option ℕ
  pub notify : Bool
  pub wake : Bool

-- `NewServer`; `none` is its panic.
fresh_server : Bytes → Option Seal.Stream → Option Seal.Stream → Option Server
fresh_server id (some out) (some inward) = some (record {
  id = id;
  registered = true;
  known = false;
  echo = true;
  out = out;
  sent = [];
  inward = inward;
  recv_seq = 0;
  queue = [];
  cur = none;
  notify = false;
  wake = false;
})
fresh_server id _ _ = none

unfoldable pub new_server : Bytes → Bytes → Option Server
unfolding fresh_server
new_server id passkey =
    if length passkey == 32
    then fresh_server id (Seal.new (some passkey) server_to_client)
        (Seal.new (some passkey) client_to_server)
    else none

-- `signal`: the token is there afterwards, whether or not it was before.
abbrev pub signal : Bool → Bool
signal token = true

-- The errors of the package, by what they are about. `cause` is that of an ended context.
pub data Failure : Type 0 where
  bad_request bad_response bad_write_sequence bad_read_sequence : WireErr → Failure
  bad_write_catchup bad_read_catchup bad_read bad_write : WireErr → Failure
  turned_down : Status → Failure
  bad_sequence : ℤ → ℕ → Failure
  short_packet unencrypted not_opened session_over : Failure
  cause : ℕ → Failure

-- A ConnectRequest, as far as the server reads it.
pub record Request : Type 0 where
  pub client_id : Bytes
  pub asked : ℤ

-- The text of a ConnectResponse; `differs n` names the client's version and the server's.
pub data Text : Type 0 where
  no_text not_registered : Text
  differs : ℤ → Text

abbrev is_version : ℤ → Bool
is_version (pos n) = n == version
is_version (negsuc n) = false

-- `admit`.
pub record Admitted : Type 0 where
  pub status : Status
  pub error : Text
  pub server : Server

unfoldable pub admit : Request → Server → Admitted
admit req s =
    if not (is_version req.asked)
    then record { status = mismatched_protocol; error = differs req.asked; server = s }
    else if not (equal req.client_id s.id) || not s.registered
    then record { status = invalid_key; error = not_registered; server = s }
    else if not s.known
    then record { status = new_client; error = no_text; server = record s { known = true } }
    else record { status = returning_client; error = no_text; server = s }

-- `takeOver`: the link that is closed and waited for, and the server on the new link.
unfoldable pub take_over : ℕ → Server → Option ℕ × Server
take_over link s = (s.cur, record s { cur = some link })

-- `EndSession`.
unfoldable pub end_session : Server → Server
end_session s = record s { registered = false; wake = signal s.wake }

-- `EchoKeepAlive`.
unfoldable pub echo_keep_alive : Bool → Server → Server
echo_keep_alive on s = record s { echo = on }

module _ (box : Secretbox) where
  -- `enqueueLocked`.
  unfoldable pub enqueue : Packet → Server → Server
  enqueue p s =
      let (sealed, out) = seal box [] p.payload s.out in
      record s {
        out = out;
        sent = s.sent ++ (append_packet [] 0 true p.header (outside sealed) ∷ []);
      }

  -- `Send`, with the cause of a caller's context that has ended.
  unfoldable pub send : Option ℕ → Packet → Server → Option Failure × Server
  send (some e) p s = (some (cause e), s)
  send none p s = let s' = enqueue p s in (none, record s' { wake = signal s'.wake })

  -- The end of `accept`: the packet is queued, and a KEEP_ALIVE echoed.
  queued : Header → Bytes → Server → Server
  queued h plain s =
      let p : Packet = record { header = h; payload = plain } in
      record s { recv_seq = s.recv_seq + 1; queue = s.queue ++ (p ∷ []); notify = signal s.notify }

  echoed : Header → Server → Server
  echoed h s =
      let answer : Packet = record { header = header_keep_alive; payload = [] } in
      let s' = enqueue answer s in
      if (h == header_keep_alive)
      then (if s.echo then record s' { wake = signal s'.wake } else s)
      else s

  accept_plain : Header → Option Bytes → Server → Option Failure × Server
  accept_plain h none s = (some not_opened, s)
  accept_plain h (some plain) s = (none, echoed h (queued h plain s))

  accept_parsed : Option (Bool × Header × Bytes) → Server → Option Failure × Server
  accept_parsed none s = (some short_packet, s)
  accept_parsed (some (false, h, payload)) s = (some unencrypted, s)
  accept_parsed (some (true, h, payload)) s =
      let (plain, inward) = open_next box [] payload s.inward in
      accept_plain h plain (record s { inward = inward })

  -- `accept`.
  unfoldable pub accept : Bytes → Server → Option Failure × Server
  unfolding queued echoed accept_plain accept_parsed
  accept b s = accept_parsed (parse_packet b) s

  -- The loop over the client's catchup.
  unfoldable pub accept_all : List Bytes → Server → Option Failure × Server
  accept_all [] s = (none, s)
  accept_all (b ∷ bs) s =
      let (failure, s') = accept b s in
      let rest = accept_all bs s' in elim failure [ none ↦ rest | some e ↦ (some e, s') ]

-- What a call of `Recv` has come to: a packet, its context's cause, or a wait for `notify`.
pub data Received : Type 0 where
  packet : Packet → Received
  ended : ℕ → Received
  empty : Received

take_queue : Option ℕ → List Packet → Server → Received × Server
take_queue ctx (p ∷ ps) s = (packet p, record s { queue = ps })
take_queue none [] s = (empty, s)
take_queue (some e) [] s = (ended e, s)

-- A pass of `Recv`; in the select of an empty queue, `ctx` is the cause if that case is taken.
unfoldable pub recv : Option ℕ → Server → Received × Server
unfolding take_queue
recv ctx s = take_queue ctx s.queue s

-- The case of that select which takes the token.
unfoldable pub notified : Server → Server
notified s = record s { notify = false }
