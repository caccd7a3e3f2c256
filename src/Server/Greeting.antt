-- ===== src/Server/Greeting.antt =====
-- The server's answers to a client that redials, over the life of a session.
use et_go.Prelude.{
  ◌≡◌, refl, sym, ap, ◌∙◌, Bool, true, false, Option, none, some, Bytes, pos, if◌then◌else◌, arith,
  ℕ,
}
use et_go.Protocol.{version}
use et_go.Strings.Laws.{equal_refl}
use et_go.Wire.Stream.{ok}
use et_go.Seal
use et_go.Seal.{Secretbox}
use et_go.Etcp.Conn.{session_ended}
use et_go.Etcp.Dialer.{Greeting, handshake, fresh, recovering, turned_away}
use et_go.Server.{
  Server, Request, new_server, admit, take_over, end_session, echo_keep_alive, send, recv, notified,
  accept, enqueue,
}
use et_go.Server.Links.{woken}
use et_go.Server.Faithful.{
  World, fresh_world, Step, admits, takes_over, accepts, refuses, sends, receives, is_notified,
  is_woken, ends, sets_echo, Reach, here, more,
}

-- What the client makes of the server's answer to its ConnectRequest.
abbrev pub greet : Bool → Request → Server → Greeting
greet first req s = handshake first none (ok (admit req s).status)

-- Its session's name and that a client has come are kept, and an ended session stays so.
record Kept (s s' : Server) : Type 0 where
  id : s'.id ≡ s.id
  known : s.known ≡ true → s'.known ≡ true
  ended : s.registered ≡ false → s'.registered ≡ false

admit-Kept : (req : Request) (s : Server) → Kept s (admit req s).server
unfolding admit
admit-Kept req s = ground arith

accept-Kept : (box : Secretbox) (b : Bytes) (s : Server) → Kept s (accept box b s).1
unfolding accept enqueue
accept-Kept box b s = ground arith

recv-Kept : (ctx : Option ℕ) (s : Server) → Kept s (recv ctx s).1
unfolding recv
recv-Kept ctx s = ground arith

module _ (box : Secretbox) (inward₀ : Seal.Stream) where
  step-Kept : {u v : World} → Step box inward₀ u v → Kept u.server v.server
  unfolding notified woken end_session echo_keep_alive take_over send enqueue
  step-Kept (admits w req) = admit-Kept req w.server
  step-Kept (takes_over w link) = ground arith
  step-Kept (accepts w p) = accept-Kept box _ w.server
  step-Kept (refuses w b why) = accept-Kept box b w.server
  step-Kept (sends w p) = ground arith
  step-Kept (receives w p ctx h) = recv-Kept ctx w.server
  step-Kept (is_notified w) = ground arith
  step-Kept (is_woken w) = ground arith
  step-Kept (ends w) = ground arith
  step-Kept (sets_echo w on) = ground arith

  -- A step other than EndSession.
  abbrev pub GoesOn : {u v : World} → Step box inward₀ u v → Type 0
  GoesOn (ends w) = ⊥
  GoesOn step = Unit

  -- Steps without EndSession.
  abbrev pub Unended : {u v : World} → Reach box inward₀ u v → Type 0
  Unended here = Unit
  Unended (more r step) = Unended r × GoesOn step

  -- No other call ends the session.
  step-registered :
      {u v : World} (step : Step box inward₀ u v)
      → GoesOn step
      → v.server.registered ≡ u.server.registered
  unfolding admit accept recv notified woken echo_keep_alive take_over send enqueue
  step-registered (admits w req) h = ground arith
  step-registered (takes_over w link) h = refl
  step-registered (accepts w p) h = ground arith
  step-registered (refuses w b why) h = ground arith
  step-registered (sends w p) h = ground arith
  step-registered (receives w p ctx e) h = ground arith
  step-registered (is_notified w) h = refl
  step-registered (is_woken w) h = refl
  step-registered (ends w) h = absurd h
  step-registered (sets_echo w on) h = refl

  reach-registered :
      {u v : World} (r : Reach box inward₀ u v)
      → Unended r
      → v.server.registered ≡ u.server.registered
  reach-registered here h = refl
  reach-registered (more r step) (h, g) = step-registered step g ∙ reach-registered r h

  reach-Kept : {u v : World} → Reach box inward₀ u v → Kept u.server v.server
  reach-Kept here = record { id = refl; known = λ h. h; ended = λ h. h }
  reach-Kept (more r step) =
      let a = reach-Kept r in
      let b = step-Kept step in
      record {
        id = b.id ∙ a.id;
        known = λ h. b.known (a.known h);
        ended = λ h. b.ended (a.ended h);
      }

abbrev pub request : Bytes → Request
request id = record { client_id = id; asked = pos version }

redial_same :
    (s : Server)
    → s.known ≡ true
    → greet false (request s.id) s
      ≡ (if s.registered then recovering else turned_away session_ended)
unfolding admit handshake
redial_same s k = ground (arith, k, equal_refl s.id)

redial_known :
    (id : Bytes) (s : Server)
    → s.id ≡ id
    → s.known ≡ true
    → greet false (request id) s ≡ (if s.registered then recovering else turned_away session_ended)
redial_known id s e k = ap (λ i. greet false (request i) s) (sym e) ∙ redial_same s k

first_fresh :
    (id passkey : Bytes) (s : Server)
    → new_server id passkey ≡ some s
    → (greet true (request id) s ≡ fresh)
      × ((admit (request id) s).server.id ≡ id)
      × ((admit (request id) s).server.known ≡ true)
      × ((admit (request id) s).server.registered ≡ true)
unfolding new_server admit handshake
first_fresh id passkey s e = ground (arith, e, equal_refl id)

-- A client of this protocol version with the session's id starts the session on a server from
-- NewServer. From then on, whatever calls other than EndSession come, redials included, and in whatever
-- order, the next redial resumes it. Behind EndSession, whatever calls come, every redial is told that
-- the session has ended.
pub session-lifetime :
    (box : Secretbox) (inward₀ : Seal.Stream) (id passkey : Bytes) (s : Server) {w v : World}
    → new_server id passkey ≡ some s
    → (r : Reach box inward₀ (fresh_world (admit (request id) s).server) w) → Unended box inward₀ r
    → Reach box inward₀ (record w { server = end_session w.server }) v
    → (greet true (request id) s ≡ fresh)
      × (greet false (request id) w.server ≡ recovering)
      × (greet false (request id) v.server ≡ turned_away session_ended)
unfolding end_session
session-lifetime box inward₀ id passkey s {w} {v} e r lives r' =
    let start = first_fresh id passkey s e in
    let a = reach-Kept box inward₀ r in
    let b = reach-Kept box inward₀ r' in
    let alive : w.server.registered ≡ true = reach-registered box inward₀ r lives ∙ start.3 in
    (
      start.0,
      redial_known id w.server (a.id ∙ start.1) (a.known start.2) ∙ rw alive refl,
      redial_known id v.server (b.id ∙ (a.id ∙ start.1)) (b.known (a.known start.2))
          ∙ rw (b.ended refl) refl,
    )
