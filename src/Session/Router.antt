-- ===== src/Session/Router.antt =====
-- internal/session/router.go: the one loop that reads packets, and the queue of each service.
--
-- A service is its position in the list given to newRouter. `put` is all that the loop has put on each
-- queue: the channel's capacity and its readers only delay a send. What each ReadPacket returned, and
-- whether the context ended while a send waited, are the events. `decode` is proto.Unmarshal of a
-- TerminalExitStatus, with its exit code if it has one.
pub mod Routing
use et_go.Prelude.{
  ℕ, zero, suc, ◌+◌, List, [], ◌∷◌, ◌++◌, Bool, true, false, ◌||◌, Option, none, some, Bytes, ◌==◌,
  if◌then◌else◌, ℤ,
}
use et_go.Protocol.{
  Header, Packet, header_keep_alive, header_terminal_exit_status, header_terminal_close,
}

-- `sessionHeader`.
abbrev pub session_header : Header → Bool
session_header h =
    h == header_keep_alive || (h == header_terminal_exit_status || h == header_terminal_close)

-- The routes, each header with its service.
abbrev pub Routes : Type 0
Routes = List (Header × ℕ)

abbrev pub service_of : Header → Routes → Option ℕ
service_of h [] = none
service_of h ((g, s) ∷ rs) = if g == h then some s else service_of h rs

pub data RouterErr : Type 0 where
  reserved registered_twice : Header → RouterErr

pub data NewRouter : Type 0 where
  built : Routes → NewRouter
  invalid : RouterErr → NewRouter

-- The inner loop of `newRouter`: the headers of service `s`.
add_header : Bool → Option ℕ → Header → ℕ → Routes → NewRouter
add_header true o h s rs = invalid (reserved h)
add_header false (some t) h s rs = invalid (registered_twice h)
add_header false none h s rs = built ((h, s) ∷ rs)

unfoldable pub add_headers : List Header → ℕ → Routes → NewRouter
unfolding add_header
add_headers [] s rs = built rs
add_headers (h ∷ hs) s rs = elim (add_header (session_header h) (service_of h rs) h s rs) [
  | invalid e ↦ invalid e
  | built rs' ↦ add_headers hs s rs'
]

-- The outer loop, at service `s`.
add_services : List (List Header) → ℕ → Routes → NewRouter
add_services [] s rs = built rs
add_services (hs ∷ services) s rs = elim (add_headers hs s rs) [
  | invalid e ↦ invalid e
  | built rs' ↦ add_services services (s + 1) rs'
]

-- `newRouter`.
unfoldable pub new_router : List (List Header) → NewRouter
unfolding add_services
new_router services = add_services services 0 []

-- How `run` returns: the cause of its context, a failed read or decode, or a normal end with the exit
-- code reported last.
pub data RunErr : Type 0 where
  context_cause read_failed : ℕ → RunErr
  bad_status : RunErr
  ended : RunErr
  exit_error : ℤ → RunErr

-- What a ReadPacket returned, in the order of the loop's switch, and for a packet whether the context
-- ended while the send waited.
pub data Event : Type 0 where
  got_packet : Packet → Option ℕ → Event
  session_over : ℕ → Event
  at_eof : Event
  failed : ℕ → Event

pub record Router : Type 0 where
  pub exit : Option ℤ
  pub put : ℕ → List Packet

pub data Turn : Type 0 where
  goes_on returns_ended : Router → Turn
  returns : RunErr → Router → Turn

abbrev pub put_on : ℕ → Packet → Router → Router
put_on s p r = record r { put = λ t. if t == s then r.put t ++ (p ∷ []) else r.put t }

module _ (decode : Bytes → Option (Option ℤ)) (routes : Routes) where
  exit_status : Option (Option ℤ) → Router → Turn
  exit_status none r = returns bad_status r
  exit_status (some none) r = goes_on r
  exit_status (some (some code)) r = goes_on (record r { exit = some code })

  to_service : Option ℕ → Option ℕ → Packet → Router → Turn
  to_service none over p r = goes_on r
  to_service (some s) (some cause) p r = returns (context_cause cause) r
  to_service (some s) none p r = goes_on (put_on s p r)

  -- The body of the loop in `run`.
  unfoldable pub turn : Event → Router → Turn
  unfolding exit_status to_service
  turn (session_over cause) r = returns (context_cause cause) r
  turn at_eof r = returns_ended r
  turn (failed e) r = returns (read_failed e) r
  turn (got_packet p over) r =
      if p.header == header_keep_alive
      then goes_on r
      else if p.header == header_terminal_exit_status
      then exit_status (decode p.payload) r
      else if p.header == header_terminal_close
      then returns_ended r
      else to_service (service_of p.header routes) over p r

  -- `ended`: the queues are closed and drained, unless the context ends before that.
  after_drain : Option ℤ → RunErr
  after_drain none = ended
  after_drain (some code) = exit_error code

  finish : Option ℕ → Router → RunErr
  finish (some cause) r = context_cause cause
  finish none r = after_drain r.exit

  -- `run` over its events; `none` is that it has not returned yet. `over` is whether the context ended
  -- while `ended` waited for the services.
  unfoldable pub run : Option ℕ → List Event → Router → Option RunErr × Router
  unfolding finish after_drain
  run over [] r = (none, r)
  run over (e ∷ es) r = elim (turn e r) [
    | goes_on r' ↦ run over es r'
    | returns_ended r' ↦ (some (finish over r'), r')
    | returns err r' ↦ (some err, r')
  ]
