-- ===== src/Session/Transport/Routed.antt =====
-- What the services of a session get over a transport, and over internal/etcp.
use et_go.Prelude.{
  ℕ, suc, ◌≡◌, ◌≢◌, ◌⊎◌, true, refl, map, List, [], ◌∷◌, ◌++◌, Option, none, some, Bytes, length, ℤ,
  arith,
}
use et_go.Protocol.{Packet}
use et_go.Wire.Stream
use et_go.Wire.Stream.{IoErr, is_eof, clean_eof, io}
use et_go.Etcp.Conn.{Conn, Err, read_packet, session_ended, wire}
use et_go.Session.Router
use et_go.Session.Router.{
  Routes, Event, got_packet, at_eof, run, turn, Turn, goes_on, returns_ended, returns,
}
use et_go.Session.Router.Routing.{meant_for, run-meant_for}
use et_go.Session.Transport.{
  Read, got, Ending, session_end, failure, end_read, IsTransport, reads, conn_read, conn_ending,
}

abbrev pub got_event : Packet → Event
got_event p = got_packet p none

abbrev pub end_event : Ending → Event
end_event session_end = at_eof
end_event (failure e) = Router.failed e

conn-gives :
    (name : Err → ℕ) (c : Conn) (e : Ending) (p : Packet) (ps : List Packet)
    → conn_ending name c ≡ some e
    → c.inbox ++ c.pending ≡ p ∷ ps
    → ((conn_read name c).0 ≡ got p)
      × ((conn_read name c).1.inbox ++ (conn_read name c).1.pending ≡ ps)
      × (conn_ending name (conn_read name c).1 ≡ some e)
unfolding conn_read read_packet
conn-gives name c e p ps h w = ground (arith, h, w)

conn-ends :
    (name : Err → ℕ) (c : Conn) (e : Ending)
    → conn_ending name c ≡ some e
    → c.inbox ++ c.pending ≡ []
    → (conn_read name c).0 ≡ end_read e
unfolding conn_read read_packet
conn-ends name c e h w = ground (arith, h, w)

-- etcp's Conn keeps the contract of session.Transport.
pub conn-IsTransport :
    (name : Err → ℕ) → IsTransport (conn_read name) (λ c. c.inbox ++ c.pending) (conn_ending name)
conn-IsTransport name = record { gives = conn-gives name; ends = conn-ends name }

run-next :
    (decode : Bytes → Option (Option ℤ)) (routes : Routes) (over : Option ℕ) (e : Event)
    (es : List Event) (r : Router.Router) (t : Turn)
    → turn decode routes e r ≡ t
    → ((r' : Router.Router) → (run decode routes over es r').0 ≢ none)
    → (run decode routes over (e ∷ es) r).0 ≢ none
unfolding run
run-next decode routes over e es r (goes_on r') h later = ground (arith, h, later r')
run-next decode routes over e es r (returns_ended r') h later = ground (arith, h)
run-next decode routes over e es r (returns x r') h later = ground (arith, h)

-- The loop returns at the end of its events.
run-returns :
    (decode : Bytes → Option (Option ℤ)) (routes : Routes) (over : Option ℕ) (ps : List Packet)
    (e : Ending) (r : Router.Router)
    → (run decode routes over (map got_event ps ++ (end_event e ∷ [])) r).0 ≢ none
unfolding run turn
run-returns decode routes over [] session_end r = ground arith
run-returns decode routes over [] (failure e) r = ground arith
run-returns decode routes over (p ∷ ps) e r =
    run-next decode routes over (got_event p) (map got_event ps ++ (end_event e ∷ [])) r
      (turn decode routes (got_event p) r) refl (run-returns decode routes over ps e)

module _ {S : Type 0} (read : S → Read × S) (waiting : S → List Packet) (ending : S → Option Ending)
    (law : IsTransport read waiting ending) where
  reads-all :
      (ps : List Packet) (s : S) (e : Ending)
      → ending s ≡ some e
      → waiting s ≡ ps
      → reads read (suc (length ps)) s ≡ map got_event ps ++ (end_event e ∷ [])
  unfolding reads
  reads-all [] s session_end h w = ground (arith, law.ends s session_end h w)
  reads-all [] s (failure e) h w = ground (arith, law.ends s (failure e) h w)
  reads-all (p ∷ ps) s e h w =
      let (first, rest, same) = law.gives s e p ps h w in
      ground (arith, first, reads-all ps (read s).1 e same rest)

  -- Over any transport that keeps its contract and has come to its end, the router reads every packet
  -- that waits, and each service's queue gets exactly those meant for it, in order, up to a packet that
  -- ends the session; the router returns.
  pub reads-meant_for :
      (decode : Bytes → Option (Option ℤ)) (routes : Routes) (over : Option ℕ) (service : ℕ) (s : S)
      (e : Ending) (r : Router.Router)
      → ending s ≡ some e
      → let ran = run decode routes over (reads read (suc (length (waiting s))) s) r in
        (ran.1.put service
          ≡ r.put service
            ++ meant_for decode routes service (map got_event (waiting s) ++ (end_event e ∷ [])))
        × (ran.0 ≢ none)
  reads-meant_for decode routes over service s e r h = rw (reads-all (waiting s) s e h refl) (
    run-meant_for decode routes over service (map got_event (waiting s) ++ (end_event e ∷ [])) r,
    run-returns decode routes over (waiting s) e r,
  )

-- The ends of a connection that stand for the end of the session: the server's, or an end of the stream
-- between two frames or within one.
abbrev pub IsEof : Err → Type 0
IsEof e =
    (e ≡ session_ended)
    ⊎ ((e ≡ wire clean_eof) ⊎ ((x : IoErr) × (e ≡ wire (io x)) × (is_eof x ≡ true)))
