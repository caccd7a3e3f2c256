-- ===== src/Session/Router/Routing.antt =====
-- What the router puts on each queue, and which headers it routes.
use et_go.Prelude.{
  ℕ, ◌+◌, ◌≡◌, ◌⊎◌, inl, inr, refl, List, [], ◌∷◌, ◌++◌, Bool, true, false, ◌||◌, Option, none,
  some, Bytes, ◌==◌, if◌then◌else◌, ℤ, arith, append_assoc, append-nil, Bool-cases,
}
use et_go.Protocol.{Header, Packet, header_terminal_exit_status, header_terminal_close}
use et_go.Session.Router.{
  session_header, Routes, service_of, NewRouter, RouterErr, built, invalid, add_headers,
  add_services, new_router, Event, got_packet, session_over, at_eof, failed, Router, Turn, goes_on,
  returns_ended, returns, turn, run,
}

-- The state behind a turn, and whether the loop goes on.
abbrev behind : Turn → Router
behind (goes_on r) = r
behind (returns_ended r) = r
behind (returns e r) = r

abbrev goes : Turn → Bool
goes (goes_on r) = true
goes t = false

module _ (decode : Bytes → Option (Option ℤ)) (routes : Routes) where
  -- Whether the loop goes on behind an event.
  abbrev pub continues : Event → Bool
  continues (got_packet p over) =
      if p.header == header_terminal_close
      then false
      else if p.header == header_terminal_exit_status
      then elim (decode p.payload) [ none ↦ false | some o ↦ true ]
      else elim over [
        | none ↦ true
        | some c ↦
            session_header p.header
            || elim (service_of p.header routes) [ none ↦ true | some s ↦ false ]
      ]
  continues e = false

  -- Whether service `s` is to get the packet of an event.
  abbrev pub is_for : ℕ → Event → List Packet
  is_for s (got_packet p none) =
      if session_header p.header
      then []
      else elim (service_of p.header routes) [ none ↦ [] | some t ↦ if s == t then p ∷ [] else [] ]
  is_for s e = []

  -- What service `s` is to get of a run: its packets up to the event that ends the loop.
  abbrev pub meant_for : ℕ → List Event → List Packet
  meant_for s [] = []
  meant_for s (e ∷ es) = is_for s e ++ (if continues e then meant_for s es else [])

  turn-put :
      (s : ℕ) (e : Event) (r : Router)
      → ((behind (turn decode routes e r)).put s ≡ r.put s ++ is_for s e)
        × (goes (turn decode routes e r) ≡ continues e)
  unfolding turn
  turn-put s (session_over cause) r = ground (arith, append-nil (r.put s))
  turn-put s at_eof r = ground (arith, append-nil (r.put s))
  turn-put s (failed e) r = ground (arith, append-nil (r.put s))
  turn-put s (got_packet p none) r = ground (arith, append-nil (r.put s))
  turn-put s (got_packet p (some c)) r = ground (arith, append-nil (r.put s))

  run-turn :
      (over : Option ℕ) (e : Event) (es : List Event) (r : Router) (t : Turn)
      → turn decode routes e r ≡ t
      → (run decode routes over (e ∷ es) r).1
        ≡ (if goes t then (run decode routes over es (behind t)).1 else behind t)
  unfolding run
  run-turn over e es r (goes_on r') h = ground (arith, h)
  run-turn over e es r (returns_ended r') h = ground (arith, h)
  run-turn over e es r (returns x r') h = ground (arith, h)

  -- Whatever the loop reads and however it ends, each service's queue gets exactly the packets with a
  -- header of that service, in the order read, up to the event that ends the loop.
  pub run-meant_for :
      (over : Option ℕ) (s : ℕ) (es : List Event) (r : Router)
      → (run decode routes over es r).1.put s ≡ r.put s ++ meant_for s es
  run-meant_for over s [] r = unfold run in ground (arith, append-nil (r.put s))
  run-meant_for over s (e ∷ es) r =
      let t = turn decode routes e r in
      let now = turn-put s e r in
      elim (Bool-cases (goes t)) [
        | inl more ↦ ground (
          arith,
          more,
          now,
          run-turn over e es r t refl,
          run-meant_for over s es (behind t),
          append_assoc (r.put s) (is_for s e) (meant_for s es),
        )
        | inr stop ↦ ground (arith, stop, now, run-turn over e es r t refl, append-nil (is_for s e))
      ]

-- The headers that a list of routes names, each once and none of the session's own.
abbrev pub Distinct : Routes → Type 0
Distinct [] = Unit
Distinct ((h, s) ∷ rs) = (session_header h ≡ false) × (service_of h rs ≡ none) × Distinct rs

add_headers-Distinct :
    (hs : List Header) (s : ℕ) (rs out : Routes)
    → Distinct rs
    → add_headers hs s rs ≡ built out
    → Distinct out
unfolding add_headers
add_headers-Distinct [] s rs out d e = ground (arith, e)
add_headers-Distinct (h ∷ hs) s rs out d e =
    ground (arith, e, d, add_headers-Distinct hs s ((h, s) ∷ rs) out)

NewRouter-cases :
    (n : NewRouter) → ((rs : Routes) × (n ≡ built rs)) ⊎ ((e : RouterErr) × (n ≡ invalid e))
NewRouter-cases (built rs) = inl (rs, refl)
NewRouter-cases (invalid e) = inr (e, refl)

add_services-Distinct :
    (services : List (List Header)) (s : ℕ) (rs out : Routes)
    → Distinct rs
    → add_services services s rs ≡ built out
    → Distinct out
unfolding add_services
add_services-Distinct [] s rs out d e = ground (arith, e, d)
add_services-Distinct (hs ∷ services) s rs out d e = elim (NewRouter-cases (add_headers hs s rs)) [
  | inl (rs', good) ↦
      add_services-Distinct services (s + 1) rs' out (add_headers-Distinct hs s rs rs' d good)
        (ground (arith, e, good))
  | inr (x, bad) ↦ absurd (ground (arith, e, bad))
]

-- The routes that `newRouter` builds name each header once, and none of the session's own headers.
pub new_router-Distinct :
    (services : List (List Header)) (out : Routes) → new_router services ≡ built out → Distinct out
unfolding new_router
new_router-Distinct services out e = add_services-Distinct services 0 [] out tt e
