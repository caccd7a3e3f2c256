-- ===== src/Etcp/Tests/Links.antt =====
-- Concrete runs of a link's writer, of the supervision and of the handshake's connection.
use et_go.Prelude.{
  ℕ, ◌≡◌, refl, min, [], ◌∷◌, true, false, Option, none, some, Bytes, length, arith,
}
use et_go.Wire.Stream.{IoErr}
use et_go.Seal.Tests.{plain_box}
use et_go.Etcp.Conn.{Conn, closed, fail, refused, write_packet, packet, failed}
use et_go.Etcp.Conn.Caller.{drain}
use et_go.Etcp.RunLink.{close}
use et_go.Etcp.RunLink.Closing.{close-Closed}
use et_go.Etcp.Dialer.{Attempt, connect, is_fatal}
use et_go.Etcp.Dialer.Fatal.{Undecided}
use et_go.Etcp.Supervise.{LinkRun}
use et_go.Etcp.Supervise.Survives.{IsRestored}
use et_go.Etcp.IdleConn.Fresh.{IsWriter}
use et_go.Etcp.Tests.{conn}

-- A socket that takes every piece.
abbrev takes_all : ℕ → Bytes → ℕ × Option IoErr
takes_all n b = (length b, none)

abbrev exact : ℕ → ℕ
exact d = d

-- An attempt that the network refuses, and one that comes through.
abbrev no_route : Attempt
no_route = record {
  ctx = none;
  dialled = some closed;
  shaken = none;
  stopped = false;
  deadline = none;
}

abbrev comes_through : Attempt
comes_through = record no_route { dialled = none }

abbrev lost_link : LinkRun
lost_link = record {
  ended = false;
  lasted = true;
  attempts = (none, no_route) ∷ (none, comes_through) ∷ [];
}

no_route-Undecided : Undecided (none, no_route)
unfolding connect is_fatal
no_route-Undecided = (refl, refl, (closed, refl, refl))

lost_link-IsRestored : IsRestored lost_link
unfolding connect
lost_link-IsRestored =
    (refl, ((none, no_route) ∷ [], comes_through, [], refl, (no_route-Undecided, tt), refl))

-- A connection that takes three bytes of each piece and fails.
abbrev takes_three : ℕ → Bytes → ℕ × Option ℕ
takes_three i b = (min 3 (length b), some 9)

takes_three-IsWriter : IsWriter takes_three
takes_three-IsWriter = record {
  within = λ i b. omega arith;
  whole = λ i b h. absurd (ground (arith, h));
}

-- A connection that still has a packet for its caller is closed.
abbrev unread : Conn
unread = record conn { inbox = record { header = 1; payload = 8 ∷ [] } ∷ [] }

abbrev nothing_more : Conn → Conn
nothing_more c = c

abbrev shut : Conn
shut = close nothing_more unread

close-Closed_example :
    (write_packet plain_box none (record { header = 1; payload = [] }) shut
      ≡ (refused closed, shut))
    × (drain 2 shut ≡ packet (record { header = 1; payload = 8 ∷ [] }) ∷ failed closed ∷ [])
unfolding close fail
close-Closed_example =
    close-Closed plain_box nothing_more (record { header = 1; payload = [] }) unread refl
      (omega arith)
