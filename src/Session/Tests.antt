-- ===== src/Session/Tests.antt =====
-- Concrete runs of internal/session.
mod Loops
mod Queues
mod Transports
use et_go.Prelude.{◌≡◌, refl, List, [], ◌∷◌, ◌++◌, true, false, Option, none, some, Bytes, ℤ}
use et_go.Protocol.{Packet}
use et_go.Session.Escape.Reading.{filter_reads, escaped, joined, filter_reads-escaped}
use et_go.Session.Input.{PendingInput, looping, returned, push_pass, take_input}
use et_go.Session.Input.Order.{
  Keys, InOrder, KeyReach, at_start, then_step, typing, passing, taking, input-InOrder,
}
use et_go.Session.Router.{Event, got_packet, at_eof, Router, run}
use et_go.Session.Router.Routing.{meant_for, run-meant_for}

-- A tilde at the end of one read, and the byte that decides it in the next.
abbrev reads : List Bytes
reads = (97 ∷ 13 ∷ 126 ∷ []) ∷ (126 ∷ 126 ∷ 10 ∷ 126 ∷ []) ∷ (46 ∷ 97 ∷ []) ∷ []

escaped_run : escaped false (joined reads) ≡ (97 ∷ 13 ∷ 126 ∷ 126 ∷ 10 ∷ [], true)
escaped_run = refl

abbrev nothing_yet : PendingInput
nothing_yet = record { buf = []; stalled = false; limit = 2; ready = false; space = false }

abbrev idle : Keys
idle = record { pending = nothing_yet; push = returned; typed = []; sent = []; dropped = 0 }

-- Three bytes typed into a buffer of two, and one of them taken.
abbrev typed_three : Keys
typed_three = record idle { push = looping (1 ∷ 2 ∷ 3 ∷ []); typed = 1 ∷ 2 ∷ 3 ∷ [] }

abbrev passed : Keys
passed = record {
  pending = record nothing_yet { buf = 1 ∷ 2 ∷ []; ready = true };
  push = looping (3 ∷ []);
  typed = 1 ∷ 2 ∷ 3 ∷ [];
  sent = [];
  dropped = 0;
}

abbrev took_one : Keys
took_one = record passed {
  pending = record passed.pending { buf = 2 ∷ []; space = true };
  sent = 1 ∷ [];
}

took_one-KeyReach : KeyReach idle took_one
unfolding push_pass take_input
took_one-KeyReach =
    then_step {u = passed}
      (then_step {u = typed_three}
        (then_step {u = idle} at_start (typing idle (1 ∷ 2 ∷ 3 ∷ []) refl))
        (passing typed_three (1 ∷ 2 ∷ 3 ∷ []) refl))
      (taking passed 1)

input-InOrder_example : InOrder took_one
input-InOrder_example = input-InOrder 2 took_one took_one-KeyReach

abbrev no_status : Bytes → Option (Option ℤ)
no_status b = some none

abbrev output : Packet
output = record { header = 1; payload = 5 ∷ [] }

abbrev empty_router : Router
empty_router = record { exit = none; put = λ s. [] }

abbrev events : List Event
events =
    got_packet output none ∷ got_packet (record { header = 77; payload = [] }) none ∷ at_eof ∷ []
