-- ===== src/Session/Tests/Loops.antt =====
-- Concrete runs of the session's loops, its start and its end.
use et_go.Prelude.{
  ℕ, zero, suc, ◌≡◌, ◌⊎◌, List, [], ◌∷◌, true, false, Option, none, some, Bytes, All, concat,
  if◌then◌else◌, pos,
}
use et_go.Protocol.{Packet, header_initial_response}
use et_go.Session.Escape.Reading.{escaped, joined}
use et_go.Session.Input.{PendingInput, Size, LatestSize, terminal_info}
use et_go.Session.Router.{exit_error}
use et_go.Session.Terminal.{Read, at_eof, left_session, read, Answer, accepted, refused, send_round}
use et_go.Session.Terminal.Keyboard.{heard, first_err, read-escaped}
use et_go.Session.Terminal.Sent.{Delivers, SizeFirst, send_round-Delivers}
use et_go.Session.Run.{
  SessionErr, Wait, Cause, from_router, from_loop, running, returned, run_session,
}
use et_go.Session.Run.Ended.{FirstCause, Reports, Leaves, run_session-ends}

-- "a", a newline and a tilde, and in the next read the dot, with the end of the input.
abbrev typed : List Read
typed =
    record { data_read = 97 ∷ 10 ∷ 126 ∷ []; failed = none }
    ∷ record { data_read = 46 ∷ []; failed = some (at_eof, none) }
    ∷ []

read-escaped_example :
    (concat (read typed (record { mid_line = false; tilde = false })).0
      ≡ (escaped false (joined (heard typed))).0)
    × ((read typed (record { mid_line = false; tilde = false })).1
        ≡ (if (escaped false (joined (heard typed))).1 then some left_session else first_err typed))
read-escaped_example = read-escaped typed

-- The second write is refused.
abbrev one_accepted : ℕ → Answer
one_accepted zero = accepted
one_accepted (suc n) = refused 5 none

abbrev small_window : LatestSize
small_window = record {
  sz = record { rows = 0; cols = 80; width = 0; height = 0 };
  dirty = true;
  changed = false;
}

abbrev waiting_input : PendingInput
waiting_input = record {
  buf = 97 ∷ 98 ∷ [];
  stalled = false;
  limit = 10;
  ready = false;
  space = false;
}

abbrev no_bytes : Size → Option Bytes
no_bytes s = some []

send_round-Delivers_example :
    ((send_round one_accepted some no_bytes 0 small_window waiting_input).1.dirty ≡ false)
    × (((small_window.dirty ≡ false)
          × Delivers one_accepted some 0
              (97 ∷ 98 ∷ [])
              (send_round one_accepted some no_bytes 0 small_window waiting_input).0)
        ⊎ ((small_window.dirty ≡ true)
            × SizeFirst one_accepted some
                (no_bytes (terminal_info small_window.sz))
                0
                waiting_input
                (send_round one_accepted some no_bytes 0 small_window waiting_input).0))
send_round-Delivers_example =
    send_round-Delivers one_accepted some no_bytes 0 small_window waiting_input

abbrev response : Packet
response = record { header = header_initial_response; payload = [] }

-- The router ends with an exit status, and the keyboard loop after it.
abbrev ends : List (Option Cause)
ends = none ∷ some (from_router (exit_error (pos 3))) ∷ some (from_loop left_session) ∷ []

run_session-ends_example :
    ((run_session true true true ends ≡ running) × All (λ e. e ≡ none) ends)
    ⊎ ((c : Cause) × (e : Option SessionErr) × (ws : List Wait) × FirstCause ends c
        × (run_session true true true ends ≡ returned e ws)
        × Reports c e
        × Leaves true true true ws)
run_session-ends_example = run_session-ends true true true ends
