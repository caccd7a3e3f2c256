-- ===== src/Cmd/Run.antt =====
-- cmd/et/run.go: the run of the client, from the command line to the exit status.
--
-- `Steps` is what each dependency of `connect` answered. The log holds what `connect` did, its deferred
-- calls included, in order.
pub mod Resources
use et_go.Prelude.{
  ℕ, zero, suc, ◌+◌, ◌*◌, ◌^◌, List, [], ◌∷◌, ◌++◌, Bool, true, false, Option, none, some, ltb,
  if◌then◌else◌, ℤ, pos, negsuc,
}
use et_go.Protocol.{header_keep_alive}
use et_go.Etcp.Dialer.{Dialer}
use et_go.Cmd.Flags.{Parsed, shows_help, shows_version, refused, accepted, Options}

-- How a run ends: *session.ExitError, session.ErrDetached, or any other error.
pub data RunErr : Type 0 where
  exit_error : ℤ → RunErr
  detached : RunErr
  other : ℕ → RunErr

-- `exitCode`.
exit_status : ℤ → ℕ
exit_status (negsuc n) = 255
exit_status (pos n) = if ltb 255 n then 255 else n

error_code : RunErr → ℕ
error_code (exit_error code) = exit_status code
error_code detached = 0
error_code (other e) = 255

unfoldable pub exit_code : Option RunErr → ℕ
unfolding exit_status error_code
exit_code none = 0
exit_code (some e) = error_code e

-- The answers of `connect`'s dependencies, none for nil.
pub record Steps : Type 0 where
  pub open_console : Option RunErr
  pub bootstrap : Option RunErr
  pub dial : Option RunErr
  pub start : Option RunErr
  pub make_raw : Option RunErr
  pub run : Option RunErr

-- What `connect` does to the console, the connection and the handler of Ctrl+Break. The console's Close
-- is also a part of session.Run.
pub data Effect : Type 0 where
  opened_console closed_console bootstrapped dialled closed_conn started : Effect
  set_break cleared_break made_raw restored ran_session : Effect

abbrev pub Outcome : Type 0
Outcome = Option RunErr × List Effect

-- A call deferred behind what follows it.
abbrev pub deferring : Effect → Outcome → Outcome
deferring e r = (r.0, r.1 ++ (e ∷ []))

abbrev pub did : Effect → Outcome → Outcome
did e r = (r.0, e ∷ r.1)

-- A step that failed returns, one that did not has its effect and goes on.
abbrev pub step : Option RunErr → Effect → Outcome → Outcome
step (some err) e next = (some err, [])
step none e next = did e next

-- The parts of `connect` behind MakeRaw, session.Start, the dial and the console.
unfoldable pub run_raw : Steps → Outcome
run_raw s = step s.make_raw made_raw (deferring restored (did ran_session (s.run, [])))

unfoldable pub run_started : Steps → Outcome
run_started s = step s.start started (did set_break (deferring cleared_break (run_raw s)))

unfoldable pub run_dialled : Steps → Outcome
run_dialled s = step s.dial dialled (deferring closed_conn (run_started s))

-- The deferred Close of the console happens unless session.Run was called.
abbrev pub ran : List Effect → Bool
ran [] = false
ran (ran_session ∷ es) = true
ran (e ∷ es) = ran es

abbrev pub unless_run : Outcome → Outcome
unless_run r = if ran r.1 then r else deferring closed_console r

-- `connect`.
unfoldable pub connect : Steps → Outcome
connect s =
    step s.open_console opened_console (unless_run (step s.bootstrap bootstrapped (run_dialled s)))

-- The Dialer that `connect` sets up.
abbrev pub dialer_of : Options → Dialer
dialer_of o = record {
  keep_alive = pos (o.keep_alive * 10 ^ 9);
  probe = record { header = header_keep_alive; payload = [] };
  replay_limit = pos 0;
}

-- `runWith`, by what the command line came to; `logger` is whether newLogger gave one.
unfoldable pub run_with : Parsed → Bool → Steps → ℕ × List Effect
run_with shows_help logger s = (0, [])
run_with (refused e) logger s = (2, [])
run_with shows_version logger s = (0, [])
run_with (accepted o) false s = (255, [])
run_with (accepted o) true s = (exit_code (connect s).0, (connect s).1)
