-- ===== src/Session/Run.antt =====
-- internal/session/run.go, and the group of internal/session/router.go: a session and its goroutines.
--
-- `ends` lists what ends the context of the session or not, in the order in which it happens: each
-- goroutine with what it returned, none for nil, and the caller's context with its cause.
pub mod Ended
use et_go.Prelude.{
  ℕ, List, [], ◌∷◌, ◌++◌, Bool, true, false, ◌&&◌, Option, none, some, if◌then◌else◌, ℤ,
}
use et_go.Protocol.{Header, header_terminal_buffer}
use et_go.Session.Router.{
  NewRouter, built, invalid, RouterErr, new_router, RunErr, ended, exit_error,
}
use et_go.Session.Terminal.{LoopErr, left_session}

pub data Cause : Type 0 where
  from_router : RunErr → Cause
  from_loop : LoopErr → Cause
  from_caller : ℕ → Cause

-- What `Run` returns where it is not nil: *ExitError, ErrDetached, an error of newRouter or another cause.
pub data SessionErr : Type 0 where
  exited : ℤ → SessionErr
  detached : SessionErr
  not_built : RouterErr → SessionErr
  other_cause : Cause → SessionErr

-- What `Run` does to the terminal and its goroutines behind the end of the context.
pub data Wait : Type 0 where
  closed_terminal joined_group joined_reader : Wait

-- The group and `context.WithCancelCause`: the first cause stays.
unfoldable pub first_cause : List (Option Cause) → Option Cause
first_cause [] = none
first_cause (none ∷ es) = first_cause es
first_cause (some c ∷ es) = some c

abbrev pub result : Cause → Option SessionErr
result (from_router ended) = none
result (from_router (exit_error code)) = some (exited code)
result (from_router e) = some (other_cause (from_router e))
result (from_loop left_session) = some detached
result (from_loop e) = some (other_cause (from_loop e))
result (from_caller e) = some (other_cause (from_caller e))

-- The services of a session and their headers.
abbrev pub service_headers : Bool → List (List Header)
service_headers true = (header_terminal_buffer ∷ []) ∷ []
service_headers false = []

-- The waits of `Run`. `close_failed` is that the terminal's Close gave an error, `strands` is
-- closeMayStrandReader.
abbrev pub waits : Bool → Bool → Bool → List Wait
waits false close_failed strands = joined_group ∷ []
waits true close_failed strands =
    if close_failed && strands
    then closed_terminal ∷ joined_group ∷ []
    else closed_terminal ∷ joined_group ∷ joined_reader ∷ []

pub data Ran : Type 0 where
  running : Ran
  returned : Option SessionErr → List Wait → Ran

returns : Bool → Bool → Bool → Option Cause → Ran
returns terminal close_failed strands none = running
returns terminal close_failed strands (some c) =
    returned (result c) (waits terminal close_failed strands)

started : Bool → Bool → Bool → List (Option Cause) → NewRouter → Ran
started terminal close_failed strands ends (invalid e) = returned (some (not_built e)) []
started terminal close_failed strands ends (built routes) =
    returns terminal close_failed strands (first_cause ends)

-- `Run`.
unfoldable pub run_session : Bool → Bool → Bool → List (Option Cause) → Ran
unfolding returns started
run_session terminal close_failed strands ends =
    started terminal close_failed strands ends (new_router (service_headers terminal))
