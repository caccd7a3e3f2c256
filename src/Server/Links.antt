-- ===== src/Server/Links.antt =====
-- One link of internal/etservertest/server.go: the handshake, the recover exchange, and the two loops.
pub mod Resume
pub mod Passing
pub mod Writing
use et_go.Prelude.{
  ℕ, zero, suc, ◌+◌, ◌-◌, ◌%◌, ◌^◌, ◌&&◌, List, [], ◌∷◌, ◌++◌, Bool, true, false, not, Option, none,
  some, Bytes, length, drop, ltb, if◌then◌else◌, ℤ, pos, negsuc,
}
use et_go.Wire.Stream.{Stream, WireErr, Outcome, ok, err}
use et_go.Wire.Frame.{read_frame}
use et_go.Seal.{Secretbox}
use et_go.Etcp.Dialer.{Status, new_client, returning_client}
use et_go.Server.{
  Server, Failure, bad_request, bad_response, bad_write_sequence, bad_read_sequence,
  bad_write_catchup, bad_read_catchup, bad_read, bad_write, turned_down, bad_sequence, session_over,
  cause, Request, Admitted, admit, take_over, accept, accept_all,
}

-- `int32(n)`.
unfoldable pub int32 : ℕ → ℤ
int32 n = let w = n % 2 ^ 32 in if ltb w (2 ^ 31) then pos w else negsuc (2 ^ 32 - 1 - w)

-- What the other side and the network do in a recover exchange. `before_catchup` and `before_accept`
-- are what the server's callers do while the peer's position and its catchup are waited for.
pub record Exchange : Type 0 where
  pub write_sequence : ℤ → Option WireErr
  pub peer : Outcome ℤ
  pub before_catchup : Server → Server
  pub write_catchup : List Bytes → Option WireErr
  pub theirs : Outcome (List Bytes)
  pub before_accept : Server → Server

-- A sequence number or an error.
pub data Flushed : Type 0 where
  flushed_to : ℕ → Flushed
  failed : Failure → Flushed

-- `sent[from:]`, by whether the peer's number is in its range.
catchup_from : ℤ → List Bytes → Option (List Bytes)
catchup_from (negsuc n) sent = none
catchup_from (pos from) sent = if ltb (length sent) from then none else some (drop from sent)

-- What a link brings to `Serve`: its request, how the response was written, and its exchange.
-- `before_link` is what callers do while the link before it ends.
pub record Arrival : Type 0 where
  pub link : ℕ
  pub request : Outcome Request
  pub write_response : Admitted → Option WireErr
  pub before_link : Server → Server
  pub exchange : Exchange

module _ (box : Secretbox) where
  -- The steps of `recover`, the last first.
  accepted : ℕ → Option Failure × Server → Flushed × Server
  accepted flushed (none, s) = (flushed_to flushed, s)
  accepted flushed (some e, s) = (failed e, s)

  read_catchup : Exchange → ℕ → Server → Flushed × Server
  read_catchup x flushed s = elim x.theirs [
    | err e ↦ (failed (bad_read_catchup e), s)
    | ok bs ↦ accepted flushed (accept_all box bs (x.before_accept s))
  ]

  write_catchup : Exchange → ℤ → Option (List Bytes) → Server → Flushed × Server
  write_catchup x from none s = (failed (bad_sequence from (length s.sent)), s)
  write_catchup x from (some ours) s = elim (x.write_catchup ours) [
    | some e ↦ (failed (bad_write_catchup e), s)
    | none ↦ read_catchup x (length s.sent) s
  ]

  answer_peer : Exchange → Server → Flushed × Server
  answer_peer x s = elim x.peer [
    | err e ↦ (failed (bad_read_sequence e), s)
    | ok from ↦ let s' = x.before_catchup s in write_catchup x from (catchup_from from s'.sent) s'
  ]

  -- `recover`.
  unfoldable pub recover : Exchange → Server → Flushed × Server
  unfolding accepted read_catchup write_catchup answer_peer catchup_from
  recover x s = elim (x.write_sequence (int32 s.recv_seq)) [
    | some e ↦ (failed (bad_write_sequence e), s)
    | none ↦ answer_peer x s
  ]

  -- `Serve` up to its loops, from the last step: the link takes over, and the loops start at 0 or
  -- behind the catchup. With it stands the link that was closed and waited for.
  enter : Arrival → Status → Server → Flushed × Server
  enter a returning_client s = recover a.exchange s
  enter a status s = (flushed_to 0, s)

  abbrev is_welcome : Status → Bool
  is_welcome new_client = true
  is_welcome returning_client = true
  is_welcome status = false

  welcome : Arrival → Admitted → Option ℕ × Flushed × Server
  welcome a d =
      let (prev, s) = take_over a.link d.server in
      let (f, s') = enter a d.status (a.before_link s) in (prev, f, s')

  respond : Arrival → Admitted → Option ℕ × Flushed × Server
  respond a d = elim (a.write_response d) [
    | some e ↦ (none, failed (bad_response e), d.server)
    | none ↦
        if is_welcome d.status then welcome a d else (none, failed (turned_down d.status), d.server)
  ]

  unfoldable pub serve : Arrival → Server → Option ℕ × Flushed × Server
  unfolding enter welcome respond
  serve a s = elim a.request [
    | err e ↦ (none, failed (bad_request e), s)
    | ok req ↦ respond a (admit req s)
  ]

  -- `readLoop` into a buffer of capacity `cap`; `none` is that the rounds ran out.
  unfoldable pub read_loop : ℕ → ℕ → Stream → Server → Option (Failure × Server)
  read_loop zero cap str s = none
  read_loop (suc rounds) cap str s =
      let f = read_frame cap str in
      elim f.outcome [
        | err e ↦ some (bad_read e, s)
        | ok frame ↦
            let (failure, s') = accept box frame s in
            elim failure [ none ↦ read_loop rounds f.capacity f.rest s' | some e ↦ some (e, s') ]
      ]

-- What a pass of `writeLoop` does: it waits, ends, or has written frames up to a new position.
pub data Pass : Type 0 where
  waits : Pass
  over : Failure → Pass
  wrote : ℕ → Pass

-- WriteFrame on each of the frames, up to the one that fails.
unfoldable pub write_each : (Bytes → Option WireErr) → List Bytes → List Bytes × Option WireErr
write_each put [] = ([], none)
write_each put (f ∷ fs) =
    let rest = write_each put fs in
    elim (put f) [ none ↦ (f ∷ rest.0, rest.1) | some e ↦ ([], some e) ]

-- A pass of `writeLoop` from `flushed` on: what was pending, and what came of it.
pass_over : ℕ → ℕ → List Bytes × Option WireErr → List Bytes × Pass
pass_over flushed n (fs, none) = (fs, wrote (flushed + n))
pass_over flushed n (fs, some e) = (fs, over (bad_write e))

pub pass_pending : (Bytes → Option WireErr) → ℕ → List Bytes → Bool → List Bytes × Pass
pass_pending put flushed [] true = ([], over session_over)
pass_pending put flushed [] false = ([], waits)
pass_pending put flushed (f ∷ fs) ended =
    pass_over flushed (length (f ∷ fs)) (write_each put (f ∷ fs))

unfoldable pub write_pass : (Bytes → Option WireErr) → ℕ → Server → List Bytes × Pass
unfolding pass_over pass_pending
write_pass put flushed s = pass_pending put flushed (drop flushed s.sent) (not s.registered)

-- What a pass of the loop meets: the server at that time, and where it waits whether its context's
-- end is received rather than the token of `wake`.
pub record Moment : Type 0 where
  pub server : Server
  pub stopped : Option ℕ

-- `writeLoop` over the moments of its passes: what it wrote, where it stands, and its error.
unfoldable pub write_loop :
    (Bytes → Option WireErr) → ℕ → List Moment → List Bytes × ℕ × Option Failure
write_loop put flushed [] = ([], flushed, none)
write_loop put flushed (m ∷ ms) =
    let p = write_pass put flushed m.server in
    let idle = write_loop put flushed ms in
    let went_on = λ (n : ℕ).
      let rest = write_loop put n ms in
      let joined : List Bytes × ℕ × Option Failure = (p.0 ++ rest.0, rest.1, rest.2) in joined in
    let waited : List Bytes × ℕ × Option Failure = elim m.stopped [
      | none ↦ idle
      | some e ↦ ([], flushed, some (cause e))
    ] in
    elim p.1 [ waits ↦ waited | over e ↦ (p.0, flushed, some e) | wrote n ↦ went_on n ]

-- The token is received.
unfoldable pub woken : Server → Server
woken s = record s { wake = false }

-- The end of `Serve`: what happens to the link's context, in order. The first of these is its cause,
-- and Serve returns it once both loops have.
pub data Ending : Type 0 where
  read_ended write_ended : Failure → Ending
  cancelled : ℕ → Ending

abbrev ending_cause : Ending → Failure
ending_cause (read_ended e) = e
ending_cause (write_ended e) = e
ending_cause (cancelled e) = cause e

-- Whether the two loops have returned among `es`.
abbrev read_done : List Ending → Bool
read_done [] = false
read_done (read_ended e ∷ es) = true
read_done (_ ∷ es) = read_done es

abbrev write_done : List Ending → Bool
write_done [] = false
write_done (write_ended e ∷ es) = true
write_done (_ ∷ es) = write_done es

unfoldable pub serve_end : List Ending → Option Failure
serve_end [] = none
serve_end (e ∷ es) =
    if read_done (e ∷ es) && write_done (e ∷ es) then some (ending_cause e) else none
