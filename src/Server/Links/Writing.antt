-- ===== src/Server/Links/Writing.antt =====
-- What the server's writer puts on a link.
use et_go.Prelude.{
  ℕ, ◌+◌, ◌≤◌, ◌≡◌, ◌⊎◌, List, [], ◌∷◌, false, Option, none, some, Bytes, length, take, drop, All,
}
use et_go.Wire.Stream.{WireErr}
use et_go.Server.{Failure, bad_write, session_over, cause}
use et_go.Server.Links.{Pass, write_pass, Moment}

-- Some moment found the session ended and all of its packets written.
abbrev pub Stops : List Moment → ℕ → Type 0
Stops [] n = ⊥
Stops (m ∷ ms) n = ((m.server.registered ≡ false) × (length m.server.sent ≤ n)) ⊎ Stops ms n

-- Some moment found the context ended with `c` and all packets written.
abbrev pub Pauses : List Moment → ℕ → ℕ → Type 0
Pauses [] c n = ⊥
Pauses (m ∷ ms) c n = ((m.stopped ≡ some c) × (length m.server.sent ≤ n)) ⊎ Pauses ms c n

-- The frames of the loop `r` from `flushed` on, in a session whose packets are `h`.
pub record Carried (h : List Bytes) (flushed : ℕ) (ms : List Moment)
    (r : List Bytes × ℕ × Option Failure) : Type 0 where
  pub front : r.0 ≡ take (length r.0) (drop flushed h)
  pub counted : r.1 ≤ flushed + length r.0
  pub whole : (r.1 ≡ flushed + length r.0) ⊎ ((e : WireErr) × (r.2 ≡ some (bad_write e)))
  pub stopped : r.2 ≡ some session_over → Stops ms r.1
  pub paused : (c : ℕ) → r.2 ≡ some (cause c) → Pauses ms c r.1
  pub written : r.2 ≡ none → All (λ m. length m.server.sent ≤ r.1) ms
  pub forward : flushed ≤ r.1

module _ (put : Bytes → Option WireErr) (flushed : ℕ) (m : Moment) (ms : List Moment) where
  abbrev first_pass : List Bytes × Pass
  first_pass = write_pass put flushed m.server
