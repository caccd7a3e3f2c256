-- ===== src/Cmd/Run/Resources.antt =====
-- What a run leaves behind, and its exit status.
use et_go.Prelude.{
  ◌≤◌, ◌≡◌, ◌↔◌, ◌⊎◌, inl, inr, refl, List, [], ◌∷◌, Bool, true, false, not, ◌&&◌, Option, none,
  some, arith, pos, negsuc,
}
use et_go.Cmd.Run.{
  RunErr, exit_error, detached, other, Steps, Effect, opened_console, closed_console, bootstrapped,
  dialled, closed_conn, started, set_break, cleared_break, made_raw, restored, ran_session,
  exit_code, connect, run_raw, run_started, run_dialled,
}

-- What is held: the console, the connection, the Ctrl+Break handler, the raw mode.
pub record Held : Type 0 where
  pub console : Bool
  pub conn : Bool
  pub on_break : Bool
  pub raw : Bool

abbrev pub nothing : Held
nothing = record { console = false; conn = false; on_break = false; raw = false }

abbrev pub allow : Bool → Held → Option Held
allow true h = some h
allow false h = none

-- One effect, where it is allowed: nothing is taken twice or given back twice, ssh runs and the
-- connection is dialled while the console is open but not raw, and the session runs on a raw console
-- with a connection. session.Run closes the console.
abbrev pub play_one : Effect → Held → Option Held
play_one opened_console h = allow (not h.console) (record h { console = true })
play_one closed_console h = allow (h.console && not h.raw) (record h { console = false })
play_one bootstrapped h = allow (h.console && not h.raw) h
play_one dialled h = allow (h.console && not h.conn) (record h { conn = true })
play_one closed_conn h = allow h.conn (record h { conn = false })
play_one started h = allow h.conn h
play_one set_break h = allow (h.conn && not h.on_break) (record h { on_break = true })
play_one cleared_break h = allow h.on_break (record h { on_break = false })
play_one made_raw h = allow (h.console && not h.raw) (record h { raw = true })
play_one restored h = allow h.raw (record h { raw = false })
play_one ran_session h = allow (h.console && (h.conn && h.raw)) (record h { console = false })

abbrev pub play : List Effect → Held → Option Held
play [] h = some h
play (e ∷ es) h = elim (play_one e h) [ none ↦ none | some h' ↦ play es h' ]

answers : (a b c d e f : Option RunErr) → Steps
answers a b c d e f = record {
  open_console = a;
  bootstrap = b;
  dial = c;
  start = d;
  make_raw = e;
  run = f;
}

connect_at :
    (a b c d e f : Option RunErr) → play (connect (answers a b c d e f)).1 nothing ≡ some nothing
unfolding answers connect run_dialled run_started run_raw
connect_at (some x) b c d e f = refl
connect_at none (some x) c d e f = refl
connect_at none none (some x) d e f = refl
connect_at none none none (some x) e f = refl
connect_at none none none none (some x) f = refl
connect_at none none none none none f = refl

-- Whatever fails, `connect` takes and gives back in a proper order, and ends with nothing held: the
-- console closed and out of raw mode, the connection closed and the handler of Ctrl+Break cleared.
pub connect-nothing : (s : Steps) → play (connect s).1 nothing ≡ some nothing
connect-nothing s =
    unfold answers in connect_at s.open_console s.bootstrap s.dial s.start s.make_raw s.run

-- The exit status fits a byte. It is 0 exactly for a session that ended without a status or with the
-- status 0, or that was left.
pub exit_code-zero :
    (o : Option RunErr)
    → (exit_code o ≤ 255)
      × ((exit_code o ≡ 0) ↔ ((o ≡ none) ⊎ ((o ≡ some detached) ⊎ (o ≡ some (exit_error (pos 0))))))
unfolding exit_code
exit_code-zero none = (omega arith, ((λ h. inl refl), λ h. refl))
exit_code-zero (some detached) = (omega arith, ((λ h. inr (inl refl)), λ h. refl))
exit_code-zero (some (other e)) =
    (omega arith, ((λ h. absurd (omega (arith, h))), λ h. ground (arith, h)))
exit_code-zero (some (exit_error (negsuc n))) =
    (omega arith, ((λ h. absurd (omega (arith, h))), λ h. ground (arith, h)))
exit_code-zero (some (exit_error (pos n))) =
    (ground arith, ((λ h. ground (arith, h)), λ h. ground (arith, h)))
