-- ===== src/Console/Opening.antt =====
-- internal/console/console_windows.go: Open.
--
-- Each of the four calls gives its value or an error, which the error of Open wraps behind
-- ErrNotTerminal.
pub mod Baseline
use et_go.Prelude.{ℕ, ◌≡◌, false}
use et_go.Console.Modes.{InMode, OutMode, Console}

pub data Answer (A : Type 0) : Type 0 where
  gave : A → Answer A
  refused : ℕ → Answer A

pub record OpenAnswers : Type 0 where
  pub in_handle : Answer ℕ
  pub out_handle : Answer ℕ
  pub in_mode : Answer InMode
  pub out_mode : Answer OutMode

-- The call that failed.
pub data OpenErr : Type 0 where
  no_stdin no_stdout no_stdin_mode no_stdout_mode : ℕ → OpenErr

pub data Opened : Type 0 where
  opened : Console → Opened
  not_terminal : OpenErr → Opened

-- The steps of `Open`, the last first. `new_console` is newConsole with the modes that Open records.
new_console : InMode → OutMode → Console
new_console i o = record { in_base = i; out_base = o; in_mode = i; out_mode = o; closing = false }

with_out_mode : InMode → Answer OutMode → Opened
with_out_mode i (refused e) = not_terminal (no_stdout_mode e)
with_out_mode i (gave o) = opened (new_console i o)

with_in_mode : Answer InMode → Answer OutMode → Opened
with_in_mode (refused e) o = not_terminal (no_stdin_mode e)
with_in_mode (gave i) o = with_out_mode i o

with_out_handle : Answer ℕ → Answer InMode → Answer OutMode → Opened
with_out_handle (refused e) i o = not_terminal (no_stdout e)
with_out_handle (gave h) i o = with_in_mode i o

with_in_handle : Answer ℕ → Answer ℕ → Answer InMode → Answer OutMode → Opened
with_in_handle (refused e) out i o = not_terminal (no_stdin e)
with_in_handle (gave h) out i o = with_out_handle out i o

-- `Open`.
unfoldable pub open_modes : OpenAnswers → Opened
unfolding new_console with_out_mode with_in_mode with_out_handle with_in_handle
open_modes a = with_in_handle a.in_handle a.out_handle a.in_mode a.out_mode
