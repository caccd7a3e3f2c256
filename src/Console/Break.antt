-- ===== src/Console/Break.antt =====
-- internal/console/console_windows.go: the function that Ctrl+Break calls, and the record that wakes a
-- blocked reader.
--
-- A function is a number. The handler is installed by the first registration, and stays.
pub mod Latest
use et_go.Prelude.{ℕ, List, [], ◌∷◌, Bool, true, false, Option, none, some, ◌==◌, if◌then◌else◌}

-- `breakFunc`, and what `handlerOnce` has come to: the results of its calls of SetConsoleCtrlHandler.
pub record Handlers : Type 0 where
  pub break_func : Option ℕ
  pub once : Bool
  pub installs : List Bool

abbrev pub no_handlers : Handlers
no_handlers = record { break_func = none; once = false; installs = [] }

-- `OnBreak`, with the system's answer should it be asked.
unfoldable pub on_break : Bool → Option ℕ → Handlers → Handlers
on_break answer none h = record h { break_func = none }
on_break answer (some f) h =
    if h.once
    then record h { break_func = some f }
    else record h { break_func = some f; once = true; installs = answer ∷ h.installs }

-- CTRL_C_EVENT, CTRL_BREAK_EVENT and the others.
pub data CtrlEvent : Type 0 where
  ctrl_c ctrl_break ctrl_close ctrl_logoff ctrl_shutdown : CtrlEvent

-- `ctrlHandler`: whether it handled the event, and what it called.
unfoldable pub ctrl_handler : CtrlEvent → Handlers → Bool × Option ℕ
ctrl_handler ctrl_break h = elim h.break_func [ none ↦ (false, none) | some f ↦ (true, some f) ]
ctrl_handler e h = (false, none)

-- An event goes to the handler only where that was installed.
abbrev is_installed : List Bool → Bool
is_installed [] = false
is_installed (answer ∷ rest) = answer

unfoldable pub raise_event : CtrlEvent → Handlers → Bool × Option ℕ
raise_event e h = if is_installed h.installs then ctrl_handler e h else (false, none)

-- The record of `wakeReader`, and its error from that of the injection.
pub record KeyEvent : Type 0 where
  pub key_down : ℕ
  pub repeat_count : ℕ
  pub virtual_key_code : ℕ
  pub virtual_scan_code : ℕ
  pub unicode_char : ℕ

unfoldable pub wake_reader : (KeyEvent → Option ℕ) → Option ℕ
wake_reader inject = inject (record {
  key_down = 1;
  repeat_count = 1;
  virtual_key_code = 0x0D;
  virtual_scan_code = 0x1C;
  unicode_char = 13;
})
