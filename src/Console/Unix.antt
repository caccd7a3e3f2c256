-- ===== src/Console/Unix.antt =====
-- internal/console/console_unix.go: the controlling terminal.
--
-- `S` is golang.org/x/term's State, `raw` what its MakeRaw makes of the current one, and `same` Go's
-- comparison of two. What the system answered to each call is an argument, none for nil; a call that
-- failed leaves the terminal. Each operation is one step, as the code holds the mutex over it. Read and
-- Write are the file's own.
pub mod Restored
use et_go.Prelude.{
  ℕ, List, [], ◌∷◌, Bool, true, false, not, ◌||◌, Option, none, some, if◌then◌else◌,
}
use et_go.Console.Modes.{ModeAnswer, set_to, set_if_changed, joined}
use et_go.Console.Resizes.{
  WindowSize, SizeAnswer, sized, size_closed, size_failed, Check, Turn, Resized, resize_check,
  behind_check, resizes,
}

-- The Console, with the state of its terminal and whether its file is open.
pub record Console (S : Type 0) : Type 0 where
  pub base : S
  pub state : S
  pub file_open : Bool
  pub closed : Bool

-- The errors of SyscallConn and Control.
pub record Access : Type 0 where
  pub syscall_conn : Option ℕ
  pub control : Option ℕ

-- `controlFile`: its error and the state behind it, where `f` is what its function comes to. Control
-- runs that function exactly if it gives nil.
unfoldable pub control_file : {S : Type 0} → Access → Option ℕ × S → S → Option ℕ × S
control_file a f cur = elim a.syscall_conn [
  | some e ↦ (some e, cur)
  | none ↦ elim a.control [ some e ↦ (some e, cur) | none ↦ f ]
]

-- `controlValue` and `isTerminal`.
pub data Answer (A : Type 0) : Type 0 where
  got : A → Answer A
  no_answer : ℕ → Answer A

unfoldable pub control_value : {A : Type 0} → Access → Answer A → Answer A
control_value a f = elim a.syscall_conn [
  | some e ↦ no_answer e
  | none ↦ elim a.control [ some e ↦ no_answer e | none ↦ f ]
]

abbrev yes_terminal : Answer Bool → Bool
yes_terminal (got b) = b
yes_terminal (no_answer e) = false

unfoldable pub is_terminal : Access → Bool → Bool
unfolding control_value
is_terminal a b = yes_terminal (control_value a (got b))

-- The errors of OpenFile that `noTerminalToOpen` tells apart.
pub data OpenFailure : Type 0 where
  enxio enoent : OpenFailure
  other_failure : ℕ → OpenFailure

abbrev pub no_terminal_to_open : OpenFailure → Bool
no_terminal_to_open enxio = true
no_terminal_to_open enoent = true
no_terminal_to_open (other_failure n) = false

-- What `open` returns. `not_terminal` is ErrNotTerminal, with its cause where it wraps one.
pub data OpenErr : Type 0 where
  not_terminal : OpenErr
  no_such_terminal : OpenFailure → OpenErr
  open_failed : OpenFailure → OpenErr
  no_state : ℕ → OpenErr

pub data Opened (S : Type 0) : Type 0 where
  opened : Console S → Opened S
  refused : OpenErr → Opened S

-- The answers that `open` gets.
pub record OpenAnswers (S : Type 0) : Type 0 where
  pub stdin : Access × Bool
  pub stdout : Access × Bool
  pub file : Option OpenFailure
  pub get_state : Access × Answer S

-- `Size`, where `query` is what the ioctl gave.
size_of : Answer WindowSize → SizeAnswer
size_of (got s) = sized s
size_of (no_answer e) = size_failed e

module _ {S : Type 0} where
  -- `newConsole`.
  new_console : Answer S → Opened S
  new_console (got s) = opened (record { base = s; state = s; file_open = true; closed = false })
  new_console (no_answer e) = refused (no_state e)

  open_file : OpenAnswers S → Option OpenFailure → Opened S
  open_file a (some e) =
      refused (if no_terminal_to_open e then no_such_terminal e else open_failed e)
  open_file a none = new_console (control_value a.get_state.0 a.get_state.1)

  unfoldable pub open_console : OpenAnswers S → Opened S
  unfolding new_console open_file control_value is_terminal
  open_console a =
      if not (is_terminal a.stdin.0 a.stdin.1) || not (is_terminal a.stdout.0 a.stdout.1)
      then refused not_terminal
      else open_file a a.file

  unfoldable pub size : Access → Answer WindowSize → Console S → SizeAnswer
  unfolding size_of control_value
  size a query c = if c.closed then size_closed else size_of (control_value a query)

-- `Resizes` once it is ranged over: a check at once, then one behind each signal.
unfoldable pub resizes_signalled : Check → List Turn → WindowSize → Resized
resizes_signalled first turns last =
    let r = resize_check first last in behind_check r (resizes turns r.last)

-- The errors of MakeRaw.
pub data RawErr : Type 0 where
  is_closed : RawErr
  raw_failed : ℕ → RawErr

abbrev raw_err : Option ℕ → Option RawErr
raw_err none = none
raw_err (some e) = some (raw_failed e)

-- `MakeRaw`: nil is that it gave its restore func.
unfoldable pub make_raw :
    {S : Type 0} → (S → S) → Access → Option ℕ → Console S → Option RawErr × Console S
unfolding control_file
make_raw raw a call c =
    let r = control_file a (call, set_to call (raw c.state) c.state) c.state in
    if c.closed then (some is_closed, c) else (raw_err r.0, record c { state = r.1 })

module _ {S : Type 0} (same : S → S → Bool) where
  -- `restoreLocked`.
  unfoldable pub restore_locked : Access → ModeAnswer → Console S → Option ℕ × Console S
  unfolding control_file set_if_changed
  restore_locked a m c =
      let r = control_file a (set_if_changed same m c.base c.state) c.state in
      (r.0, record c { state = r.1 })

  -- `restore`.
  unfoldable pub restore : Access → ModeAnswer → Console S → Option ℕ × Console S
  unfolding restore_locked
  restore a m c = if c.closed then (none, c) else restore_locked a m c

  -- `Close`, with the error of the file's Close; the errors that it joins.
  unfoldable pub close : Access → ModeAnswer → Option ℕ → Console S → List ℕ × Console S
  unfolding restore_locked
  close a m shut c =
      let r = restore_locked a m (record c { closed = true }) in
      if c.closed then ([], c) else (joined r.0 (joined shut []), record r.1 { file_open = false })
