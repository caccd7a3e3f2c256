-- ===== src/Console/Tests/Unix.antt =====
-- A terminal whose state is a number, and functions for Ctrl+Break.
use et_go.Prelude.{
  ℕ, ◌+◌, ◌≡◌, ◌≤◌, refl, List, [], ◌∷◌, Option, length, Bool, true, false, none, some, ◌==◌,
  ==_iff,
}
use et_go.Console.Modes.{ModeAnswer}
use et_go.Console.Break.{no_handlers, ctrl_break, raise_event}
use et_go.Console.Break.Latest.{on_breaks, ctrl_break-latest}
use et_go.Console.Unix.{
  Console, Access, got, OpenAnswers, opened, open_console, make_raw, restore, close,
}
use et_go.Console.Unix.Restored.{
  SharedSteps, alone, ours, others, no_step, one_more, making_raw, restoring, unix_close-restores,
}

abbrev fine : Access
fine = record { syscall_conn = none; control = none }

abbrev quiet : ModeAnswer
quiet = record { get = none; set = none }

abbrev answers : OpenAnswers ℕ
answers = record {
  stdin = (fine, true);
  stdout = (fine, true);
  file = none;
  get_state = (fine, got 7);
}

abbrev start : Console ℕ
start = record { base = 7; state = 7; file_open = true; closed = false }

abbrev same : ℕ → ℕ → Bool
same x y = x == y

abbrev raw : ℕ → ℕ
raw s = s + 1

opens : open_console answers ≡ opened start
unfolding open_console
opens = refl

-- Raw mode, and a program that leaves another mode behind.
abbrev before : Console ℕ
before = record (make_raw raw fine none start).1 { state = 3 }

used : SharedSteps same raw start before
used =
    others start (make_raw raw fine none start).1 3
      (ours start start (make_raw raw fine none start).1 (alone start) (making_raw start fine none))

abbrev closed : Console ℕ
closed = (close same fine quiet none before).1

abbrev after : Console ℕ
after = (restore same fine quiet closed).1

unix_close-restores_example : got 7 ≡ got after.state
unfolding make_raw close
unix_close-restores_example =
    unix_close-restores same raw answers start before after fine quiet none
      (λ x y h. (==_iff x y).0 h) opens used refl refl
      (one_more closed closed after (no_step closed) (restoring closed fine quiet))

-- A function, none, and another one.
abbrev calls : List (Bool × Option ℕ)
calls = (true, some 4) ∷ (false, none) ∷ (false, some 5) ∷ []

ctrl_break-latest_example :
    (length (on_breaks calls no_handlers).installs ≤ 1)
    × (raise_event ctrl_break (on_breaks calls no_handlers) ≡ (true, some 5))
ctrl_break-latest_example = ctrl_break-latest calls ctrl_break
