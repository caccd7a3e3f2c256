-- ===== src/Console/Modes.antt =====
-- internal/console/console_windows.go: the console modes, MakeRaw, restore and Close.
--
-- A mode is its flags that the code names and the rest of its bits. What the system answered to each
-- call is an argument, none for nil; a call that failed leaves the mode. Each operation is one step, as
-- the code holds the mutex over it.
pub mod Restored
use et_go.Prelude.{
  ℕ, List, [], ◌∷◌, ◌++◌, Bool, true, false, ◌&&◌, Option, none, some, ◌==◌, if◌then◌else◌,
}

pub record InMode : Type 0 where
  pub processed : Bool
  pub line : Bool
  pub echo : Bool
  pub window : Bool
  pub vt_input : Bool
  pub other : ℕ

pub record OutMode : Type 0 where
  pub vt_processing : Bool
  pub processed : Bool
  pub wrap : Bool
  pub no_auto_return : Bool
  pub other : ℕ

pub record Console : Type 0 where
  pub in_base : InMode
  pub out_base : OutMode
  pub in_mode : InMode
  pub out_mode : OutMode
  pub closing : Bool

abbrev pub raw_in : InMode → InMode
raw_in m = record m {
  processed = false;
  line = false;
  echo = false;
  window = false;
  vt_input = true;
}

abbrev pub raw_out : OutMode → OutMode
raw_out m = record m { vt_processing = true; processed = true; wrap = true }

-- What the system answers: the errors of SetConsoleMode and GetConsoleMode, in the order of the calls.
pub record RawAnswers : Type 0 where
  pub set_in : Option ℕ
  pub set_out : Option ℕ
  pub set_out_plain : Option ℕ
  pub roll_back : Option ℕ

pub record ModeAnswer : Type 0 where
  pub get : Option ℕ
  pub set : Option ℕ

pub data ModeErr : Type 0 where
  is_closed : ModeErr
  in_failed : ℕ → ModeErr
  out_failed : ℕ → Option ℕ → ModeErr

-- A mode behind SetConsoleMode.
abbrev pub set_to : {M : Type 0} → Option ℕ → M → M → M
set_to none new cur = new
set_to (some e) new cur = cur

-- `MakeRaw`: nil is that it gave its restore func.
set_raw_out : RawAnswers → Console → Option ModeErr × Console
set_raw_out a c = elim a.set_out [
  | none ↦ (none, record c { out_mode = record (raw_out c.out_base) { no_auto_return = true } })
  | some e ↦ elim a.set_out_plain [
    | none ↦ (none, record c { out_mode = raw_out c.out_base })
    | some e' ↦ (
      some (out_failed e' a.roll_back),
      record c { in_mode = set_to a.roll_back c.in_base c.in_mode },
    )
  ]
]

unfoldable pub make_raw : RawAnswers → Console → Option ModeErr × Console
unfolding set_raw_out
make_raw a c = if c.closing then (some is_closed, c) else elim a.set_in [
  | some e ↦ (some (in_failed e), c)
  | none ↦ set_raw_out a (record c { in_mode = raw_in c.in_base })
]

-- The comparison of the modes.
abbrev pub same_bool : Bool → Bool → Bool
same_bool true b = b
same_bool false true = false
same_bool false false = true

abbrev pub same_in : InMode → InMode → Bool
same_in a b =
    same_bool a.processed b.processed
    && (same_bool a.line b.line
        && (same_bool a.echo b.echo
            && (same_bool a.window b.window
                && (same_bool a.vt_input b.vt_input && (a.other == b.other)))))

abbrev pub same_out : OutMode → OutMode → Bool
same_out a b =
    same_bool a.vt_processing b.vt_processing
    && (same_bool a.processed b.processed
        && (same_bool a.wrap b.wrap
            && (same_bool a.no_auto_return b.no_auto_return && (a.other == b.other))))

-- `setModeIfChanged`: its error and the mode behind it.
unfoldable pub set_if_changed : {M : Type 0} → (M → M → Bool) → ModeAnswer → M → M → Option ℕ × M
set_if_changed same a mode cur = elim a.get [
  | some e ↦ (some e, cur)
  | none ↦ if same cur mode then (none, cur) else (a.set, set_to a.set mode cur)
]

abbrev pub joined : Option ℕ → List ℕ → List ℕ
joined none es = es
joined (some e) es = e ∷ es

-- `restoreLocked`, with the errors that it joins.
unfoldable pub restore_locked : ModeAnswer → ModeAnswer → Console → List ℕ × Console
restore_locked a b c =
    let i = set_if_changed same_in a c.in_base c.in_mode in
    let o = set_if_changed same_out b c.out_base c.out_mode in
    (joined i.0 (joined o.0 []), record c { in_mode = i.1; out_mode = o.1 })

-- `restore`.
unfoldable pub restore : ModeAnswer → ModeAnswer → Console → List ℕ × Console
restore a b c = if c.closing then ([], c) else restore_locked a b c

-- `wakeAndWait`: each turn's injection, and what its select received.
pub data Woken : Type 0 where
  reader_exited ticked deadline : Woken

pub data Waited : Type 0 where
  still_waiting came_back : Waited
  gave_up : Option ℕ → Waited

abbrev pub latest : Option ℕ → Option ℕ → Option ℕ
latest none old = old
latest (some e) old = some e

unfoldable pub wake_and_wait : List (Option ℕ × Woken) → Option ℕ → Waited
wake_and_wait [] err = still_waiting
wake_and_wait ((inject, reader_exited) ∷ turns) err = came_back
wake_and_wait ((inject, deadline) ∷ turns) err = gave_up (latest inject err)
wake_and_wait ((inject, ticked) ∷ turns) err = wake_and_wait turns (latest inject err)

-- The first `Close`: `woke` are the errors of waking the reader, where it was reading, and of the flush.
-- A later one returns nil.
unfoldable pub close : List ℕ → ModeAnswer → ModeAnswer → Console → List ℕ × Console
close woke a b c =
    let r = restore_locked a b (record c { closing = true }) in
    if c.closing then ([], c) else (woke ++ r.0, r.1)
