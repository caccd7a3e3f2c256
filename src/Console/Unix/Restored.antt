-- ===== src/Console/Unix/Restored.antt =====
-- Close leaves the terminal as Open found it.
use et_go.Prelude.{ℕ, ◌≡◌, ◌⊎◌, inr, refl, ap, ◌∙◌, [], Bool, true, false, Option, none, arith}
use et_go.Console.Modes.{ModeAnswer, set_if_changed}
use et_go.Console.Modes.Restored.{set_if_changed-none}
use et_go.Console.Unix.{
  Console, Access, control_file, make_raw, restore, close, OpenAnswers, opened, got, open_console,
}

module _ {S : Type 0} (same : S → S → Bool) (raw : S → S) where
  -- The operations in whatever order they are called.
  pub data TermStep : Console S → Console S → Type 0 where
    making_raw :
        (c : Console S) (a : Access) (call : Option ℕ) → TermStep c (make_raw raw a call c).1
    restoring : (c : Console S) (a : Access) (m : ModeAnswer) → TermStep c (restore same a m c).1
    closing_console :
        (c : Console S) (a : Access) (m : ModeAnswer) (shut : Option ℕ)
        → TermStep c (close same a m shut c).1

  pub data TermSteps : Console S → Console S → Type 0 where
    no_step : (c : Console S) → TermSteps c c
    one_more : (a b c : Console S) → TermSteps a b → TermStep b c → TermSteps a c

  -- As before, and between the steps another program may change the terminal.
  pub data SharedSteps : Console S → Console S → Type 0 where
    alone : (c : Console S) → SharedSteps c c
    ours : (a b c : Console S) → SharedSteps a b → TermStep b c → SharedSteps a c
    others : (a b : Console S) (s : S) → SharedSteps a b → SharedSteps a (record b { state = s })

  -- The baseline stays, and so does everything once Close has started.
  abbrev Keeps : Console S → Console S → Type 0
  Keeps c d = (d.base ≡ c.base) × ((c.closed ≡ false) ⊎ (d ≡ c))

  step-Keeps : (c d : Console S) → TermStep c d → Keeps c d
  unfolding make_raw restore close
  step-Keeps _ _ (making_raw c a call) = ground arith
  step-Keeps _ _ (restoring c a m) = ground arith
  step-Keeps _ _ (closing_console c a m shut) = ground arith

  steps-Keeps : (c d : Console S) → TermSteps c d → Keeps c d
  steps-Keeps _ _ (no_step c) = (refl, inr refl)
  steps-Keeps _ _ (one_more c m d to_m last) =
      let first = steps-Keeps c m to_m in
      let second = step-Keeps m d last in ground (arith, first, second)

  shared-base : (c d : Console S) → SharedSteps c d → d.base ≡ c.base
  shared-base _ _ (alone c) = refl
  shared-base _ _ (ours c m d to_m last) = (step-Keeps m d last).0 ∙ shared-base c m to_m
  shared-base _ _ (others c m s to_m) = shared-base c m to_m

  control-none :
      (a : Access) (f : Option ℕ × S) (cur : S)
      → (control_file a f cur).0 ≡ none
      → (f.0 ≡ none) × ((control_file a f cur).1 ≡ f.1)
  unfolding control_file
  control-none a f cur h = ground (arith, h)

  close-base :
      ((x y : S) → same x y ≡ true → x ≡ y)
      → (a : Access) (m : ModeAnswer) (shut : Option ℕ) (c : Console S) → c.closed ≡ false
      → (close same a m shut c).0 ≡ []
      → ((close same a m shut c).1.state ≡ c.base) × ((close same a m shut c).1.closed ≡ true)
  unfolding close
  close-base eq a m shut c h nil =
      let set = set_if_changed same m c.base c.state in
      let r = control_file a set c.state in
      let ran : r.0 ≡ none = ground (arith, h, nil) in
      let (fine, moved) = control-none a set c.state ran in
      let is_base = set_if_changed-none same m c.base c.state (eq c.state c.base) fine in
      rw h (moved ∙ is_base, refl)

-- What `Open` records is the state that it read.
open-base :
    {S : Type 0} (a : OpenAnswers S) (c : Console S)
    → open_console a ≡ opened c
    → a.get_state.1 ≡ got c.base
unfolding open_console
open-base a c e = ground (arith, e)

-- Where the comparison of two states tells equality: whatever MakeRaw, the restore funcs and other
-- programs did to the terminal before, a Close that returns nil leaves it in the state that Open read,
-- and no later MakeRaw, restore or Close changes it.
pub unix_close-restores :
    {S : Type 0} (same : S → S → Bool) (raw : S → S) (answers : OpenAnswers S)
    (start before after : Console S) (a : Access) (m : ModeAnswer) (shut : Option ℕ)
    → ((x y : S) → same x y ≡ true → x ≡ y)
    → open_console answers ≡ opened start
    → SharedSteps same raw start before
    → before.closed ≡ false
    → (close same a m shut before).0 ≡ []
    → TermSteps same raw (close same a m shut before).1 after
    → answers.get_state.1 ≡ got after.state
unix_close-restores same raw answers start before after a m shut eq e steps h nil later =
    let base = shared-base same raw start before steps in
    let (state, closed) = close-base same raw eq a m shut before h nil in
    let (_, same_state) = steps-Keeps same raw (close same a m shut before).1 after later in
    open-base answers start e ∙ ap got (ground (arith, base, state, closed, same_state))
