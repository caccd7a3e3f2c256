-- ===== src/Console/Modes/Restored.antt =====
-- Close leaves the console as Open found it.
use et_go.Prelude.{
  ℕ, ◌≡◌, ◌⊎◌, inr, refl, List, [], ◌∷◌, ◌++◌, Bool, true, false, ◌&&◌, none, ==_iff, arith,
}
use et_go.Console.Modes.{
  InMode, OutMode, Console, RawAnswers, ModeAnswer, set_raw_out, make_raw, same_bool, same_in,
  same_out, set_if_changed, joined, restore_locked, restore, close,
}

-- The operations on the modes, in whatever order the goroutines make them.
pub data ModeStep : Console → Console → Type 0 where
  making_raw : (c : Console) (a : RawAnswers) → ModeStep c (make_raw a c).1
  restoring : (c : Console) (a b : ModeAnswer) → ModeStep c (restore a b c).1
  closing_console :
      (c : Console) (woke : List ℕ) (a b : ModeAnswer) → ModeStep c (close woke a b c).1

pub data ModeSteps : Console → Console → Type 0 where
  no_step : (c : Console) → ModeSteps c c
  one_more : (a b c : Console) → ModeSteps a b → ModeStep b c → ModeSteps a c

same_bool-path : (a b : Bool) → same_bool a b ≡ true → a ≡ b
same_bool-path true b h = ground (arith, h)
same_bool-path false true h = absurd (ground (arith, h))
same_bool-path false false h = refl

both : (a b : Bool) → (a && b) ≡ true → (a ≡ true) × (b ≡ true)
both a b h = ground (arith, h)

same_in-path : (a b : InMode) → same_in a b ≡ true → a ≡ b
same_in-path a b h =
    let (processed, h1) = both _ _ h in
    let (line, h2) = both _ _ h1 in
    let (echo, h3) = both _ _ h2 in
    let (window, h4) = both _ _ h3 in
    let (vt, other) = both _ _ h4 in
    ground (
      arith,
      same_bool-path a.processed b.processed processed,
      same_bool-path a.line b.line line,
      same_bool-path a.echo b.echo echo,
      same_bool-path a.window b.window window,
      same_bool-path a.vt_input b.vt_input vt,
      (==_iff a.other b.other).0 other,
    )

same_out-path : (a b : OutMode) → same_out a b ≡ true → a ≡ b
same_out-path a b h =
    let (vt, h1) = both _ _ h in
    let (processed, h2) = both _ _ h1 in
    let (wrap, h3) = both _ _ h2 in
    let (no_return, other) = both _ _ h3 in
    ground (
      arith,
      same_bool-path a.vt_processing b.vt_processing vt,
      same_bool-path a.processed b.processed processed,
      same_bool-path a.wrap b.wrap wrap,
      same_bool-path a.no_auto_return b.no_auto_return no_return,
      (==_iff a.other b.other).0 other,
    )

-- A restore without an error leaves the mode that it is for.
pub set_if_changed-none :
    {M : Type 0} (same : M → M → Bool) (a : ModeAnswer) (mode cur : M)
    → (same cur mode ≡ true → cur ≡ mode)
    → (set_if_changed same a mode cur).0 ≡ none
    → (set_if_changed same a mode cur).1 ≡ mode
unfolding set_if_changed
set_if_changed-none same a mode cur eq h = ground (arith, h, eq)

-- The baseline stays, and so does everything once Close has started.
abbrev Keeps : Console → Console → Type 0
Keeps c d = (d.in_base ≡ c.in_base) × (d.out_base ≡ c.out_base) × ((c.closing ≡ false) ⊎ (d ≡ c))

make_raw-Keeps : (a : RawAnswers) (c : Console) → Keeps c (make_raw a c).1
unfolding make_raw set_raw_out
make_raw-Keeps a c = ground arith

restore-Keeps : (a b : ModeAnswer) (c : Console) → Keeps c (restore a b c).1
unfolding restore restore_locked
restore-Keeps a b c = ground arith

close-Keeps : (woke : List ℕ) (a b : ModeAnswer) (c : Console) → Keeps c (close woke a b c).1
unfolding close restore_locked
close-Keeps woke a b c = ground arith

step-Keeps : (c d : Console) → ModeStep c d → Keeps c d
step-Keeps _ _ (making_raw c a) = make_raw-Keeps a c
step-Keeps _ _ (restoring c a b) = restore-Keeps a b c
step-Keeps _ _ (closing_console c woke a b) = close-Keeps woke a b c

steps-Keeps : (c d : Console) → ModeSteps c d → Keeps c d
steps-Keeps _ _ (no_step c) = (refl, refl, inr refl)
steps-Keeps _ _ (one_more c m d to_m last) =
    let first = steps-Keeps c m to_m in
    let second = step-Keeps m d last in ground (arith, first, second)

last_nil : (xs ys : List ℕ) → xs ++ ys ≡ [] → ys ≡ []
last_nil [] ys h = h
last_nil (x ∷ xs) ys h = absurd (ground (arith, h))

close-base :
    (woke : List ℕ) (a b : ModeAnswer) (c : Console)
    → c.closing ≡ false
    → (close woke a b c).0 ≡ []
    → ((close woke a b c).1.in_mode ≡ c.in_base)
      × ((close woke a b c).1.out_mode ≡ c.out_base)
      × ((close woke a b c).1.closing ≡ true)
unfolding close restore_locked
close-base woke a b c h nil =
    let i = set_if_changed same_in a c.in_base c.in_mode in
    let o = set_if_changed same_out b c.out_base c.out_mode in
    let errs : joined i.0 (joined o.0 []) ≡ [] = last_nil woke _ (ground (arith, h, nil)) in
    let in_nil : i.0 ≡ none = ground (arith, errs) in
    let out_nil : o.0 ≡ none = ground (arith, errs, in_nil) in
    let is_in =
      set_if_changed-none same_in a c.in_base c.in_mode (same_in-path c.in_mode c.in_base) in_nil in
    let is_out =
      set_if_changed-none same_out b c.out_base c.out_mode (same_out-path c.out_mode c.out_base)
        out_nil in
    rw h (is_in, is_out, refl)

-- Whatever MakeRaw and the restore funcs did before, and whichever of their calls failed, a Close that
-- returns nil leaves the console in the modes that Open recorded, and no later MakeRaw, restore or Close
-- changes them.
pub close-restores :
    (opened before after : Console) (woke : List ℕ) (a b : ModeAnswer)
    → ModeSteps opened before
    → before.closing ≡ false
    → (close woke a b before).0 ≡ []
    → ModeSteps (close woke a b before).1 after
    → (after.in_mode ≡ opened.in_base) × (after.out_mode ≡ opened.out_base)
close-restores opened before after woke a b steps h nil later =
    let (base_in, base_out, _) = steps-Keeps opened before steps in
    let (is_in, is_out, is_closing) = close-base woke a b before h nil in
    let (_, _, same) = steps-Keeps (close woke a b before).1 after later in
    ground (arith, base_in, base_out, is_in, is_out, is_closing, same)
