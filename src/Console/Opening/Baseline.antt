-- ===== src/Console/Opening/Baseline.antt =====
-- The console goes back to what it was at Open.
use et_go.Prelude.{ℕ, ◌≡◌, ◌∙◌, sym, ap, List, [], false, arith}
use et_go.Console.Modes.{Console, ModeAnswer, close}
use et_go.Console.Modes.Restored.{ModeSteps, close-restores}
use et_go.Console.Opening.{OpenAnswers, gave, opened, open_modes}

opened-modes :
    (answers : OpenAnswers) (c : Console)
    → open_modes answers ≡ opened c
    → (answers.in_mode ≡ gave c.in_base) × (answers.out_mode ≡ gave c.out_base)
unfolding open_modes
opened-modes answers c e = ground (arith, e)

-- Whatever MakeRaw and the restore funcs did since Open, and whichever of their calls failed, a Close
-- that returns nil leaves the console in the modes that Open read, and no later MakeRaw, restore or
-- Close changes them.
pub open_close-restores :
    (answers : OpenAnswers) (start before after : Console) (woke : List ℕ) (a b : ModeAnswer)
    → open_modes answers ≡ opened start
    → ModeSteps start before
    → before.closing ≡ false
    → (close woke a b before).0 ≡ []
    → ModeSteps (close woke a b before).1 after
    → (answers.in_mode ≡ gave after.in_mode) × (answers.out_mode ≡ gave after.out_mode)
open_close-restores answers start before after woke a b e steps h nil later =
    let (is_in, is_out) = opened-modes answers start e in
    let (back_in, back_out) = close-restores start before after woke a b steps h nil later in
    (is_in ∙ ap gave (sym back_in), is_out ∙ ap gave (sym back_out))
