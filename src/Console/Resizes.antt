-- ===== src/Console/Resizes.antt =====
-- internal/console/console.go and console_windows.go: the window sizes that are reported.
--
-- A turn of the loop is a wake-up, with what Size then gave, whether the context had ended behind it and
-- what yield answered, or the end of the context.
pub mod Changes
use et_go.Prelude.{ℕ, List, [], ◌∷◌, ◌++◌, Bool, true, false, ◌&&◌, ◌==◌, if◌then◌else◌}

-- `Size`.
pub record WindowSize : Type 0 where
  pub rows : ℕ
  pub cols : ℕ
  pub width : ℕ
  pub height : ℕ

abbrev pub same_size : WindowSize → WindowSize → Bool
same_size a b =
    a.rows == b.rows && (a.cols == b.cols && (a.width == b.width && (a.height == b.height)))

pub data SizeAnswer : Type 0 where
  sized : WindowSize → SizeAnswer
  size_closed : SizeAnswer
  size_failed : ℕ → SizeAnswer

-- The context's state and yield's answer at a change.
pub record Check : Type 0 where
  pub size : SizeAnswer
  pub ended : Bool
  pub wants_more : Bool

-- What a check reports: whether the loop goes on, the size to compare with next, and what was yielded.
pub record Checked : Type 0 where
  pub goes_on : Bool
  pub last : WindowSize
  pub yielded : List WindowSize

-- `resizeCheck`.
resized : Bool → Bool → WindowSize → Checked
resized true wants_more s = record { goes_on = false; last = s; yielded = [] }
resized false wants_more s = record { goes_on = wants_more; last = s; yielded = s ∷ [] }

check_answer : SizeAnswer → Bool → Bool → WindowSize → Checked
check_answer size_closed ended more last = record { goes_on = false; last = last; yielded = [] }
check_answer (size_failed e) ended more last = record { goes_on = true; last = last; yielded = [] }
check_answer (sized s) ended more last =
    if same_size s last
    then record { goes_on = true; last = last; yielded = [] }
    else resized ended more s

unfoldable pub resize_check : Check → WindowSize → Checked
unfolding resized check_answer
resize_check c last = check_answer c.size c.ended c.wants_more last

pub data Turn : Type 0 where
  woke : Check → Turn
  context_done : Turn

-- The loop of `Resizes`: what it yields, and whether it still waits.
pub record Resized : Type 0 where
  pub yielded : List WindowSize
  pub waits : Bool

unfoldable pub behind_check : Checked → Resized → Resized
behind_check c rest =
    if c.goes_on
    then record { yielded = c.yielded ++ rest.yielded; waits = rest.waits }
    else record { yielded = c.yielded; waits = false }

unfoldable pub resizes : List Turn → WindowSize → Resized
unfolding behind_check
resizes [] last = record { yielded = []; waits = true }
resizes (context_done ∷ turns) last = record { yielded = []; waits = false }
resizes (woke c ∷ turns) last =
    let r = resize_check c last in let rest = resizes turns r.last in behind_check r rest
