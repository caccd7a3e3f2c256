-- ===== src/Console/Resizes/Changes.antt =====
-- The sizes that are reported are the changes.
use et_go.Prelude.{
  ◌≡◌, ◌⊎◌, inl, inr, refl, ap, List, [], ◌∷◌, ◌++◌, Bool, true, false, Bool-cases, if◌then◌else◌,
}
use et_go.Console.Resizes.{
  WindowSize, same_size, SizeAnswer, sized, size_closed, size_failed, resized, check_answer,
  resize_check, Turn, woke, context_done, Resized, behind_check, resizes,
}

-- All sizes that were measured, up to the end of the context.
abbrev pub measured_before : SizeAnswer → List WindowSize → List WindowSize
measured_before (sized s) ss = s ∷ ss
measured_before size_closed ss = ss
measured_before (size_failed e) ss = ss

abbrev pub measured : List Turn → List WindowSize
measured [] = []
measured (context_done ∷ turns) = []
measured (woke c ∷ turns) = measured_before c.size (measured turns)

-- The changes in a list of sizes against the one before it.
abbrev pub changes : WindowSize → List WindowSize → List WindowSize
changes last [] = []
changes last (s ∷ ss) = if same_size s last then changes last ss else s ∷ changes s ss

-- A loop yields a front of the changes, and all of them as long as it waits.
abbrev pub Reports : List WindowSize → Resized → Type 0
Reports all r =
    (rest : List WindowSize) × (all ≡ r.yielded ++ rest) × ((r.waits ≡ false) ⊎ (rest ≡ []))

-- A check and the loop behind it.
answer-Reports :
    (a : SizeAnswer) (ended more : Bool) (last : WindowSize) (ss : List WindowSize)
    (rest : WindowSize → Resized)
    → ((l : WindowSize) → Reports (changes l ss) (rest l))
    → let c = check_answer a ended more last in
      Reports (changes last (measured_before a ss)) (behind_check c (rest c.last))
unfolding check_answer resized behind_check
answer-Reports size_closed ended more last ss rest h = (changes last ss, refl, inl refl)
answer-Reports (size_failed e) ended more last ss rest h = h last
answer-Reports (sized s) ended more last ss rest h = elim (Bool-cases (same_size s last)) [
  | inl e ↦ rw (e, check_answer) (h last)
  | inr e ↦ rw (e, check_answer) (changed ended more)
]
  where
    changed :
        (ended more : Bool)
        → Reports
            (s ∷ changes s ss)
            (behind_check (resized ended more s) (rest (resized ended more s).last))
    changed true more = (s ∷ changes s ss, refl, inl refl)
    changed false false = (changes s ss, refl, inl refl)
    changed false true = let (left, whole, all) = h s in (left, ap (λ x. s ∷ x) whole, all)

-- `Resizes` yields the changes of the window size in order, each once, against the size that it started
-- with: all of them as long as it waits for the next, and a front of them once it has ended.
pub resizes-Reports :
    (turns : List Turn) (last : WindowSize)
    → Reports (changes last (measured turns)) (resizes turns last)
unfolding resizes resize_check
resizes-Reports [] last = ([], refl, inr refl)
resizes-Reports (context_done ∷ turns) last = ([], refl, inl refl)
resizes-Reports (woke c ∷ turns) last =
    answer-Reports c.size c.ended c.wants_more last (measured turns) (resizes turns)
      (resizes-Reports turns)
