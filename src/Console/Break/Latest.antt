-- ===== src/Console/Break/Latest.antt =====
-- Ctrl+Break calls the latest function.
use et_go.Prelude.{
  ℕ, ◌≡◌, ◌≤◌, ◌⊎◌, inl, inr, refl, List, [], ◌∷◌, Bool, true, false, Option, none, some, length,
  arith, if◌then◌else◌,
}
use et_go.Console.Break.{
  Handlers, no_handlers, on_break, CtrlEvent, ctrl_c, ctrl_break, ctrl_close, ctrl_logoff,
  ctrl_shutdown, ctrl_handler, raise_event,
}

-- The calls of OnBreak one after the other, each with the answer that an installation would get.
abbrev pub on_breaks : List (Bool × Option ℕ) → Handlers → Handlers
on_breaks [] h = h
on_breaks ((answer, f) ∷ calls) h = on_breaks calls (on_break answer f h)

-- What the last call gave.
abbrev pub last_of : Option ℕ → List (Bool × Option ℕ) → Option ℕ
last_of f [] = f
last_of f ((answer, g) ∷ calls) = last_of g calls

-- The answer of the first call that gave a function.
abbrev pub first_answer : List (Bool × Option ℕ) → Bool
first_answer [] = false
first_answer ((answer, none) ∷ calls) = first_answer calls
first_answer ((answer, some f) ∷ calls) = answer

-- What an installed handler does.
abbrev pub handled : Option ℕ → Bool × Option ℕ
handled none = (false, none)
handled (some f) = (true, some f)

break_func-last :
    (calls : List (Bool × Option ℕ)) (h : Handlers)
    → (on_breaks calls h).break_func ≡ last_of h.break_func calls
unfolding on_break
break_func-last [] h = refl
break_func-last ((answer, none) ∷ calls) h = break_func-last calls _
break_func-last ((answer, some f) ∷ calls) h =
    ground (arith, break_func-last calls (on_break answer (some f) h))

-- Once the handler was asked for, it is not asked for again.
installs-once :
    (calls : List (Bool × Option ℕ)) (h : Handlers)
    → h.once ≡ true
    → (on_breaks calls h).installs ≡ h.installs
unfolding on_break
installs-once [] h e = refl
installs-once ((answer, none) ∷ calls) h e = installs-once calls (on_break answer none h) e
installs-once ((answer, some f) ∷ calls) h e =
    ground (arith, e, installs-once calls (on_break answer (some f) h))

-- Nothing was asked for yet.
installs-first :
    (calls : List (Bool × Option ℕ)) (h : Handlers)
    → h.once ≡ false
    → h.installs ≡ []
    → ((on_breaks calls h).installs ≡ first_answer calls ∷ [])
      ⊎ (((on_breaks calls h).installs ≡ []) × (first_answer calls ≡ false))
unfolding on_break
installs-first [] h e n = inr (n, refl)
installs-first ((answer, none) ∷ calls) h e n = installs-first calls (on_break answer none h) e n
installs-first ((answer, some f) ∷ calls) h e n =
    inl (ground (arith, e, n, installs-once calls (on_break answer (some f) h)))

abbrev pub is_break : CtrlEvent → Bool
is_break ctrl_break = true
is_break e = false

raise_event-cases :
    (e : CtrlEvent) (h : Handlers)
    → raise_event e h ≡ (if is_break e then raise_event ctrl_break h else (false, none))
unfolding raise_event ctrl_handler
raise_event-cases ctrl_break h = refl
raise_event-cases ctrl_c h = ground arith
raise_event-cases ctrl_close h = ground arith
raise_event-cases ctrl_logoff h = ground arith
raise_event-cases ctrl_shutdown h = ground arith

break-handled :
    (calls : List (Bool × Option ℕ))
    → raise_event ctrl_break (on_breaks calls no_handlers)
      ≡ (if first_answer calls then handled (last_of none calls) else (false, none))
unfolding raise_event ctrl_handler
break-handled calls =
    ground (arith, installs-first calls no_handlers refl refl, break_func-last calls no_handlers)

-- After any calls of OnBreak, Ctrl+Break calls exactly the function of the last one, and is left to the
-- next handler where that was nil or where the system refused the installation, which is asked for at
-- most once, by the first call with a function. Every other event is left to the next handler.
pub ctrl_break-latest :
    (calls : List (Bool × Option ℕ)) (e : CtrlEvent)
    → (length (on_breaks calls no_handlers).installs ≤ 1)
      × (raise_event e (on_breaks calls no_handlers) ≡ (
          if is_break e
          then (if first_answer calls then handled (last_of none calls) else (false, none))
          else (false, none)))
ctrl_break-latest calls e = (
  ground (arith, installs-first calls no_handlers refl refl),
  rw (raise_event-cases e (on_breaks calls no_handlers), break-handled calls) refl,
)
