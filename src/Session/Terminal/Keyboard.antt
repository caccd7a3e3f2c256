-- ===== src/Session/Terminal/Keyboard.antt =====
-- What the keyboard loop pushes, and how it returns.
use et_go.Prelude.{
  ℕ, List, [], ◌∷◌, false, ◌≡◌, refl, Option, none, some, Bytes, arith, append-nil, concat,
  if◌then◌else◌,
}
use et_go.Session.Escape.{EscapeFilter, filter}
use et_go.Session.Escape.Reading.{filter_reads, escaped, joined, filter_reads-escaped}
use et_go.Session.Terminal.{
  Read, ReadErr, LoopErr, left_session, read, read_err, after_read, pushed,
}

-- The input up to the first read with an error, whose bytes count too.
abbrev pub heard : List Read → List Bytes
heard [] = []
heard (r ∷ rs) = elim r.failed [ none ↦ r.data_read ∷ heard rs | some e ↦ r.data_read ∷ [] ]

-- The error of the first read that has one.
abbrev pub first_err : List Read → Option LoopErr
first_err [] = none
first_err (r ∷ rs) = elim r.failed [ none ↦ first_err rs | some e ↦ some (read_err e) ]

-- The loop and the filter over a list of reads agree.
abbrev Agrees : List Read → EscapeFilter → Type 0
Agrees rs f =
    (concat (read rs f).0 ≡ (filter_reads (heard rs) f).0)
    × ((read rs f).1 ≡ (if (filter_reads (heard rs) f).1 then some left_session else first_err rs))

read_step :
    (src : Bytes) (failed : Option (ReadErr × Option ℕ)) (rs : List Read) (f : EscapeFilter)
    → ((f' : EscapeFilter) → Agrees rs f')
    → Agrees (record { data_read = src; failed = failed } ∷ rs) f
unfolding read after_read pushed
read_step [] none rs f h = unfold filter in h f
read_step [] (some e) rs f h = unfold filter in (refl, refl)
read_step (c ∷ src) none rs f h =
    ground (arith, h (filter (c ∷ src) f).filter_state, append-nil (filter (c ∷ src) f).out)
read_step (c ∷ src) (some e) rs f h = ground (arith, append-nil (filter (c ∷ src) f).out)

read-filter_reads : (rs : List Read) (f : EscapeFilter) → Agrees rs f
unfolding read
read-filter_reads [] f = (refl, refl)
read-filter_reads (r ∷ rs) f = read_step r.data_read r.failed rs f (λ f'. read-filter_reads rs f')

-- However the keyboard input is cut into reads, the loop pushes what the ssh-style escape leaves of the
-- input up to the first failed read. It returns ErrDetached exactly where the escape is in that input,
-- also in the bytes of the failed read, and else the error of that read.
pub read-escaped :
    (rs : List Read)
    → let r = read rs (record { mid_line = false; tilde = false }) in
      let e = escaped false (joined (heard rs)) in
      (concat r.0 ≡ e.0) × (r.1 ≡ (if e.1 then some left_session else first_err rs))
read-escaped rs =
    let same = filter_reads-escaped (heard rs) in
    rw⁻¹ same (read-filter_reads rs (record { mid_line = false; tilde = false }))
