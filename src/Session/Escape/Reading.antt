-- ===== src/Session/Escape/Reading.antt =====
-- What the filter makes of the whole input, however it is cut into reads.
use et_go.Prelude.{
  List, [], ◌∷◌, ◌++◌, ℕ, ◌≡◌, refl, Bool, true, false, not, ◌||◌, ◌&&◌, Bytes, ◌==◌, if◌then◌else◌,
  inl, inr, arith, append_assoc, ◌≤◌, length, zero, suc, ◌∙◌, ◌⊎◌,
}
use et_go.Session.Escape.{
  EscapeFilter, filter, filter_byte, detached, sends, ByteResult, tilde_byte, dot_byte, is_newline,
}

-- The reads of the keyboard loop: each goes through the filter until one ends in the escape.
abbrev pub filter_reads : List Bytes → EscapeFilter → Bytes × Bool
filter_reads [] f = ([], false)
filter_reads (src ∷ more) f =
    let r = filter src f in
    let rest = filter_reads more r.filter_state in
    if r.detach then (r.out, true) else (r.out ++ rest.0, rest.1)

abbrev pub joined : List Bytes → Bytes
joined [] = []
joined (b ∷ bs) = b ++ joined bs

-- The ssh-style escape on a whole input, with no state: at the start of a line a tilde is read with the
-- byte behind it. `started` says that the line has begun.
abbrev pub escaped : Bool → Bytes → Bytes × Bool
escaped started [] = ([], false)
escaped started (b ∷ []) = if not started && b == tilde_byte then ([], false) else (b ∷ [], false)
escaped started (b ∷ (d ∷ src)) =
    let plain = escaped (not (is_newline b)) (d ∷ src) in
    let one = escaped true src in
    let both = escaped (not (is_newline d)) src in
    if not started && b == tilde_byte
    then if d == dot_byte
      then ([], true)
      else if d == tilde_byte
      then (tilde_byte ∷ one.0, one.1)
      else (tilde_byte ∷ (d ∷ both.0), both.1)
    else (b ∷ plain.0, plain.1)

ByteResult-cases :
    (r : ByteResult) → (r ≡ detached) ⊎ ((bs : Bytes) × (f : EscapeFilter) × (r ≡ sends bs f))
ByteResult-cases detached = inl refl
ByteResult-cases (sends bs f) = inr (bs, f, refl)

filter-stop :
    (b : ℕ) (src : Bytes) (f : EscapeFilter)
    → filter_byte b f ≡ detached
    → filter (b ∷ src) f
      ≡ record { out = []; detach = true; filter_state = record f { tilde = false } }
unfolding filter
filter-stop b src f e = ground (arith, e)

filter-go :
    (b : ℕ) (src : Bytes) (f : EscapeFilter) (bs : Bytes) (f' : EscapeFilter)
    → filter_byte b f ≡ sends bs f'
    → let r = filter src f' in
      filter (b ∷ src) f
      ≡ record { out = bs ++ r.out; detach = r.detach; filter_state = r.filter_state }
unfolding filter
filter-go b src f bs f' e = ground (arith, e)

-- A read is what the filter makes of it, and the next read goes on where it stopped.
filter-append :
    (a b : Bytes) (f : EscapeFilter)
    → let r = filter a f in
      let s = filter b r.filter_state in
      ((filter (a ++ b) f).out ≡ (if r.detach then r.out else r.out ++ s.out))
      × ((filter (a ++ b) f).detach ≡ (r.detach || s.detach))
filter-append [] b f = unfold filter in (refl, refl)
filter-append (x ∷ a) b f = elim (ByteResult-cases (filter_byte x f)) [
  | inl e ↦ rw (filter-stop x a f e) (rw (filter-stop x (a ++ b) f e) (refl, refl))
  | inr (bs, f', e) ↦ rw (filter-go x a f bs f' e) (
      rw (filter-go x (a ++ b) f bs f' e) (
        ground (
          arith,
          filter-append a b f',
          append_assoc bs (filter a f').out (filter b (filter a f').filter_state).out,
        )))
]

-- With no tilde held, a read is the escape on the whole of it.
filter-escaped :
    (n : ℕ) (src : Bytes) (started : Bool)
    → length src ≤ n
    → let r = filter src (record { mid_line = started; tilde = false }) in
      (r.out, r.detach) ≡ escaped started src
unfolding filter filter_byte
filter-escaped n [] started h = refl
filter-escaped n (b ∷ []) started h = ground arith
filter-escaped zero (b ∷ (d ∷ src)) started h = absurd (omega arith)
filter-escaped (suc n) (b ∷ (d ∷ src)) started h = ground (
  arith,
  h,
  filter-escaped n (d ∷ src) (not (is_newline b)),
  filter-escaped n src true,
  filter-escaped n src (not (is_newline d)),
)

-- The reads together come to what the filter makes of the joined input.
filter_reads-joined :
    (reads : List Bytes) (f : EscapeFilter)
    → filter_reads reads f ≡ ((filter (joined reads) f).out, (filter (joined reads) f).detach)
filter_reads-joined [] f = unfold filter in refl
filter_reads-joined (a ∷ reads) f =
    ground
      (arith, filter-append a (joined reads) f, filter_reads-joined reads (filter a f).filter_state)

-- However the keyboard input is cut into reads, what is sent and whether the session is left are those
-- of the ssh-style escape on the whole input.
pub filter_reads-escaped :
    (reads : List Bytes)
    → filter_reads reads (record { mid_line = false; tilde = false }) ≡ escaped false (joined reads)
filter_reads-escaped reads =
    filter_reads-joined reads _
    ∙ filter-escaped (length (joined reads)) (joined reads) false (omega arith)
