-- ===== src/Strings/Infix.antt =====
-- Parts of a string, and what they cannot hold.
use et_go.Prelude.{
  ℕ, zero, suc, ◌≡◌, refl, ap, sym, ◌∙◌, inl, inr, List, [], ◌∷◌, ◌++◌, true, false, some, Bytes,
  length, arith, append_assoc, append-nil, Option-cases, Bool-cases,
}
use et_go.Strings.Laws.{cut_prefix-whole}
use et_go.Strings.{
  cut_prefix, cut, contains, is_some, before, cut_space, trim_front, trim_space, reversed,
  reversed_all, spaces,
}

-- `e` is a part of `s`.
abbrev pub IsInfix : Bytes → Bytes → Type 0
IsInfix e s = (a : Bytes) × (c : Bytes) × (s ≡ a ++ (e ++ c))

pub IsInfix-refl : (s : Bytes) → IsInfix s s
IsInfix-refl s = ([], [], sym (append-nil s))

pub IsInfix-trans : (d e s : Bytes) → IsInfix d e → IsInfix e s → IsInfix d s
IsInfix-trans d e s (a, c, h) (a', c', h') = (
  a' ++ a,
  c ++ c',
  h'
      ∙ ap (λ x. a' ++ (x ++ c')) h
      ∙ ground (
        arith,
        append_assoc a' a (d ++ (c ++ c')),
        append_assoc a (d ++ c) c',
        append_assoc d c c',
      ),
)

cut_prefix-append :
    (p s c r : Bytes) → cut_prefix p s ≡ some r → cut_prefix p (s ++ c) ≡ some (r ++ c)
unfolding cut_prefix
cut_prefix-append [] s c r h = ground (arith, h)
cut_prefix-append (x ∷ p) [] c r h = absurd (ground (arith, h))
cut_prefix-append (x ∷ p) (y ∷ s) c r h = ground (arith, h, cut_prefix-append p s c r)

cut_prefix-some :
    (p s c : Bytes) → is_some (cut_prefix p s) ≡ true → is_some (cut_prefix p (s ++ c)) ≡ true
cut_prefix-some p s c h = elim (Option-cases (cut_prefix p s)) [
  | inl e ↦ absurd (ground (arith, h, e))
  | inr (r, e) ↦ rw (cut_prefix-append p s c r e) refl
]

contains-go : (p : Bytes) (b : ℕ) (s : Bytes) → contains s p ≡ true → contains (b ∷ s) p ≡ true
unfolding cut
contains-go p b s h = elim (Option-cases (cut_prefix p (b ∷ s))) [
  | inl e ↦ ground (arith, e, h)
  | inr (r, e) ↦ ground (arith, e)
]

contains-here : (p s : Bytes) → is_some (cut_prefix p s) ≡ true → contains s p ≡ true
unfolding cut
contains-here p [] h = h
contains-here p (b ∷ s) h = ground (arith, h)

contains-right : (p s c : Bytes) → contains s p ≡ true → contains (s ++ c) p ≡ true
contains-right p [] c h = contains-here p c (cut_prefix-some p [] c (unfold cut in h))
contains-right p (b ∷ s) c h = elim (Bool-cases (is_some (cut_prefix p (b ∷ s)))) [
  | inl e ↦ contains-here p (b ∷ (s ++ c)) (cut_prefix-some p (b ∷ s) c e)
  | inr e ↦
      let later : contains s p ≡ true = unfold cut in ground (arith, h, e) in
      contains-go p b (s ++ c) (contains-right p s c later)
]

contains-left : (p a s : Bytes) → contains s p ≡ true → contains (a ++ s) p ≡ true
contains-left p [] s h = h
contains-left p (b ∷ a) s h = contains-go p b (a ++ s) (contains-left p a s h)

-- What a string does not hold, no part of it does.
pub contains-IsInfix : (p e s : Bytes) → IsInfix e s → contains s p ≡ false → contains e p ≡ false
contains-IsInfix p e s (a, c, h) n = elim (Bool-cases (contains e p)) [
  | inr absent ↦ absent
  | inl held ↦
      let all : contains s p ≡ true =
        rw h (contains-left p a (e ++ c) (contains-right p e c held)) in
      absurd (ground (arith, all, n))
]

cut_space-suffix :
    (sps : List Bytes) (s rest : Bytes)
    → cut_space sps s ≡ some rest
    → (a : Bytes) × (s ≡ a ++ rest)
unfolding cut_space
cut_space-suffix [] s rest h = absurd (ground (arith, h))
cut_space-suffix (sp ∷ sps) s rest h = elim (Option-cases (cut_prefix sp s)) [
  | inl e ↦ cut_space-suffix sps s rest (ground (arith, h, e))
  | inr (r, e) ↦ (sp, ground (arith, h, e, cut_prefix-whole sp s r e))
]

trim_front-suffix :
    (sps : List Bytes) (n : ℕ) (s : Bytes) → (a : Bytes) × (s ≡ a ++ trim_front sps n s)
unfolding trim_front
trim_front-suffix sps zero s = ([], refl)
trim_front-suffix sps (suc n) s = elim (Option-cases (cut_space sps s)) [
  | inl e ↦ rw (e, trim_front) ([], refl)
  | inr (r, e) ↦
      let (a, whole) = cut_space-suffix sps s r e in
      let (b, more) = trim_front-suffix sps n r in
      rw (e, trim_front)
        (a ++ b, whole ∙ ap (λ x. a ++ x) more ∙ sym (append_assoc a b (trim_front sps n r)))
]

reversed-append : (a b : Bytes) → reversed (a ++ b) ≡ reversed b ++ reversed a
reversed-append [] b = sym (append-nil (reversed b))
reversed-append (x ∷ a) b =
    ap (λ y. y ++ (x ∷ [])) (reversed-append a b) ∙ append_assoc (reversed b) (reversed a) (x ∷ [])

reversed_twice : (s : Bytes) → reversed (reversed s) ≡ s
reversed_twice [] = refl
reversed_twice (x ∷ s) = reversed-append (reversed s) (x ∷ []) ∙ ap (λ y. x ∷ y) (reversed_twice s)

-- Trimming leaves a part.
pub trim_space-IsInfix : (s : Bytes) → IsInfix (trim_space s) s
unfolding trim_space
trim_space-IsInfix s =
    let t = trim_front spaces (length s) s in
    let (a, front) = trim_front-suffix spaces (length s) s in
    let u = trim_front (reversed_all spaces) (length s) (reversed t) in
    let (c, back) = trim_front-suffix (reversed_all spaces) (length s) (reversed t) in
    let whole : t ≡ reversed u ++ reversed c =
      sym (reversed_twice t) ∙ ap reversed back ∙ reversed-append c u in
    (a, reversed c, front ∙ ap (λ x. a ++ x) whole)

-- What is before a separator is a part.
pub before-IsInfix : (sep s : Bytes) → (c : Bytes) × (s ≡ before sep s ++ c)
unfolding before
before-IsInfix sep [] = ([], refl)
before-IsInfix sep (b ∷ s) = elim (Bool-cases (is_some (cut_prefix sep (b ∷ s)))) [
  | inl e ↦ rw e (b ∷ s, refl)
  | inr e ↦ let (c, whole) = before-IsInfix sep s in rw e (c, ap (λ x. b ∷ x) whole)
]
