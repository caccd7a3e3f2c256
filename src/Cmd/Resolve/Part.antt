-- ===== src/Cmd/Resolve/Part.antt =====
-- What a host resolves to.
use et_go.Prelude.{
  ℕ, ◌≡◌, ◌≢◌, ◌⊎◌, inl, inr, refl, sym, ap, ◌∙◌, List, [], ◌∷◌, ◌++◌, Option, none, some, Bytes,
  arith, append_assoc, append-nil, Bool-cases, ==_iff, Option-cases, ◌==◌, concat,
}
use et_go.Strings.{cut_byte, trim_space, lines, onto_line}
use et_go.Strings.Infix.{IsInfix, IsInfix-trans, trim_space-IsInfix}
use et_go.Bootstrap.Command.{Config, ssh_args, option_args, user_args}
use et_go.Cmd.Resolve.{
  query_option, end_of_options, named_value, line_value, or_next, first_value, ssh_config_hostname,
  resolve_args, Ended, well, wait_delay, failed, or_host, by_output, resolve_host,
}

onto_line-concat : (b : ℕ) (ls : List Bytes) → concat (onto_line b ls) ≡ b ∷ concat ls
onto_line-concat b [] = refl
onto_line-concat b (l ∷ ls) = refl

lines-concat : (s : Bytes) → concat (lines s) ≡ s
unfolding lines
lines-concat [] = refl
lines-concat (b ∷ s) = elim (Bool-cases (b == 10)) [
  | inl e ↦ rw e (ap (λ x. b ∷ x) (lines-concat s))
  | inr e ↦ rw e (onto_line-concat b (lines s) ∙ ap (λ x. b ∷ x) (lines-concat s))
]

cut_byte-split : (c : ℕ) (s k v : Bytes) → cut_byte c s ≡ some (k, v) → s ≡ k ++ (c ∷ v)
unfolding cut_byte
cut_byte-split c [] k v h = absurd (ground (arith, h))
cut_byte-split c (b ∷ s) k v h = elim (Bool-cases (b == c)) [
  | inl e ↦ ground (arith, h, e, (==_iff b c).0 e)
  | inr e ↦ elim (Option-cases (cut_byte c s)) [
    | inl n ↦ absurd (ground (arith, h, e, n))
    | inr ((k', v'), n) ↦ ground (arith, h, e, n, cut_byte-split c s k' v' n)
  ]
]

named_value-IsInfix :
    (s h : Bytes) (o : Option (Bytes × Bytes))
    → cut_byte 32 s ≡ o
    → named_value o ≡ some h
    → IsInfix h s
unfolding named_value
named_value-IsInfix s h none c e = absurd (ground (arith, e))
named_value-IsInfix s h (some (key, val)) c e =
    let split = cut_byte-split 32 s key val c in
    let same : h ≡ trim_space val = ground (arith, e) in
    let behind : IsInfix val s = (
      key ++ (32 ∷ []),
      [],
      ground (arith, split, append_assoc key (32 ∷ []) val, append-nil val),
    ) in
    rw same (IsInfix-trans (trim_space val) val s (trim_space-IsInfix val) behind)

-- The value of a hostname line is a part of the line.
line_value-IsInfix : (line h : Bytes) → line_value line ≡ some h → IsInfix h line
unfolding line_value
line_value-IsInfix line h e =
    IsInfix-trans h (trim_space line) line
      (named_value-IsInfix (trim_space line) h (cut_byte 32 (trim_space line)) refl e)
      (trim_space-IsInfix line)

first_value-IsInfix :
    (ls : List Bytes) → (first_value ls ≡ []) ⊎ IsInfix (first_value ls) (concat ls)
unfolding first_value or_next
first_value-IsInfix [] = inl refl
first_value-IsInfix (l ∷ ls) = elim (Option-cases (line_value l)) [
  | inr (h, e) ↦
      let part : IsInfix l (concat (l ∷ ls)) = ([], concat ls, refl) in
      rw (e, first_value)
        (inr (IsInfix-trans h l (concat (l ∷ ls)) (line_value-IsInfix l h e) part))
  | inl e ↦ elim (first_value-IsInfix ls) [
    | inl n ↦ rw (e, first_value) (inl n)
    | inr inside ↦
        let part : IsInfix (concat ls) (concat (l ∷ ls)) =
          (l, [], ap (λ x. l ++ x) (sym (append-nil (concat ls)))) in
        rw (e, first_value)
          (inr (IsInfix-trans (first_value ls) (concat ls) (concat (l ∷ ls)) inside part))
  ]
]

or_host-cases : (host h : Bytes) → (or_host host h ≡ host) ⊎ ((h ≢ []) × (or_host host h ≡ h))
unfolding or_host
or_host-cases host [] = inl refl
or_host-cases host (c ∷ h) = inr ((λ e. cc), refl)

printed-part :
    (host out : Bytes)
    → host ≢ []
    → let h = or_host host (ssh_config_hostname out) in (h ≢ []) × ((h ≡ host) ⊎ IsInfix h out)
printed-part host out ne = elim (or_host-cases host (ssh_config_hostname out)) [
  | inl same ↦ ((λ e. ne (sym same ∙ e)), inl same)
  | inr (some_name, same) ↦ elim (first_value-IsInfix (lines out)) [
    | inl nothing ↦ absurd (some_name nothing)
    | inr (a, c, whole) ↦
        ((λ e. some_name (sym same ∙ e)), inr (rw same (a, c, sym (lines-concat out) ∙ whole)))
  ]
]

by_output-part :
    (r : Ended) (host out : Bytes)
    → host ≢ []
    → (by_output r host out ≢ [])
      × ((by_output r host out ≡ host) ⊎ (IsInfix (by_output r host out) out × (r ≢ failed)))
unfolding by_output
by_output-part failed host out ne = (ne, inl refl)
by_output-part well host out ne = elim (printed-part host out ne).1 [
  | inl same ↦ ((printed-part host out ne).0, inl same)
  | inr inside ↦ ((printed-part host out ne).0, inr (inside, λ e. cc))
]
by_output-part wait_delay host out ne = elim (printed-part host out ne).1 [
  | inl same ↦ ((printed-part host out ne).0, inl same)
  | inr inside ↦ ((printed-part host out ne).0, inr (inside, λ e. cc))
]

-- ssh is asked with the options and the user that the start of the session gives it, both before "--".
-- The answer is the host itself, or a non-empty part of what ssh printed in a run that did not fail, so
-- it is never empty.
pub resolve_host-part :
    (ssh : List Bytes → Ended × Bytes) (cfg : Config) (remote : Bytes)
    → cfg.destination ≢ []
    → let args = resolve_args cfg.user cfg.destination cfg.ssh_options in
      let h = resolve_host ssh cfg.user cfg.destination cfg.ssh_options in
      ((front : List Bytes) × (ssh_args cfg remote
          ≡ front ++ (end_of_options ∷ cfg.destination ∷ remote ∷ []))
        × (args ≡ front ++ (query_option ∷ end_of_options ∷ cfg.destination ∷ [])))
      × ((h ≢ []) × ((h ≡ cfg.destination) ⊎ (IsInfix h (ssh args).1 × ((ssh args).0 ≢ failed))))
unfolding resolve_host ssh_args
resolve_host-part ssh cfg remote ne =
    let args = resolve_args cfg.user cfg.destination cfg.ssh_options in
    (
      (
        option_args cfg.ssh_options ++ user_args cfg.user,
        sym (append_assoc (option_args cfg.ssh_options) (user_args cfg.user) _),
        sym (append_assoc (option_args cfg.ssh_options) (user_args cfg.user) _),
      ),
      by_output-part (ssh args).0 cfg.destination (ssh args).1 ne,
    )
