-- ===== src/Server/Links/Passing.antt =====
-- What one pass of the server's writer makes of the pending frames.
use et_go.Prelude.{
  ℕ, zero, suc, ◌+◌, ◌≤◌, ◌≡◌, ◌⊎◌, inl, inr, refl, sym, ap, ◌∙◌, List, [], ◌∷◌, ◌++◌, Bool, true,
  false, Option, none, Bytes, length, take, drop, arith, take-take, take_add, length-append,
  length-take, Option-cases, ap₂,
}
use et_go.Wire.Stream.{WireErr}
use et_go.Server.{Failure, bad_write, session_over}
use et_go.Server.Links.{Pass, waits, over, wrote, write_each, pass_over, pass_pending}

-- A front of `ys`.
abbrev pub IsFront : List Bytes → List Bytes → Type 0
IsFront xs ys = xs ≡ take (length xs) ys

write_each-IsFront :
    (put : Bytes → Option WireErr) (fs : List Bytes)
    → IsFront (write_each put fs).0 fs × ((write_each put fs).1 ≡ none → (write_each put fs).0 ≡ fs)
unfolding write_each
write_each-IsFront put [] = (refl, λ h. refl)
write_each-IsFront put (f ∷ fs) = ground (arith, write_each-IsFront put fs)

-- What a pass makes of the pending frames.
pub record PassOf (flushed : ℕ) (pending : List Bytes) (ended : Bool) (r : List Bytes × Pass)
    : Type 0 where
  pub front : IsFront r.0 pending
  pub all : (n : ℕ) → r.1 ≡ wrote n → (r.0 ≡ pending) × (n ≡ flushed + length pending)
  pub idle : r.1 ≡ waits → (r.0 ≡ []) × (pending ≡ [])
  pub fails :
      (x : Failure) → r.1 ≡ over x → (x ≡ session_over) ⊎ ((e : WireErr) × (x ≡ bad_write e))
  pub last : r.1 ≡ over session_over → (ended ≡ true) × (pending ≡ []) × (r.0 ≡ [])

pub pass-PassOf :
    (put : Bytes → Option WireErr) (flushed : ℕ) (pending : List Bytes) (ended : Bool)
    → PassOf flushed pending ended (pass_pending put flushed pending ended)
unfolding pass_pending pass_over
pass-PassOf put flushed [] true = record {
  front = refl;
  all = λ n h. absurd (ground (arith, h));
  idle = λ h. (refl, refl);
  fails = λ x h. inl (ground (arith, h));
  last = λ h. (refl, refl, refl);
}
pass-PassOf put flushed [] false = record {
  front = refl;
  all = λ n h. absurd (ground (arith, h));
  idle = λ h. (refl, refl);
  fails = λ x h. absurd (ground (arith, h));
  last = λ h. absurd (ground (arith, h));
}
pass-PassOf put flushed (f ∷ fs) ended =
    let w = write_each-IsFront put (f ∷ fs) in
    record {
      front = ground (arith, w);
      all = λ n h. ground (arith, w, h);
      idle = λ h. absurd (ground (arith, w, h));
      fails = λ x h. elim (Option-cases (write_each put (f ∷ fs)).1) [
        | inl e ↦ absurd (ground (arith, h, e))
        | inr (e, y) ↦ inr (e, ground (arith, h, y))
      ];
      last = λ h. absurd (ground (arith, w, h));
    }

length-IsFront : (xs ys : List Bytes) → IsFront xs ys → length xs ≤ length ys
length-IsFront xs ys h = omega (arith, ap length h, length-take {0} (length xs) ys)

pub IsFront-trans : (xs ys zs : List Bytes) → IsFront xs ys → IsFront ys zs → IsFront xs zs
IsFront-trans xs ys zs a b =
    a ∙ (ap (take (length xs)) b ∙ take-take (length xs) (length ys) zs (length-IsFront xs ys a))

pub IsFront-append :
    (xs ys zs : List Bytes)
    → IsFront xs ys
    → IsFront zs (drop (length xs) ys)
    → IsFront (xs ++ zs) ys
IsFront-append xs ys zs a b =
    ap₂ (λ s t. s ++ t) a b
    ∙ (take_add (length xs) (length zs) ys ∙ ap (λ n. take n ys) (sym (length-append xs zs)))

-- What is pending at a moment is a front of what was not yet flushed.
pub pending-IsFront :
    (n : ℕ) (sent h : List Bytes) → IsFront sent h → IsFront (drop n sent) (drop n h)
pending-IsFront zero sent h a = a
pending-IsFront (suc n) [] h a = refl
pending-IsFront (suc n) (x ∷ sent) [] a = absurd (cc)
pending-IsFront (suc n) (x ∷ sent) (y ∷ h) a = pending-IsFront n sent h (ground (arith, a))

pub Pass-cases :
    (p : Pass) → (p ≡ waits) ⊎ (((e : Failure) × (p ≡ over e)) ⊎ ((n : ℕ) × (p ≡ wrote n)))
Pass-cases waits = inl refl
Pass-cases (over e) = inr (inl (e, refl))
Pass-cases (wrote n) = inr (inr (n, refl))
