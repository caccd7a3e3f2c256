-- ===== src/Server/Downstream/Carrying.antt =====
-- What a link carries: the piece of the server's packets between the client's count and its writer.
use et_go.Prelude.{
  ℕ, ◌+◌, ◌≤◌, ◌≡◌, sym, ap, ◌∙◌, List, [], ◌∷◌, ◌++◌, length, take, drop, arith, length-append,
  take-append_le, drop-append_le, take_add, drop-drop, length-take, length-drop, take_all,
}

module _ {A : Type 0} where
  abbrev pub Carries : List A → ℕ → List A → ℕ → Type 0
  Carries xs r link f =
      (r + length link ≡ f) × (f ≤ length xs) × (link ≡ take (length link) (drop r xs))

  pub Carries-at :
      (xs : List A) (r : ℕ) {link link' : List A} (f : ℕ)
      → link ≡ link'
      → Carries xs r link f
      → Carries xs r link' f
  Carries-at xs r f e c = rw (← e) c

  pub Carries-grows :
      (xs ys : List A) (r : ℕ) (link : List A) (f : ℕ)
      → Carries xs r link f
      → Carries (xs ++ ys) r link f
  Carries-grows xs ys r link f (a, b, c) = (
    a,
    omega (arith, length-append xs ys),
    c
        ∙ (sym (take-append_le (length link) (drop r xs) ys (omega (arith, length-drop r xs)))
            ∙ ap (take (length link)) (sym (drop-append_le r xs ys (omega arith)))),
  )

  pub Carries-writes :
      (xs : List A) (r : ℕ) (link : List A) (f n : ℕ)
      → f + n ≤ length xs
      → Carries xs r link f
      → Carries xs r (link ++ take n (drop f xs)) (f + n)
  Carries-writes xs r link f n h (a, b, c) =
      let l : length (link ++ take n (drop f xs)) ≡ length link + n = omega (
        arith,
        length-append link (take n (drop f xs)),
        length-take n (drop f xs),
        length-drop f xs,
      ) in
      (
        omega arith,
        h,
        ap (λ ys. ys ++ take n (drop f xs)) c
            ∙ (ap (λ ys. take (length link) (drop r xs) ++ take n ys)
                  (ap (λ k. drop k xs) (sym a) ∙ sym (drop-drop (length link) r xs))
                ∙ (take_add (length link) n (drop r xs) ∙ ap (λ k. take k (drop r xs)) (sym l))),
      )

  pub Carries-resumes : (xs : List A) (r : ℕ) → r ≤ length xs → Carries xs r (drop r xs) (length xs)
  Carries-resumes xs r h = (
    omega (arith, length-drop r xs),
    omega arith,
    sym (take_all (length (drop r xs)) (drop r xs) (omega arith)),
  )

  -- The head of what a link carries is the element at `r`.
  pub Carries-head :
      (xs : List A) (r : ℕ) (x : A) (rest : List A) (f : ℕ) (y : A) (more : List A)
      → Carries xs r (x ∷ rest) f
      → drop r xs ≡ y ∷ more
      → (x ≡ y) × Carries xs (r + 1) rest f
  Carries-head xs r x rest f y more (a, b, c) e =
      let same : x ∷ rest ≡ y ∷ take (length rest) more = c ∙ ap (take (length (x ∷ rest))) e in
      let next : drop (r + 1) xs ≡ more = sym (drop-drop 1 r xs) ∙ ap (drop 1) e in
      (ground (arith, same), (omega arith, b, ground (arith, same, next)))

  pub Carries-more :
      (xs : List A) (r : ℕ) (x : A) (rest : List A) (f : ℕ)
      → Carries xs r (x ∷ rest) f
      → r + 1 ≤ length xs
  Carries-more xs r x rest f (a, b, c) = omega arith

  -- The element at the head of what is left joins what came before.
  pub take_next :
      (r : ℕ) (xs : List A) (x : A) (rest : List A)
      → drop r xs ≡ x ∷ rest
      → take (r + 1) xs ≡ take r xs ++ (x ∷ [])
  take_next r xs x rest e = sym (take_add r 1 xs) ∙ ap (λ ys. take r xs ++ take 1 ys) e
