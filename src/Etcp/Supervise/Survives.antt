-- ===== src/Etcp/Supervise/Survives.antt =====
-- A connection survives any number of lost links.
use et_go.Prelude.{
  ℕ, ◌+◌, ◌≡◌, ◌≢◌, ap, ◌∙◌, Option-cases, ltb, ◌⊎◌, inl, inr, refl, List, [], ◌∷◌, ◌++◌, true,
  false, Option, none, some, All, length, arith, if◌then◌else◌, Bool-cases,
}
use et_go.Etcp.Conn.{Err}
use et_go.Etcp.Backoff.{Backoff, reset, next_delay}
use et_go.Etcp.Dialer.{Attempt, Redial, restored, going_on, gave_up, reconnect, connect, is_fatal}
use et_go.Etcp.Dialer.Fatal.{Undecided, reconnect-retries}
use et_go.Etcp.Supervise.{LinkRun, link_up, cancelled, supervise}

-- A lost link that is restored: attempts that decide nothing, and then one that connects.
abbrev pub IsRestored : LinkRun → Type 0
IsRestored l =
    (l.ended ≡ false)
    × ((tries : List (Option Err × Attempt)) × (a : Attempt) × (more : List (Option Err × Attempt))
        × (l.attempts ≡ tries ++ ((none, a) ∷ more))
        × All Undecided tries
        × (connect a ≡ none))

-- What can make a reconnect give up: an interrupt, the end of the Conn during an attempt, or a fatal error.
abbrev pub Decides : (Option Err × Attempt) → Err → Type 0
Decides (interrupt, a) e =
    (interrupt ≡ some e) ⊎ ((connect a ≡ some e) × ((is_fatal e ≡ true) ⊎ (a.ctx ≢ none)))

abbrev pub Some : {A : Type 0} → (A → Type 0) → List A → Type 0
Some P [] = ⊥
Some P (x ∷ xs) = P x ⊎ Some P xs

Redial-cases : (r : Redial) → (r ≡ restored) ⊎ ((r ≡ going_on) ⊎ ((e : Err) × (r ≡ gave_up e)))
Redial-cases restored = inl refl
Redial-cases going_on = inr (inl refl)
Redial-cases (gave_up e) = inr (inr (e, refl))

module _ (jittered : ℕ → ℕ) where
  reconnect-restored :
      (a : Attempt) (more : List (Option Err × Attempt)) (b : Backoff)
      → connect a ≡ none
      → reconnect jittered ((none, a) ∷ more) b ≡ (restored, record b { attempt = b.attempt + 1 })
  unfolding reconnect next_delay
  reconnect-restored a more b h = ground (arith, h)

  -- A wait before an attempt ends in its interrupt, or the attempt is made.
  interrupted :
      (i : Option Err) (a : Attempt) (tries : List (Option Err × Attempt)) (b : Backoff) (e : Err)
      → (reconnect jittered ((i, a) ∷ tries) b).0 ≡ gave_up e
      → (i ≡ some e) ⊎ ((reconnect jittered ((none, a) ∷ tries) b).0 ≡ gave_up e)
  unfolding reconnect
  interrupted none a tries b e h = inr h
  interrupted (some c) a tries b e h = elim (Bool-cases (ltb 0 (next_delay jittered b).0)) [
    | inl waits ↦ inl (ground (arith, h, waits))
    | inr at_once ↦ inr (ground (arith, h, at_once))
  ]

  attempted :
      (a : Attempt) (tries : List (Option Err × Attempt)) (b : Backoff) (e : Err)
      → (reconnect jittered ((none, a) ∷ tries) b).0 ≡ gave_up e
      → Decides (none, a) e ⊎ ((reconnect jittered tries (next_delay jittered b).1).0 ≡ gave_up e)
  unfolding reconnect
  attempted a tries b e h = elim (Option-cases (connect a)) [
    | inl fine ↦ absurd (ground (arith, h, fine))
    | inr (x, failed) ↦ elim (Option-cases a.ctx) [
      | inr (y, over) ↦
          let same : x ≡ e = ground (arith, h, failed, over) in
          inl (inr (failed ∙ ap some same, inr (λ z. ground (arith, over, z))))
      | inl lives ↦ elim (Bool-cases (is_fatal x)) [
        | inl fatal ↦
            let same : x ≡ e = ground (arith, h, failed, lives, fatal) in
            inl (inr (failed ∙ ap some same, inl (ground (arith, fatal, same))))
        | inr minor ↦ inr (ground (arith, h, failed, lives, minor))
      ]
    ]
  ]

  reconnect-gave_up :
      (tries : List (Option Err × Attempt)) (b : Backoff) (e : Err)
      → (reconnect jittered tries b).0 ≡ gave_up e
      → Some (λ x. Decides x e) tries
  reconnect-gave_up [] b e h = absurd (unfold reconnect in ground (arith, h))
  reconnect-gave_up ((i, a) ∷ tries) b e h = elim (interrupted i a tries b e h) [
    | inl cause ↦ inl (inl cause)
    | inr made ↦ elim (attempted a tries b e made) [
      | inl (inl z) ↦ absurd (ground (arith, z))
      | inl (inr why) ↦ inl (inr why)
      | inr later ↦ inr (reconnect-gave_up tries _ e later)
    ]
  ]

  -- Lost links that were each restored, after any number of attempts that decided nothing, leave a link up.
  pub supervise-survives :
      (ls : List LinkRun) (b : Backoff)
      → All IsRestored ls
      → (b' : Backoff) × (supervise jittered ls b ≡ link_up b')
  unfolding supervise
  supervise-survives [] b h = (b, refl)
  supervise-survives (l ∷ ls) b ((alive, (tries, a, more, whole, undecided, connects)), rest) =
      let b₁ = if l.lasted then reset b else b in
      let b₂ : Backoff = record b₁ { attempt = b₁.attempt + length tries } in
      let redialled : reconnect jittered l.attempts b₁
          ≡ (restored, record b₂ { attempt = b₂.attempt + 1 }) =
        ap (λ x. reconnect jittered x b₁) whole
        ∙ (reconnect-retries jittered tries ((none, a) ∷ more) b₁ undecided
            ∙ reconnect-restored a more b₂ connects) in
      let (b', up) = supervise-survives ls (record b₂ { attempt = b₂.attempt + 1 }) rest in
      (b', ground (arith, alive, redialled, up))

  -- The Conn is cancelled only with an error that decided an attempt behind some lost link: an interrupt,
  -- an attempt with a fatal error, or one during which the Conn had ended.
  pub supervise-cancelled :
      (ls : List LinkRun) (b : Backoff) (e : Err)
      → supervise jittered ls b ≡ cancelled e
      → Some (λ l. (l.ended ≡ false) × Some (λ x. Decides x e) l.attempts) ls
  unfolding supervise
  supervise-cancelled [] b e h = absurd (ground (arith, h))
  supervise-cancelled (l ∷ ls) b e h = elim (Bool-cases l.ended) [
    | inl over ↦ absurd (ground (arith, h, over))
    | inr alive ↦
        let r = reconnect jittered l.attempts (if l.lasted then reset b else b) in
        elim (Redial-cases r.0) [
          | inl e' ↦ inr (supervise-cancelled ls r.1 e (ground (arith, h, alive, e')))
          | inr (inl e') ↦ absurd (ground (arith, h, alive, e'))
          | inr (inr (x, e')) ↦ inl (
            alive,
            reconnect-gave_up l.attempts (if l.lasted then reset b else b) e
                (ground (arith, h, alive, e')),
          )
        ]
  ]
