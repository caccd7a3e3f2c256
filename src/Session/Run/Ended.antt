-- ===== src/Session/Run/Ended.antt =====
-- When a session has ended, and what its run returns.
use et_go.Prelude.{
  ◌≡◌, ◌≢◌, ◌⊎◌, ℤ, inl, inr, refl, List, [], ◌∷◌, ◌++◌, Bool, true, false, Option, none, some, All,
  arith,
}
use et_go.Session.Router.{built, new_router, add_headers, RouterErr, ended, exit_error}
use et_go.Session.Terminal.{left_session}
use et_go.Session.Run.{
  Cause, SessionErr, Wait, from_router, from_loop, exited, detached, not_built, other_cause,
  closed_terminal, joined_group, joined_reader, first_cause, result, service_headers, waits,
  running, returned, returns, started, run_session,
}

-- The first of the ends with a cause.
abbrev pub FirstCause : List (Option Cause) → Cause → Type 0
FirstCause ends c =
    (before : List (Option Cause)) × (more : List (Option Cause)) × (ends
      ≡ before ++ (some c ∷ more))
    × All (λ e. e ≡ none) before

first_cause-FirstCause :
    (ends : List (Option Cause))
    → ((first_cause ends ≡ none) × All (λ e. e ≡ none) ends)
      ⊎ ((c : Cause) × (first_cause ends ≡ some c) × FirstCause ends c)
unfolding first_cause
first_cause-FirstCause [] = inl (refl, tt)
first_cause-FirstCause (some c ∷ ends) = inr (c, refl, ([], ends, refl, tt))
first_cause-FirstCause (none ∷ ends) = elim (first_cause-FirstCause ends) [
  | inl (e, all) ↦ inl (e, (refl, all))
  | inr (c, e, (before, more, whole, all)) ↦
      inr (c, e, (none ∷ before, more, ground (arith, whole), (refl, all)))
]

services_built :
    (terminal : Bool) → (routes : _) × (new_router (service_headers terminal) ≡ built routes)
unfolding new_router add_headers
services_built true = (_, refl)
services_built false = (_, refl)

-- What `Run` returned for the first cause: nil for the router's normal end and for nothing else, an
-- ExitError for the status and ErrDetached for the escape and for nothing else, and any other cause
-- itself.
pub record Reports (c : Cause) (e : Option SessionErr) : Type 0 where
  pub normal : ((e ≡ none) → (c ≡ from_router ended)) × ((c ≡ from_router ended) → (e ≡ none))
  pub status :
      (code : ℤ)
      → ((e ≡ some (exited code)) → (c ≡ from_router (exit_error code)))
        × ((c ≡ from_router (exit_error code)) → (e ≡ some (exited code)))
  pub escape :
      ((e ≡ some detached) → (c ≡ from_loop left_session))
      × ((c ≡ from_loop left_session) → (e ≡ some detached))
  pub no_router_error : (x : RouterErr) → e ≢ some (not_built x)
  pub other : (d : Cause) → e ≡ some (other_cause d) → d ≡ c

result-Reports : (c : Cause) → Reports c (result c)
result-Reports c = record {
  normal = (λ h. ground (arith, h), λ h. ground (arith, h));
  status = λ code. (λ h. ground (arith, h), λ h. ground (arith, h));
  escape = (λ h. ground (arith, h), λ h. ground (arith, h));
  no_router_error = λ x h. ground (arith, h);
  other = λ d h. ground (arith, h);
}

-- What `Run` did before it returned: without a terminal the group was joined. With one it was closed
-- first, then the group joined and then the reader, but for a reader that a failed Close may have left
-- blocked.
abbrev pub Leaves : Bool → Bool → Bool → List Wait → Type 0
Leaves false close_failed strands ws = ws ≡ joined_group ∷ []
Leaves true close_failed strands ws =
    (more : List Wait) × (ws ≡ closed_terminal ∷ joined_group ∷ more)
    × ((more ≡ joined_reader ∷ []) ⊎ ((more ≡ []) × (close_failed ≡ true) × (strands ≡ true)))

waits-Leaves :
    (terminal close_failed strands : Bool)
    → Leaves terminal close_failed strands (waits terminal close_failed strands)
waits-Leaves false close_failed strands = refl
waits-Leaves true false strands = (_, refl, inl refl)
waits-Leaves true true false = (_, refl, inl refl)
waits-Leaves true true true = (_, refl, inr (refl, refl, refl))

-- A session runs exactly for as long as no goroutine returned an error and the caller's context lasts.
-- Then it returns by the first of these causes: nil exactly for a normal end without a status, an
-- ExitError exactly for a status, ErrDetached exactly for the escape, and else that cause. Before that it
-- closes the terminal, if there is one, and joins all goroutines, but for the reader of a terminal whose
-- Close failed where a failed Close may leave it blocked.
pub run_session-ends :
    (terminal close_failed strands : Bool) (ends : List (Option Cause))
    → ((run_session terminal close_failed strands ends ≡ running) × All (λ e. e ≡ none) ends)
      ⊎ ((c : Cause) × (e : Option SessionErr) × (ws : List Wait) × FirstCause ends c
          × (run_session terminal close_failed strands ends ≡ returned e ws)
          × Reports c e
          × Leaves terminal close_failed strands ws)
unfolding run_session returns started
run_session-ends terminal close_failed strands ends =
    let (routes, e) = services_built terminal in
    elim (first_cause-FirstCause ends) [
      | inl (n, all) ↦ inl (ground (arith, e, n), all)
      | inr (c, n, first) ↦ inr (
        c,
        result c,
        waits terminal close_failed strands,
        first,
        ground (arith, e, n),
        result-Reports c,
        waits-Leaves terminal close_failed strands,
      )
    ]
