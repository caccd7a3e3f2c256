-- ===== src/Etcp/Dialer/Fatal.antt =====
-- Which ends a connection and which only costs another attempt.
use et_go.Prelude.{
  ℕ, ◌+◌, ◌≡◌, ◌≢◌, ◌⊎◌, inl, inr, refl, ap, List, [], ◌∷◌, ◌++◌, Bool, true, false, Option, none,
  some, length, arith, All,
}
use et_go.Wire.Stream.{ok}
use et_go.Etcp.Backoff.{Backoff, next_delay}
use et_go.Etcp.Conn.{Err, session_ended, version_mismatch, rejected}
use et_go.Etcp.Dialer.{
  Status, new_client, returning_client, fresh, recovering, turned_away, invalid_key,
  mismatched_protocol, unknown, handshake, is_fatal, connect, Attempt, reconnect, going_on,
}

-- On the first connect the server starts a session exactly by NEW_CLIENT, and on a redial it resumes
-- one exactly by RETURNING_CLIENT (which on the first connect resumes an empty one). Every other
-- answer that arrives is final: it ends the connection rather than costing another attempt.
pub handshake-decides :
    (first : Bool) (status : Status)
    → let g = handshake first none (ok status) in
      ((g ≡ fresh) × (first ≡ true) × (status ≡ new_client))
      ⊎ (((g ≡ recovering) × (status ≡ returning_client))
          ⊎ ((e : Err) × (g ≡ turned_away e)
              × (is_fatal e ≡ true)
              × (status ≢ returning_client)
              × ((first ≡ true) → (status ≢ new_client))))
unfolding handshake is_fatal
handshake-decides true new_client = inl (refl, refl, refl)
handshake-decides false new_client =
    inr (inr (rejected, refl, refl, (λ h. cc), λ h. absurd (ground arith)))
handshake-decides first returning_client = inr (inl (refl, refl))
handshake-decides true invalid_key = inr (inr (rejected, refl, refl, (λ h. cc), λ h k. cc))
handshake-decides false invalid_key = inr (inr (session_ended, refl, refl, (λ h. cc), λ h k. cc))
handshake-decides first mismatched_protocol =
    inr (inr (version_mismatch, refl, refl, (λ h. cc), λ h k. cc))
handshake-decides first (unknown n) = inr (inr (rejected, refl, refl, (λ h. cc), λ h k. cc))

-- An attempt that decides nothing: no context ended, and the error is not fatal.
abbrev pub Undecided : Option Err × Attempt → Type 0
Undecided (interrupt, a) =
    (interrupt ≡ none) × (a.ctx ≡ none) × ((e : Err) × (connect a ≡ some e) × (is_fatal e ≡ false))

module _ (jittered : ℕ → ℕ) where
  -- `reconnect` tries again after every attempt that decides nothing, with the backoff one step on.
  pub reconnect-retries :
      (tries rest : List (Option Err × Attempt)) (b : Backoff)
      → All Undecided tries
      → reconnect jittered (tries ++ rest) b
        ≡ reconnect jittered rest (record b { attempt = b.attempt + length tries })
  unfolding reconnect next_delay
  reconnect-retries [] rest b h = ap (reconnect jittered rest) (ground arith)
  reconnect-retries ((i, a) ∷ tries) rest b (h, hs) =
      let (e, failed, minor) = h.2 in
      ground (
        arith,
        h.0,
        h.1,
        failed,
        minor,
        reconnect-retries tries rest (record b { attempt = b.attempt + 1 }) hs,
      )

  -- `reconnect` comes to a decision at an attempt that connects, whose error is fatal, or during which
  -- the connection's context has ended.
  pub reconnect-stops :
      (i : Option Err) (a : Attempt) (rest : List (Option Err × Attempt)) (b : Backoff)
      → (connect a ≡ none)
        ⊎ ((e : Err) × (connect a ≡ some e) × ((is_fatal e ≡ true) ⊎ (a.ctx ≢ none)))
      → (reconnect jittered ((i, a) ∷ rest) b).0 ≢ going_on
  unfolding reconnect
  reconnect-stops i a rest b (inl e) = ground (arith, e)
  reconnect-stops i a rest b (inr (e, failed, why)) = ground (arith, failed, why)
