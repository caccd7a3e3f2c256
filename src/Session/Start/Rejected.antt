-- ===== src/Session/Start/Rejected.antt =====
-- When a start succeeds, and what a rejection quotes.
use et_go.Prelude.{
  ℕ, zero, suc, ◌≤◌, ◌≡◌, ◌↔◌, inl, inr, refl, [], ◌∷◌, true, false, Option, none, some, Bytes,
  length, take, drop, ltb, ◌==◌, arith, length-append, length-take, length-drop, Bool-cases,
}
use et_go.Protocol.{Packet, header_initial_response}
use et_go.Unicode.{decode_rune}
use et_go.Session.Start.{
  max_reject_text, start_rejected, Reply, got_reply, no_reply, valid_text, to_valid_utf8,
  reject_text, by_text, start,
}

-- What is kept is no longer than the text.
valid_text-length : (n : ℕ) (s : Bytes) → length (valid_text n s) ≤ length s
unfolding valid_text
valid_text-length zero s = omega arith
valid_text-length (suc n) s =
    let size = (decode_rune s).1 in
    grind (
      arith,
      valid_text-length n (drop size s),
      length-take size s,
      length-drop size s,
      length-append (take size s) (valid_text n (drop size s)),
    )

reject_text-length : (msg : Bytes) → length (reject_text msg) ≤ max_reject_text
unfolding reject_text to_valid_utf8
reject_text-length msg = elim (Bool-cases (ltb max_reject_text (length msg))) [
  | inl e ↦ rw e (
      omega (
        arith,
        valid_text-length (length (take max_reject_text msg)) (take max_reject_text msg),
        length-take max_reject_text msg,
      ))
  | inr e ↦ rw e (ground (arith, e))
]

by_text-none : (o : Option Bytes) → by_text o ≡ none → o ≡ some []
unfolding by_text
by_text-none none h = absurd (ground (arith, h))
by_text-none (some []) h = refl
by_text-none (some (c ∷ msg)) h = absurd (ground (arith, h))

by_text-rejected :
    (o : Option Bytes) (text : Bytes)
    → by_text o ≡ some (start_rejected text)
    → (c : ℕ) × (msg : Bytes) × (o ≡ some (c ∷ msg)) × (text ≡ reject_text (c ∷ msg))
unfolding by_text
by_text-rejected none text h = absurd (ground (arith, h))
by_text-rejected (some []) text h = absurd (ground (arith, h))
by_text-rejected (some (c ∷ msg)) text h = (c, msg, refl, ground (arith, h))

-- `Start` succeeds exactly when INITIAL_PAYLOAD was written and an INITIAL_RESPONSE without an error text
-- came back.
pub start-accepts :
    (payload : Option Bytes) (unmarshal : Bytes → Option Bytes) (written : Option ℕ) (reply : Reply)
    → ((start payload unmarshal written reply).0 ≡ none) ↔ (
        (b : Bytes) × (p : Packet) × (payload ≡ some b)
        × (written ≡ none)
        × (reply ≡ got_reply p)
        × (p.header ≡ header_initial_response)
        × (unmarshal p.payload ≡ some []))
unfolding start
start-accepts none unmarshal written reply =
    ((λ h. absurd (ground (arith, h))), (λ x. absurd (ground (arith, x.2))))
start-accepts (some b) unmarshal (some e) reply =
    ((λ h. absurd (ground (arith, h))), (λ x. absurd (ground (arith, x.3))))
start-accepts (some b) unmarshal none (no_reply true e) =
    ((λ h. absurd (ground (arith, h))), (λ x. absurd (ground (arith, x.4))))
start-accepts (some b) unmarshal none (no_reply false e) =
    ((λ h. absurd (ground (arith, h))), (λ x. absurd (ground (arith, x.4))))
start-accepts (some b) unmarshal none (got_reply p) =
    elim (Bool-cases (p.header == header_initial_response)) [
      | inl e ↦ (
        (λ h. (
          b,
          p,
          refl,
          refl,
          refl,
          ground (arith, e),
          by_text-none (unmarshal p.payload) (ground (arith, h, e)),
        )),
        (λ x. ground (arith, x.4, x.5, x.6)),
      )
      | inr e ↦ ((λ h. absurd (ground (arith, h, e))), (λ x. absurd (ground (arith, e, x.4, x.5))))
    ]

-- A rejection comes from a response with an error text, and quotes at most 256 bytes of it, whatever the
-- peer sent.
pub start-rejects :
    (payload : Option Bytes) (unmarshal : Bytes → Option Bytes) (written : Option ℕ) (reply : Reply)
    (text : Bytes)
    → (start payload unmarshal written reply).0 ≡ some (start_rejected text)
    → (p : Packet) × (c : ℕ) × (msg : Bytes) × (reply ≡ got_reply p)
      × (unmarshal p.payload ≡ some (c ∷ msg))
      × (length text ≤ max_reject_text)
unfolding start
start-rejects none unmarshal written reply text h = absurd (ground (arith, h))
start-rejects (some b) unmarshal (some e) reply text h = absurd (ground (arith, h))
start-rejects (some b) unmarshal none (no_reply true e) text h = absurd (ground (arith, h))
start-rejects (some b) unmarshal none (no_reply false e) text h = absurd (ground (arith, h))
start-rejects (some b) unmarshal none (got_reply p) text h =
    elim (Bool-cases (p.header == header_initial_response)) [
      | inl e ↦
          let (c, msg, from, same) =
            by_text-rejected (unmarshal p.payload) text (ground (arith, h, e)) in
          (p, c, msg, refl, from, rw same (reject_text-length (c ∷ msg)))
      | inr e ↦ absurd (ground (arith, h, e))
    ]
