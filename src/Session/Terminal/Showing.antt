-- ===== src/Session/Terminal/Showing.antt =====
-- What the terminal shows of the remote output.
use et_go.Prelude.{
  ℕ, ◌+◌, List, [], ◌∷◌, ◌++◌, ◌≡◌, ◌⊎◌, inl, inr, refl, Option, none, some, Bytes, arith, length,
  Option-cases,
}
use et_go.Protocol.{Packet}
use et_go.Session.Terminal.{Answer, refused, LoopErr, decode_failed, output_err, output, shown_at}
use et_go.Session.Terminal.Sent.{Answer-cases}

-- Packets and the bytes that they carry.
abbrev pub Holds : (Bytes → Option Bytes) → List Packet → List Bytes → Type 0
Holds unmarshal [] [] = Unit
Holds unmarshal (p ∷ ps) (b ∷ bs) = (unmarshal p.payload ≡ some b) × Holds unmarshal ps bs
Holds unmarshal [] (b ∷ bs) = ⊥
Holds unmarshal (p ∷ ps) [] = ⊥

-- Where the loop stops, from the n-th write on: at the end of the packets, or at one that is not decoded
-- or whose write was refused.
abbrev pub Stops : (ℕ → Answer) → (Bytes → Option Bytes) → ℕ → List Packet → Option LoopErr → Type 0
Stops answer unmarshal n [] e = e ≡ none
Stops answer unmarshal n (p ∷ ps) e =
    ((unmarshal p.payload ≡ none) × (e ≡ some decode_failed))
    ⊎ ((b : Bytes) × (x : ℕ) × (over : Option ℕ) × (unmarshal p.payload ≡ some b)
        × (answer n ≡ refused x over)
        × (e ≡ some (output_err x over)))

-- The terminal shows the decoded bytes of a front of the packets, in order. The loop stops behind them
-- only where the packets end or with the error of the next one.
pub output-Stops :
    (answer : ℕ → Answer) (unmarshal : Bytes → Option Bytes) (n : ℕ) (ps : List Packet)
    → let r = output answer unmarshal n ps in
      (front : List Packet) × (rest : List Packet) × (ps ≡ front ++ rest)
      × Holds unmarshal front r.0
      × Stops answer unmarshal (n + length front) rest r.1
unfolding output shown_at
output-Stops answer unmarshal n [] = ([], [], refl, tt, refl)
output-Stops answer unmarshal n (p ∷ ps) = elim (Option-cases (unmarshal p.payload)) [
  | inl e ↦ rw (e, output) ([], p ∷ ps, refl, tt, inl (e, refl))
  | inr (b, e) ↦ elim (Answer-cases (answer n)) [
    | inr (x, over, a) ↦
        rw (e, output, a) ([], p ∷ ps, refl, tt, inr (b, x, over, e, ground (arith, a), refl))
    | inl a ↦
        let (front, rest, whole, holds, stops) = output-Stops answer unmarshal (n + 1) ps in
        let same : n + length (p ∷ front) ≡ n + 1 + length front = omega arith in
        rw (e, output, a) (p ∷ front, rest, ground (arith, whole), (e, holds), rw same stops)
  ]
]
