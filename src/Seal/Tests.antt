-- ===== src/Seal/Tests.antt =====
-- Concrete runs of internal/seal, with a box that adds its overhead in front.
use et_go.Prelude.{
  ℕ, ◌≡◌, refl, List, [], ◌∷◌, ◌++◌, some, Bytes, replicate, drop, arith, length-append,
}
use et_go.Seal.{Secretbox, SecretboxLaws, Stream, new, seal, seal_all, increment}
use et_go.Seal.Nonce.{nonces_distinct, nonces_used, boxed_under}

abbrev pub plain_box : Secretbox
plain_box = record { seal_box = λ p n k. replicate 16 0 ++ p; open_box = λ b n k. some (drop 16 b) }

pub plain_box-SecretboxLaws : SecretboxLaws plain_box
plain_box-SecretboxLaws = record {
  opens = λ p n k. refl;
  adds_overhead = λ p n k. omega (arith, length-append {0} (replicate 16 0) p);
}

abbrev start : Stream
start = record { key = 7 ∷ []; nonce = 255 ∷ 0 ∷ 0 ∷ [] }

abbrev texts : List Bytes
texts = (1 ∷ 2 ∷ []) ∷ (3 ∷ []) ∷ [] ∷ []

abbrev sender : Stream
sender = record { key = 7 ∷ []; nonce = replicate 23 0 ++ (0 ∷ []) }

nonces_distinct_example :
    ((seal_all plain_box sender texts).0
      ≡ boxed_under plain_box (7 ∷ []) texts (nonces_used sender texts))
    × ((seal_all plain_box sender texts).0
        ≡ boxed_under plain_box (7 ∷ []) texts (nonces_used sender texts))
    × (◌≡◌ {A = ℕ} 0 0)
    × (◌≡◌ {A = ℕ} 1 1)
unfolding new seal_all seal increment
nonces_distinct_example =
    nonces_distinct plain_box (7 ∷ []) 0 0 1 1 texts texts {s = sender} {s' = sender} refl refl
      (omega arith) (omega arith) refl refl
