-- ===== src/Seal/Laws.antt =====
-- What the receiver opens of what the sender sealed.
use et_go.Prelude.{suc, ◌≡◌, refl, [], ◌∷◌, ◌++◌, List, some, Bytes, length, arith, get_elem?}
use et_go.Seal.{Secretbox, SecretboxLaws, Stream, increment, seal, open_next, seal_all, open_all}
use et_go.Seal.Nonce.{advanced, advanced-increment}

module _ (box : Secretbox) (laws : SecretboxLaws box) where
  -- With a box that opens what it sealed, a receiver at the sender's key and nonce opens every box that the sender sealed, in order, to the
  -- plaintexts, and both nonces end at the same place.
  pub open_all-seal_all :
      (s : Stream) (ps : List Bytes)
      → let sent = seal_all box s ps in open_all box s sent.0 ≡ (some ps, sent.1)
  unfolding seal_all open_all seal open_next
  open_all-seal_all s [] = refl
  open_all-seal_all s (p ∷ ps) =
      let nonce = increment s.nonce in
      ground (arith, laws.opens p nonce s.key, open_all-seal_all (record s { nonce = nonce }) ps)

-- Every box is sealed under the sender's key and the nonce of its place in the sequence.
pub seal_all-nonces :
    (box : Secretbox) (s : Stream) (front : List Bytes) (p : Bytes) (back : List Bytes)
    → get_elem? (seal_all box s (front ++ (p ∷ back))).0 (length front)
      ≡ some (box.seal_box p (advanced (suc (length front)) s.nonce) s.key)
unfolding seal_all seal advanced
seal_all-nonces box s [] p back = refl
seal_all-nonces box s (x ∷ front) p back =
    rw (← advanced-increment (suc (length front)) s.nonce)
      (seal_all-nonces box (record s { nonce = increment s.nonce }) front p back)
