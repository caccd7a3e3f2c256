-- ===== src/Seal.antt =====
-- internal/seal/seal.go: one direction of the encrypted stream, sealed under a counter nonce.
--
-- golang.org/x/crypto/nacl/secretbox is not part of the program: it is the record `Secretbox`, and
-- `SecretboxLaws` is what the code relies on. `Seal` and `Open` return the stream with its nonce
-- advanced, which the code reaches through a pointer.
pub mod Nonce
pub mod Laws
pub mod Shown
pub mod Tests
use et_go.Prelude.{
  ℕ, zero, suc, ◌+◌, ◌%◌, ◌≡◌, ◌≢◌, List, [], ◌∷◌, ◌++◌, Bool, Option, none, some, Bytes, length,
  ◌==◌, ◌||◌, if◌then◌else◌, replicate,
}

-- ClientToServer and ServerToClient.
abbrev pub client_to_server : ℕ
client_to_server = 0

abbrev pub server_to_client : ℕ
server_to_client = 1

-- A plaintext or a box, the nonce, the key.
pub record Secretbox : Type 0 where
  pub seal_box : Bytes → Bytes → Bytes → Bytes
  pub open_box : Bytes → Bytes → Bytes → Option Bytes

-- `secretbox.Overhead`.
abbrev pub overhead : ℕ
overhead = 16

pub record SecretboxLaws (b : Secretbox) : Type 0 where
  pub opens : (p n k : Bytes) → b.open_box (b.seal_box p n k) n k ≡ some p
  pub adds_overhead : (p n k : Bytes) → length (b.seal_box p n k) ≡ length p + overhead

-- A `Stream` with the state behind its pointer.
pub record Stream : Type 0 where
  pub key : Bytes
  pub nonce : Bytes

-- `increment`.
unfoldable pub increment : Bytes → Bytes
increment [] = []
increment (b ∷ bs) =
    let b' = (b + 1) % 256 in
    let carried = b' ∷ increment bs in if b' == 0 then carried else b' ∷ bs

-- `New`; `none` is its panic on an invalid direction or a nil key.
new_stream : Bytes → ℕ → Stream
new_stream key d = record { key = key; nonce = replicate 23 0 ++ (d ∷ []) }

unfoldable pub new : Option Bytes → ℕ → Option Stream
unfolding new_stream
new key d =
    if d == client_to_server || d == server_to_client
    then elim key [ none ↦ none | some k ↦ some (new_stream k d) ]
    else none

module _ (box : Secretbox) where
  -- `Seal`: the box appended to `dst`.
  unfoldable pub seal : Bytes → Bytes → Stream → Bytes × Stream
  seal dst plaintext s =
      let nonce = increment s.nonce in
      (dst ++ box.seal_box plaintext nonce s.key, record s { nonce = nonce })

  -- `Open`; `none` is ErrOpen.
  abbrev pub opened : Bytes → Option Bytes → Option Bytes
  opened dst none = none
  opened dst (some p) = some (dst ++ p)

  unfoldable pub open_next : Bytes → Bytes → Stream → Option Bytes × Stream
  open_next dst b s =
      let nonce = increment s.nonce in
      (opened dst (box.open_box b nonce s.key), record s { nonce = nonce })

  -- The calls that a sender and a receiver make, packet by packet; a receiver stops at ErrOpen.
  pub seal_all : Stream → List Bytes → List Bytes × Stream
  seal_all s [] = ([], s)
  seal_all s (p ∷ ps) = let (b, s') = seal [] p s in let (bs, s'') = seal_all s' ps in (b ∷ bs, s'')

  abbrev pub keep_opened : Option Bytes → Option (List Bytes) → Option (List Bytes)
  keep_opened (some p) (some ps) = some (p ∷ ps)
  keep_opened _ _ = none

  pub open_all : Stream → List Bytes → Option (List Bytes) × Stream
  open_all s [] = (some [], s)
  open_all s (b ∷ bs) =
      let (p, s') = open_next [] b s in
      let rest = open_all s' bs in
      let went_on : Option (List Bytes) × Stream = (keep_opened p rest.0, rest.1) in
      elim p [ none ↦ (none, s') | some _ ↦ went_on ]
