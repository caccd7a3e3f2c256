-- ===== src/Seal/Nonce.antt =====
-- The nonce as a counter.
use et_go.Prelude.{
  ℕ, zero, suc, ◌+◌, ◌*◌, ◌/◌, ◌%◌, ◌^◌, ◌<◌, ◌≡◌, ◌⊎◌, inl, inr, refl, sym, ap, ◌∙◌, [], ◌∷◌, ◌++◌,
  some, Bytes, IsByte, All, length, le_bytes, le_value, arith, length-le_bytes, le_value-le_bytes,
  take-append_length, drop-append_length, take, drop, replicate, List, none, get_elem?,
}
use native.Mathlib.Nat.{pow-suc, mod-eq_of_lt, mod_self}
use et_go.Seal.{Secretbox, Stream, increment, new, seal, seal_all}

pow-length-cons : (b : ℕ) (bs : Bytes) → 256 ^ length (b ∷ bs) ≡ 256 * 256 ^ length bs
pow-length-cons b bs = omega (arith, pow-suc 256 (length bs))

le_value-lt : (bs : Bytes) → All IsByte bs → le_value bs < 256 ^ length bs
unfolding le_value
le_value-lt [] h = omega arith
le_value-lt (b ∷ bs) h = omega (arith, le_value-lt bs h.1, pow-length-cons b bs)

-- Either the counter goes up by one, below its width, or it starts again from 0.
increment_carry :
    (bs : Bytes)
    → All IsByte bs
    → ((le_value (increment bs) ≡ le_value bs + 1) × (le_value bs + 1 < 256 ^ length bs))
      ⊎ ((le_value (increment bs) ≡ 0) × (le_value bs + 1 ≡ 256 ^ length bs))
unfolding increment le_value
increment_carry [] h = inr (refl, omega arith)
increment_carry (b ∷ bs) h =
    ground (arith, increment_carry bs h.1, le_value-lt bs h.1, pow-length-cons b bs)

-- `increment` adds one to the nonce as a little-endian number, modulo its width.
pub le_value-increment :
    (bs : Bytes) → All IsByte bs → le_value (increment bs) ≡ (le_value bs + 1) % 256 ^ length bs
le_value-increment bs h = elim (increment_carry bs h) [
  | inl (e, below) ↦ e ∙ sym (mod-eq_of_lt below)
  | inr (e, full) ↦ rw (e, full) (sym (mod_self _))
]

-- Counting does not reach the bytes above the counter.
increment-le_bytes :
    (k n : ℕ) (rest : Bytes)
    → n + 1 < 256 ^ k
    → increment (le_bytes k n ++ rest) ≡ le_bytes k (n + 1) ++ rest
unfolding increment le_bytes
increment-le_bytes zero n rest h = absurd (omega arith)
increment-le_bytes (suc k) n rest h = ground (arith, increment-le_bytes k (n / 256) rest)

-- The nonce of the packet that follows `k` others.
unfoldable pub advanced : ℕ → Bytes → Bytes
advanced zero nonce = nonce
advanced (suc k) nonce = increment (advanced k nonce)

pub advanced-increment :
    (k : ℕ) (nonce : Bytes) → advanced k (increment nonce) ≡ advanced (suc k) nonce
unfolding advanced
advanced-increment zero nonce = refl
advanced-increment (suc k) nonce = ap increment (advanced-increment k nonce)

replicate-le_bytes : (k : ℕ) → replicate k 0 ≡ le_bytes k 0
unfolding le_bytes
replicate-le_bytes zero = refl
replicate-le_bytes (suc k) = ap (λ bs. 0 ∷ bs) (replicate-le_bytes k)

advanced-replicate :
    (w d k : ℕ) → k < 256 ^ w → advanced k (replicate w 0 ++ (d ∷ [])) ≡ le_bytes w k ++ (d ∷ [])
unfolding advanced
advanced-replicate w d zero h = rw (replicate-le_bytes w)
advanced-replicate w d (suc k) h =
    let e : k + 1 ≡ suc k = omega arith in
    ap increment (advanced-replicate w d k (omega arith))
    ∙ rw e at (increment-le_bytes w k (d ∷ []) (omega arith))

nonce-new :
    (key : Bytes) (d : ℕ) {s : Stream}
    → new (some key) d ≡ some s
    → s.nonce ≡ replicate 23 0 ++ (d ∷ [])
unfolding new
nonce-new key d e = ground arith

-- As long as fewer than 256 ^ 23 packets have passed, the nonce is their number in its first 23 bytes
-- and the direction in its last.
pub advanced-new :
    (key : Bytes) (d k : ℕ) {s : Stream}
    → new (some key) d ≡ some s
    → k < 256 ^ 23
    → advanced k s.nonce ≡ le_bytes 23 k ++ (d ∷ [])
advanced-new key d k e h = rw (nonce-new key d e) (advanced-replicate 23 d k h)

same_counter :
    (w i j d d' : ℕ)
    → i < 256 ^ w
    → j < 256 ^ w
    → le_bytes w i ++ (d ∷ []) ≡ le_bytes w j ++ (d' ∷ [])
    → (d ≡ d') × (i ≡ j)
same_counter w i j d d' hi hj e =
    let front : le_bytes w i ≡ le_bytes w j =
      sym (take-append_length w (le_bytes w i) (d ∷ []) (sym (length-le_bytes w i)))
      ∙ (ap (take w) e
          ∙ take-append_length w (le_bytes w j) (d' ∷ []) (sym (length-le_bytes w j))) in
    let back : d ∷ [] ≡ d' ∷ [] =
      sym (drop-append_length w (le_bytes w i) (d ∷ []) (sym (length-le_bytes w i)))
      ∙ (ap (drop w) e
          ∙ drop-append_length w (le_bytes w j) (d' ∷ []) (sym (length-le_bytes w j))) in
    (cc back, sym (le_value-le_bytes w i hi) ∙ (ap le_value front ∙ le_value-le_bytes w j hj))

counters_distinct :
    (key : Bytes) (d d' i j : ℕ) {s s' : Stream}
    → new (some key) d ≡ some s
    → new (some key) d' ≡ some s'
    → i < 256 ^ 23
    → j < 256 ^ 23
    → advanced i s.nonce ≡ advanced j s'.nonce
    → (d ≡ d') × (i ≡ j)
counters_distinct key d d' i j e e' hi hj same =
    same_counter 23 i j d d' hi hj
      (sym (advanced-new key d i e hi) ∙ (same ∙ advanced-new key d' j e' hj))

-- A secretbox that answers with the nonce it was given.
abbrev nonce_recorder : Secretbox
nonce_recorder = record { seal_box = λ p n k. n; open_box = λ p n k. none }

-- The nonces that the calls of Seal for `ps` hand to secretbox.
abbrev pub nonces_used : Stream → List Bytes → List Bytes
nonces_used s ps = (seal_all nonce_recorder s ps).0

-- The texts `ps` boxed under the nonces `ns`.
abbrev pub boxed_under : Secretbox → Bytes → List Bytes → List Bytes → List Bytes
boxed_under box key [] ns = []
boxed_under box key (p ∷ ps) [] = []
boxed_under box key (p ∷ ps) (n ∷ ns) = box.seal_box p n key ∷ boxed_under box key ps ns

seal_all-boxed_under :
    (box : Secretbox) (ps : List Bytes) (s : Stream)
    → (seal_all box s ps).0 ≡ boxed_under box s.key ps (nonces_used s ps)
unfolding seal_all seal
seal_all-boxed_under box [] s = refl
seal_all-boxed_under box (p ∷ ps) s =
    ap (λ bs. box.seal_box p (increment s.nonce) s.key ∷ bs)
      (seal_all-boxed_under box ps (record s { nonce = increment s.nonce }))

-- The i-th packet is sealed under the nonce behind those of the packets before it.
nonces_used-advanced :
    (ps : List Bytes) (i : ℕ) (s : Stream) {n : Bytes}
    → get_elem? (nonces_used s ps) i ≡ some n
    → (n ≡ advanced (suc i) s.nonce) × (i < length ps)
unfolding seal_all seal advanced
nonces_used-advanced [] i s e = absurd (cc)
nonces_used-advanced (p ∷ ps) zero s e = (ground (arith, e), omega arith)
nonces_used-advanced (p ∷ ps) (suc i) s e =
    let (rest, inside) = nonces_used-advanced ps i (record s { nonce = increment s.nonce }) e in
    (rest ∙ advanced-increment (suc i) s.nonce, omega (arith, inside))

new-key : (key : Bytes) (d : ℕ) {s : Stream} → new (some key) d ≡ some s → s.key ≡ key
unfolding new
new-key key d e = ground arith

-- Two streams that `New` made under one key, of one direction or of both, seal fewer than 256 ^ 23
-- packets each. Whatever secretbox is, `Seal` boxes each of them under the key and a nonce of its own:
-- where two of these nonces are the same, the streams are of one direction and the packets stand at the
-- same place.
pub nonces_distinct :
    (box : Secretbox) (key : Bytes) (d d' i j : ℕ) (ps qs : List Bytes) {s s' : Stream} {n : Bytes}
    → new (some key) d ≡ some s
    → new (some key) d' ≡ some s'
    → length ps < 256 ^ 23
    → length qs < 256 ^ 23
    → get_elem? (nonces_used s ps) i ≡ some n
    → get_elem? (nonces_used s' qs) j ≡ some n
    → ((seal_all box s ps).0 ≡ boxed_under box key ps (nonces_used s ps))
      × ((seal_all box s' qs).0 ≡ boxed_under box key qs (nonces_used s' qs))
      × (d ≡ d')
      × (i ≡ j)
nonces_distinct box key d d' i j ps qs {s} {s'} e e' hp hq at_i at_j =
    let (first, i_in) = nonces_used-advanced ps i s at_i in
    let (second, j_in) = nonces_used-advanced qs j s' at_j in
    let (same, next) =
      counters_distinct key d d' (suc i) (suc j) e e' (omega (arith, i_in)) (omega (arith, j_in))
        (sym first ∙ second) in
    (
      seal_all-boxed_under box ps s
          ∙ ap (λ k. boxed_under box k ps (nonces_used s ps)) (new-key key d e),
      seal_all-boxed_under box qs s'
          ∙ ap (λ k. boxed_under box k qs (nonces_used s' qs)) (new-key key d' e'),
      same,
      omega (arith, next),
    )
