-- ===== src/Etcp/Ring/Trim.antt =====
-- What `trim` drops, and what it must keep.
use et_go.Prelude.{
  ℕ, ◌+◌, ◌-◌, ◌*◌, ◌≤◌, ◌⊎◌, ◌≡◌, ap, List, [], ◌∷◌, true, Bytes, total, length, drop,
  if◌then◌else◌, at_most, arith, drop_next,
}
use native.Mathlib.Decide.{dec_lt}
use et_go.Etcp.Ring.{Ring, trim_loop, trim}
use et_go.Etcp.Ring.Window.{IsWindow}

trim_loop-IsWindow :
    (h : List Bytes) (keep unsent : ℕ) (r : Ring) (es : List Bytes)
    → es ≡ drop r.first h
    → r.first ≤ length h
    → r.bytes ≡ total es
    → IsWindow h (trim_loop keep unsent r es)
unfolding trim_loop
trim_loop-IsWindow h keep unsent r [] a b c = ground arith
trim_loop-IsWindow h keep unsent r (e ∷ es) a b c = ground (
  arith,
  drop_next r.first h a,
  trim_loop-IsWindow h keep unsent (record r { first = r.first + 1; bytes = r.bytes - length e })
      es,
)

-- `trim` keeps the ring a window of the same history.
pub trim-IsWindow :
    {h : List Bytes} {r : Ring} (keep unsent : ℕ) → IsWindow h r → IsWindow h (trim keep unsent r)
unfolding trim
trim-IsWindow {h} {r} keep unsent w =
    trim_loop-IsWindow h keep unsent r r.entries w.kept w.inside w.sized

trim_loop-first :
    (keep unsent : ℕ) (r : Ring) (es : List Bytes)
    → (r.first ≤ (trim_loop keep unsent r es).first)
      × (r.first ≤ keep → (trim_loop keep unsent r es).first ≤ keep)
      × ((trim_loop keep unsent r es).limit ≡ r.limit)
      × ((trim_loop keep unsent r es).held ≡ r.held)
      × ((trim_loop keep unsent r es).hold ≡ r.hold)
unfolding trim_loop
trim_loop-first keep unsent r [] = ground arith
trim_loop-first keep unsent r (e ∷ es) = ground (
  arith,
  trim_loop-first keep unsent (record r { first = r.first + 1; bytes = r.bytes - length e }) es,
)

-- `trim` drops from the front, nothing at or after `keep`, and changes no setting.
pub trim-first :
    (keep unsent : ℕ) (r : Ring)
    → (r.first ≤ (trim keep unsent r).first)
      × (r.first ≤ keep → (trim keep unsent r).first ≤ keep)
      × ((trim keep unsent r).limit ≡ r.limit)
      × ((trim keep unsent r).held ≡ r.held)
      × ((trim keep unsent r).hold ≡ r.hold)
unfolding trim
trim-first keep unsent r = trim_loop-first keep unsent r r.entries

-- What a trimmed ring may still hold: the limit of written packets, or twice that while held.
abbrev pub allowance : Ring → ℕ
allowance r = if r.held then 2 * r.limit else r.limit

trim_loop-bytes :
    (h : List Bytes) (keep unsent : ℕ) (r : Ring) (es : List Bytes)
    → es ≡ drop r.first h
    → r.bytes ≡ total es
    → r.first ≤ keep
    → unsent ≡ total (drop keep h)
    → (trim_loop keep unsent r es).bytes ≤ allowance r + unsent
unfolding trim_loop
trim_loop-bytes h keep unsent r [] a b c d = ground arith
trim_loop-bytes h keep unsent r (e ∷ es) a b c d = ground (
  arith,
  drop_next r.first h a,
  trim_loop-bytes h keep unsent (record r { first = r.first + 1; bytes = r.bytes - length e }) es,
)

-- On a window of the history that starts at or before `keep`, with `unsent` the bytes from `keep` on, the
-- written packets, those before `keep`, after `trim` take at most `limit` bytes, or twice that
-- while the ring is held.
pub trim-bytes :
    {h : List Bytes} {r : Ring} (keep unsent : ℕ)
    → IsWindow h r
    → r.first ≤ keep
    → unsent ≡ total (drop keep h)
    → (trim keep unsent r).bytes ≤ allowance r + unsent
unfolding trim
trim-bytes {h} {r} keep unsent w le e =
    trim_loop-bytes h keep unsent r r.entries w.kept w.sized le e

-- The packets from `p` on may not be dropped: what is written of them is within the limit, or within
-- twice the limit and held.
abbrev pub MustKeep : List Bytes → ℕ → Ring → ℕ → Type 0
MustKeep h unsent r p =
    (total (drop p h) ≤ r.limit + unsent)
    ⊎ ((r.held ≡ true) × (at_most r.hold p ≡ true) × (total (drop p h) ≤ 2 * r.limit + unsent))

trim_loop-keeps :
    (h : List Bytes) (keep unsent p : ℕ) (r : Ring) (es : List Bytes)
    → es ≡ drop r.first h
    → r.bytes ≡ total es
    → r.first ≤ p
    → MustKeep h unsent r p
    → (trim_loop keep unsent r es).first ≤ p
unfolding trim_loop
trim_loop-keeps h keep unsent p r [] a b c d = c
trim_loop-keeps h keep unsent p r (e ∷ es) a b c d = elim (dec_lt r.first p) [
  | yes before ↦ ground (
    arith,
    drop_next r.first h a,
    trim_loop-keeps h keep unsent p (record r { first = r.first + 1; bytes = r.bytes - length e })
        es,
  )
  | no here ↦ let at : p ≡ r.first = omega arith in ground (arith, ap (λ n. total (drop n h)) at)
]

-- On a window of the history `trim` drops no packet that the replay of a lost link may still need: a position from which on the
-- written packets are within `limit` bytes stays in the window, and so does a position at or after
-- `hold` within twice `limit` while the ring is held.
pub trim-keeps :
    {h : List Bytes} {r : Ring} (keep unsent p : ℕ)
    → IsWindow h r
    → r.first ≤ p
    → MustKeep h unsent r p
    → (trim keep unsent r).first ≤ p
unfolding trim
trim-keeps {h} {r} keep unsent p w le must =
    trim_loop-keeps h keep unsent p r r.entries w.kept w.sized le must

-- A replay that is held stays held, for the same position.
pub trim-held :
    (keep unsent : ℕ) (r : Ring)
    → ((trim keep unsent r).held ≡ r.held) × ((trim keep unsent r).hold ≡ r.hold)
unfolding trim
trim-held keep unsent r = let first = trim_loop-first keep unsent r r.entries in (first.3, first.4)
