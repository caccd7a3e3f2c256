-- ===== src/Etcp/Ring.antt =====
-- internal/etcp/ring.go: the sealed packets kept for the link writer and for replay.
--
-- Sequence numbers and sizes are plain numbers: an int64 count of packets and an int sum of what is in
-- memory do not come near their limits. `hold` may be negative in the type, as in the code.
pub mod Window
pub mod Trim
use et_go.Prelude.{
  ℕ, ◌+◌, ◌-◌, ◌*◌, List, [], ◌∷◌, ◌++◌, Bool, ◌&&◌, ◌||◌, Option, none, some, Bytes, total, length,
  take, drop, ltb, leb, if◌then◌else◌, ℤ, pos, negsuc, at_most,
}

pub record Ring : Type 0 where
  pub first : ℕ
  pub entries : List Bytes
  pub bytes : ℕ
  pub limit : ℕ
  pub held : Bool
  pub hold : ℤ

-- `next`.
unfoldable pub next : Ring → ℕ
next r = r.first + length r.entries

-- `push`.
unfoldable pub push : Bytes → Ring → Ring
push d r = record r { entries = r.entries ++ (d ∷ []); bytes = r.bytes + length d }

-- The loop of `trim` at the entries that are left; `bytes - unsent` is compared with `unsent` added on
-- the other side.
trim_loop : ℕ → ℕ → Ring → List Bytes → Ring
trim_loop keep unsent r [] = record r { entries = [] }
trim_loop keep unsent r (e ∷ es) =
    let stop : Ring = record r { entries = e ∷ es } in
    let dropped =
      trim_loop keep unsent (record r { first = r.first + 1; bytes = r.bytes - length e }) es in
    if ltb (r.limit + unsent) r.bytes && ltb r.first keep
    then if r.held && (at_most r.hold r.first && leb r.bytes (2 * r.limit + unsent))
      then stop
      else dropped
    else stop

-- `trim`.
pub trim : ℕ → ℕ → Ring → Ring
trim keep unsent r = trim_loop keep unsent r r.entries

-- `appendRange`.
unfoldable pub append_range : List Bytes → ℕ → ℕ → Ring → List Bytes
append_range dst from to r = dst ++ take (to - from) (drop (from - r.first) r.entries)

-- `since`, whose first position comes from the peer and may be negative.
unfoldable pub since : ℤ → ℕ → Ring → Option (List Bytes)
unfolding append_range next
since (negsuc n) to r = none
since (pos from) to r =
    if ltb from r.first || (ltb to from || ltb (next r) to)
    then none
    else some (append_range [] from to r)

-- `bytesBetween`.
unfoldable pub bytes_between : ℕ → ℕ → Ring → ℕ
bytes_between from to r = total (take (to - from) (drop (from - r.first) r.entries))
