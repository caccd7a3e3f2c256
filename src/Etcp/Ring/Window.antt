-- ===== src/Etcp/Ring/Window.antt =====
-- The ring as the last part of the list of all packets sealed so far.
use et_go.Prelude.{
  ℕ, ◌-◌, ◌≤◌, ◌≡◌, List, [], ◌∷◌, ◌++◌, none, some, Bytes, total, length, take, drop, ltb,
  if◌then◌else◌, pos, arith, length-append, length-drop, drop-append_le, drop-drop, total-append,
  ◌||◌,
}
use et_go.Etcp.Ring.{Ring, next, push, append_range, since, bytes_between}

-- `history` is every packet sealed so far, at its sequence number.
pub record IsWindow (history : List Bytes) (r : Ring) : Type 0 where
  pub inside : r.first ≤ length history
  pub kept : r.entries ≡ drop r.first history
  pub sized : r.bytes ≡ total r.entries

pub next-IsWindow : {h : List Bytes} {r : Ring} → IsWindow h r → next r ≡ length h
unfolding next
next-IsWindow {h} {r} w = ground (arith, length-drop r.first h)

pub push-IsWindow :
    {h : List Bytes} {r : Ring} (d : Bytes) → IsWindow h r → IsWindow (h ++ (d ∷ [])) (push d r)
unfolding push
push-IsWindow {h} {r} d w = ground (
  arith,
  length-append h (d ∷ []),
  drop-append_le r.first h (d ∷ []),
  total-append r.entries (d ∷ []),
)

-- `since` answers exactly for the positions of the retained window, with the packets of the history
-- from `from` up to `to`.
pub since-IsWindow :
    {h : List Bytes} {r : Ring} (from to : ℕ)
    → IsWindow h r
    → since (pos from) to r ≡ (
        if ltb from r.first || (ltb to from || ltb (length h) to)
        then none
        else some (take (to - from) (drop from h)))
unfolding since
since-IsWindow {h} {r} from to w =
    ground (arith, length-drop r.first h, drop-drop (from - r.first) r.first h)

pub append_range-IsWindow :
    {h : List Bytes} {r : Ring} (from to : ℕ)
    → IsWindow h r
    → r.first ≤ from
    → append_range [] from to r ≡ take (to - from) (drop from h)
unfolding append_range
append_range-IsWindow {h} {r} from to w le = ground (arith, drop-drop (from - r.first) r.first h)

pub bytes_between-IsWindow :
    {h : List Bytes} {r : Ring} (from to : ℕ)
    → IsWindow h r
    → r.first ≤ from
    → bytes_between from to r ≡ total (take (to - from) (drop from h))
unfolding bytes_between
bytes_between-IsWindow {h} {r} from to w le = ground (arith, drop-drop (from - r.first) r.first h)
