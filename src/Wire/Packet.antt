-- ===== src/Wire/Packet.antt =====
-- internal/wire/packet.go: the serialized packet, a flag byte, a header byte and the payload.
pub mod Laws
use et_go.Prelude.{
  ℕ, ◌+◌, List, [], ◌∷◌, ◌++◌, Bool, true, false, not, Option, none, some, Bytes, length, take,
  drop, leb, ltb, ◌==◌, if◌then◌else◌, replicate,
}
use et_go.Protocol.{Header}

-- The slice `b` is the first `n` bytes of a block of memory that is as long as its capacity. A
-- payload is a slice of the same block, or of other memory.
pub data Source : Type 0 where
  inside : ℕ → ℕ → Source
  outside : Bytes → Source

unfoldable pub load : Bytes → Source → Bytes
load mem (inside off len) = take len (drop off mem)
load mem (outside p) = p

-- Go's `copy(mem[i:], xs)`, where `xs` fits.
pub overlay : Bytes → ℕ → Bytes → Bytes
overlay mem i xs = take i mem ++ (xs ++ drop (i + length xs) mem)

-- `slices.Grow(b, k)`: new memory where the capacity does not reach.
pub grow : Bytes → ℕ → ℕ → Bytes
grow mem n k = if leb (n + k) (length mem) then mem else take n mem ++ replicate k 0

-- `AppendPacket`: the returned slice. The payload is read when it is copied, before the two prefix
-- bytes are written.
unfoldable pub append_packet : Bytes → ℕ → Bool → Header → Source → Bytes
append_packet mem n encrypted h payload =
    let flag = if encrypted then 1 else 0 in
    let p = load mem payload in
    let copied = overlay (grow mem n (2 + length p)) (n + 2) p in
    let flagged = overlay copied n (flag ∷ []) in
    take (n + (2 + length p)) (overlay flagged (n + 1) (h ∷ []))

-- `ParsePacket`; `none` is ErrShortPacket.
unfoldable pub parse_packet : Bytes → Option (Bool × Header × Bytes)
parse_packet (flag ∷ h ∷ payload) = some (not (flag == 0), h, payload)
parse_packet b = none
