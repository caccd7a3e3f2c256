-- ===== src/Wire/Packet/Laws.antt =====
-- The layout of a packet, and reading it back.
use et_go.Prelude.{
  ℕ, ◌+◌, ◌≤◌, [], ◌∷◌, ◌++◌, ◌≡◌, Bool, true, false, some, Bytes, length, take, drop,
  if◌then◌else◌, replicate, arith, length-append, length-take, length-drop, append_assoc,
  take-append_length, drop-append_length, length-replicate, take-append-drop, drop-drop,
}
use et_go.Protocol.{Header}
use et_go.Wire.Packet.{Source, load, overlay, grow, append_packet, parse_packet}

length-grow : (mem : Bytes) (n k : ℕ) → n ≤ length mem → n + k ≤ length (grow mem n k)
unfolding grow
length-grow mem n k h = ground (
  arith,
  length-append (take n mem) (replicate k 0),
  length-take n mem,
  length-replicate {A = ℕ} k 0,
)

take-grow : (mem : Bytes) (n k : ℕ) → n ≤ length mem → take n (grow mem n k) ≡ take n mem
unfolding grow
take-grow mem n k h =
    ground (arith, take-append_length n (take n mem) (replicate k 0), length-take n mem)

overlay-append :
    (i : ℕ) (front rest xs : Bytes)
    → i ≡ length front
    → overlay (front ++ rest) i xs ≡ front ++ (xs ++ drop (length xs) rest)
unfolding overlay
overlay-append i front rest xs e = ground (
  arith,
  take-append_length i front rest e,
  drop-append_length i front rest e,
  drop-drop (length xs) i (front ++ rest),
)

-- The three writes of the code, on memory that begins with `front` and has room.
writes :
    (i flag h x y : ℕ) (front rest p : Bytes)
    → i ≡ length front
    → length p ≤ length rest
    → let copied = overlay (front ++ (x ∷ y ∷ rest)) (i + 2) p in
      take (i + (2 + length p)) (overlay (overlay copied i (flag ∷ [])) (i + 1) (h ∷ []))
      ≡ front ++ (flag ∷ h ∷ p)
writes i flag h x y front rest p e le =
    let left = drop (length p) rest in
    ground (
      arith,
      append_assoc front (x ∷ y ∷ []) rest,
      length-append front (x ∷ y ∷ []),
      overlay-append (i + 2) (front ++ (x ∷ y ∷ [])) rest p,
      append_assoc front (x ∷ y ∷ []) (p ++ left),
      overlay-append i front (x ∷ y ∷ (p ++ left)) (flag ∷ []) e,
      append_assoc front (flag ∷ []) (y ∷ (p ++ left)),
      length-append front (flag ∷ []),
      overlay-append (i + 1) (front ++ (flag ∷ [])) (y ∷ (p ++ left)) (h ∷ []),
      append_assoc front (flag ∷ []) (h ∷ (p ++ left)),
      append_assoc front (flag ∷ h ∷ p) left,
      length-append front (flag ∷ h ∷ p),
      take-append_length (i + (2 + length p)) (front ++ (flag ∷ h ∷ p)) left,
    )

-- `writes` with the memory behind the slice as it comes.
writes_within :
    (i flag h : ℕ) (front rest p : Bytes)
    → i ≡ length front
    → 2 + length p ≤ length rest
    → let copied = overlay (front ++ rest) (i + 2) p in
      take (i + (2 + length p)) (overlay (overlay copied i (flag ∷ [])) (i + 1) (h ∷ []))
      ≡ front ++ (flag ∷ h ∷ p)
writes_within i flag h front [] p e le = absurd (omega arith)
writes_within i flag h front (x ∷ []) p e le = absurd (omega arith)
writes_within i flag h front (x ∷ y ∷ rest) p e le =
    writes i flag h x y front rest p e (omega arith)

-- `AppendPacket` returns the bytes of its slice, the flag, the header and the payload as it was on
-- entry, wherever in the slice's memory, spare capacity included, the payload lies.
pub append_packet-layout :
    (mem : Bytes) (n : ℕ) (encrypted : Bool) (h : Header) (payload : Source)
    → n ≤ length mem
    → append_packet mem n encrypted h payload
      ≡ take n mem ++ ((if encrypted then 1 else 0) ∷ h ∷ load mem payload)
unfolding append_packet
append_packet-layout mem n encrypted h payload le =
    let p = load mem payload in
    let g = grow mem n (2 + length p) in
    let flag : ℕ = if encrypted then 1 else 0 in
    let whole : take n g ++ drop n g ≡ g = take-append-drop n g in
    let room : n + (2 + length p) ≤ length g = length-grow mem n (2 + length p) le in
    let start : take n g ≡ take n mem = take-grow mem n (2 + length p) le in
    rw (← start) (
      rw whole at (
        writes_within n flag h (take n g) (drop n g) p (omega (arith, length-take n g))
          (omega (arith, length-drop n g))))

-- `ParsePacket` reads back the flag, the header and the payload that `AppendPacket` wrote.
pub parse_packet-append_packet :
    (mem : Bytes) (encrypted : Bool) (h : Header) (payload : Source)
    → parse_packet (append_packet mem 0 encrypted h payload) ≡ some (encrypted, h, load mem payload)
unfolding parse_packet
parse_packet-append_packet mem true h payload =
    rw (append_packet-layout mem 0 true h payload (omega arith))
parse_packet-append_packet mem false h payload =
    rw (append_packet-layout mem 0 false h payload (omega arith))
