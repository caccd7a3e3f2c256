-- ===== src/Bootstrap/Start/Output.antt =====
-- The captured output.
use et_go.Prelude.{
  ℕ, zero, suc, ◌+◌, ◌-◌, ◌≡◌, refl, ap, sym, ◌∙◌, min, List, [], ◌∷◌, ◌++◌, Bytes, length, take,
  concat, arith, append_assoc, append-nil, length-append, length-take, take-nil,
}
use et_go.Bootstrap.Start.{CappedBuffer, capped_write, write_all}

-- What the buffer of ssh's output promises: a front of all that was written, and the count of the rest.
record Front (all : Bytes) (c : CappedBuffer) : Type 0 where
  kept : c.buf ≡ take c.limit all
  counted : length c.buf + c.dropped ≡ length all

take-append_past :
    {A : Type 0} (n : ℕ) (xs ys : List A) → take n (xs ++ ys) ≡ take n xs ++ take (n - length xs) ys
take-append_past zero xs ys = ground arith
take-append_past (suc n) [] ys = ground arith
take-append_past (suc n) (x ∷ xs) ys = ground (arith, take-append_past n xs ys)

take-min : {A : Type 0} (n : ℕ) (xs : List A) → take (min (length xs) n) xs ≡ take n xs
take-min zero xs = ground arith
take-min (suc n) [] = ground arith
take-min (suc n) (x ∷ xs) = ground (arith, take-min n xs)

capped_write-Front :
    (all p : Bytes) (c : CappedBuffer) → Front all c → Front (all ++ p) (capped_write p c)
unfolding capped_write
capped_write-Front all p c f =
    let size : length c.buf ≡ min c.limit (length all) =
      ap length f.kept ∙ length-take c.limit all in
    let room : c.limit - length c.buf ≡ c.limit - length all = omega (arith, size) in
    record {
      kept =
          ground (
            arith,
            f.kept,
            room,
            take-append_past c.limit all p,
            take-min (c.limit - length all) p,
          );
      counted = omega (
        arith,
        f.counted,
        length-append {0} c.buf (take (min (length p) (c.limit - length c.buf)) p),
        length-take (min (length p) (c.limit - length c.buf)) p,
        length-append {0} all p,
      );
    }

write_all-Front :
    (ps : List Bytes) (all : Bytes) (c : CappedBuffer)
    → Front all c
    → Front (all ++ concat ps) (write_all ps c)
unfolding write_all
write_all-Front [] all c f = rw append-nil f
write_all-Front (p ∷ ps) all c f =
    rw⁻¹ (append_assoc all p (concat ps))
      (write_all-Front ps (all ++ p) (capped_write p c) (capped_write-Front all p c f))

write_all-limit : (ps : List Bytes) (c : CappedBuffer) → (write_all ps c).limit ≡ c.limit
unfolding write_all capped_write
write_all-limit [] c = refl
write_all-limit (p ∷ ps) c = write_all-limit ps (capped_write p c)

-- However ssh's output is cut into writes, the buffer holds its first maxOutput bytes and the count of
-- the others.
pub write_all-take :
    (limit : ℕ) (ps : List Bytes)
    → let c = write_all ps (record { buf = []; limit = limit; dropped = 0 }) in
      (c.buf ≡ take limit (concat ps)) × (c.dropped ≡ length (concat ps) - limit)
write_all-take limit ps =
    let empty : CappedBuffer = record { buf = []; limit = limit; dropped = 0 } in
    let f =
      write_all-Front ps [] empty (record { kept = sym (take-nil limit); counted = omega arith }) in
    let same = write_all-limit ps empty in
    let kept : (write_all ps empty).buf ≡ take limit (concat ps) =
      f.kept ∙ ap (λ n. take n (concat ps)) same in
    let size : length (write_all ps empty).buf ≡ min limit (length (concat ps)) =
      ap length kept ∙ length-take limit (concat ps) in
    (kept, omega (arith, size, f.counted))
