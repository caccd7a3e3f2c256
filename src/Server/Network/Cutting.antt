-- ===== src/Server/Network/Cutting.antt =====
-- How many bytes cross a connection with a budget.
use et_go.Prelude.{
  ℕ, ◌+◌, ◌-◌, ◌≤◌, ◌<◌, ℤ, ltb, if◌then◌else◌, ◌≡◌, refl, sym, ap, ◌∙◌, List, [], ◌∷◌, ◌++◌, Bool,
  true, false, none, some, Bytes, length, take, concat, Bool-cases, ltb→lt, ltb→le, inl, inr,
  take-nil, take_add, take-append_le, ap₂, take-append, drop-append, append_assoc, arith, pos,
  negsuc, take_all, length-append, length-take, leb, append-nil,
}
use et_go.Wire.Stream.{Writer, conn_closed}
use et_go.Server.Network.{
  Pair, Network, write, write_all, reserve, dial_context, cut_next, connected,
}

-- The documented behaviour of the pipe: an open one takes a Write whole, a closed one none of it.
pub record IsPipe (pipe : Bool → Writer) : Type 0 where
  pub takes : (b : Bytes) → pipe false b ≡ (length b, none)
  pub refuses : (b : Bytes) → pipe true b ≡ (0, some conn_closed)

abbrev pub open_with : ℤ → Pair
open_with budget = record { remaining = budget; closed = false }

abbrev is_cut : Pair
is_cut = record { remaining = pos 0; closed = true }

module _ (pipe : Bool → Writer) (laws : IsPipe pipe) where
  write-unlimited :
      (b : Bytes) (k : ℕ)
      → write pipe b (open_with (negsuc k)) ≡ (length b, none, open_with (negsuc k))
  unfolding write reserve
  write-unlimited b k = rw (take_all (length b) b (omega arith), laws.takes b) refl

  write-within :
      (b : Bytes) (k : ℕ)
      → length b < k
      → write pipe b (open_with (pos k)) ≡ (length b, none, open_with (pos (k - length b)))
  unfolding write reserve
  write-within b k h = ground (arith, take_all (length b) b (omega arith), laws.takes b)

  write-last :
      (b : Bytes) (k : ℕ)
      → k ≤ length b
      → write pipe b (open_with (pos k))
        ≡ (k, if ltb k (length b) then some conn_closed else none, is_cut)
  unfolding write reserve
  write-last b k h =
      ground (arith, take_all (length b) b (omega arith), length-take k b, laws.takes (take k b))

  write-cut : (b : Bytes) → write pipe b is_cut ≡ (0, some conn_closed, is_cut)
  unfolding write reserve
  write-cut b = ground (arith, laws.refuses [])

  -- One write at the head of a run of them.
  write_all-go :
      (b : Bytes) (bs : List Bytes) (p : Pair)
      → write_all pipe (b ∷ bs) p ≡ (
        take (write pipe b p).0 b ++ (write_all pipe bs (write pipe b p).2).0,
        (write_all pipe bs (write pipe b p).2).1,
      )
  unfolding write_all
  write_all-go b bs p = refl

  write_all-cut : (bs : List Bytes) → write_all pipe bs is_cut ≡ ([], is_cut)
  unfolding write_all
  write_all-cut [] = refl
  write_all-cut (b ∷ bs) = rw (write-cut b, write_all-cut bs) refl

  write_all-unlimited :
      (bs : List Bytes) (k : ℕ)
      → write_all pipe bs (open_with (negsuc k)) ≡ (concat bs, open_with (negsuc k))
  unfolding write_all
  write_all-unlimited [] k = refl
  write_all-unlimited (b ∷ bs) k =
      rw (write-unlimited b k, write_all-unlimited bs k, take_all (length b) b (omega arith)) refl

  -- Whether a budget of `k` bytes is used up by `bs`.
  abbrev pub uses_up : List Bytes → ℕ → Bool
  uses_up [] k = false
  uses_up (b ∷ bs) k = leb k (length (concat (b ∷ bs)))

  uses_up-rest :
      (b : Bytes) (bs : List Bytes) (k : ℕ)
      → length b < k
      → uses_up bs (k - length b) ≡ uses_up (b ∷ bs) k
  uses_up-rest b [] k h = ground (arith, append-nil b)
  uses_up-rest b (c ∷ cs) k h = ground (arith, length-append b (concat (c ∷ cs)))

  take-beyond : (b c : Bytes) (k : ℕ) → length b < k → b ++ take (k - length b) c ≡ take k (b ++ c)
  take-beyond b c k h =
      let e : length b + (k - length b) ≡ k = omega arith in
      ap₂ (λ s t. s ++ take (k - length b) t) (sym (take-append b c)) (sym (drop-append b c))
      ∙ (take_add (length b) (k - length b) (b ++ c) ∙ ap (λ n. take n (b ++ c)) e)

  write_all-budget :
      (bs : List Bytes) (k : ℕ)
      → ((write_all pipe bs (open_with (pos k))).0 ≡ take k (concat bs))
        × ((write_all pipe bs (open_with (pos k))).1.closed ≡ uses_up bs k)
  write_all-budget [] k = unfold write_all in (sym (take-nil k), refl)
  write_all-budget (b ∷ bs) k = elim (Bool-cases (ltb (length b) k)) [
    | inl e ↦
        let h = ltb→lt (length b) k e in
        let rest = write_all-budget bs (k - length b) in
        rw (write_all-go b bs (open_with (pos k)), write-within b k h)
          (
            rw (take_all (length b) b (omega arith), rest.0) (take-beyond b (concat bs) k h),
            rest.1 ∙ uses_up-rest b bs k h,
          )
    | inr e ↦
        let h = ltb→le (length b) k e in
        rw (write_all-go b bs (open_with (pos k)), write-last b k h, write_all-cut bs)
          (
            append-nil (take k b) ∙ sym (take-append_le k b (concat bs) h),
            ground (arith, length-append b (concat bs)),
          )
  ]

  -- On a network that is neither refusing nor closed, and over a pipe that takes a Write whole until it
  -- is closed, the next connection behind CutAfter dies once exactly that many bytes have crossed it:
  -- however they are cut into Writes, and from whichever end, exactly the first `k` bytes arrive, and
  -- the connection is closed exactly when a Write has been made and the budget is used up. The
  -- connection behind that one has no budget: all bytes arrive, and it stays open.
  pub cut_after-exact :
      (n : Network) (k : ℕ) (bs cs : List Bytes)
      → n.refuse ≡ false
      → n.ended ≡ false
      → let a = dial_context none (cut_next (pos k) n) in
        let b = dial_context none a.1 in
        (a.0 ≡ connected (n.dials + 1))
        × (b.0 ≡ connected (n.dials + 2))
        × (b.1.pairs
            ≡ n.pairs
              ++ ((n.dials + 1, open_with (pos k)) ∷ (n.dials + 2, open_with (negsuc 0)) ∷ []))
        × ((write_all pipe bs (open_with (pos k))).0 ≡ take k (concat bs))
        × ((write_all pipe bs (open_with (pos k))).1.closed ≡ uses_up bs k)
        × (write_all pipe cs (open_with (negsuc 0)) ≡ (concat cs, open_with (negsuc 0)))
  unfolding dial_context cut_next
  cut_after-exact n k bs cs e f =
      let budget = write_all-budget bs k in
      (
        ground (arith, e, f),
        ground (arith, e, f),
        ground (
          arith,
          e,
          f,
          append_assoc n.pairs ((n.dials + 1, open_with (pos k)) ∷ [])
              ((n.dials + 2, open_with (negsuc 0)) ∷ []),
        ),
        budget.0,
        budget.1,
        write_all-unlimited cs 0,
      )
