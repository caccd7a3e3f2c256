-- ===== src/Session/Input/Order.antt =====
-- Keyboard input reaches the sender in order.
use et_go.Prelude.{
  ℕ, zero, suc, ◌+◌, ◌-◌, ◌≤◌, ◌≡◌, refl, ◌∙◌, ap, min, [], ◌∷◌, ◌++◌, false, Option, none, some,
  Bytes, length, take, drop, arith, append_assoc, append-nil, length-append, length-take,
  length-drop, take-append-drop,
}
use et_go.Session.Input.{
  PendingInput, Push, looping, waiting, returned, put_in, push_pass, PushWoken, room, timeout,
  session_done, push_woken, take_some, take_input,
}

-- The reader and the sender: `typed` is all that was pushed, `sent` all that was taken, `dropped` how
-- many bytes a call of push gave up.
pub record Keys : Type 0 where
  pub pending : PendingInput
  pub push : Push
  pub typed : Bytes
  pub sent : Bytes
  pub dropped : ℕ

abbrev pub left : Push → Bytes
left (looping b) = b
left (waiting b) = b
left returned = []

-- What a step of a call of push drops of its `b`.
abbrev pub given_up : Bytes → Push → ℕ
given_up b returned = length b
given_up b _ = 0

abbrev pub taken : Option Bytes → Bytes
taken none = []
taken (some b) = b

pub data KeyStep : Keys → Keys → Type 0 where
  typing :
      (k : Keys) (b : Bytes)
      → k.push ≡ returned
      → KeyStep k (record k { push = looping b; typed = k.typed ++ b })
  passing :
      (k : Keys) (b : Bytes)
      → k.push ≡ looping b
      → KeyStep k (record k {
        push = (push_pass b k.pending).0;
        pending = (push_pass b k.pending).1;
        dropped = k.dropped + given_up b (push_pass b k.pending).0;
      })
  waking :
      (k : Keys) (why : PushWoken) (b : Bytes)
      → k.push ≡ waiting b
      → KeyStep k (record k {
        push = (push_woken why b k.pending).0;
        pending = (push_woken why b k.pending).1;
        dropped = k.dropped + given_up b (push_woken why b k.pending).0;
      })
  taking :
      (k : Keys) (most : ℕ)
      → KeyStep k (record k {
        pending = (take_input most k.pending).1;
        sent = k.sent ++ taken (take_input most k.pending).0;
      })

pub data KeyReach (k : Keys) : Keys → Type 0 where
  at_start : KeyReach k k
  then_step : {u v : Keys} → KeyReach k u → KeyStep u v → KeyReach k v

-- Nothing is reordered or sent twice: without a drop, what was taken, what is pending and what a call
-- still pushes are all that was typed; with drops the lengths still add up. The buffer keeps its limit.
pub record InOrder (k : Keys) : Type 0 where
  pub whole : k.dropped ≡ 0 → k.sent ++ (k.pending.buf ++ left k.push) ≡ k.typed
  pub sizes :
      length k.sent + length k.pending.buf + length (left k.push) + k.dropped ≡ length k.typed
  pub within : length k.pending.buf ≤ k.pending.limit

none_left : (b : Bytes) → length b ≡ 0 → b ≡ []
none_left [] e = refl
none_left (x ∷ b) e = absurd (omega arith)

-- How a step moves bytes between what is pending and the call of push.
abbrev Moves : Bytes → PendingInput → Push → PendingInput → Type 0
Moves b p q p' =
    (given_up b q ≡ 0 → p'.buf ++ left q ≡ p.buf ++ b)
    × (length p'.buf + length (left q) + given_up b q ≡ length p.buf + length b)
    × (length p'.buf ≤ p'.limit)

put_in-Moves :
    (n : ℕ) (b : Bytes) (p : PendingInput)
    → n ≤ length b
    → length p.buf + n ≤ p.limit
    → Moves b p (put_in n b p).0 (put_in n b p).1
unfolding put_in
put_in-Moves zero b p h fits = ground (arith, none_left b, append-nil p.buf)
put_in-Moves (suc n) b p h fits = (
  λ _.
      append_assoc p.buf (take (suc n) b) (drop (suc n) b)
      ∙ ap (λ x. p.buf ++ x) (take-append-drop (suc n) b),
  omega (
    arith,
    h,
    length-append {0} p.buf (take (suc n) b),
    length-take (suc n) b,
    length-drop (suc n) b,
  ),
  omega (arith, h, fits, length-append {0} p.buf (take (suc n) b), length-take (suc n) b),
)

push_pass-Moves :
    (b : Bytes) (p : PendingInput)
    → length p.buf ≤ p.limit
    → Moves b p (push_pass b p).0 (push_pass b p).1
unfolding push_pass
push_pass-Moves [] p h = ground (arith, append-nil p.buf)
push_pass-Moves (x ∷ b) p h =
    put_in-Moves (min (length (x ∷ b)) (p.limit - length p.buf)) (x ∷ b) p (omega arith)
      (omega arith)

push_woken-Moves :
    (why : PushWoken) (b : Bytes) (p : PendingInput)
    → length p.buf ≤ p.limit
    → Moves b p (push_woken why b p).0 (push_woken why b p).1
unfolding push_woken
push_woken-Moves room b p h = ground arith
push_woken-Moves timeout b p h = ground (arith, none_left b, append-nil p.buf)
push_woken-Moves session_done b p h = ground (arith, none_left b, append-nil p.buf)

take_some-front :
    (n : ℕ) (p : PendingInput)
    → (taken (take_some n p).0 ++ (take_some n p).1.buf ≡ p.buf)
      × ((take_some n p).1.limit ≡ p.limit)
unfolding take_some
take_some-front zero p = (refl, refl)
take_some-front (suc n) p = (take-append-drop (suc n) p.buf, refl)

-- What is taken is the front of what was pending.
take_input-front :
    (most : ℕ) (p : PendingInput)
    → (taken (take_input most p).0 ++ (take_input most p).1.buf ≡ p.buf)
      × ((take_input most p).1.limit ≡ p.limit)
unfolding take_input
take_input-front most p = take_some-front (min most (length p.buf)) p

-- A step of the call of push keeps the order.
moved :
    (k : Keys) (b : Bytes) (q : Push) (p : PendingInput)
    → left k.push ≡ b
    → InOrder k
    → Moves b k.pending q p
    → InOrder (record k { push = q; pending = p; dropped = k.dropped + given_up b q })
moved k b q p e i m = record {
  whole = λ none_dropped.
      let none_before : k.dropped ≡ 0 = omega (arith, none_dropped) in
      let none_now : given_up b q ≡ 0 = omega (arith, none_dropped) in
      ground (arith, i.whole none_before, m.0 none_now, e);
  sizes =
      let same : length (left k.push) ≡ length b = ap length e in omega (arith, i.sizes, m.1, same);
  within = m.2;
}

step-InOrder : {k v : Keys} → KeyStep k v → InOrder k → InOrder v
step-InOrder (typing k b e) i = record {
  whole = λ n.
      ground (arith, i.whole n, e, append-nil k.pending.buf, append_assoc k.sent k.pending.buf b);
  sizes =
      let idle : length (left k.push) ≡ 0 = ap (λ q. length (left q)) e in
      omega (arith, i.sizes, idle, length-append {0} k.typed b);
  within = i.within;
}
step-InOrder (passing k b e) i = moved k b _ _ (ap left e) i (push_pass-Moves b k.pending i.within)
step-InOrder (waking k why b e) i =
    moved k b _ _ (ap left e) i (push_woken-Moves why b k.pending i.within)
step-InOrder (taking k most) i =
    let front = take_input-front most k.pending in
    let o = taken (take_input most k.pending).0 in
    let after = (take_input most k.pending).1.buf in
    let size = length-append {0} o after in
    let same : length (o ++ after) ≡ length k.pending.buf = ap length front.0 in
    record {
      whole = λ n. ground (
        arith,
        i.whole n,
        front.0,
        append_assoc k.sent o (after ++ left k.push),
        append_assoc o after (left k.push),
      );
      sizes = omega (arith, i.sizes, size, same, length-append {0} k.sent o);
      within = omega (arith, i.within, size, same, front.1);
    }

-- Keyboard input reaches the sender in the order typed, each byte once, however the reader's passes,
-- its waits and the sender's takes interleave: from an empty buffer, as long as no call of push gave
-- bytes up, what was taken, what is pending and what is still being pushed are together all that was
-- typed. With drops the lengths still add up, and the buffer never exceeds its limit.
pub input-InOrder :
    (limit : ℕ) (k : Keys)
    → let empty : PendingInput = record {
      buf = [];
      stalled = false;
      limit = limit;
      ready = false;
      space = false;
    } in
      KeyReach (record { pending = empty; push = returned; typed = []; sent = []; dropped = 0 }) k
      → InOrder k
input-InOrder limit k at_start = record { whole = λ _. refl; sizes = refl; within = omega arith }
input-InOrder limit k (then_step r s) = step-InOrder s (input-InOrder limit _ r)
