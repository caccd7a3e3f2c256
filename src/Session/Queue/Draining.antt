-- ===== src/Session/Queue/Draining.antt =====
-- What a service gets of the packets that the router put on its queue.
use et_go.Prelude.{
  suc, ◌≤◌, ◌≡◌, ◌⊎◌, refl, List, [], ◌∷◌, ◌++◌, Bool, true, false, some, length, append_assoc,
  append-nil, length-append, arith,
}
use et_go.Protocol.{Packet}
use et_go.Session.Queue.{
  queue_len, Queue, new_queue, try_send, close_queue, Choice, receive, context_done, gave, finished,
  pass, passes,
}

-- `put` is what the router has sent, `got` what was yielded, and `stopped` that the context's end or
-- the service's loop ended the iterator.
pub record World : Type 0 where
  pub queue : Queue
  pub put : List Packet
  pub got : List Packet
  pub stopped : Bool

abbrev pub at_start : World
at_start = record { queue = new_queue; put = []; got = []; stopped = false }

abbrev stops : Choice → Bool
stops (receive true) = false
stops (receive false) = true
stops context_done = true

-- The router and the service, in any order. The iterator passes as long as it has not returned.
pub data Step : World → World → Type 0 where
  sends :
      (w : World) (p : Packet) (q : Queue)
      → w.queue.closed ≡ false
      → try_send p w.queue ≡ some q
      → Step w (record w { queue = q; put = w.put ++ (p ∷ []) })
  closes : (w : World) → Step w (record w { queue = close_queue w.queue })
  yields :
      (w : World) (c : Choice) (p : Packet)
      → w.queue.drained ≡ false
      → (pass c w.queue).0 ≡ gave p
      → Step w (record w { queue = (pass c w.queue).1; got = w.got ++ (p ∷ []); stopped = stops c })
  returns :
      (w : World) (c : Choice)
      → w.queue.drained ≡ false
      → (pass c w.queue).0 ≡ finished
      → Step w (record w { queue = (pass c w.queue).1; stopped = stops c })

pub data Reach : World → Type 0 where
  here : Reach at_start
  more : {u v : World} → Reach u → Step u v → Reach v

-- The queue between the two, whose iterator returned of itself only behind everything.
record Between (w : World) : Type 0 where
  in_order : w.got ++ w.queue.items ≡ w.put
  bounded : length w.queue.items ≤ queue_len
  all :
      w.queue.drained ≡ true → (w.stopped ≡ true) ⊎ ((w.queue.closed ≡ true) × (w.queue.items ≡ []))

sends-Between :
    (w : World) (p : Packet) (q : Queue)
    → w.queue.closed ≡ false
    → try_send p w.queue ≡ some q
    → Between w
    → Between (record w { queue = q; put = w.put ++ (p ∷ []) })
unfolding try_send
sends-Between w p q o e b = ground (
  arith,
  o,
  e,
  b,
  append_assoc w.got w.queue.items (p ∷ []),
  length-append w.queue.items (p ∷ []),
)

yields-Between :
    (w : World) (c : Choice) (p : Packet)
    → w.queue.drained ≡ false
    → (pass c w.queue).0 ≡ gave p
    → Between w
    → Between (record w { queue = (pass c w.queue).1; got = w.got ++ (p ∷ []); stopped = stops c })
unfolding pass
yields-Between w context_done p d e b = absurd (ground (arith, e))
yields-Between w (receive m) p d e b =
    ground (arith, d, e, b, append_assoc w.got (p ∷ []) (pass (receive m) w.queue).1.items)

returns-Between :
    (w : World) (c : Choice)
    → w.queue.drained ≡ false
    → (pass c w.queue).0 ≡ finished
    → Between w
    → Between (record w { queue = (pass c w.queue).1; stopped = stops c })
unfolding pass
returns-Between w context_done d e b = ground (arith, d, e, b)
returns-Between w (receive m) d e b = ground (arith, d, e, b)

step-Between : {u v : World} → Step u v → Between u → Between v
unfolding close_queue
step-Between (sends w p q o e) b = sends-Between w p q o e b
step-Between (closes w) b = ground (arith, b)
step-Between (yields w c p d e) b = yields-Between w c p d e b
step-Between (returns w c d e) b = returns-Between w c d e b

reach-Between : {w : World} → Reach w → Between w
reach-Between here = record { in_order = refl; bounded = omega arith; all = λ d. absurd (cc) }
reach-Between (more r s) = step-Between s (reach-Between r)

-- A closed queue gives the rest of its packets, and then the iterator returns.
passes-drain :
    (items : List Packet) (q : Queue)
    → q.items ≡ items
    → q.closed ≡ true
    → q.drained ≡ false
    → ((passes (suc (length items)) q).0 ≡ items)
      × ((passes (suc (length items)) q).1.drained ≡ true)
unfolding passes pass
passes-drain [] q e c d = ground (arith, e, c, d)
passes-drain (p ∷ ps) q e c d =
    ground (arith, e, c, d, passes-drain ps (record q { items = ps }) refl c d)

-- However the router's sends and the service's passes interleave, what the service got and what waits
-- for it are together what the router put on its queue, in order, and at most queueLen packets wait. If
-- the iterator has returned, then because of its context or its service, or the service has got all
-- of them. Once the router has closed the queue, one pass for each packet that waits and one more
-- give the service the rest and end the iterator.
pub queue-Between :
    {w : World}
    → Reach w
    → (w.got ++ w.queue.items ≡ w.put)
      × (length w.queue.items ≤ queue_len)
      × ((w.queue.drained ≡ false) ⊎ ((w.stopped ≡ true) ⊎ (w.got ≡ w.put)))
      × ((w.queue.closed ≡ false)
          ⊎ ((w.queue.drained ≡ true)
              ⊎ ((w.got ++ (passes (suc (length w.queue.items)) w.queue).0 ≡ w.put)
                  × ((passes (suc (length w.queue.items)) w.queue).1.drained ≡ true))))
queue-Between {w} r =
    let b = reach-Between r in
    (
      b.in_order,
      b.bounded,
      ground (arith, b, append-nil w.got),
      ground (arith, b, passes-drain w.queue.items w.queue refl),
    )
