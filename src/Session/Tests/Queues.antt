-- ===== src/Session/Tests/Queues.antt =====
-- A queue that is closed with two packets on it, one of them taken.
use et_go.Prelude.{suc, ◌≡◌, ◌≤◌, ◌⊎◌, refl, [], ◌∷◌, ◌++◌, true, false, length}
use et_go.Protocol.{Packet}
use et_go.Session.Queue.{queue_len, new_queue, receive, try_send, close_queue, pass, passes}
use et_go.Session.Queue.Draining.{
  World, at_start, Reach, here, more, sends, closes, yields, queue-Between,
}

abbrev one : Packet
one = record { header = 1; payload = 7 ∷ [] }

abbrev two : Packet
two = record { header = 1; payload = [] }

abbrev with_one : World
with_one = record at_start { queue = record new_queue { items = one ∷ [] }; put = one ∷ [] }

abbrev with_two : World
with_two = record at_start {
  queue = record new_queue { items = one ∷ two ∷ [] };
  put = one ∷ two ∷ [];
}

abbrev shut : World
shut = record with_two { queue = record with_two.queue { closed = true } }

abbrev taken : World
taken = record shut { queue = record shut.queue { items = two ∷ [] }; got = one ∷ [] }

reached : Reach taken
unfolding try_send close_queue pass
reached =
    more
      (more
        (more (more here (sends at_start one with_one.queue refl refl))
          (sends with_one two with_two.queue refl refl))
        (closes with_two))
      (yields shut (receive true) one refl refl)

queue-Between_example :
    (taken.got ++ taken.queue.items ≡ taken.put)
    × (length taken.queue.items ≤ queue_len)
    × ((taken.queue.drained ≡ false) ⊎ ((taken.stopped ≡ true) ⊎ (taken.got ≡ taken.put)))
    × ((taken.queue.closed ≡ false)
        ⊎ ((taken.queue.drained ≡ true)
            ⊎ ((taken.got ++ (passes (suc (length taken.queue.items)) taken.queue).0 ≡ taken.put)
                × ((passes (suc (length taken.queue.items)) taken.queue).1.drained ≡ true))))
queue-Between_example = queue-Between reached
