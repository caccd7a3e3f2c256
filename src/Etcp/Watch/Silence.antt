-- ===== src/Etcp/Watch/Silence.antt =====
-- Which runs of events kill a link.
use et_go.Prelude.{
  ◌≡◌, refl, List, [], ◌∷◌, not, ◌&&◌, if◌then◌else◌, Bool, true, false, Option, none, some, arith,
}
use et_go.Seal.{Secretbox}
use et_go.Etcp.Conn.{Conn, Err, link_dead, sealed_none}
use et_go.Etcp.Watch.{WatchEvent, link_ended, sign, tick, watch_event, watch}

-- A tick that finds the reader free and a packet sealed.
abbrev pub is_quiet : WatchEvent → Bool
is_quiet (tick false c) = not (sealed_none c)
is_quiet e = false

-- What the watcher returns, read off the events: the cause of the link's end, or link_dead at the second
-- of two quiet ticks with nothing between them.
abbrev pub verdict : List WatchEvent → Option Err
verdict [] = none
verdict (link_ended e ∷ es) = some e
verdict (sign ∷ es) = verdict es
verdict (tick d c ∷ []) = none
verdict (tick d c ∷ (e ∷ es)) =
    let rest = verdict (e ∷ es) in
    if is_quiet (tick d c) && is_quiet e then some link_dead else rest

-- With a probe out, a quiet tick that comes next kills the link.
abbrev verdict_after : Bool → List WatchEvent → Option Err
verdict_after true (tick d c ∷ es) =
    let rest = verdict (tick d c ∷ es) in if is_quiet (tick d c) then some link_dead else rest
verdict_after probed es = verdict es

verdict-tick :
    (d : Bool) (c : Conn) (es : List WatchEvent)
    → verdict (tick d c ∷ es) ≡ (if is_quiet (tick d c) then verdict_after true es else verdict es)
verdict-tick d c [] = ground arith
verdict-tick d c (link_ended e ∷ es) = ground arith
verdict-tick d c (sign ∷ es) = ground arith
verdict-tick d c (tick d' c' ∷ es) = ground arith

module _ (box : Secretbox) where
  watch-verdict_after :
      (probed : Bool) (es : List WatchEvent) → watch box probed es ≡ verdict_after probed es
  unfolding watch watch_event
  watch-verdict_after true [] = refl
  watch-verdict_after false [] = refl
  watch-verdict_after true (link_ended e ∷ es) = refl
  watch-verdict_after false (link_ended e ∷ es) = refl
  watch-verdict_after true (sign ∷ es) = watch-verdict_after false es
  watch-verdict_after false (sign ∷ es) = watch-verdict_after false es
  watch-verdict_after true (tick d c ∷ es) =
      ground (arith, watch-verdict_after false es, watch-verdict_after true es, verdict-tick d c es)
  watch-verdict_after false (tick d c ∷ es) =
      ground (arith, watch-verdict_after false es, watch-verdict_after true es, verdict-tick d c es)

  -- `watch` declares the link dead exactly at the second of two quiet ticks in a row: the reader was
  -- not blocked on its caller, a packet had been sealed, and no sign of life came between. It returns
  -- the cause of the link's end if that comes first, and waits otherwise.
  pub watch-verdict : (es : List WatchEvent) → watch box false es ≡ verdict es
  watch-verdict es = watch-verdict_after false es
