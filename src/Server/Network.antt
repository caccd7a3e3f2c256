-- ===== src/Server/Network.antt =====
-- internal/etservertest/network.go: the in-memory network between a client and the server, which cuts
-- connections.
--
-- A pair is named by the number of the dial that made it. What the goroutine of a pair does is a step:
-- `served` is its end. `ended` is that the network's context has ended.
pub mod Cutting
use et_go.Prelude.{
  ℕ, ◌+◌, ◌-◌, List, [], ◌∷◌, ◌++◌, Bool, true, false, not, ◌||◌, ◌&&◌, Option, none, some, Bytes,
  length, take, ltb, leb, ◌==◌, if◌then◌else◌, ℤ, pos, negsuc,
}
use et_go.Wire.Stream.{Writer, IoErr, conn_closed}

-- `pair`; `closed` is that its `once` has run.
pub record Pair : Type 0 where
  pub remaining : ℤ
  pub closed : Bool

pub record Network : Type 0 where
  pub ended : Bool
  pub pairs : List (ℕ × Pair)
  pub refuse : Bool
  pub dials : ℕ
  pub cut_after : ℤ

-- `NewNetwork`.
unfoldable pub new_network : Network
new_network = record { ended = false; pairs = []; refuse = false; dials = 0; cut_after = negsuc 0 }

-- What `DialContext` returns: the client's end of a pair, or an error.
pub data Dialled : Type 0 where
  connected : ℕ → Dialled
  refused : Dialled
  ctx_ended : ℕ → Dialled

dial_live : Network → Dialled × Network
dial_live n = if n.refuse || n.ended then (refused, n) else (
  connected n.dials,
  record n {
    cut_after = negsuc 0;
    pairs = n.pairs ++ ((n.dials, record { remaining = n.cut_after; closed = false }) ∷ []);
  },
)

unfoldable pub dial_context : Option ℕ → Network → Dialled × Network
unfolding dial_live
dial_context ctx n =
    let n' = record n { dials = n.dials + 1 } in
    elim ctx [ some e ↦ (ctx_ended e, n') | none ↦ dial_live n' ]

-- `pair.close`.
unfoldable pub close : Pair → Pair
close p = record p { closed = true }

-- The end of the goroutine that serves a pair.
unfoldable pub served : ℕ → List (ℕ × Pair) → List (ℕ × Pair)
served key [] = []
served key ((k, p) ∷ ps) = if k == key then served key ps else (k, p) ∷ served key ps

-- `CutAll`.
close_each : List (ℕ × Pair) → List (ℕ × Pair)
close_each [] = []
close_each ((k, p) ∷ ps) = (k, close p) ∷ close_each ps

unfoldable pub cut_all : Network → Network
unfolding close_each close
cut_all n = record n { pairs = close_each n.pairs }

-- `CutAfter`, `SetRefuse`, `Dials`, and `Close` up to its wait.
unfoldable pub cut_next : ℤ → Network → Network
cut_next bytes n = record n { cut_after = bytes }

unfoldable pub set_refuse : Bool → Network → Network
set_refuse on n = record n { refuse = on }

abbrev pub dials_of : Network → ℕ
dials_of n = n.dials

unfoldable pub close_network : Network → Network
unfolding cut_all
close_network n = cut_all (record n { ended = true })

-- `pair.take`: how many of `n` bytes may cross, and whether the pair is cut behind them.
abbrev smaller : ℕ → ℕ → ℕ
smaller a b = if leb a b then a else b

take_budget : ℤ → ℕ → Pair → ℕ × Bool × Pair
take_budget (negsuc k) n p = (n, false, p)
take_budget (pos k) n p =
    let allowed = smaller n k in
    (allowed, k - allowed == 0, record p { remaining = pos (k - allowed) })

unfoldable pub reserve : ℕ → Pair → ℕ × Bool × Pair
unfolding take_budget
reserve n p = take_budget p.remaining n p

-- `pipeEnd.Write` over the Write of its pipe, which depends on whether that is closed.
cut_write : ℕ → Bool → ℕ × Option IoErr → Pair → ℕ × Option IoErr × Pair
cut_write len false (n, e) p = (n, e, p)
cut_write len true (n, some e) p = (n, some e, close p)
cut_write len true (n, none) p = (n, if ltb n len then some conn_closed else none, close p)

unfoldable pub write : (Bool → Writer) → Bytes → Pair → ℕ × Option IoErr × Pair
unfolding cut_write close
write pipe b p =
    let (allowed, cut, p') = reserve (length b) p in
    cut_write (length b) cut (pipe p.closed (take allowed b)) p'

-- `pipeEnd.Close`.
unfoldable pub close_end : Pair → Pair
unfolding close
close_end p = close p

-- Writes from either end, one after the other: what crossed, and the pair behind them.
unfoldable pub write_all : (Bool → Writer) → List Bytes → Pair → Bytes × Pair
write_all pipe [] p = ([], p)
write_all pipe (b ∷ bs) p =
    let (n, e, p') = write pipe b p in
    let (crossed, p'') = write_all pipe bs p' in (take n b ++ crossed, p'')
