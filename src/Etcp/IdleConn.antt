-- ===== src/Etcp/IdleConn.antt =====
-- internal/etcp/idleconn.go: a connection whose deadlines move with its progress.
--
-- The connection is an argument: the error of setting a deadline before the i-th Write, and the count and
-- error of that Write. What Write does to it is kept in order.
pub mod Fresh
use et_go.Prelude.{
  ℕ, zero, suc, ◌+◌, ◌*◌, ◌^◌, min, List, [], ◌∷◌, ◌++◌, Bool, true, false, Option, none, some,
  Bytes, length, take, drop, ltb, if◌then◌else◌,
}

-- idleChunk.
abbrev pub idle_chunk : ℕ
idle_chunk = 64 * 2 ^ 10

pub data Effect : Type 0 where
  set_read_deadline set_write_deadline : Effect
  wrote : Bytes → Effect
  read_some : ℕ → Effect

pub record Written : Type 0 where
  pub count : ℕ
  pub failed : Option ℕ
  pub effects : List Effect

-- A deadline set where there was progress; its own error is left to the next operation.
abbrev pub on_progress : ℕ → Effect → List Effect
on_progress zero e = []
on_progress (suc n) e = e ∷ []

-- `idleConn.Read`, with what SetReadDeadline and the connection's Read answer.
unfoldable pub read : Option ℕ → ℕ × Option ℕ → Written
read (some e) answer = record { count = 0; failed = some e; effects = [] }
read none (n, e) = record {
  count = n;
  failed = e;
  effects = set_read_deadline ∷ read_some n ∷ on_progress n set_write_deadline;
}

-- The effects of one Write of the connection, of which `m` bytes went out.
abbrev pub sent_effects : ℕ → Bytes → List Effect
sent_effects m piece = set_write_deadline ∷ wrote (take m piece) ∷ on_progress m set_read_deadline

after_write : ℕ × Option ℕ → Bytes → Written → Written
after_write (m, some e) piece rest = record {
  count = m;
  failed = some e;
  effects = sent_effects m piece;
}
after_write (m, none) piece rest = record {
  count = m + rest.count;
  failed = rest.failed;
  effects = sent_effects m piece ++ rest.effects;
}

module _ (deadline : ℕ → Option ℕ) (conn : ℕ → Bytes → ℕ × Option ℕ) where
  -- `idleConn.Write` on fuel, from the i-th Write on.
  unfoldable pub write_from : ℕ → ℕ → Bytes → Written
  unfolding after_write
  write_from zero i p = record { count = 0; failed = none; effects = [] }
  write_from (suc fuel) i p =
      let piece = take idle_chunk p in
      let answer = conn i piece in
      let rest = write_from fuel (i + 1) (drop answer.0 p) in
      let tried : Written = elim (deadline i) [
        | some e ↦ record { count = 0; failed = some e; effects = [] }
        | none ↦ after_write answer piece rest
      ] in
      if ltb 0 (length p) then tried else record { count = 0; failed = none; effects = [] }

  -- One turn for each byte and one more is enough.
  abbrev pub write : Bytes → Written
  write p = write_from (length p + 1) 0 p
