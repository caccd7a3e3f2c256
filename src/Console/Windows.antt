-- ===== src/Console/Windows.antt =====
-- internal/console/console_windows.go: Read and Write.
--
-- A Read is a function of what the `closing` flag was where it is looked at, and of what each
-- ReadConsoleW gave; a Write of what each WriteConsoleW answered.
pub mod Reading
pub mod Writing
use et_go.Prelude.{
  ℕ, zero, suc, ◌+◌, ◌-◌, min, List, [], ◌∷◌, ◌++◌, Bool, true, false, Option, none, some, Bytes,
  length, take, drop, leb, ltb, ◌==◌, if◌then◌else◌,
}
use et_go.Console.Utf16.{decode_units, encode_bytes, chunk_len}

-- writeUnits.
abbrev pub write_units : ℕ
write_units = 8192

-- The reader's state; `high` is that of its decoder.
pub record Reader : Type 0 where
  pub high : ℕ
  pub pending : Bytes
  pub pending_off : ℕ

-- A ReadConsoleW: its units or its error, whether Close had started when it returned, and whether it had
-- at the next turn of the loop.
pub record ConsoleRead : Type 0 where
  pub units : List ℕ
  pub failed : Option ℕ
  pub closing : Bool
  pub closing_next : Bool

pub data ReadResult : Type 0 where
  got : Bytes → ReadResult
  closed blocked : ReadResult
  read_failed : ℕ → ReadResult

-- What a Read of at most `most` bytes returned, the state, and the console reads that it has not made.
pub record Returned : Type 0 where
  pub result : ReadResult
  pub reader : Reader
  pub later : List ConsoleRead

-- The end of Read: the copy out of what is pending.
abbrev pub advance : ℕ → Reader → Reader
advance n s =
    let off = s.pending_off + n in
    if off == length s.pending
    then record s { pending = []; pending_off = 0 }
    else record s { pending_off = off }

abbrev pub give : ℕ → List ConsoleRead → Reader → Returned
give most later s =
    let n = min most (length (drop s.pending_off s.pending)) in
    record {
      result = got (take n (drop s.pending_off s.pending));
      reader = advance n s;
      later = later;
    }

abbrev pub decoded : List ℕ → Reader → Reader
decoded units s = record {
  high = (decode_units s.high units).1;
  pending = (decode_units s.high units).0;
  pending_off = s.pending_off;
}

-- What stands behind a ReadConsoleW that has returned.
after_read : Bool → Option ℕ → Reader → List ConsoleRead → Returned → Returned
after_read true failed s later rest = record { result = closed; reader = s; later = later }
after_read false (some e) s later rest = record {
  result = read_failed e;
  reader = s;
  later = later;
}
after_read false none s later rest = rest

-- `Console.Read` with room for `most` bytes.
unfoldable pub read : ℕ → Bool → List ConsoleRead → Reader → Returned
unfolding after_read
read most true rs s = record { result = closed; reader = s; later = rs }
read zero false rs s = record { result = got []; reader = s; later = rs }
read (suc k) false [] s =
    if ltb 0 (length s.pending)
    then give (suc k) [] s
    else record { result = blocked; reader = s; later = [] }
read (suc k) false (r ∷ rs) s =
    let rest = read (suc k) r.closing_next rs (decoded r.units s) in
    if ltb 0 (length s.pending)
    then give (suc k) (r ∷ rs) s
    else after_read r.closing r.failed s rs rest

-- What a WriteConsoleW answered: how many units it has written, or an error.
pub data ConsoleWrite : Type 0 where
  wrote not_written : ℕ → ConsoleWrite

pub data WriteResult : Type 0 where
  all_written was_closed short_write out_of_fuel bad_limit : WriteResult
  write_failed bad_count : ℕ → WriteResult

-- How a Write returned, with the chunks that it handed to the console and the units that this reported as
-- written.
pub record Writes : Type 0 where
  pub result : WriteResult
  pub chunks : List (List ℕ)
  pub shown : List ℕ

abbrev pub stopped : WriteResult → List ℕ → Writes
stopped e chunk = record { result = e; chunks = chunk ∷ []; shown = [] }

-- What one answer comes to; `rest` is the loop behind it.
write_chunk : ConsoleWrite → List ℕ → Writes → Writes
write_chunk (not_written e) chunk rest = stopped (write_failed e) chunk
write_chunk (wrote zero) chunk rest = stopped short_write chunk
write_chunk (wrote (suc n)) chunk rest =
    if ltb (length chunk) (suc n) then stopped (bad_count (suc n)) chunk else record {
      result = rest.result;
      chunks = chunk ∷ rest.chunks;
      shown = take (suc n) chunk ++ rest.shown;
    }

advanced : ConsoleWrite → ℕ
advanced (wrote n) = n
advanced (not_written e) = 0

-- The loop of Write on fuel, from the i-th call on; chunkLen panics at none.
unfoldable pub write_loop : (ℕ → ConsoleWrite) → ℕ → ℕ → List ℕ → Writes
unfolding write_chunk advanced
write_loop answer zero i units = record { result = out_of_fuel; chunks = []; shown = [] }
write_loop answer (suc fuel) i [] = record { result = all_written; chunks = []; shown = [] }
write_loop answer (suc fuel) i (u ∷ us) =
    let units = u ∷ us in
    let rest = write_loop answer fuel (i + 1) (drop (advanced (answer i)) units) in
    elim (chunk_len units write_units) [
      | none ↦ record { result = bad_limit; chunks = []; shown = [] }
      | some n ↦ write_chunk (answer i) (take n units) rest
    ]

-- `Console.Write`, with the encoder's carry behind it. One turn for each unit and one more is enough.
unfoldable pub write : (ℕ → ConsoleWrite) → Bool → Bytes → Bytes → Writes × Bytes
unfolding write_loop
write answer true carry p = (record { result = was_closed; chunks = []; shown = [] }, carry)
write answer false carry p =
    let (units, left) = encode_bytes carry p in (write_loop answer (length units + 1) 0 units, left)
