-- ===== src/Console/Windows/Writing.antt =====
-- What Write shows.
use et_go.Prelude.{ℕ, ◌≤◌, ◌<◌, ◌≡◌, ◌≢◌, ◌⊎◌, List, [], ◌++◌, length, All}
use et_go.Console.Windows.{all_written, short_write, bad_count, write_failed, Writes, write_units}

-- The size of a chunk handed to the console.
abbrev pub IsChunk : List ℕ → Type 0
IsChunk chunk = (0 < length chunk) × (length chunk ≤ write_units)

-- How a Write of these units ends: the console has shown a front of them, all where it succeeds, and an
-- error is that of the console's last answer.
pub record Shows (units : List ℕ) (r : Writes) : Type 0 where
  pub left : List ℕ
  pub sizes : All IsChunk r.chunks
  pub whole : units ≡ r.shown ++ left
  pub done :
      ((r.result ≡ all_written) × (left ≡ []))
      ⊎ ((left ≢ [])
          × ((r.result ≡ short_write)
              ⊎ (((n : ℕ) × (r.result ≡ bad_count n)) ⊎ ((e : ℕ) × (r.result ≡ write_failed e)))))
