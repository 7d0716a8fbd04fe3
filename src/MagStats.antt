-- ===== src/MagStats.antt =====
-- The statistics of the magazines, tcpsplit/lib/mag_stats.c, which no Makefile builds. The struct
-- dev_iova_mag is declared nowhere in the repository: `allocator` gives the four allocators of one, of
-- which only the counts are read.
pub mod Laws
mod Tests
use ktcp_split.Common.{
  ℕ, ◌+◌, Bool, true, false, Option, none, some, List, [], ◌∷◌, ◌++◌, set, length, ltb, ◌==◌,
  if◌then◌else◌, ◌>>=◌,
}
use ktcp_split.Common.Int.{ℤ, pos}
use ktcp_split.Magazine.{Depot}

-- `file` is that the file get_stats has been made, `entries` the array, whose first cells are NULL.
pub record Stats : Type 0 where
  pub file : Bool
  pub users : ℕ
  pub entries : List (Option ℕ)

abbrev pub repeat_null : ℕ → List (Option ℕ)
repeat_null ℕ.zero = []
repeat_null (ℕ.suc n) = none ∷ repeat_null n

abbrev pub no_stats : Stats
no_stats = record { file = false; users = 0; entries = repeat_null 8 }

-- `dir`: debugfs_create_dir gave a directory. PTR_ERR of a NULL directory is 0.
pub pcop_debug_init : Bool → Stats → ℤ × Stats
pcop_debug_init dir s = if dir then (pos 0, record s { file = true }) else (pos 0, s)

-- A write behind the array is `none`.
pub mag_stats_register : Bool → ℕ → Stats → Option Stats
unfolding pcop_debug_init
mag_stats_register dir reg s =
    let idx = s.users in
    let counted = record s { users = idx + 1 } in
    let opened = if counted.users == 1 then (pcop_debug_init dir counted).1 else counted in
    if ltb idx (length opened.entries)
    then some (record opened { entries = set opened.entries idx (some reg) })
    else none

module _ (allocator : ℕ → ℕ → Depot) where
  -- A line has the index, the full and the empty count.
  abbrev pub dump_line : ℕ → ℕ → ℕ × ℕ × ℕ
  dump_line entry i = (i, (allocator entry i).full_count, (allocator entry i).empty_count)

  pub dump_iova_mag : ℕ → List (ℕ × ℕ × ℕ)
  dump_iova_mag entry =
      dump_line entry 0 ∷ dump_line entry 1 ∷ dump_line entry 2 ∷ dump_line entry 3 ∷ []

  -- The cells that are left and the rounds. A NULL entry, or a cell behind the array, is `none`.
  abbrev pub dump_loop : ℕ → List (Option ℕ) → Option (List (ℕ × ℕ × ℕ))
  dump_loop ℕ.zero cells = some []
  dump_loop (ℕ.suc n) [] = none
  dump_loop (ℕ.suc n) (none ∷ cells) = none
  dump_loop (ℕ.suc n) (some entry ∷ cells) =
      dump_loop n cells >>= λ rest. some (dump_iova_mag entry ++ rest)

  pub dump_stats : Stats → Option (List (ℕ × ℕ × ℕ))
  dump_stats s = dump_loop s.users s.entries

  -- The result, and what goes to the trace.
  pub ta_dump_show : Stats → Option (ℤ × List (ℕ × ℕ × ℕ))
  ta_dump_show s = dump_stats s >>= λ lines. some (pos 0, lines)
