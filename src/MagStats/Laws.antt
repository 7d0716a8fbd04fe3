-- ===== src/MagStats/Laws.antt =====
-- Registrations, and the dump after them.
use ktcp_split.Common.{
  ℕ, ◌+◌, ◌≡◌, Bool, Option, none, some, List, [], ◌∷◌, ◌++◌, map, set, length, ◌==◌, ◌||◌, leb,
  if◌then◌else◌, ◌>>=◌,
}
use ktcp_split.Common.Int.{ℤ, pos}
use ktcp_split.Magazine.{Depot}
use ktcp_split.MagStats.{Stats, mag_stats_register, dump_iova_mag}

abbrev pub register_all : Bool → List ℕ → Stats → Option Stats
register_all dir [] s = some s
register_all dir (reg ∷ regs) s = mag_stats_register dir reg s >>= register_all dir regs

-- The first cells hold what was registered.
pub record Holds (xs : List ℕ) (s : Stats) : Type 0 where
  pub rest : List (Option ℕ)
  pub cells : s.entries ≡ map some xs ++ rest
  pub room : length xs + length rest ≡ 8
  pub count : s.users ≡ length xs

-- The statistics after a registration that there is room for.
abbrev registered : Bool → ℕ → Stats → Stats
registered dir reg s = record {
  file = if s.users + 1 == 1 then dir || s.file else s.file;
  users = s.users + 1;
  entries = set s.entries s.users (some reg);
}

module _ (allocator : ℕ → ℕ → Depot) where
  -- The lines of entries, in their order.
  abbrev pub lines_of : List ℕ → List (ℕ × ℕ × ℕ)
  lines_of [] = []
  lines_of (x ∷ xs) = dump_iova_mag allocator x ++ lines_of xs

  abbrev outcome : ℕ → List ℕ → Option (ℤ × List (ℕ × ℕ × ℕ))
  outcome n xs = if leb n 8 then some (pos 0, lines_of xs) else none
