-- ===== src/MagStats/Tests.antt =====
-- Runs of the statistics.
use ktcp_split.Common.{ℕ, List, [], ◌∷◌}
use ktcp_split.Magazine.{Depot}

-- The allocator `i` of an entry has `i` full and `entry` empty magazines.
abbrev depots : ℕ → ℕ → Depot
depots entry i = record { full_list = []; empty_list = []; full_count = i; empty_count = entry }

abbrev two : List ℕ
two = 30 ∷ 40 ∷ []
