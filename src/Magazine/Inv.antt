-- ===== src/Magazine/Inv.antt =====
-- The invariant of the magazine allocator, and the effect of the operations on one pair.
use ktcp_split.Common.{ℕ, ◌+◌, ◌*◌, ◌≤◌, ◌<◌, ◌≡◌, arith, length, All}
use ktcp_split.Common.Words.{u16}
use ktcp_split.Common.Bits.{xor_cancel}
use ktcp_split.Magazine.{Memory, MagPair, Depot, MagAllocator, mag_depth, swap_mags, settle}
use ktcp_split.Magazine.Contents.{held_pair, owns_pair, owns}

-- The counts are in range, the first magazine has elements if the second has, and one has room.
pub record IsValidPair (pair : MagPair) : Type 0 where
  pub fits0 : pair.count0 ≤ mag_depth
  pub fits1 : pair.count1 ≤ mag_depth
  pub first : pair.count0 ≡ 0 → pair.count1 ≡ 0
  pub room : pair.count0 + pair.count1 < mag_depth * 2

pub record IsValidDepot (d : Depot) : Type 0 where
  pub full : d.full_count ≡ u16 (length d.full_list)
  pub empty : d.empty_count ≡ u16 (length d.empty_list)

-- No magazine is owned twice, and NULL is none.
pub record IsValid (a : MagAllocator) : Type 0 where
  pub pairs : All IsValidPair a.pairs
  pub depot : IsValidDepot a.depot
  pub unique : (q : ℕ) → owns a q ≤ 1
  pub nonnull : owns a 0 ≡ 0

-- The XOR assignments exchange the magazines and the counts.
pub swap_mags_lem :
    (pair : MagPair)
    → swap_mags pair
      ≡ record { mag0 = pair.mag1; mag1 = pair.mag0; count0 = pair.count1; count1 = pair.count0 }
unfolding swap_mags
swap_mags_lem pair =
    ground (arith, xor_cancel pair.mag0 pair.mag1, xor_cancel pair.count0 pair.count1)

pub settle-held :
    (m : Memory) (e : ℕ) (pair : MagPair) → held_pair m e (settle pair) ≡ held_pair m e pair
unfolding settle
settle-held m e pair = ground (arith, swap_mags_lem pair)

pub settle-owns : (q : ℕ) (pair : MagPair) → owns_pair q (settle pair) ≡ owns_pair q pair
unfolding settle
settle-owns q pair = ground (arith, swap_mags_lem pair)
