-- ===== src/Magazine/Tests.antt =====
-- Runs of the allocator, and the theorems at concrete allocators.
use ktcp_split.Common.{ℕ, ◌+◌, ◌≡◌, ◌≢◌, refl, Option, List, none, some, [], ◌∷◌, arith}
use ktcp_split.Magazine.{
  Memory, MagPair, MagAllocator, align, swap_mags, mag_alloc_elem, pair_alloc_elem,
}
use ktcp_split.Magazine.Contents.{owns}
use ktcp_split.Magazine.Inv.{IsValid}
use ktcp_split.Magazine.Laws.{Return, mag_free_elem_lem}
use ktcp_split.Magazine.Bag.{Op, alloc, free, run, Steps, bag, run-Steps}
use ktcp_split.ThreadPool.MagazineStore.{past, HasRoom-past}

-- The elements 64 to 67 fill the magazine at 64; 112 is in the one at 112.
abbrev memory : Memory
memory p i = p + i

abbrev pair : MagPair
pair = record { mag0 = 64; mag1 = 112; count0 = 4; count1 = 1 }

abbrev drained : MagPair
drained = record { mag0 = 256; mag1 = 304; count0 = 0; count1 = 0 }

abbrev allocator : MagAllocator
allocator = record {
  memory = memory;
  depot = record { full_list = []; empty_list = 512 ∷ []; full_count = 0; empty_count = 1 };
  pairs = pair ∷ drained ∷ [];
}

allocator-IsValid : IsValid allocator
allocator-IsValid = ground arith

swap_mags_twice : swap_mags (swap_mags pair) ≡ pair
unfolding swap_mags
swap_mags_twice = refl

bh_context_is_empty : mag_alloc_elem allocator 1 ≡ some (none, allocator)
unfolding mag_alloc_elem pair_alloc_elem
bh_context_is_empty = refl

mag_free_elem_lem_example :
    Return allocator 0 pair allocator-IsValid refl 1024 7 (λ e. omega arith) refl
mag_free_elem_lem_example =
    mag_free_elem_lem allocator 0 pair allocator-IsValid refl 1024 7 (λ e. omega arith) refl

abbrev ops : List Op
ops = alloc 0 ∷ free 1 9 ∷ alloc 0 ∷ []

abbrev room : MagAllocator → ℕ
room a = past a

room_fresh : (a : MagAllocator) → IsValid a → (room a ≢ 0) × (owns a (align (room a)) ≡ 0)
room_fresh a v =
    let (_, some_room, unowned) = HasRoom-past 1 a (omega arith) in (some_room, unowned)

run-Steps_example :
    (elems : List (Option ℕ)) × (a : MagAllocator) × (run room ops allocator ≡ some (elems, a))
    × IsValid a
    × Steps ops elems (bag allocator) (bag a)
run-Steps_example = run-Steps room room_fresh ops allocator allocator-IsValid (omega arith)
