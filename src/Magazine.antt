-- ===== src/Magazine.antt =====
-- tcpsplit/magazine.c and tcpsplit/lib/magazine.h: the element allocator of the thread pool.
-- A magazine is the address of a stack of MAG_DEPTH slots in `Memory`; address 0 is NULL. Each CPU
-- owns two pairs of magazines, and the depot holds full and empty ones in two lists. `none` is a
-- failed assertion or an access that faults.
pub mod Contents
pub mod Inv
pub mod Alloc
pub mod Free
pub mod Laws
pub mod Bag
pub mod Init
mod Tests
use ktcp_split.Common.{
  ℕ, ◌+◌, ◌-◌, ◌*◌, ◌/◌, Bool, ◌&&◌, ◌||◌, Option, none, some, List, [], ◌∷◌, ltb, ◌==◌,
  if◌then◌else◌, get_elem?, set, ◌^◌, bit_xor, ◌>>=◌,
}
use ktcp_split.Common.Words.{u16, u32}

abbrev pub mag_depth : ℕ
mag_depth = 4

abbrev pub l1_cache_bytes : ℕ
l1_cache_bytes = 64

-- `struct magazine`, its stack only: the slot `i` of the magazine at address `p`.
abbrev pub Memory : Type 0
Memory = ℕ → ℕ → ℕ

-- `struct mag_pair`
pub record MagPair : Type 0 where
  pub mag0 : ℕ
  pub mag1 : ℕ
  pub count0 : ℕ
  pub count1 : ℕ

-- The lists and counters of `struct mag_allocator`, the list's first entry first.
pub record Depot : Type 0 where
  pub full_list : List ℕ
  pub empty_list : List ℕ
  pub full_count : ℕ
  pub empty_count : ℕ

-- `struct mag_allocator`; `pairs` has the pair of cpu `c` at `2 * c`, and its _bh pair behind it.
pub record MagAllocator : Type 0 where
  pub memory : Memory
  pub depot : Depot
  pub pairs : List MagPair

abbrev pub load : Memory → ℕ → ℕ → Option ℕ
load m p i = if p == 0 then none else (if ltb i mag_depth then some (m p i) else none)

abbrev pub write : Memory → ℕ → ℕ → ℕ → Memory
write m p i v q j = if p == q && i == j then v else m q j

abbrev pub store : Memory → ℕ → ℕ → ℕ → Option Memory
store m p i v = if p == 0 then none else (if ltb i mag_depth then some (write m p i v) else none)

pub mag_pair_count : MagPair → ℕ
mag_pair_count pair = u32 (pair.count0 + pair.count1)

-- Six assignments, in the source's order.
pub swap_mags : MagPair → MagPair
swap_mags pair =
    let m0 = bit_xor pair.mag0 pair.mag1 in
    let m1 = bit_xor pair.mag1 m0 in
    let c0 = bit_xor pair.count0 pair.count1 in
    let c1 = bit_xor pair.count1 c0 in
    record { mag0 = bit_xor m0 m1; mag1 = m1; count0 = bit_xor c0 c1; count1 = c1 }

-- Make sure that, if there are elements in the pair, magazine 0 has them.
pub settle : MagPair → MagPair
settle pair = if pair.count0 == 0 then swap_mags pair else pair

-- The popped element, or `none` for NULL, and the pair.
pub mag_pair_alloc : Memory → MagPair → Option (Option ℕ × MagPair)
unfolding settle
mag_pair_alloc m pair = if pair.count0 == 0 then some (none, pair) else (do
  elem ← load m pair.mag0 (pair.count0 - 1)
  some (some elem, settle (record pair { count0 = pair.count0 - 1 })))

pub mag_pair_free : Memory → MagPair → ℕ → Option (Memory × MagPair)
mag_pair_free m pair elem =
    if ltb count0 mag_depth || ltb count1 mag_depth
    then (if count0 == mag_depth
        then (do
          m' ← store m mag1 count1 elem
          some (m', record pair { count1 = u32 (count1 + 1) }))
        else (do
          m' ← store m mag0 count0 elem
          some (m', record pair { count0 = u32 (count0 + 1) })))
    else none
  where
    open pair use {mag0, mag1, count0, count1}

-- ALIGN(ptr, L1_CACHE_BYTES)
abbrev pub align : ℕ → ℕ
align p = (p + (l1_cache_bytes - 1)) / l1_cache_bytes * l1_cache_bytes

-- The first entry of a list; the head of an empty list is no magazine.
abbrev pub first_entry : List ℕ → Option (ℕ × List ℕ)
first_entry [] = none
first_entry (p ∷ ps) = some (p, ps)

-- `list_add` of a magazine, whose own list node it writes.
abbrev pub list_add : ℕ → List ℕ → Option (List ℕ)
list_add p ps = if p == 0 then none else some (p ∷ ps)

-- `--x` on a uint16_t
abbrev pub dec16 : ℕ → ℕ
dec16 n = u16 (n + (2 ^ 16 - 1))

-- What the pair gets in exchange for its full magazine: an empty one of the depot, or the memory
-- that `kzalloc` returns (0 for NULL), which is not checked.
pub take_empty : ℕ → Depot → Option (ℕ × Depot)
take_empty kzalloc d = if d.empty_count == 0 then some (align kzalloc, d) else (do
  (p, ps) ← first_entry d.empty_list
  some (p, record d { empty_list = ps; empty_count = dec16 d.empty_count }))

pub give_full : ℕ → Depot → Option Depot
give_full p d = do
  ps ← list_add p d.full_list
  some (record d { full_list = ps; full_count = u16 (d.full_count + 1) })

pub mag_allocator_switch_full : ℕ → Depot → MagPair → Option (Depot × MagPair)
unfolding take_empty give_full
mag_allocator_switch_full kzalloc d pair =
    if pair.count1 == mag_depth
    then (do
      d' ← give_full pair.mag1 d
      (p, d'') ← take_empty kzalloc d'
      some (d'', record pair { mag1 = p; count1 = 0 }))
    else if pair.count0 == mag_depth
    then (do
      d' ← give_full pair.mag0 d
      (p, d'') ← take_empty kzalloc d'
      some (d'', record pair { mag0 = p; count0 = 0 }))
    else none

pub give_empty : ℕ → Depot → Option Depot
give_empty p d = do
  ps ← list_add p d.empty_list
  some (record d { empty_list = ps; empty_count = u16 (d.empty_count + 1) })

pub take_full : Depot → Option (ℕ × Depot)
take_full d = do
  (p, ps) ← first_entry d.full_list
  some (p, record d { full_list = ps; full_count = dec16 d.full_count })

pub mag_allocator_switch_empty : Depot → MagPair → Option (Depot × MagPair)
unfolding give_empty take_full
mag_allocator_switch_empty d pair =
    if d.full_count == 0
    then some (d, pair)
    else if pair.count0 == 0
    then (do
      d' ← give_empty pair.mag0 d
      (p, d'') ← take_full d'
      some (d'', record pair { mag0 = p; count0 = mag_depth }))
    else (do
      d' ← give_empty pair.mag1 d
      (p, d'') ← take_full d'
      some (d'', record pair { mag1 = p; count1 = mag_depth }))

-- `mag_alloc_elem` on the pair of the running context.
pub pair_alloc_elem : Memory → Depot → MagPair → Option (Option ℕ × Depot × MagPair)
unfolding mag_pair_count mag_allocator_switch_empty mag_pair_alloc
pair_alloc_elem m d pair = do
  (d', pair') ←
      if mag_pair_count pair == 0 then mag_allocator_switch_empty d pair else some (d, pair)
  (elem, pair'') ← mag_pair_alloc m pair'
  some (elem, d', pair'')

-- `mag_free_elem` on the pair of the running context.
pub pair_free_elem : ℕ → Memory → Depot → MagPair → ℕ → Option (Memory × Depot × MagPair)
unfolding mag_pair_count mag_allocator_switch_full mag_pair_free
pair_free_elem kzalloc m d pair elem = do
  (m', pair') ← mag_pair_free m pair elem
  (d', pair'') ←
      if mag_pair_count pair' == mag_depth * 2
      then mag_allocator_switch_full kzalloc d pair'
      else some (d, pair')
  some (m', d', pair'')

-- The pair of `get_cpu_mag_pair` is named by its index in `pairs`.
pub mag_alloc_elem : MagAllocator → ℕ → Option (Option ℕ × MagAllocator)
mag_alloc_elem a i = do
  pair ← get_elem? a.pairs i
  (elem, d, pair') ← pair_alloc_elem a.memory a.depot pair
  some (elem, record a { depot = d; pairs = set a.pairs i pair' })

pub mag_free_elem : ℕ → MagAllocator → ℕ → ℕ → Option MagAllocator
mag_free_elem kzalloc a i elem = do
  pair ← get_elem? a.pairs i
  (m, d, pair') ← pair_free_elem kzalloc a.memory a.depot pair elem
  some (record { memory = m; depot = d; pairs = set a.pairs i pair' })

-- get_cpu_mag_pair
pub cpu_mag_index : ℕ → Bool → ℕ
cpu_mag_index cpu in_softirq = cpu * 2 + (if in_softirq then 1 else 0)

abbrev sizeof_magazine : ℕ
sizeof_magazine = 48

pub init_mag_pair : ℕ → Option MagPair
init_mag_pair kzalloc =
    if kzalloc == 0
    then none
    else some (record {
      mag0 = align kzalloc;
      mag1 = align kzalloc + sizeof_magazine;
      count0 = 0;
      count1 = 0;
    })

pub init_mag_pairs : List ℕ → Option (List MagPair)
unfolding init_mag_pair
init_mag_pairs [] = some []
init_mag_pairs (kzalloc ∷ kzallocs) = do
  pair ← init_mag_pair kzalloc
  pairs ← init_mag_pairs kzallocs
  some (pair ∷ pairs)

-- The list has the result of `kzalloc` for each pair, two for a cpu.
pub mag_allocator_init : Memory → List ℕ → Option MagAllocator
unfolding init_mag_pairs
mag_allocator_init m kzallocs = do
  pairs ← init_mag_pairs kzallocs
  some (record { memory = m; depot = fresh; pairs = pairs })
  where
    fresh : Depot
    fresh = record { full_list = []; empty_list = []; full_count = 0; empty_count = 0 }
