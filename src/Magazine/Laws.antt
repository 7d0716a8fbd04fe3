-- ===== src/Magazine/Laws.antt =====
-- The whole allocator: what `mag_alloc_elem` and `mag_free_elem` promise to any context.
use ktcp_split.Common.{
  length, length-set, returned, ℕ, ◌+◌, ◌≤◌, ◌≡◌, ◌≢◌, ap, Option, none, some, arith, count,
  All-get, All-set, get_elem?, set, ◌==◌, if◌then◌else◌,
}
use native.Mathlib.Decide.{ℕ_discrete}
use ktcp_split.Magazine.{
  MagPair, Depot, MagAllocator, align, pair_alloc_elem, pair_free_elem, mag_alloc_elem,
  mag_free_elem,
}
use ktcp_split.Magazine.Contents.{
  held, owns_pair, owns_pairs, owns_depot, owns, owns_pair-le, held_pairs-set, held_pairs-set-write,
  owns_pairs-set,
}
use ktcp_split.Magazine.Inv.{IsValidPair, IsValid}
use ktcp_split.Magazine.Alloc.{Allocated, AllocResult, pair_alloc_elem-Allocated}
use ktcp_split.Magazine.Free.{Freed, IsProper, slot_mag, slot, written, pair_free_elem-Freed}

module _ (a : MagAllocator) (i : ℕ) (pair : MagPair) (v : IsValid a)
    (here : get_elem? a.pairs i ≡ some pair) where
  valid_pair : IsValidPair pair
  valid_pair = All-get IsValidPair a.pairs i pair v.pairs here

  owns_here : (q : ℕ) → owns_pair q pair + owns_depot q a.depot ≤ owns a q
  owns_here q = omega (arith, owns_pair-le q a.pairs i pair here)

  alloc_after :
      (elem : Option ℕ) (d : Depot) (pair' : MagPair)
      → Allocated a.memory a.depot pair elem d pair'
      → let a' = record a { depot = d; pairs = set a.pairs i pair' } in
        IsValid a' × ((e : ℕ) → held a e ≡ held a' e + returned e elem)
  alloc_after elem d pair' f = (
    record {
      pairs = All-set IsValidPair a.pairs i pair' v.pairs f.pair_valid;
      depot = f.depot_valid;
      unique =
          λ q. omega (arith, v.unique q, f.magazines q, owns_pairs-set q a.pairs i pair pair' here);
      nonnull = omega (arith, v.nonnull, f.magazines 0, owns_pairs-set 0 a.pairs i pair pair' here);
    },
    λ e. omega (arith, f.elements e, held_pairs-set a.memory e a.pairs i pair pair' here),
  )

  abbrev pub Allocation : Type 0
  Allocation =
      (elem : Option ℕ) × (a' : MagAllocator) × (mag_alloc_elem a i ≡ some (elem, a'))
      × IsValid a'
      × ((e : ℕ) → held a e ≡ held a' e + returned e elem)
      × (length a'.pairs ≡ length a.pairs)

  allocation :
      (elem : Option ℕ) (d : Depot) (pair' : MagPair)
      → pair_alloc_elem a.memory a.depot pair ≡ some (elem, d, pair')
      → Allocated a.memory a.depot pair elem d pair'
      → Allocation
  unfolding mag_alloc_elem
  allocation elem d pair' run f =
      let (valid, elements) = alloc_after elem d pair' f in
      (
        elem,
        record a { depot = d; pairs = set a.pairs i pair' },
        ground (arith, here, run),
        valid,
        elements,
        length-set a.pairs i pair',
      )

  pair_result : AllocResult a.memory a.depot pair valid_pair v.depot
  pair_result =
      pair_alloc_elem-Allocated a.memory a.depot pair valid_pair v.depot
        (omega (arith, owns_here 0, v.nonnull)) (omega (arith, owns_here 0, v.nonnull))

  -- In a valid allocator, an allocation from the pair at index i ends without a fault, keeps the
  -- allocator valid, and takes out exactly the element that it returns, or nothing if it returns
  -- NULL. No pair is lost.
  pub mag_alloc_elem_lem : Allocation
  mag_alloc_elem_lem =
      let (elem, d, pair', run, effect) = pair_result in allocation elem d pair' run effect

  null_cause :
      (elem : Option ℕ) (d : Depot) (pair' : MagPair) (a' : MagAllocator)
      → pair_alloc_elem a.memory a.depot pair ≡ some (elem, d, pair')
      → Allocated a.memory a.depot pair elem d pair'
      → mag_alloc_elem a i ≡ some (none, a')
      → (pair.count0 + pair.count1 ≡ 0) × (a.depot.full_count ≡ 0)
  unfolding mag_alloc_elem
  null_cause elem d pair' a' run f e = f.failed (ground (arith, here, run))

  -- In a valid allocator, an allocation from the pair at index i returns NULL only if both magazines
  -- of the pair are empty and the depot counts no full magazine.
  pub mag_alloc_elem-null :
      (a' : MagAllocator)
      → mag_alloc_elem a i ≡ some (none, a')
      → (pair.count0 + pair.count1 ≡ 0) × (a.depot.full_count ≡ 0)
  mag_alloc_elem-null a' e =
      let (elem, d, pair', run, effect) = pair_result in null_cause elem d pair' a' run effect e

module _ (a : MagAllocator) (i : ℕ) (pair : MagPair) (v : IsValid a)
    (here : get_elem? a.pairs i ≡ some pair) (kzalloc elem : ℕ) (success : kzalloc ≢ 0)
    (fresh : owns a (align kzalloc) ≡ 0) where
  proper : IsProper pair
  proper = (
    ground (arith, owns_here a i pair v here 0, v.nonnull),
    ground (arith, owns_here a i pair v here 0, v.nonnull),
    ground (arith, owns_here a i pair v here pair.mag0, v.unique pair.mag0),
  )

  slot_owned : 1 ≤ owns_pair (slot_mag pair) pair
  slot_owned = ground arith

  slot_alone : owns_pairs (slot_mag pair) a.pairs ≡ owns_pair (slot_mag pair) pair
  slot_alone = omega (
    arith,
    slot_owned,
    owns_pair-le (slot_mag pair) a.pairs i pair here,
    v.unique (slot_mag pair),
  )

  slot_not_full : count (slot_mag pair) a.depot.full_list ≡ 0
  slot_not_full =
      omega (arith, slot_owned, owns_here a i pair v here (slot_mag pair), v.unique (slot_mag pair))

  abbrev pub Return : Type 0
  Return =
      (a' : MagAllocator) × (mag_free_elem kzalloc a i elem ≡ some a')
      × IsValid a'
      × ((e : ℕ) → held a' e ≡ held a e + (if e == elem then 1 else 0))
      × ((q : ℕ) → owns a q ≤ owns a' q)
      × (length a'.pairs ≡ length a.pairs)

  return :
      (d : Depot) (pair' : MagPair)
      → pair_free_elem kzalloc a.memory a.depot pair elem
        ≡ some (written a.memory pair elem, d, pair')
      → Freed kzalloc elem a.memory a.depot pair (written a.memory pair elem) d pair'
      → Return
  unfolding mag_free_elem
  return d pair' run f = (
    record { memory = written a.memory pair elem; depot = d; pairs = set a.pairs i pair' },
    ground (arith, here, run),
    record {
      pairs = All-set IsValidPair a.pairs i pair' v.pairs f.pair_valid;
      depot = f.depot_valid;
      unique = λ q. elim (ℕ_discrete q (align kzalloc)) [
        | yes e ↦
            ground (arith, ap (owns a) e, f.made q, owns_pairs-set q a.pairs i pair pair' here)
        | no e ↦ ground (arith, v.unique q, f.made q, owns_pairs-set q a.pairs i pair pair' here)
      ];
      nonnull = ground (arith, v.nonnull, f.made 0, owns_pairs-set 0 a.pairs i pair pair' here);
    },
    λ e. omega (
      arith,
      f.elements e,
      held_pairs-set-write a.memory e (slot_mag pair) (slot pair) elem a.pairs i pair pair' here
          slot_alone,
    ),
    (λ q. omega (arith, f.kept q, owns_pairs-set q a.pairs i pair pair' here)),
    length-set a.pairs i pair',
  )

  -- In a valid allocator, if `kzalloc` returns memory that no magazine occupies, the return of an
  -- element to the pair at index i ends without a failed assertion or a fault, keeps the allocator
  -- valid, adds exactly that element, and loses no magazine and no pair.
  pub mag_free_elem_lem : Return
  mag_free_elem_lem =
      let (d, pair', run, effect) =
        pair_free_elem-Freed kzalloc elem a.memory a.depot pair (valid_pair a i pair v here) v.depot
          proper slot_not_full in
      return d pair' run effect
