-- ===== src/Magazine/Alloc.antt =====
-- `mag_alloc_elem` on one pair: where the element comes from, and what moves.
use ktcp_split.Common.{
  returned, ℕ, zero, suc, ◌+◌, ◌-◌, ◌<◌, ◌≡◌, ◌≢◌, refl, ap, Option, none, some, List, [], ◌∷◌,
  arith, length, count, ◌==◌, if◌then◌else◌,
}
use ktcp_split.Common.Words.{u16}
use ktcp_split.Magazine.{
  Memory, MagPair, Depot, mag_depth, settle, mag_pair_count, mag_pair_alloc, dec16,
  mag_allocator_switch_empty, pair_alloc_elem,
}
use ktcp_split.Magazine.Contents.{held_in, held_pair, held_full, owns_pair, owns_depot}
use native.Mathlib.Decide.{ℕ_discrete}
use ktcp_split.Magazine.Inv.{IsValidPair, IsValidDepot, swap_mags_lem, settle-held, settle-owns}

held_in-pred :
    (m : Memory) (e p c : ℕ)
    → 0 < c
    → held_in m e p c ≡ held_in m e p (c - 1) + (if e == m p (c - 1) then 1 else 0)
held_in-pred m e p zero h = elim h [ ]
held_in-pred m e p (suc c) h = let s : suc c - 1 ≡ c = omega arith in rw s refl

-- The element that a pop returns, and the pair that it leaves.
abbrev pub top : Memory → MagPair → ℕ
top m pair = m pair.mag0 (pair.count0 - 1)

abbrev pub popped : MagPair → MagPair
popped pair = settle (record pair { count0 = pair.count0 - 1 })

module _ (m : Memory) (pair : MagPair) (v : IsValidPair pair) where
  mag_pair_alloc-some :
      pair.mag0 ≢ 0
      → 0 < pair.count0
      → mag_pair_alloc m pair ≡ some (some (top m pair), popped pair)
  unfolding mag_pair_alloc
  mag_pair_alloc-some n h = ground arith

  mag_pair_alloc-none : pair.count0 ≡ 0 → mag_pair_alloc m pair ≡ some (none, pair)
  unfolding mag_pair_alloc
  mag_pair_alloc-none h = ground arith

  popped-IsValidPair : 0 < pair.count0 → IsValidPair (popped pair)
  unfolding settle
  popped-IsValidPair h = ground (arith, swap_mags_lem (record pair { count0 = pair.count0 - 1 }))

  popped-held :
      (e : ℕ)
      → 0 < pair.count0
      → held_pair m e pair ≡ held_pair m e (popped pair) + (if e == top m pair then 1 else 0)
  popped-held e h = omega (
    arith,
    held_in-pred m e pair.mag0 pair.count0 h,
    settle-held m e (record pair { count0 = pair.count0 - 1 }),
  )

  popped-owns : (q : ℕ) → owns_pair q (popped pair) ≡ owns_pair q pair
  popped-owns q = settle-owns q (record pair { count0 = pair.count0 - 1 })

-- What an allocation on one pair does: elements move out of the pair, magazines move between the
-- pair and the depot.
pub record Allocated (m : Memory) (d : Depot) (pair : MagPair) (elem : Option ℕ) (d' : Depot)
    (pair' : MagPair) : Type 0 where
  pub pair_valid : IsValidPair pair'
  pub depot_valid : IsValidDepot d'
  pub elements :
      (e : ℕ)
      → held_pair m e pair + held_full m e d.full_list
        ≡ held_pair m e pair' + held_full m e d'.full_list + returned e elem
  pub magazines : (q : ℕ) → owns_pair q pair' + owns_depot q d' ≡ owns_pair q pair + owns_depot q d
  pub failed : elem ≡ none → (pair.count0 + pair.count1 ≡ 0) × (d.full_count ≡ 0)

module _ (m : Memory) (d : Depot) (pair : MagPair) (v : IsValidPair pair) (w : IsValidDepot d) where
  alloc_from_pair :
      pair.mag0 ≢ 0
      → 0 < pair.count0
      → (pair_alloc_elem m d pair ≡ some (some (top m pair), d, popped pair))
        × Allocated m d pair (some (top m pair)) d (popped pair)
  unfolding pair_alloc_elem mag_pair_count
  alloc_from_pair n h = (
    ground (arith, mag_pair_alloc-some m pair v n h),
    record {
      pair_valid = popped-IsValidPair m pair v h;
      depot_valid = w;
      elements = λ e. omega (arith, popped-held m pair v e h);
      magazines = λ q. omega (arith, popped-owns m pair v q);
      failed = λ e. cc;
    },
  )

  alloc_nothing :
      pair.count0 ≡ 0
      → d.full_count ≡ 0
      → (pair_alloc_elem m d pair ≡ some (none, d, pair)) × Allocated m d pair none d pair
  unfolding pair_alloc_elem mag_pair_count mag_allocator_switch_empty
  alloc_nothing h k = (
    ground (arith, mag_pair_alloc-none m pair v h, v.first h),
    record {
      pair_valid = v;
      depot_valid = w;
      elements = λ e. omega arith;
      magazines = λ q. omega arith;
      failed = λ e. omega (arith, v.first h);
    },
  )

  -- The first full magazine of the depot takes the place of the empty one.
  abbrev refilled : ℕ → MagPair
  refilled p = record pair { mag0 = p; count0 = mag_depth }

  abbrev exchanged : List ℕ → Depot
  exchanged ps = record {
    full_list = ps;
    full_count = dec16 d.full_count;
    empty_list = pair.mag0 ∷ d.empty_list;
    empty_count = u16 (d.empty_count + 1);
  }

  alloc_from_depot :
      (p : ℕ) (ps : List ℕ)
      → d.full_list ≡ p ∷ ps
      → pair.mag0 ≢ 0
      → p ≢ 0
      → pair.count0 ≡ 0
      → d.full_count ≢ 0
      → (pair_alloc_elem m d pair
          ≡ some (some (top m (refilled p)), exchanged ps, popped (refilled p)))
        × Allocated m d pair (some (top m (refilled p))) (exchanged ps) (popped (refilled p))
  unfolding pair_alloc_elem mag_pair_count mag_allocator_switch_empty
  alloc_from_depot p ps l n k h c =
      let filled : IsValidPair (refilled p) = ground (arith, v.first h) in
      (
        ground (arith, mag_pair_alloc-some m (refilled p) filled k (omega arith), v.first h),
        record {
          pair_valid = popped-IsValidPair m (refilled p) filled (omega arith);
          depot_valid = ground (arith, w.full, w.empty, ap length l);
          elements = λ e. omega (
            arith,
            popped-held m (refilled p) filled e (omega arith),
            ap (held_in m e pair.mag0) h,
            ap (held_in m e pair.mag1) (v.first h),
            ap (held_full m e) l,
          );
          magazines = λ q. omega (arith, popped-owns m (refilled p) filled q, ap (count q) l);
          failed = λ e. cc;
        },
      )

  abbrev pub AllocResult : Type 0
  AllocResult =
      (elem : Option ℕ) × (d' : Depot) × (pair' : MagPair) × (pair_alloc_elem m d pair
        ≡ some (elem, d', pair'))
      × Allocated m d pair elem d' pair'

  alloc_from_list :
      (l : List ℕ)
      → d.full_list ≡ l
      → count 0 l ≡ 0
      → pair.mag0 ≢ 0
      → pair.count0 ≡ 0
      → d.full_count ≢ 0
      → AllocResult
  alloc_from_list [] l z n h c = absurd (omega (arith, w.full, ap length l))
  alloc_from_list (p ∷ ps) l z n h c =
      let (run, effect) = alloc_from_depot p ps l n (ground arith) h c in (_, _, _, run, effect)

  -- The code neither faults nor fails an assertion.
  pub pair_alloc_elem-Allocated : owns_pair 0 pair ≡ 0 → count 0 d.full_list ≡ 0 → AllocResult
  pair_alloc_elem-Allocated n z = elim (ℕ_discrete pair.count0 0) [
    | no more ↦
        let (run, effect) = alloc_from_pair (ground arith) (omega arith) in (_, _, _, run, effect)
    | yes h ↦ elim (ℕ_discrete d.full_count 0) [
      | yes k ↦ let (run, effect) = alloc_nothing h k in (_, _, _, run, effect)
      | no k ↦ alloc_from_list d.full_list refl z (ground arith) h k
    ]
  ]
