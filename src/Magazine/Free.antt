-- ===== src/Magazine/Free.antt =====
-- `mag_free_elem` on one pair: where the element goes, and what moves.
use native.Mathlib.Decide.{ℕ_discrete}
use ktcp_split.Common.{
  ℕ, suc, ◌+◌, ◌*◌, ◌≤◌, ◌<◌, ◌≡◌, ◌≢◌, refl, ap, some, List, [], ◌∷◌, arith, length, count, ◌==◌,
  if◌then◌else◌,
}
use ktcp_split.Common.Words.{u16}
use ktcp_split.Magazine.{
  Memory, MagPair, Depot, mag_depth, align, write, mag_pair_count, mag_pair_free, dec16,
  mag_allocator_switch_full, pair_free_elem,
}
use ktcp_split.Magazine.Contents.{
  held_in, held_pair, held_full, owns_pair, owns_depot, held_in-write_ne, held_in-write_above,
  held_full-write,
}
use ktcp_split.Magazine.Inv.{IsValidPair, IsValidDepot}

-- The slot that a push writes.
abbrev pub slot_mag : MagPair → ℕ
slot_mag pair = if pair.count0 == mag_depth then pair.mag1 else pair.mag0

abbrev pub slot : MagPair → ℕ
slot pair = if pair.count0 == mag_depth then pair.count1 else pair.count0

abbrev pub pushed : MagPair → MagPair
pushed pair =
    if pair.count0 == mag_depth
    then record pair { count1 = pair.count1 + 1 }
    else record pair { count0 = pair.count0 + 1 }

abbrev pub written : Memory → MagPair → ℕ → Memory
written m pair elem = write m (slot_mag pair) (slot pair) elem

-- The pair's two magazines are not NULL and not the same.
abbrev pub IsProper : MagPair → Type 0
IsProper pair = (pair.mag0 ≢ 0) × (pair.mag1 ≢ 0) × (pair.mag0 ≢ pair.mag1)

held_in-suc :
    (m : Memory) (e p i elem : ℕ)
    → held_in (write m p i elem) e p (i + 1) ≡ held_in m e p i + (if e == elem then 1 else 0)
held_in-suc m e p i elem =
    let s : i + 1 ≡ suc i = omega arith in rw s (ground (arith, held_in-write_above m e p i elem i))

module _ (m : Memory) (pair : MagPair) (elem : ℕ) (v : IsValidPair pair) (n : IsProper pair) where
  mag_pair_free-some : mag_pair_free m pair elem ≡ some (written m pair elem, pushed pair)
  unfolding mag_pair_free
  mag_pair_free-some = ground arith

  pushed-held :
      (e : ℕ)
      → held_pair (written m pair elem) e (pushed pair)
        ≡ held_pair m e pair + (if e == elem then 1 else 0)
  pushed-held e = elim (ℕ_discrete pair.count0 mag_depth) [
    | yes h ↦ ground (
      arith,
      held_in-suc m e pair.mag1 pair.count1 elem,
      held_in-write_ne m e pair.mag1 pair.count1 elem pair.mag0 pair.count0,
    )
    | no h ↦ ground (
      arith,
      held_in-suc m e pair.mag0 pair.count0 elem,
      held_in-write_ne m e pair.mag0 pair.count0 elem pair.mag1 pair.count1,
    )
  ]

-- What the return of an element to one pair does: the element is in, no magazine is lost, and the
-- only new one is what `kzalloc` returned.
pub record Freed (kzalloc elem : ℕ) (m : Memory) (d : Depot) (pair : MagPair) (m' : Memory)
    (d' : Depot) (pair' : MagPair) : Type 0 where
  pub pair_valid : IsValidPair pair'
  pub depot_valid : IsValidDepot d'
  pub elements :
      (e : ℕ)
      → held_pair m' e pair' + held_full m' e d'.full_list
        ≡ held_pair m e pair + held_full m e d.full_list + (if e == elem then 1 else 0)
  pub kept : (q : ℕ) → owns_pair q pair + owns_depot q d ≤ owns_pair q pair' + owns_depot q d'
  pub made :
      (q : ℕ)
      → owns_pair q pair' + owns_depot q d'
        ≤ owns_pair q pair + owns_depot q d + (if q == align kzalloc then 1 else 0)

module _ (kzalloc elem : ℕ) (m : Memory) (d : Depot) (pair : MagPair) (v : IsValidPair pair)
    (w : IsValidDepot d) (n : IsProper pair) (other : count (slot_mag pair) d.full_list ≡ 0) where
  written-full : (e : ℕ) → held_full (written m pair elem) e d.full_list ≡ held_full m e d.full_list
  written-full e = held_full-write m e (slot_mag pair) (slot pair) elem d.full_list other

  free_to_pair :
      pair.count0 + pair.count1 + 1 < mag_depth * 2
      → (pair_free_elem kzalloc m d pair elem ≡ some (written m pair elem, d, pushed pair))
        × Freed kzalloc elem m d pair (written m pair elem) d (pushed pair)
  unfolding pair_free_elem mag_pair_count
  free_to_pair h = (
    ground (arith, mag_pair_free-some m pair elem v n),
    record {
      pair_valid = ground arith;
      depot_valid = w;
      elements = λ e. omega (arith, pushed-held m pair elem v n e, written-full e);
      kept = λ q. ground arith;
      made = λ q. ground arith;
    },
  )

  -- The full second magazine goes to the depot, and `p` takes its place.
  abbrev emptied : ℕ → MagPair
  emptied p = record { mag0 = pair.mag0; mag1 = p; count0 = mag_depth; count1 = 0 }

  abbrev given : Depot
  given = record d { full_list = pair.mag1 ∷ d.full_list; full_count = u16 (d.full_count + 1) }

  abbrev traded : List ℕ → Depot
  traded ps = record given { empty_list = ps; empty_count = dec16 d.empty_count }

  full_elements :
      (p e : ℕ)
      → pair.count0 + pair.count1 + 1 ≡ mag_depth * 2
      → held_pair (written m pair elem) e (emptied p)
          + held_full (written m pair elem) e (pair.mag1 ∷ d.full_list)
        ≡ held_pair m e pair + held_full m e d.full_list + (if e == elem then 1 else 0)
  full_elements p e h =
      let e0 : (pushed pair).count0 ≡ mag_depth = ground arith in
      let e1 : (pushed pair).count1 ≡ mag_depth = ground arith in
      let p0 : (pushed pair).mag0 ≡ pair.mag0 = ground arith in
      let p1 : (pushed pair).mag1 ≡ pair.mag1 = ground arith in
      omega (
        arith,
        pushed-held m pair elem v n e,
        written-full e,
        ap (held_in (written m pair elem) e (pushed pair).mag0) e0,
        ap (held_in (written m pair elem) e (pushed pair).mag1) e1,
        ap (λ (q : ℕ). held_in (written m pair elem) e q mag_depth) p0,
        ap (λ (q : ℕ). held_in (written m pair elem) e q mag_depth) p1,
      )

  free_to_depot :
      d.empty_count ≡ 0
      → pair.count0 + pair.count1 + 1 ≡ mag_depth * 2
      → (pair_free_elem kzalloc m d pair elem
          ≡ some (written m pair elem, given, emptied (align kzalloc)))
        × Freed kzalloc elem m d pair (written m pair elem) given (emptied (align kzalloc))
  unfolding pair_free_elem mag_pair_count mag_allocator_switch_full
  free_to_depot c h = (
    ground (arith, mag_pair_free-some m pair elem v n),
    record {
      pair_valid = ground arith;
      depot_valid = ground (arith, w.full, w.empty);
      elements = λ e. full_elements (align kzalloc) e h;
      kept = λ q. ground arith;
      made = λ q. ground arith;
    },
  )

  trade_with_depot :
      (p : ℕ) (ps : List ℕ)
      → d.empty_list ≡ p ∷ ps
      → d.empty_count ≢ 0
      → pair.count0 + pair.count1 + 1 ≡ mag_depth * 2
      → (pair_free_elem kzalloc m d pair elem ≡ some (written m pair elem, traded ps, emptied p))
        × Freed kzalloc elem m d pair (written m pair elem) (traded ps) (emptied p)
  unfolding pair_free_elem mag_pair_count mag_allocator_switch_full
  trade_with_depot p ps l c h = (
    ground (arith, mag_pair_free-some m pair elem v n, l),
    record {
      pair_valid = ground arith;
      depot_valid = ground (arith, w.full, w.empty, ap length l);
      elements = λ e. full_elements p e h;
      kept = λ q. ground (arith, ap (count q) l);
      made = λ q. ground (arith, ap (count q) l);
    },
  )

  abbrev pub FreeResult : Type 0
  FreeResult =
      (d' : Depot) × (pair' : MagPair) × (pair_free_elem kzalloc m d pair elem
        ≡ some (written m pair elem, d', pair'))
      × Freed kzalloc elem m d pair (written m pair elem) d' pair'

  free_to_list :
      (l : List ℕ) → d.empty_list ≡ l → pair.count0 + pair.count1 + 1 ≡ mag_depth * 2 → FreeResult
  free_to_list [] l h =
      let (run, effect) = free_to_depot (omega (arith, w.empty, ap length l)) h in
      (_, _, run, effect)
  free_to_list (p ∷ ps) l h = elim (ℕ_discrete d.empty_count 0) [
    | yes c ↦ let (run, effect) = free_to_depot c h in (_, _, run, effect)
    | no c ↦ let (run, effect) = trade_with_depot p ps l c h in (_, _, run, effect)
  ]

  pub pair_free_elem-Freed : FreeResult
  pair_free_elem-Freed = elim (ℕ_discrete (pair.count0 + pair.count1 + 1) (mag_depth * 2)) [
    | yes h ↦ free_to_list d.empty_list refl h
    | no h ↦ let (run, effect) = free_to_pair (omega (arith, v.room)) in (_, _, run, effect)
  ]
