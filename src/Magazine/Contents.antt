-- ===== src/Magazine/Contents.antt =====
-- What a magazine allocator holds: how often an element is in it, and how often a magazine is owned.
use ktcp_split.Common.{
  ℕ, zero, suc, ◌+◌, ◌≤◌, ◌≡◌, ◌≢◌, refl, ap, some, List, [], ◌∷◌, arith, ◌==◌, if◌then◌else◌,
  count, get_elem?, set,
}
use mathlib.Core.Option.{some-injective}
use ktcp_split.Magazine.{Memory, MagPair, Depot, MagAllocator, mag_depth, write}

-- How often `e` is among the `c` lowest slots of the magazine `p`.
abbrev pub held_in : Memory → ℕ → ℕ → ℕ → ℕ
held_in m e p zero = 0
held_in m e p (suc c) = held_in m e p c + (if e == m p c then 1 else 0)

abbrev pub held_pair : Memory → ℕ → MagPair → ℕ
held_pair m e pair = held_in m e pair.mag0 pair.count0 + held_in m e pair.mag1 pair.count1

abbrev pub held_full : Memory → ℕ → List ℕ → ℕ
held_full m e [] = 0
held_full m e (p ∷ ps) = held_in m e p mag_depth + held_full m e ps

abbrev pub held_pairs : Memory → ℕ → List MagPair → ℕ
held_pairs m e [] = 0
held_pairs m e (pair ∷ pairs) = held_pair m e pair + held_pairs m e pairs

-- The multiset of the free elements, as the multiplicity of `e`.
abbrev pub held : MagAllocator → ℕ → ℕ
held a e = held_pairs a.memory e a.pairs + held_full a.memory e a.depot.full_list

abbrev pub owns_pair : ℕ → MagPair → ℕ
owns_pair q pair = (if q == pair.mag0 then 1 else 0) + (if q == pair.mag1 then 1 else 0)

abbrev pub owns_pairs : ℕ → List MagPair → ℕ
owns_pairs q [] = 0
owns_pairs q (pair ∷ pairs) = owns_pair q pair + owns_pairs q pairs

abbrev pub owns_depot : ℕ → Depot → ℕ
owns_depot q d = count q d.full_list + count q d.empty_list

abbrev pub owns : MagAllocator → ℕ → ℕ
owns a q = owns_pairs q a.pairs + owns_depot q a.depot

pub held_in-write_ne :
    (m : Memory) (e p i v q c : ℕ) → p ≢ q → held_in (write m p i v) e q c ≡ held_in m e q c
held_in-write_ne m e p i v q zero h = refl
held_in-write_ne m e p i v q (suc c) h = ground (arith, held_in-write_ne m e p i v q c h)

pub held_in-write_above :
    (m : Memory) (e p i v c : ℕ) → c ≤ i → held_in (write m p i v) e p c ≡ held_in m e p c
held_in-write_above m e p i v zero h = refl
held_in-write_above m e p i v (suc c) h = ground (arith, held_in-write_above m e p i v c)

pub held_full-write :
    (m : Memory) (e p i v : ℕ) (ps : List ℕ)
    → count p ps ≡ 0
    → held_full (write m p i v) e ps ≡ held_full m e ps
held_full-write m e p i v [] h = refl
held_full-write m e p i v (q ∷ ps) h =
    let ne : p ≢ q = ground arith in
    let rest : count p ps ≡ 0 = omega arith in
    omega (arith, held_in-write_ne m e p i v q mag_depth ne, held_full-write m e p i v ps rest)

held_pairs-write :
    (m : Memory) (e p i v : ℕ) (ps : List MagPair)
    → owns_pairs p ps ≡ 0
    → held_pairs (write m p i v) e ps ≡ held_pairs m e ps
held_pairs-write m e p i v [] h = refl
held_pairs-write m e p i v (q ∷ ps) h =
    let ne0 : p ≢ q.mag0 = ground arith in
    let ne1 : p ≢ q.mag1 = ground arith in
    let rest : owns_pairs p ps ≡ 0 = omega arith in
    omega (
      arith,
      held_in-write_ne m e p i v q.mag0 q.count0 ne0,
      held_in-write_ne m e p i v q.mag1 q.count1 ne1,
      held_pairs-write m e p i v ps rest,
    )

pub owns_pair-le :
    (q : ℕ) (ps : List MagPair) (i : ℕ) (old : MagPair)
    → get_elem? ps i ≡ some old
    → owns_pair q old ≤ owns_pairs q ps
owns_pair-le q [] i old h = cc
owns_pair-le q (p ∷ ps) zero old h = omega (arith, ap (owns_pair q) (some-injective _ _ h))
owns_pair-le q (p ∷ ps) (suc i) old h = omega (arith, owns_pair-le q ps i old h)

-- One pair changes, and a slot of a magazine that no other pair owns.
pub held_pairs-set-write :
    (m : Memory) (e p j v : ℕ) (ps : List MagPair) (i : ℕ) (old new : MagPair)
    → get_elem? ps i ≡ some old
    → owns_pairs p ps ≡ owns_pair p old
    → held_pairs (write m p j v) e (set ps i new) + held_pair m e old
      ≡ held_pairs m e ps + held_pair (write m p j v) e new
held_pairs-set-write m e p j v [] i old new h o = cc
held_pairs-set-write m e p j v (q ∷ ps) zero old new h o =
    let same : q ≡ old = some-injective _ _ h in
    let rest : owns_pairs p ps ≡ 0 = omega (arith, ap (owns_pair p) same) in
    omega (arith, ap (held_pair m e) same, held_pairs-write m e p j v ps rest)
held_pairs-set-write m e p j v (q ∷ ps) (suc i) old new h o =
    let some_owner : owns_pair p old ≤ owns_pairs p ps = owns_pair-le p ps i old h in
    let ne0 : p ≢ q.mag0 = ground arith in
    let ne1 : p ≢ q.mag1 = ground arith in
    let rest : owns_pairs p ps ≡ owns_pair p old = omega arith in
    omega (
      arith,
      held_in-write_ne m e p j v q.mag0 q.count0 ne0,
      held_in-write_ne m e p j v q.mag1 q.count1 ne1,
      held_pairs-set-write m e p j v ps i old new h rest,
    )

pub held_pairs-set :
    (m : Memory) (e : ℕ) (ps : List MagPair) (i : ℕ) (old new : MagPair)
    → get_elem? ps i ≡ some old
    → held_pairs m e (set ps i new) + held_pair m e old ≡ held_pairs m e ps + held_pair m e new
held_pairs-set m e [] i old new h = cc
held_pairs-set m e (q ∷ ps) zero old new h = ground arith
held_pairs-set m e (q ∷ ps) (suc i) old new h = ground (arith, held_pairs-set m e ps i old new h)

pub owns_pairs-set :
    (q : ℕ) (ps : List MagPair) (i : ℕ) (old new : MagPair)
    → get_elem? ps i ≡ some old
    → owns_pairs q (set ps i new) + owns_pair q old ≡ owns_pairs q ps + owns_pair q new
owns_pairs-set q [] i old new h = cc
owns_pairs-set q (p ∷ ps) zero old new h = ground arith
owns_pairs-set q (p ∷ ps) (suc i) old new h = ground (arith, owns_pairs-set q ps i old new h)
