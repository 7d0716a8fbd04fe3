-- ===== src/ThreadPool/MagazineStore.antt =====
-- tcpsplit/magazine.c as the store of the thread pool: its laws are the allocator's theorems.
use ktcp_split.Common.{
  ◌*◌, List, [], ◌∷◌, refl, count, ℕ, ◌+◌, ◌≤◌, ◌<◌, ◌≡◌, ◌≢◌, Option, some, arith, returned,
  length, get_elem?-some, ◌==◌, if◌then◌else◌,
}
use ktcp_split.Magazine.{MagPair, MagAllocator, align, mag_alloc_elem, mag_free_elem}
use ktcp_split.Magazine.Contents.{held, owns, owns_pairs}
use ktcp_split.Magazine.Inv.{IsValid}
use ktcp_split.Magazine.Laws.{mag_alloc_elem_lem, mag_free_elem_lem}
use ktcp_split.ThreadPool.Store.{ElementStore}

module _ (contexts : ℕ) where
  -- There is a pair for each context.
  abbrev pub IsReady : MagAllocator → Type 0
  IsReady a = IsValid a × (contexts ≤ length a.pairs)

  -- A call names its pair, and what `kzalloc` would return: memory that no magazine occupies.
  abbrev pub HasRoom : MagAllocator → ℕ × ℕ → Type 0
  HasRoom a (i, kzalloc) = (i < contexts) × (kzalloc ≢ 0) × (owns a (align kzalloc) ≡ 0)

  pub alloc_law :
      (env : ℕ × ℕ) (a : MagAllocator)
      → IsReady a
      → HasRoom a env
      → (elem : Option ℕ) × (a' : MagAllocator) × (mag_alloc_elem a env.0 ≡ some (elem, a'))
        × IsReady a'
        × ((e : ℕ) → held a e ≡ held a' e + returned e elem)
  alloc_law (i, kzalloc) a (v, n) (h, k, f) =
      let (pair, here) = get_elem?-some a.pairs i (omega arith) in
      let (elem, a', run, valid, counts, same) = mag_alloc_elem_lem a i pair v here in
      (elem, a', run, (valid, omega (arith, same)), counts)

  pub free_law :
      (env : ℕ × ℕ) (a : MagAllocator) (elem : ℕ)
      → IsReady a
      → HasRoom a env
      → (a' : MagAllocator) × (mag_free_elem env.1 a env.0 elem ≡ some a')
        × IsReady a'
        × ((e : ℕ) → held a' e ≡ held a e + (if e == elem then 1 else 0))
  free_law (i, kzalloc) a elem (v, n) (h, k, f) =
      let (pair, here) = get_elem?-some a.pairs i (omega arith) in
      let (a', run, valid, counts, kept, same) =
        mag_free_elem_lem a i pair v here kzalloc elem k f in
      (a', run, (valid, omega (arith, same)), counts)

  abbrev pub magazine_store : ElementStore
  magazine_store = record {
    Store = MagAllocator;
    Env = ℕ × ℕ;
    IsValid = IsReady;
    Fits = HasRoom;
    held = held;
    full_count = λ a. a.depot.full_count;
    alloc = λ env a. mag_alloc_elem a env.0;
    free = λ env a elem. mag_free_elem env.1 a env.0 elem;
    alloc_law = alloc_law;
    free_law = free_law;
  }

-- An address past all magazines of an allocator.
abbrev pub sum_pairs : List MagPair → ℕ
sum_pairs [] = 0
sum_pairs (pair ∷ pairs) = pair.mag0 + pair.mag1 + sum_pairs pairs

abbrev pub sum : List ℕ → ℕ
sum [] = 0
sum (x ∷ xs) = x + sum xs

abbrev pub past : MagAllocator → ℕ
past a = (sum_pairs a.pairs + sum a.depot.full_list + sum a.depot.empty_list) * 64 + 64

owns_pairs-past : (q : ℕ) (ps : List MagPair) → sum_pairs ps < q → owns_pairs q ps ≡ 0
owns_pairs-past q [] h = refl
owns_pairs-past q (p ∷ ps) h = ground (arith, owns_pairs-past q ps)

count-past : (q : ℕ) (xs : List ℕ) → sum xs < q → count q xs ≡ 0
count-past q [] h = refl
count-past q (x ∷ xs) h = ground (arith, count-past q xs)

-- The memory past all magazines is room for another.
pub HasRoom-past : (contexts : ℕ) (a : MagAllocator) → 0 < contexts → HasRoom contexts a (0, past a)
HasRoom-past contexts a h = (
  h,
  omega arith,
  omega (
    arith,
    owns_pairs-past (align (past a)) a.pairs (omega arith),
    count-past (align (past a)) a.depot.full_list (omega arith),
    count-past (align (past a)) a.depot.empty_list (omega arith),
  ),
)
