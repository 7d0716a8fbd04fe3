-- ===== src/Magazine/Bag.antt =====
-- The allocator as a bag: the free elements, without their order and their magazines, and what a
-- sequence of allocations and returns does to them.
use mathlib.Core.Quot
use mathlib.Core.Quot.{Quot, Quot-set}
use ktcp_split.Common.{
  ℕ, zero, suc, ◌+◌, ◌<◌, ◌≡◌, ◌≢◌, refl, sym, subst, Option, none, some, List, [], ◌∷◌, ◌++◌,
  arith, All, count, count-append, returned, length, get_elem?-some, ◌==◌, if◌then◌else◌, ◌>>=◌,
}
use ktcp_split.Magazine.{
  Memory, MagPair, MagAllocator, align, mag_depth, mag_alloc_elem, mag_free_elem,
}
use ktcp_split.Magazine.Contents.{held_in, held_full, held_pairs, held, owns}
use ktcp_split.Magazine.Inv.{IsValid}
use ktcp_split.Magazine.Laws.{mag_alloc_elem_lem, mag_free_elem_lem}

-- Two lists have the same elements, each as often.
abbrev pub SameElements : List ℕ → List ℕ → Type 0
SameElements xs ys = (e : ℕ) → count e xs ≡ count e ys

abbrev pub Bag : Type 0
Bag = Quot SameElements

SameElements-cons : (x : ℕ) (xs ys : List ℕ) → SameElements xs ys → SameElements (x ∷ xs) (x ∷ ys)
SameElements-cons x xs ys h e = omega (arith, h e)

pub put : ℕ → Bag → Bag
put x =
    Quot.lift Quot-set (λ xs. Quot.mk (x ∷ xs))
      (λ xs ys h. Quot.sound (SameElements-cons x xs ys h))

-- The elements in the `c` lowest slots of a magazine, in the pairs, in the full magazines.
abbrev slots : Memory → ℕ → ℕ → List ℕ
slots m p zero = []
slots m p (suc c) = m p c ∷ slots m p c

abbrev in_pairs : Memory → List MagPair → List ℕ
in_pairs m [] = []
in_pairs m (pair ∷ pairs) =
    (slots m pair.mag0 pair.count0 ++ slots m pair.mag1 pair.count1) ++ in_pairs m pairs

abbrev in_full : Memory → List ℕ → List ℕ
in_full m [] = []
in_full m (p ∷ ps) = slots m p mag_depth ++ in_full m ps

abbrev pub contents : MagAllocator → List ℕ
contents a = in_pairs a.memory a.pairs ++ in_full a.memory a.depot.full_list

count-slots : (m : Memory) (e p c : ℕ) → count e (slots m p c) ≡ held_in m e p c
count-slots m e p zero = refl
count-slots m e p (suc c) = omega (arith, count-slots m e p c)

count-in_pairs :
    (m : Memory) (e : ℕ) (ps : List MagPair) → count e (in_pairs m ps) ≡ held_pairs m e ps
count-in_pairs m e [] = refl
count-in_pairs m e (p ∷ ps) =
    let one = slots m p.mag0 p.count0 in
    let two = slots m p.mag1 p.count1 in
    omega (
      arith,
      count-append e (one ++ two) (in_pairs m ps),
      count-append e one two,
      count-slots m e p.mag0 p.count0,
      count-slots m e p.mag1 p.count1,
      count-in_pairs m e ps,
    )

count-in_full : (m : Memory) (e : ℕ) (ps : List ℕ) → count e (in_full m ps) ≡ held_full m e ps
count-in_full m e [] = refl
count-in_full m e (p ∷ ps) = omega (
  arith,
  count-append e (slots m p mag_depth) (in_full m ps),
  count-slots m e p mag_depth,
  count-in_full m e ps,
)

pub count-contents : (a : MagAllocator) (e : ℕ) → count e (contents a) ≡ held a e
count-contents a e = omega (
  arith,
  count-append e (in_pairs a.memory a.pairs) (in_full a.memory a.depot.full_list),
  count-in_pairs a.memory e a.pairs,
  count-in_full a.memory e a.depot.full_list,
)

abbrev pub bag : MagAllocator → Bag
bag a = Quot.mk (contents a)

-- A call of the allocator, on the pair of a context.
pub data Op : Type 0 where
  alloc : ℕ → Op
  free : ℕ → ℕ → Op

abbrev pub context : Op → ℕ
context (alloc i) = i
context (free i e) = i

-- What the allocations return. `kzalloc` may depend on the memory that is in use.
unfoldable pub run :
    (MagAllocator → ℕ) → List Op → MagAllocator → Option (List (Option ℕ) × MagAllocator)
run kzalloc [] a = some ([], a)
run kzalloc (alloc i ∷ ops) a = do
  (elem, a') ← mag_alloc_elem a i
  (elems, a'') ← run kzalloc ops a'
  some (elem ∷ elems, a'')
run kzalloc (free i e ∷ ops) a = do a' ← mag_free_elem (kzalloc a) a i e; run kzalloc ops a'

-- The same calls on bags: an allocation takes the element that it returns out of the bag, or returns
-- NULL and changes nothing.
abbrev pub Steps : List Op → List (Option ℕ) → Bag → Bag → Type 0
Steps [] [] b b' = b ≡ b'
Steps [] (elem ∷ elems) b b' = ⊥
Steps (alloc i ∷ ops) [] b b' = ⊥
Steps (alloc i ∷ ops) (none ∷ elems) b b' = Steps ops elems b b'
Steps (alloc i ∷ ops) (some e ∷ elems) b b' =
    (rest : Bag) × (b ≡ put e rest) × Steps ops elems rest b'
Steps (free i e ∷ ops) elems b b' = Steps ops elems (put e b) b'

bag-put :
    (a a' : MagAllocator) (x : ℕ)
    → ((e : ℕ) → held a e ≡ held a' e + (if e == x then 1 else 0))
    → bag a ≡ put x (bag a')
unfolding put
bag-put a a' x h = Quot.sound (λ e. omega (arith, h e, count-contents a e, count-contents a' e))

bag_same : (a a' : MagAllocator) → ((e : ℕ) → held a e ≡ held a' e) → bag a ≡ bag a'
bag_same a a' h = Quot.sound (λ e. omega (arith, h e, count-contents a e, count-contents a' e))

module _ (kzalloc : MagAllocator → ℕ)
    (fresh : (a : MagAllocator)
      → IsValid a
      → (kzalloc a ≢ 0) × (owns a (align (kzalloc a)) ≡ 0)) where
  abbrev Ran : List Op → MagAllocator → Type 0
  Ran ops a =
      (elems : List (Option ℕ)) × (a' : MagAllocator) × (run kzalloc ops a ≡ some (elems, a'))
      × IsValid a'
      × Steps ops elems (bag a) (bag a')

  allocated :
      (i : ℕ) (ops : List Op) (a a1 : MagAllocator) (elem : Option ℕ)
      → mag_alloc_elem a i ≡ some (elem, a1)
      → ((e : ℕ) → held a e ≡ held a1 e + returned e elem)
      → Ran ops a1
      → Ran (alloc i ∷ ops) a
  unfolding run
  allocated i ops a a1 none one counts (elems, a', rest, v, steps) = (
    none ∷ elems,
    a',
    ground (arith, one, rest),
    v,
    subst (λ b. Steps ops elems b (bag a')) (sym (bag_same a a1 (λ e. omega (arith, counts e))))
        steps,
  )
  allocated i ops a a1 (some x) one counts (elems, a', rest, v, steps) =
      (some x ∷ elems, a', ground (arith, one, rest), v, (bag a1, bag-put a a1 x counts, steps))

  -- Any sequence of calls on contexts that have a pair, in a valid allocator, with kzalloc returning
  -- memory that no magazine occupies, never faults, keeps the allocator valid, and is a run of the same calls on the bag of the free elements: an
  -- allocation takes what it returns out of the bag or returns NULL, a return puts its element in.
  pub run-Steps :
      (ops : List Op) (a : MagAllocator)
      → IsValid a
      → All (λ op. context op < length a.pairs) ops
      → Ran ops a
  unfolding run
  run-Steps [] a v h = ([], a, refl, v, refl)
  run-Steps (alloc i ∷ ops) a v h =
      let (pair, here) = get_elem?-some a.pairs i h.0 in
      let (elem, a1, one, v1, counts, same) = mag_alloc_elem_lem a i pair v here in
      allocated i ops a a1 elem one counts
        (run-Steps ops a1 v1 (subst (λ n. All (λ op. context op < n) ops) (sym same) h.1))
  run-Steps (free i e ∷ ops) a v h =
      let (pair, here) = get_elem?-some a.pairs i h.0 in
      let (a1, one, v1, counts, kept, same) =
        mag_free_elem_lem a i pair v here (kzalloc a) e (fresh a v).0 (fresh a v).1 in
      let (elems, a', rest, v', steps) =
        run-Steps ops a1 v1 (subst (λ n. All (λ op. context op < n) ops) (sym same) h.1) in
      (
        elems,
        a',
        ground (arith, one, rest),
        v',
        subst (λ b. Steps ops elems b (bag a')) (bag-put a1 a e counts) steps,
      )
