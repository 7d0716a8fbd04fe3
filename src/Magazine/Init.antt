-- ===== src/Magazine/Init.antt =====
-- `mag_allocator_init`: the allocator starts valid and empty.
use ktcp_split.Common.{
  ℕ, ◌+◌, ◌≤◌, ◌<◌, ◌≡◌, ◌≢◌, ◌⊎◌, refl, some, List, [], ◌∷◌, arith, length, All,
}
use ktcp_split.Magazine.{
  Memory, MagPair, MagAllocator, align, init_mag_pair, init_mag_pairs, mag_allocator_init,
}
use ktcp_split.Magazine.Contents.{held_pairs, held, owns_pairs}
use ktcp_split.Magazine.Inv.{IsValidPair, IsValid}

-- The bytes that `init_mag_pair` asks `kzalloc` for.
abbrev pub pair_bytes : ℕ
pair_bytes = 159

abbrev pub Apart : ℕ → ℕ → Type 0
Apart p q = (p + pair_bytes ≤ q) ⊎ (q + pair_bytes ≤ p)

-- The results of `kzalloc` are not NULL and do not overlap.
abbrev pub AreBlocks : List ℕ → Type 0
AreBlocks [] = Unit {0}
AreBlocks (p ∷ ps) = (p ≢ 0) × All (Apart p) ps × AreBlocks ps

abbrev pub mag_pair_at : ℕ → MagPair
mag_pair_at p = record { mag0 = align p; mag1 = align p + 48; count0 = 0; count1 = 0 }

abbrev pub mag_pairs_at : List ℕ → List MagPair
mag_pairs_at [] = []
mag_pairs_at (p ∷ ps) = mag_pair_at p ∷ mag_pairs_at ps

init_mag_pairs-some : (ps : List ℕ) → AreBlocks ps → init_mag_pairs ps ≡ some (mag_pairs_at ps)
unfolding init_mag_pairs init_mag_pair
init_mag_pairs-some [] b = refl
init_mag_pairs-some (p ∷ ps) b = ground (arith, init_mag_pairs-some ps b.2)

owns-Apart :
    (q p : ℕ) (ps : List ℕ)
    → p ≤ q
    → q < p + pair_bytes
    → All (Apart p) ps
    → owns_pairs q (mag_pairs_at ps) ≡ 0
owns-Apart q p [] h k b = refl
owns-Apart q p (r ∷ ps) h k b = ground (arith, owns-Apart q p ps h k b.1)

owns-le-one : (q : ℕ) (ps : List ℕ) → AreBlocks ps → owns_pairs q (mag_pairs_at ps) ≤ 1
owns-le-one q [] b = omega arith
owns-le-one q (p ∷ ps) b = ground (arith, owns-le-one q ps b.2, owns-Apart q p ps)

owns-null : (ps : List ℕ) → AreBlocks ps → owns_pairs 0 (mag_pairs_at ps) ≡ 0
owns-null [] b = refl
owns-null (p ∷ ps) b = ground (arith, owns-null ps b.2)

valid_pairs : (ps : List ℕ) → All IsValidPair (mag_pairs_at ps)
valid_pairs [] = tt
valid_pairs (p ∷ ps) = (ground arith, valid_pairs ps)

held-zero : (m : Memory) (e : ℕ) (ps : List ℕ) → held_pairs m e (mag_pairs_at ps) ≡ 0
held-zero m e [] = refl
held-zero m e (p ∷ ps) = omega (arith, held-zero m e ps)

length-mag_pairs_at : (ps : List ℕ) → length (mag_pairs_at ps) ≡ length ps
length-mag_pairs_at [] = refl
length-mag_pairs_at (p ∷ ps) = omega (arith, length-mag_pairs_at ps)

-- If each `kzalloc` succeeds and no two results overlap, the initialisation ends without a failed
-- assertion in a valid allocator that holds no element has a pair for each context, and
-- counts no full magazine.
pub mag_allocator_init_lem :
    (m : Memory) (ps : List ℕ)
    → AreBlocks ps
    → (a : MagAllocator) × (mag_allocator_init m ps ≡ some a)
      × IsValid a
      × ((e : ℕ) → held a e ≡ 0)
      × (length a.pairs ≡ length ps)
      × (a.depot.full_count ≡ 0)
unfolding mag_allocator_init
mag_allocator_init_lem m ps b = (
  record {
    memory = m;
    depot = record { full_list = []; empty_list = []; full_count = 0; empty_count = 0 };
    pairs = mag_pairs_at ps;
  },
  ground (arith, init_mag_pairs-some ps b),
  record {
    pairs = valid_pairs ps;
    depot = ground arith;
    unique = λ q. omega (arith, owns-le-one q ps b);
    nonnull = omega (arith, owns-null ps b);
  },
  λ e. omega (arith, held-zero m e ps),
  length-mag_pairs_at ps,
  refl,
)
