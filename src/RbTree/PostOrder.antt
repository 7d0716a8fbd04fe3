-- ===== src/RbTree/PostOrder.antt =====
-- Walks of the trees in post-order, with rb_first_postorder and rb_next_postorder of the kernel as
-- parameters, and how often a test holds in the lists of the entries.
use ktcp_split.Common.{
  ℕ, ◌+◌, ◌<◌, ◌≤◌, ◌≡◌, refl, ap, inl, inr, Bool, true, Option, none, some, List, [], ◌∷◌, ◌++◌,
  arith, All, ◌==◌, if◌then◌else◌, Bool-cases,
}
use ktcp_split.RbTree.{Tree, leaf, node, in_order}
use ktcp_split.RbTree.Lists.{IsSorted}

module _ {ℓ} {A : Type ℓ} where
  abbrev pub post_order : Tree A → List A
  post_order leaf = []
  post_order (node l x r) = post_order l ++ (post_order r ++ (x ∷ []))

  abbrev pub head : List A → Option A
  head [] = none
  head (x ∷ xs) = some x

  -- The number of the entries that pass a test.
  abbrev pub tally : (A → Bool) → List A → ℕ
  tally p [] = 0
  tally p (x ∷ xs) = (if p x then 1 else 0) + tally p xs

  pub tally-append : (p : A → Bool) (xs ys : List A) → tally p (xs ++ ys) ≡ tally p xs + tally p ys
  tally-append p [] ys = omega arith
  tally-append p (x ∷ xs) ys = omega (arith, tally-append p xs ys)

  pub tally-post_order : (p : A → Bool) (t : Tree A) → tally p (post_order t) ≡ tally p (in_order t)
  tally-post_order p leaf = refl
  tally-post_order p (node l x r) = omega (
    arith,
    tally-append p (post_order l) (post_order r ++ (x ∷ [])),
    tally-append p (post_order r) (x ∷ []),
    tally-append p (in_order l) (x ∷ in_order r),
    tally-post_order p l,
    tally-post_order p r,
  )

  -- Where an entry that passes stands.
  pub tally-split :
      (p : A → Bool) (l : List A)
      → 0 < tally p l
      → (xs : List A) × (x : A) × (ys : List A) × (l ≡ xs ++ (x ∷ ys)) × (p x ≡ true)
  tally-split p [] h = elim h [ ]
  tally-split p (y ∷ l) h = elim (Bool-cases (p y)) [
    | inl here ↦ ([], y, l, refl, here)
    | inr there ↦
        let (xs, x, ys, e, t) = tally-split p l (ground arith) in (y ∷ xs, x, ys, ap (◌∷◌ y) e, t)
  ]

  module _ (rank : A → ℕ) where
    tally-above :
        (j k : ℕ) (xs : List A) → j ≤ k → All (λ y. k < rank y) xs → tally (λ y. rank y == j) xs ≡ 0
    tally-above j k [] l h = refl
    tally-above j k (x ∷ xs) l h = ground (arith, tally-above j k xs l h.1)

    -- Entries in order have each rank at most once.
    pub IsSorted-tally : (k : ℕ) (xs : List A) → IsSorted rank xs → tally (λ y. rank y == k) xs ≤ 1
    IsSorted-tally k [] s = omega arith
    IsSorted-tally k (x ∷ xs) s = ground (arith, IsSorted-tally k xs s.1, tally-above k (rank x) xs)

-- The walks of lib/rbtree.c: the first entry, and the one after an entry.
pub record PostOps {ℓ} (A : Type ℓ) (rank : A → ℕ) : Type ℓ where
  pub first : Tree A → Option A
  pub next : Tree A → A → Option A
  pub first_law : (t : Tree A) → first t ≡ head (post_order t)
  pub next_law :
      (t : Tree A) (xs : List A) (x : A) (ys : List A)
      → IsSorted rank (in_order t)
      → post_order t ≡ xs ++ (x ∷ ys)
      → next t x ≡ head ys
