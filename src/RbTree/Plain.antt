-- ===== src/RbTree/Plain.antt =====
-- The assumptions about rb_insert_color and rb_erase can be met: trees that are not balanced.
use ktcp_split.Common.{
  ℕ, ◌<◌, ◌≡◌, refl, ap, ◌∙◌, List, [], ◌∷◌, ◌++◌, arith, All, Bool, Option, none, ◌≤◌, ◌==◌,
  if◌then◌else◌,
}
use ktcp_split.RbTree.{Tree, leaf, node, in_order, RbOps}
use ktcp_split.RbTree.PostOrder.{
  PostOps, post_order, head, tally, tally-append, tally-post_order, IsSorted-tally,
}
use ktcp_split.RbTree.Lists.{IsSorted, delete, IsSorted-split}

module _ {A : Type 0} (rank : A → ℕ) where
  abbrev pub spine : List A → Tree A
  spine [] = leaf
  spine (x ∷ xs) = node leaf x (spine xs)

  pub in_order-spine : (xs : List A) → in_order (spine xs) ≡ xs
  in_order-spine [] = refl
  in_order-spine (x ∷ xs) = ap (◌∷◌ x) (in_order-spine xs)

  delete-middle :
      (xs : List A) (x : A) (ys : List A)
      → All (λ y. rank y < rank x) xs
      → delete rank (rank x) (xs ++ (x ∷ ys)) ≡ xs ++ ys
  delete-middle [] x ys h = ground arith
  delete-middle (z ∷ xs) x ys h = ground (arith, delete-middle xs x ys h.1)

  pub erase_law :
      (t : Tree A) (xs : List A) (x : A) (ys : List A)
      → IsSorted rank (in_order t)
      → in_order t ≡ xs ++ (x ∷ ys)
      → in_order (spine (delete rank (rank x) (in_order t))) ≡ xs ++ ys
  erase_law t xs x ys s e =
      let (_, lo, _, _) = IsSorted-split rank xs x ys (rw e at s) in
      in_order-spine _ ∙ ap (delete rank (rank x)) e ∙ delete-middle xs x ys lo

  abbrev pub plain_rb : RbOps A rank
  plain_rb = record {
    insert_color = λ t. t;
    erase = λ x t. spine (delete rank (rank x) (in_order t));
    insert_color_law = λ t. refl;
    erase_law = erase_law;
  }

-- The assumptions about the walks can be met: the entry after the first one of the same rank.
module _ {A : Type 0} (rank : A → ℕ) where
  abbrev after : ℕ → List A → Option A
  after k [] = none
  after k (x ∷ xs) = if rank x == k then head xs else after k xs

  after-split :
      (xs : List A) (x : A) (ys : List A)
      → tally (λ y. rank y == rank x) (xs ++ (x ∷ ys)) ≤ 1
      → after (rank x) (xs ++ (x ∷ ys)) ≡ head ys
  after-split [] x ys h = ground arith
  after-split (z ∷ xs) x ys h =
      ground (arith, after-split xs x ys, tally-append (λ y. rank y == rank x) xs (x ∷ ys))

  pub next_law :
      (t : Tree A) (xs : List A) (x : A) (ys : List A)
      → IsSorted rank (in_order t)
      → post_order t ≡ xs ++ (x ∷ ys)
      → after (rank x) (post_order t) ≡ head ys
  next_law t xs x ys s e =
      let same : A → Bool = λ y. rank y == rank x in
      ap (after (rank x)) e
      ∙ after-split xs x ys (
          omega (
            arith,
            IsSorted-tally rank (rank x) (in_order t) s,
            tally-post_order same t,
            ap (tally same) e,
          ))

  abbrev pub plain_walk : PostOps A rank
  plain_walk = record {
    first = λ t. head (post_order t);
    next = λ t x. after (rank x) (post_order t);
    first_law = λ t. refl;
    next_law = next_law;
  }
