-- ===== src/RbTree/Laws.antt =====
-- The loops of the trees against the lists of their entries, for comparisons that agree with an order
-- by rank on the entries of the tree.
use ktcp_split.Common.{
  ℕ, ◌<◌, ◌≡◌, ◌≢◌, refl, ap, sym, ◌∙◌, ◌⊎◌, inl, inr, Option, none, some, List, [], ◌∷◌, ◌++◌,
  arith, All,
}
use ktcp_split.RbTree.{
  Sign, below, same, above, sign_of, Tree, leaf, node, in_order, search_rb, link_rb, RbOps, add_rb,
  colored,
}
use ktcp_split.RbTree.Lists.{
  IsSorted, find, insert, delete, IsSorted-split, find-below, find-left, insert-left, insert-right,
  insert-same, find-split,
}

module _ {ℓ} {A : Type ℓ} (P : A → Type 0) where
  pub All-split :
      (xs : List A) (x : A) (ys : List A) → All P (xs ++ (x ∷ ys)) → All P xs × P x × All P ys
  All-split [] x ys a = (tt, a.0, a.1)
  All-split (z ∷ xs) x ys a = let (p, q, r) = All-split xs x ys a.1 in ((a.0, p), q, r)

sign_of-cases :
    (k r : ℕ)
    → ((sign_of k r ≡ below) × (k < r))
      ⊎ ((sign_of k r ≡ same) × (r ≡ k))
      ⊎ ((sign_of k r ≡ above) × (r < k))
sign_of-cases k r = ground arith

module _ {ℓ} {A : Type ℓ} (rank : A → ℕ) (k : ℕ) (x : A) (xs : List A) where
  find_here : rank x ≡ k → find rank k (x ∷ xs) ≡ some x
  find_here h = ground arith

  find_next : rank x ≢ k → find rank k (x ∷ xs) ≡ find rank k xs
  find_next h = ground arith

module _ {ℓ} {A : Type ℓ} (rank : A → ℕ) (probe : A → Sign) (k : ℕ) where
  -- The comparison with `this` is the order of the ranks.
  abbrev pub Agrees : A → Type 0
  Agrees this = probe this ≡ sign_of k (rank this)

  -- The search finds the entry of the key's rank, and nothing if there is none.
  pub search_rb-find :
      (t : Tree A)
      → All Agrees (in_order t)
      → IsSorted rank (in_order t)
      → search_rb probe t ≡ find rank k (in_order t)
  unfolding search_rb
  search_rb-find leaf a s = refl
  search_rb-find (node l x r) a s =
      let (al, ax, ar) = All-split Agrees (in_order l) x (in_order r) a in
      let (sl, lo, hi, sr) = IsSorted-split rank (in_order l) x (in_order r) s in
      elim (sign_of-cases k (rank x)) [
        | inl (e, h) ↦
            rw (ax ∙ e, search_rb)
              (search_rb-find l al sl ∙ sym (find-left rank k (in_order l) x (in_order r) h hi))
        | inr (inl (e, h)) ↦
            rw (ax ∙ e, search_rb)
              (sym (
                find-below rank k (rank x) (in_order l) (x ∷ in_order r) (omega arith) lo
                ∙ find_here rank k x (in_order r) h))
        | inr (inr (e, h)) ↦
            rw (ax ∙ e, search_rb)
              (search_rb-find r ar sr
                ∙ sym (
                    find-below rank k (rank x) (in_order l) (x ∷ in_order r) (omega arith) lo
                    ∙ find_next rank k x (in_order r) (omega arith)))
      ]

  -- The linked tree has the entries with the new one in its place, and the duplicate is found.
  abbrev pub Links : A → Tree A → Option A × Tree A → Type ℓ
  Links d t (old, t') =
      (old ≡ find rank k (in_order t)) × (in_order t' ≡ insert rank d (in_order t))

  pub link_rb-Links :
      (d : A) (t : Tree A)
      → rank d ≡ k
      → All Agrees (in_order t)
      → IsSorted rank (in_order t)
      → Links d t (link_rb probe d t)
  unfolding link_rb
  link_rb-Links d leaf own a s = (refl, refl)
  link_rb-Links d (node l x r) own a s =
      let (al, ax, ar) = All-split Agrees (in_order l) x (in_order r) a in
      let (sl, lo, hi, sr) = IsSorted-split rank (in_order l) x (in_order r) s in
      elim (sign_of-cases k (rank x)) [
        | inl (e, h) ↦
            let (old, list) = link_rb-Links d l own al sl in
            rw (ax ∙ e, link_rb)
              (
                old ∙ sym (find-left rank k (in_order l) x (in_order r) h hi),
                ap (λ ys. ys ++ (x ∷ in_order r)) list
                    ∙ sym (insert-left rank d (in_order l) x (in_order r) (omega arith)),
              )
        | inr (inl (e, h)) ↦
            rw (ax ∙ e, link_rb)
              (
                sym (
                    find-below rank k (rank x) (in_order l) (x ∷ in_order r) (omega arith) lo
                    ∙ find_here rank k x (in_order r) h),
                sym (insert-same rank d (in_order l) x (in_order r) (omega arith) lo),
              )
        | inr (inr (e, h)) ↦
            let (old, list) = link_rb-Links d r own ar sr in
            rw (ax ∙ e, link_rb)
              (
                old
                    ∙ sym (
                        find-below rank k (rank x) (in_order l) (x ∷ in_order r) (omega arith) lo
                        ∙ find_next rank k x (in_order r) (omega arith)),
                ap (λ ys. in_order l ++ (x ∷ ys)) list
                    ∙ sym (insert-right rank d (in_order l) x (in_order r) (omega arith) lo),
              )
      ]

module _ {ℓ} {A : Type ℓ} {rank : A → ℕ} (rb : RbOps A rank) (probe : A → Sign) (d : A) where
  -- Adding an entry returns the entry of the same rank, if there is one; the entries are then those
  -- before with the new one in its place.
  pub add_rb-Links :
      (t : Tree A)
      → All (Agrees rank probe (rank d)) (in_order t)
      → IsSorted rank (in_order t)
      → Links rank probe (rank d) d t (add_rb rb probe d t)
  unfolding add_rb
  add_rb-Links t a s =
      colored-Links (link_rb probe d t) (link_rb-Links rank probe (rank d) d t refl a s)
    where
      colored-Links :
          (r : Option A × Tree A)
          → Links rank probe (rank d) d t r
          → Links rank probe (rank d) d t (colored rb r)
      colored-Links (none, u) (old, list) = (old, rb.insert_color_law u ∙ list)
      colored-Links (some x, u) h = h

module _ {ℓ} {A : Type ℓ} {rank : A → ℕ} (rb : RbOps A rank) where
  -- An entry that is erased is the one of its rank.
  pub in_order-erase :
      (t : Tree A) (x : A)
      → IsSorted rank (in_order t)
      → find rank (rank x) (in_order t) ≡ some x
      → in_order (rb.erase x t) ≡ delete rank (rank x) (in_order t)
  in_order-erase t x s h =
      let (before, after, split, rest, r) = find-split rank (rank x) (in_order t) x h in
      rb.erase_law t before x after s split ∙ sym rest
