-- ===== src/RbTree/Lists.antt =====
-- Lists sorted strictly by a rank: the look-up in them and the insertion into them, which the trees
-- are compared with.
use native.Mathlib.Decide.{ℕ_discrete}
use ktcp_split.Common.{
  ℕ, ◌<◌, ◌≤◌, ◌≡◌, refl, ap, Option, none, some, List, [], ◌∷◌, ◌++◌, arith, All, ltb, ◌==◌,
  if◌then◌else◌,
}

module _ {ℓ} {A : Type ℓ} (rank : A → ℕ) where
  abbrev pub IsSorted : List A → Type 0
  IsSorted [] = Unit
  IsSorted (x ∷ xs) = All (λ y. rank x < rank y) xs × IsSorted xs

  -- The entry of rank k.
  abbrev pub find : ℕ → List A → Option A
  find k [] = none
  find k (x ∷ xs) = if rank x == k then some x else find k xs

  -- The list with one more entry, unless its rank is there.
  abbrev pub insert : A → List A → List A
  insert d [] = d ∷ []
  insert d (x ∷ xs) =
      if ltb (rank d) (rank x)
      then d ∷ x ∷ xs
      else (if rank d == rank x then x ∷ xs else x ∷ insert d xs)

  -- The list without the entry of rank k.
  abbrev pub delete : ℕ → List A → List A
  delete k [] = []
  delete k (x ∷ xs) = if rank x == k then xs else x ∷ delete k xs

  All-above_append :
      (n : ℕ) (xs : List A) (x : A) (ys : List A)
      → All (λ y. n < rank y) (xs ++ (x ∷ ys))
      → All (λ y. n < rank y) xs × (n < rank x) × All (λ y. n < rank y) ys
  All-above_append n [] x ys a = (tt, a.0, a.1)
  All-above_append n (z ∷ xs) x ys a =
      let (p, q, r) = All-above_append n xs x ys a.1 in ((a.0, p), q, r)

  All-above_trans :
      (m n : ℕ) (xs : List A) → m ≤ n → All (λ y. n < rank y) xs → All (λ y. m < rank y) xs
  All-above_trans m n [] h a = tt
  All-above_trans m n (x ∷ xs) h a = (omega arith, All-above_trans m n xs h a.1)

  pub IsSorted-split :
      (xs : List A) (x : A) (ys : List A)
      → IsSorted (xs ++ (x ∷ ys))
      → IsSorted xs × All (λ y. rank y < rank x) xs × All (λ y. rank x < rank y) ys × IsSorted ys
  IsSorted-split [] x ys s = (tt, tt, s.0, s.1)
  IsSorted-split (z ∷ xs) x ys s =
      let (p, q, r) = All-above_append (rank z) xs x ys s.0 in
      let (a, b, c, d) = IsSorted-split xs x ys s.1 in ((p, a), (q, b), c, d)

  pub find-above : (k n : ℕ) (xs : List A) → k ≤ n → All (λ y. n < rank y) xs → find k xs ≡ none
  find-above k n [] h a = refl
  find-above k n (x ∷ xs) h a = ground (arith, find-above k n xs h a.1)

  pub find-below :
      (k n : ℕ) (xs : List A) (ys : List A)
      → n ≤ k
      → All (λ y. rank y < n) xs
      → find k (xs ++ ys) ≡ find k ys
  find-below k n [] ys h a = refl
  find-below k n (x ∷ xs) ys h a = ground (arith, find-below k n xs ys h a.1)

  -- Entries above k do not matter to the search for k.
  pub find-left :
      (k : ℕ) (xs : List A) (x : A) (ys : List A)
      → k < rank x
      → All (λ y. rank x < rank y) ys
      → find k (xs ++ (x ∷ ys)) ≡ find k xs
  find-left k [] x ys h a = ground (arith, find-above k (rank x) ys)
  find-left k (z ∷ xs) x ys h a = ground (arith, find-left k xs x ys h a)

  pub insert-left :
      (d : A) (xs : List A) (x : A) (ys : List A)
      → rank d < rank x
      → insert d (xs ++ (x ∷ ys)) ≡ insert d xs ++ (x ∷ ys)
  insert-left d [] x ys h = ground arith
  insert-left d (z ∷ xs) x ys h = ground (arith, insert-left d xs x ys h)

  pub insert-right :
      (d : A) (xs : List A) (x : A) (ys : List A)
      → rank x < rank d
      → All (λ y. rank y < rank x) xs
      → insert d (xs ++ (x ∷ ys)) ≡ xs ++ (x ∷ insert d ys)
  insert-right d [] x ys h a = ground arith
  insert-right d (z ∷ xs) x ys h a = ground (arith, insert-right d xs x ys h a.1)

  pub insert-same :
      (d : A) (xs : List A) (x : A) (ys : List A)
      → rank x ≡ rank d
      → All (λ y. rank y < rank x) xs
      → insert d (xs ++ (x ∷ ys)) ≡ xs ++ (x ∷ ys)
  insert-same d [] x ys h a = ground arith
  insert-same d (z ∷ xs) x ys h a = ground (arith, insert-same d xs x ys h a.1)

  insert-above :
      (n : ℕ) (d : A) (xs : List A)
      → n < rank d
      → All (λ y. n < rank y) xs
      → All (λ y. n < rank y) (insert d xs)
  insert-above n d [] h a = (h, tt)
  insert-above n d (x ∷ xs) h a = ground (arith, insert-above n d xs h a.1)

  pub insert-IsSorted : (d : A) (xs : List A) → IsSorted xs → IsSorted (insert d xs)
  insert-IsSorted d [] s = (tt, tt)
  insert-IsSorted d (x ∷ xs) s = ground (
    arith,
    insert-IsSorted d xs s.1,
    insert-above (rank x) d xs,
    All-above_trans (rank d) (rank x) xs,
  )

  pub find-insert :
      (k : ℕ) (d : A) (xs : List A)
      → IsSorted xs
      → find (rank d) xs ≡ none
      → find k (insert d xs) ≡ (if rank d == k then some d else find k xs)
  find-insert k d [] s h = refl
  find-insert k d (x ∷ xs) s h = ground (arith, find-insert k d xs s.1)

  pub find-delete :
      (k j : ℕ) (xs : List A)
      → IsSorted xs
      → find j (delete k xs) ≡ (if j == k then none else find j xs)
  find-delete k j [] s = ground arith
  find-delete k j (x ∷ xs) s = ground (arith, find-delete k j xs s.1, find-above j (rank x) xs)

  pub find-split :
      (k : ℕ) (xs : List A) (x : A)
      → find k xs ≡ some x
      → (before : List A) × (after : List A) × (xs ≡ before ++ (x ∷ after))
        × (delete k xs ≡ before ++ after)
        × (rank x ≡ k)
  find-split k [] x h = cc
  find-split k (y ∷ xs) x h = elim (ℕ_discrete (rank y) k) [
    | yes e ↦
        let same : y ≡ x = ground arith in
        ([], xs, ap (λ z. z ∷ xs) same, ground arith, omega (arith, ap rank same))
    | no e ↦
        let (before, after, split, rest, r) = find-split k xs x (ground arith) in
        (y ∷ before, after, ap (◌∷◌ y) split, ground (arith, rest), r)
  ]

  pub insert-All : (P : A → Type 0) (d : A) (xs : List A) → P d → All P xs → All P (insert d xs)
  insert-All P d [] p a = (p, tt)
  insert-All P d (x ∷ xs) p a = ground (arith, insert-All P d xs p a.1)

  pub delete-All : (P : A → Type 0) (k : ℕ) (xs : List A) → All P xs → All P (delete k xs)
  delete-All P k [] a = tt
  delete-All P k (x ∷ xs) a = ground (arith, delete-All P k xs a.1)

  pub delete-IsSorted : (k : ℕ) (xs : List A) → IsSorted xs → IsSorted (delete k xs)
  delete-IsSorted k [] s = tt
  delete-IsSorted k (x ∷ xs) s =
      ground (arith, delete-IsSorted k xs s.1, delete-All (λ y. rank x < rank y) k xs s.0)

  pub delete-insert :
      (d : A) (xs : List A) → find (rank d) xs ≡ none → delete (rank d) (insert d xs) ≡ xs
  delete-insert d [] h = ground arith
  delete-insert d (x ∷ xs) h = ground (arith, delete-insert d xs)
