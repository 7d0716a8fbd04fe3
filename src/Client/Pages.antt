-- ===== src/Client/Pages.antt =====
-- The pages and the counts of start_new_connection.
use ktcp_split.Common.{
  ℕ, zero, suc, ◌+◌, ◌-◌, ◌≡◌, refl, ap, ◌⊎◌, inl, inr, Bool, true, false, Option, none, some, List,
  [], ◌∷◌, ◌++◌, map, arith, length, if◌then◌else◌,
}
use ktcp_split.Common.Int.{ℤ, pos, is_le_zero, pos_part}
use ktcp_split.Common.Words.{u64}
use ktcp_split.Client.{vec_sz}
use ktcp_split.Client.Receive.{
  Base, null, page, Meter, tick, add_bytes, meter, unsets, alloc_kvec, Turn, Progress, running,
  left, receive_loop, finish, start_new_connection,
}

-- The results of the allocations: the pages, and then whatever the further ones would give.
abbrev pub Succeeds : List ℕ → List (Option ℕ) → Type 0
Succeeds got results = (rest : List (Option ℕ)) × (results ≡ map some got ++ rest)

-- The pages, and then an allocation that fails; a list that ends stands for one that fails too.
abbrev pub Fails : List ℕ → List (Option ℕ) → Type 0
Fails got results =
    ((rest : List (Option ℕ)) × (results ≡ map some got ++ (none ∷ rest)))
    ⊎ (results ≡ map some got)

-- All allocations succeed, or those of the pages and then one fails.
abbrev Allocated : ℕ → List (Option ℕ) → List Base × Bool → Type 0
Allocated n results (cells, all) =
    (got : List ℕ) × (((all ≡ true)
        × (length got ≡ n)
        × (cells ≡ map page got)
        × Succeeds got results)
      ⊎ ((all ≡ false)
          × ((m : ℕ) × (length got + suc m ≡ n) × (cells ≡ map page got ++ (null ∷ unsets m)))
          × Fails got results))

failed_next :
    (a : ℕ) (got : List ℕ) (results : List (Option ℕ))
    → Fails got results
    → Fails (a ∷ got) (some a ∷ results)
failed_next a got results (inl (rest, e)) = inl (rest, ap (◌∷◌ (some a)) e)
failed_next a got results (inr e) = inr (ap (◌∷◌ (some a)) e)

alloc_kvec-Allocated : (n : ℕ) (pages : List (Option ℕ)) → Allocated n pages (alloc_kvec n pages)
unfolding alloc_kvec
alloc_kvec-Allocated zero pages = ([], inl (refl, refl, refl, (pages, refl)))
alloc_kvec-Allocated (suc n) [] = ([], inr (refl, (n, omega arith, refl), inr refl))
alloc_kvec-Allocated (suc n) (none ∷ pages) =
    ([], inr (refl, (n, omega arith, refl), inl (pages, refl)))
alloc_kvec-Allocated (suc n) (some a ∷ pages) =
    let (got, h) = alloc_kvec-Allocated n pages in
    elim h [
      | inl (e, l, c, (rest, r)) ↦
          (a ∷ got, inl (e, omega (arith, l), ap (◌∷◌ (page a)) c, (rest, ap (◌∷◌ (some a)) r)))
      | inr (e, (m, l, c), r) ↦
          (a ∷ got, inr (e, (m, omega (arith, l), ap (◌∷◌ (page a)) c), failed_next a got pages r))
    ]

-- The bytes received in the turns of the loop.
abbrev pub taken : List Turn → ℕ
taken [] = 0
taken (t ∷ ts) =
    let rest = taken ts in
    if t.stop then 0 else (if is_le_zero t.rc then 0 else pos_part t.rc + rest)

abbrev pub traced_bytes : List (ℕ × ℕ) → ℕ
traced_bytes [] = 0
traced_bytes (p ∷ ps) = p.1 + traced_bytes ps

abbrev pub meter_of : Progress → Meter
meter_of (running m) = m
meter_of (left rc m) = m

abbrev pub sum : Meter → ℕ
sum m = traced_bytes m.traced + m.bytes

traced_bytes-append :
    (ps : List (ℕ × ℕ)) (p : ℕ × ℕ) → traced_bytes (ps ++ (p ∷ [])) ≡ traced_bytes ps + p.1
traced_bytes-append [] p = omega arith
traced_bytes-append (q ∷ ps) p = omega (arith, traced_bytes-append ps p)

sum-tick : (now : ℕ) (m : Meter) → sum (tick now m) ≡ sum m
unfolding tick
sum-tick now m = ground (arith, traced_bytes-append m.traced (now - m.start, m.bytes))

-- The bytes that the receiving loop has traced, with those of the period that runs, are the bytes
-- that it received, modulo 2 ^ 64.
pub receive_loop-sum :
    (rc : ℤ) (m : Meter) (ts : List Turn)
    → u64 (sum (meter_of (receive_loop rc m ts))) ≡ u64 (sum m + taken ts)
unfolding receive_loop
receive_loop-sum rc m [] = omega arith
receive_loop-sum rc m (t ∷ ts) =
    let m' = tick t.now m in
    ground (arith, sum-tick t.now m, receive_loop-sum t.rc (add_bytes (pos_part t.rc) m') ts)

module _ (now : ℕ) (pages : List (Option ℕ)) (turns : List Turn) where
  -- start_new_connection whose sixteen allocations succeed runs its loop, and frees these sixteen pages,
  -- in their order, when that ends. If an allocation fails, after those of fewer pages, it ends with 0,
  -- and frees the pages that it has, a NULL and the cells after it, which have no value.
  pub start_new_connection-finish :
      (got : List ℕ) × (((length got ≡ vec_sz)
          × Succeeds got pages
          × (start_new_connection now pages turns
              ≡ finish (map page got) (receive_loop (pos 0) (meter now) turns)))
        ⊎ ((m : ℕ) × (length got + suc m ≡ vec_sz)
            × Fails got pages
            × (start_new_connection now pages turns
                ≡ some (pos 0, meter now, map page got ++ (null ∷ unsets m)))))
  unfolding start_new_connection finish
  start_new_connection-finish =
      let (got, h) = alloc_kvec-Allocated vec_sz pages in
      elim h [
        | inl (e, l, c, r) ↦ (got, inl (l, r, ground (arith, e, c)))
        | inr (e, (m, l, c), r) ↦ (got, inr (m, l, r, ground (arith, e, c)))
      ]
