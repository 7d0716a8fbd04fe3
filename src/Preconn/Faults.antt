-- ===== src/Preconn/Faults.antt =====
-- What a pool becomes when there is no memory for its lists.
use ktcp_split.Common.{
  ℕ, ◌+◌, ◌^◌, ◌<◌, ◌≡◌, refl, ◌∙◌, Bool, true, false, Option, none, some, ◌∷◌, arith, not, ◌&&◌,
  ◌||◌, Option-cases, inl, inr,
}
use ktcp_split.Common.Words.{u32}
use ktcp_split.RbTree.{RbOps}
use ktcp_split.Listner.{Entry, rank}
use ktcp_split.Preconn.{Pools, add_preconn_qp, get_rb_preconn, set_list}
use ktcp_split.Preconn.Stacks.{found, IsPools, add-there, add-failed}
use ktcp_split.Preconn.Opened.{opened_pools, add-new, linked-failed, found-opened}
use ktcp_split.Preconn.View.{is_some}

-- There is memory for the object and none for its lists.
abbrev pub lacks_lists : Option (ℕ × Bool) → Bool
lacks_lists none = false
lacks_lists (some (addr, percpu)) = not percpu

-- The entry of a next hop after a pair is added for it.
abbrev pub entry_after : ℕ → Option Entry → Option (ℕ × Bool) → Option Entry
entry_after hop (some e) slab = some e
entry_after hop none none = none
entry_after hop none (some (addr, percpu)) = some (record { key = hop; addr = addr })

module _ (rb : RbOps Entry rank) (hop cpu qp : ℕ) (p : Pools) (v : IsPools p)
    (small : hop < 2 ^ 31) where
  abbrev entry : ℕ → Entry
  entry addr = record { key = hop; addr = addr }

  add-dangling :
      (addr : ℕ)
      → found p hop ≡ none
      → add_preconn_qp rb (some (addr, false)) hop cpu qp p ≡ (
        true,
        record p {
          tree = (opened_pools rb p (entry addr)).tree;
          fault = true;
          lists = set_list p.lists addr cpu (record {
            list = qp ∷ (p.lists addr cpu).list;
            len = u32 ((p.lists addr cpu).len + 1);
          });
        },
      )
  unfolding add_preconn_qp get_rb_preconn
  add-dangling addr h = ground (arith, h, linked-failed rb p v (entry addr) small h)

  fault-lacks :
      (slab : Option (ℕ × Bool))
      → found p hop ≡ none
      → (add_preconn_qp rb slab hop cpu qp p).1.fault ≡ (p.fault || lacks_lists slab)
  fault-lacks none h = rw (add-failed rb p hop cpu qp h) (ground arith)
  fault-lacks (some (addr, true)) h = rw (add-new rb p v (entry addr) small h cpu qp) (ground arith)
  fault-lacks (some (addr, false)) h = rw (add-dangling addr h) (ground arith)

  fault_exactly :
      (slab : Option (ℕ × Bool))
      → (add_preconn_qp rb slab hop cpu qp p).1.fault
        ≡ (p.fault || (not (is_some (found p hop)) && lacks_lists slab))
  fault_exactly slab = elim (Option-cases (found p hop)) [
    | inl h ↦ fault-lacks slab h ∙ rw h refl
    | inr (e, h) ↦ rw (add-there rb slab p hop cpu qp e h) (rw h (ground arith))
  ]

  looked_up :
      (slab : Option (ℕ × Bool))
      → let (ok, p') = add_preconn_qp rb slab hop cpu qp p in
        (ok ≡ is_some (entry_after hop (found p hop) slab))
        × (found p' hop ≡ entry_after hop (found p hop) slab)
  looked_up slab = elim (Option-cases (found p hop)) [
    | inl h ↦ rw h (opened slab h)
    | inr (e, h) ↦ rw (add-there rb slab p hop cpu qp e h) (rw h (refl, refl))
  ]
    where
      opened :
          (slab' : Option (ℕ × Bool))
          → found p hop ≡ none
          → let (ok, p') = add_preconn_qp rb slab' hop cpu qp p in
            (ok ≡ is_some (entry_after hop none slab'))
            × (found p' hop ≡ entry_after hop none slab')
      opened none h = rw (add-failed rb p hop cpu qp h) (refl, h)
      opened (some (addr, true)) h =
          rw (add-new rb p v (entry addr) small h cpu qp)
            (refl, found-opened rb p v (entry addr) small h hop small ∙ ground arith)
      opened (some (addr, false)) h =
          rw (add-dangling addr h)
            (refl, found-opened rb p v (entry addr) small h hop small ∙ ground arith)

  -- Take pools whose entries are in order, have keys below 2^31 and share no address. Adding a pair for
  -- a next hop below 2^31 succeeds exactly if the next hop has a pool or there is memory for the object
  -- of one, which the look-up of the next hop then finds. It uses freed memory exactly if the next hop
  -- has no pool, and there is memory for the object and none for its lists.
  pub add_preconn_qp-fault :
      (slab : Option (ℕ × Bool))
      → let (ok, p') = add_preconn_qp rb slab hop cpu qp p in
        (ok ≡ is_some (entry_after hop (found p hop) slab))
        × (found p' hop ≡ entry_after hop (found p hop) slab)
        × (p'.fault ≡ (p.fault || (not (is_some (found p hop)) && lacks_lists slab)))
  add_preconn_qp-fault slab = let (ok, there) = looked_up slab in (ok, there, fault_exactly slab)
