-- ===== src/Preconn/Race.antt =====
-- Two threads that open the pool of one next hop at once.
use ktcp_split.Common.{
  ℕ, ◌^◌, ◌<◌, ◌≡◌, ◌≢◌, refl, ap, sym, ◌∙◌, true, Option, none, some, arith, Option-cases, inl,
  inr, All,
}
use ktcp_split.RbTree.{RbOps, in_order}
use ktcp_split.Listner.{Entry, rank, search_rb_listner, add_rb_listner}
use ktcp_split.Listner.Laws.{serves-find, added-Links}
use ktcp_split.Preconn.{
  search_rb_preconn, add_rb_preconn, Pools, searched, linked, after_init, init_preconn, clear_lists,
}
use ktcp_split.Preconn.Stacks.{IsPools, IsFresh, IsFresh-All, stack, found, relist, as_registry}
use ktcp_split.Preconn.Opened.{
  linked-opened, opened_pools, opened-IsPools, stack-opened, found-opened,
}

module _ (rb : RbOps Entry rank) (hop addr : ℕ) (p : Pools) (v : IsPools p)
    (small : hop < 2 ^ 31) where
  abbrev entry : Entry
  entry = record { key = hop; addr = addr }

  -- The lists of the object, which nobody reads.
  stack-cleared :
      (k c : ℕ)
      → IsFresh p addr
      → k < 2 ^ 31
      → stack (record p { lists = clear_lists p.lists addr }) k c ≡ stack p k c
  stack-cleared k c fresh small' = elim (Option-cases (found p k)) [
    | inl h ↦ rw h (ground arith)
    | inr (d, h) ↦ let far = fresh k d small' h in rw h (ground arith)
  ]

  linked-late :
      (d : Entry)
      → found p hop ≡ some d
      → linked rb entry (after_init true entry p) ≡ (none, after_init true entry p)
  unfolding init_preconn add_rb_preconn add_rb_listner search_rb_preconn search_rb_listner
  linked-late d h =
      ap
        (λ o. elim o as (λ _. Option Entry × Pools) [
          | none ↦ (some entry, opened_pools rb p entry)
          | some o' ↦ (none, after_init true entry p)
        ])
        ((added-Links rb (as_registry p) v.valid entry small).0
          ∙ sym (serves-find (as_registry p) v.valid hop small)
          ∙ h)

  -- A thread has found no pool for a next hop below 2^31, and has a new object with its lists, at an
  -- address where no pool stands. When it goes on, on pools whose entries are in order, have keys below
  -- 2^31 and share no address: if another thread has opened the pool of the next hop meanwhile, this
  -- one gets none, and the other's pool stays; if not, it gets its own, which is found from then on.
  -- Either way the entries stay in order and apart, no freed memory is used, and the list of each next
  -- hop below 2^31 on each CPU is as it was.
  pub race_lem :
      (k c : ℕ)
      → All (λ (e : Entry). e.addr ≢ addr) (in_order p.tree)
      → k < 2 ^ 31
      → let (got, p') = searched rb none (some (addr, true)) hop p in
        (got ≡ elim (found p hop) as (λ _. Option Entry) [ none ↦ some entry | some d ↦ none ])
        × (p'.fault ≡ p.fault)
        × IsPools p'
        × (stack p' k c ≡ stack p k c)
        × (found p' hop
            ≡ elim (found p hop) as (λ _. Option Entry) [ none ↦ some entry | some d ↦ some d ])
  unfolding init_preconn
  race_lem k c a small' = elim (Option-cases (found p hop)) [
    | inl h ↦ rw (linked-opened rb p v entry small h) (
        rw h (
          refl,
          refl,
          opened-IsPools rb p v entry small h (IsFresh-All p addr v a),
          stack-opened rb p v entry small h (IsFresh-All p addr v a) k c small',
          found-opened rb p v entry small h hop small ∙ ground arith,
        ))
    | inr (d, h) ↦ rw (linked-late d h) (
        rw h (
          refl,
          refl,
          relist p (clear_lists p.lists addr) v,
          stack-cleared k c (IsFresh-All p addr v a) small',
          refl,
        ))
  ]
