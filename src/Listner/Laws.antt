-- ===== src/Listner/Laws.antt =====
-- The registry of the servers: what a start, an end and a removal do to the tenants that it serves.
use native.Mathlib.Decide.{ℕ_discrete}
use ktcp_split.Common.{
  subst, ◌>>=◌, ℕ, ◌^◌, ◌<◌, ◌≡◌, refl, ap, sym, ◌∙◌, Option, none, some, arith, All, All-map, ◌==◌,
  if◌then◌else◌,
}
use ktcp_split.RbTree.{Tree, in_order, RbOps}
use ktcp_split.RbTree.Lists.{
  IsSorted, find, delete, insert-IsSorted, find-insert, find-delete, find-split, insert-All,
  delete-All, delete-IsSorted, delete-insert,
}
use ktcp_split.RbTree.Laws.{Agrees, Links, search_rb-find, add_rb-Links, in_order-erase}
use ktcp_split.Listner.{
  Entry, rank, Registry, probe_listner, search_rb_listner, add_rb_listner, remove_listner_server,
  del_server_cb,
}
use ktcp_split.Listner.Keys.{probe_listner-nonneg}

-- The tenants are in order, and no tenant id is negative as an `int32_t`.
pub record IsValid (r : Registry) : Type 0 where
  pub sorted : IsSorted rank (in_order r.tree)
  pub keys : All (λ e. e.key < 2 ^ 31) (in_order r.tree)

-- The server that serves a tenant.
abbrev pub serves : Registry → ℕ → Option Entry
serves r key = search_rb_listner r.tree key

module _ (r : Registry) (v : IsValid r) where
  agrees : (key : ℕ) → key < 2 ^ 31 → All (Agrees rank (probe_listner key) key) (in_order r.tree)
  agrees key h =
      All-map (λ e. e.key < 2 ^ 31) (Agrees rank (probe_listner key) key) (in_order r.tree)
        (λ e k. probe_listner-nonneg key e h k) v.keys

  pub serves-find : (key : ℕ) → key < 2 ^ 31 → serves r key ≡ find rank key (in_order r.tree)
  unfolding search_rb_listner
  serves-find key h = search_rb-find rank (probe_listner key) key r.tree (agrees key h) v.sorted

abbrev pub added_tree : RbOps Entry rank → Registry → Entry → Tree Entry
added_tree rb r e = (add_rb_listner rb r.tree e).1

module _ (rb : RbOps Entry rank) (r : Registry) (v : IsValid r) (e : Entry)
    (small : e.key < 2 ^ 31) where
  pub added-Links : Links rank (probe_listner e.key) e.key e r.tree (add_rb_listner rb r.tree e)
  unfolding add_rb_listner
  added-Links = add_rb-Links rb (probe_listner e.key) e r.tree (agrees r v e.key small) v.sorted

  pub added-IsValid : (r' : Registry) → r'.tree ≡ added_tree rb r e → IsValid r'
  added-IsValid r' same = record {
    sorted =
        rw (ap in_order same ∙ added-Links.1) (insert-IsSorted rank e (in_order r.tree) v.sorted);
    keys =
        rw (ap in_order same ∙ added-Links.1)
          (insert-All rank (λ e. e.key < 2 ^ 31) e (in_order r.tree) small v.keys);
  }

  module _ (new : serves r e.key ≡ none) where
    pub not_there : find rank e.key (in_order r.tree) ≡ none
    not_there = sym (serves-find r v e.key small) ∙ new

    pub serves-added :
        (r' : Registry) (key : ℕ)
        → r'.tree ≡ added_tree rb r e
        → key < 2 ^ 31
        → serves r' key ≡ (if e.key == key then some e else serves r key)
    serves-added r' key same k =
        serves-find r' (added-IsValid r' same) key k
        ∙ ap (find rank key) (ap in_order same ∙ added-Links.1)
        ∙ find-insert rank key e (in_order r.tree) v.sorted not_there
        ∙ ap (λ (o : Option Entry). if e.key == key then some e else o)
            (sym (serves-find r v key k))

    -- What was added and is erased again is gone, and nothing else.
    pub erased-list :
        (r' : Registry)
        → r'.tree ≡ rb.erase e (added_tree rb r e)
        → in_order r'.tree ≡ in_order r.tree
    erased-list r' same =
        ap in_order same
        ∙ in_order-erase rb (added_tree rb r e) e
            (rw added-Links.1 (insert-IsSorted rank e (in_order r.tree) v.sorted))
            (rw added-Links.1
              (find-insert rank e.key e (in_order r.tree) v.sorted not_there ∙ here))
        ∙ ap (delete rank e.key) added-Links.1
        ∙ delete-insert rank e (in_order r.tree) not_there
      where
        here : (if e.key == e.key then some e else find rank e.key (in_order r.tree)) ≡ some e
        here = ground arith

    pub erased-IsValid : (r' : Registry) → r'.tree ≡ rb.erase e (added_tree rb r e) → IsValid r'
    erased-IsValid r' same = record {
      sorted = rw (erased-list r' same) v.sorted;
      keys = rw (erased-list r' same) v.keys;
    }

    pub serves-erased :
        (r' : Registry) (key : ℕ)
        → r'.tree ≡ rb.erase e (added_tree rb r e)
        → key < 2 ^ 31
        → serves r' key ≡ serves r key
    serves-erased r' key same k =
        serves-find r' (erased-IsValid r' same) key k
        ∙ ap (find rank key) (erased-list r' same)
        ∙ sym (serves-find r v key k)

module _ (rb : RbOps Entry rank) (r : Registry) (v : IsValid r) (tid : ℕ)
    (small : tid < 2 ^ 31) where
  deleted-list :
      (e : Entry)
      → serves r tid ≡ some e
      → in_order (rb.erase e r.tree) ≡ delete rank tid (in_order r.tree)
  deleted-list e h =
      let found : find rank tid (in_order r.tree) ≡ some e = sym (serves-find r v tid small) ∙ h in
      let (_, _, _, _, same) = find-split rank tid (in_order r.tree) e found in
      subst (λ k. in_order (rb.erase e r.tree) ≡ delete rank k (in_order r.tree)) same
        (in_order-erase rb r.tree e v.sorted
          (subst (λ k. find rank k (in_order r.tree) ≡ some e) (sym same) found))

  pub deleted-IsValid :
      (e : Entry) (r' : Registry) → serves r tid ≡ some e → r'.tree ≡ rb.erase e r.tree → IsValid r'
  deleted-IsValid e r' h t = record {
    sorted =
        rw (ap in_order t ∙ deleted-list e h) (delete-IsSorted rank tid (in_order r.tree) v.sorted);
    keys =
        rw (ap in_order t ∙ deleted-list e h)
          (delete-All rank (λ e. e.key < 2 ^ 31) tid (in_order r.tree) v.keys);
  }

  find-deleted :
      (key : ℕ)
      → key < 2 ^ 31
      → find rank key (delete rank tid (in_order r.tree))
        ≡ (if tid == key then none else serves r key)
  find-deleted key k =
      ground (arith, find-delete rank tid key (in_order r.tree) v.sorted, serves-find r v key k)

  pub serves-deleted :
      (e : Entry) (r' : Registry) (key : ℕ)
      → serves r tid ≡ some e
      → r'.tree ≡ rb.erase e r.tree
      → key < 2 ^ 31
      → serves r' key ≡ (if tid == key then none else serves r key)
  serves-deleted e r' key h t k =
      serves-find r' (deleted-IsValid e r' h t) key k
      ∙ ap (find rank key) (ap in_order t ∙ deleted-list e h)
      ∙ find-deleted key k

  absent :
      (key : ℕ) → serves r tid ≡ none → serves r key ≡ (if tid == key then none else serves r key)
  absent key h = elim (ℕ_discrete tid key) [
    | yes e ↦ ground (arith, ap (serves r) e)
    | no e ↦ ground arith
  ]

  abbrev Deleted : Option Entry → Type 0
  Deleted o =
      let (shut, r') = del_server_cb rb tid r in
      IsValid r'
      × ((key : ℕ) → key < 2 ^ 31 → serves r' key ≡ (if tid == key then none else serves r key))
      × (shut ≡ (o >>= λ e. (r.info e.addr).sock))

  deleted : (o : Option Entry) → serves r tid ≡ o → Deleted o
  unfolding del_server_cb
  deleted none h = rw (h, del_server_cb) (v, (λ key k. absent key h), refl)
  deleted (some e) h =
      rw (h, del_server_cb)
        (
          deleted-IsValid e (remove_listner_server rb r e).1 h refl,
          (λ key k. serves-deleted e (remove_listner_server rb r e).1 key h refl k),
          refl,
        )

  -- In a valid registry, del_server_cb of a tenant id below 2 ^ 31 leaves a valid registry in which
  -- that tenant has no server and every other tenant has the server it had; the socket that it shuts
  -- down is that of the removed server.
  pub del_server_cb_lem :
      let (shut, r') = del_server_cb rb tid r in
      IsValid r'
      × ((key : ℕ) → key < 2 ^ 31 → serves r' key ≡ (if tid == key then none else serves r key))
      × (shut ≡ (serves r tid >>= λ e. (r.info e.addr).sock))
  del_server_cb_lem = deleted (serves r tid) refl
