-- ===== src/Listner/Starts.antt =====
-- What the start of a server does, on each path of `split_server`.
use ktcp_split.Common.{
  if_elim, subst, sym, Bool-cases, inl, inr, Option-cases, ◌∙◌, ℕ, ◌^◌, ◌<◌, ◌≡◌, refl, ap, Bool,
  true, false, not, ◌&&◌, Option, none, some, arith, ◌==◌, if◌then◌else◌,
}
use ktcp_split.Common.Int.{ℤ, pos, neg, is_nonzero, is_neg}
use ktcp_split.Common.Words.{u16}
use ktcp_split.RbTree.{RbOps}
use ktcp_split.Listner.{
  Entry, rank, Registry, ServerCalls, Start, accepting, ended, add_server_cb, void2uint,
  register_server_sock, split_server_start, create_stage, added, registered, at_status, fail,
  probe_stage, listen_stage, bind_stage, mark_stage, with_sock, eexist, remove_listner_server,
}
use ktcp_split.Listner.Keys.{void2uint-uint2void}
use ktcp_split.Listner.Laws.{
  IsValid, serves, added_tree, added-IsValid, erased-IsValid, serves-added, serves-erased,
}

module _ (rb : RbOps Entry rank) (c : ServerCalls) (port : ℕ) where
  -- The stages behind the registration keep the tree on success and erase the server on failure.
  abbrev Staged : Entry → Registry → Start × Registry → Type 0
  Staged e r (ended rc released, r') =
      (r'.tree ≡ rb.erase e r.tree)
      × (released ≡ (if is_nonzero c.create then none else some c.sock))
  Staged e r (accepting e' sock, r') =
      (e' ≡ e)
      × (r'.tree ≡ r.tree)
      × (is_nonzero c.create ≡ false)
      × (sock ≡ c.sock)
      × (r'.info e.addr ≡ record { port = u16 port; status = 6; sock = some c.sock; raw = c.probe })

  -- The socket and the port are recorded.
  abbrev HasSock : Entry → Registry → Type 0
  HasSock e r = ((r.info e.addr).sock ≡ some c.sock) × ((r.info e.addr).port ≡ u16 port)

  module _ (opened : is_nonzero c.create ≡ false) (e : Entry) where
    fail-Staged : (r : Registry) (rc : ℤ) → Staged e r (fail rb r e rc (some c.sock))
    unfolding remove_listner_server
    fail-Staged r rc = (refl, ground arith)

    probe_stage-Staged : (r : Registry) → HasSock e r → Staged e r (probe_stage rb c e r)
    unfolding probe_stage remove_listner_server
    probe_stage-Staged r h = elim (Option-cases c.probe) [
      | inl p ↦ rw (p, probe_stage) (refl, ground arith)
      | inr (raw, p) ↦ rw (p, probe_stage) (refl, refl, opened, refl, ground arith)
    ]

    listen_stage-Staged : (r : Registry) → HasSock e r → Staged e r (listen_stage rb c e r)
    unfolding listen_stage
    listen_stage-Staged r h =
        if_elim (Staged e r) (is_nonzero c.listen) (λ _. fail-Staged r c.listen)
          λ _. probe_stage-Staged (at_status rb r e 5) (ground arith)

    bind_stage-Staged : (r : Registry) → HasSock e r → Staged e r (bind_stage rb c e r)
    unfolding bind_stage
    bind_stage-Staged r h =
        if_elim (Staged e r) (is_nonzero c.bind) (λ _. fail-Staged r c.bind)
          λ _. listen_stage-Staged (at_status rb r e 4) (ground arith)

    mark_stage-Staged : (r : Registry) → HasSock e r → Staged e r (mark_stage rb c e r)
    unfolding mark_stage
    mark_stage-Staged r h =
        if_elim (Staged e r) (is_neg c.set_mark) (λ _. fail-Staged r c.set_mark)
          λ _. bind_stage-Staged (at_status rb r e 3) (ground arith)

  create_stage-Staged : (e : Entry) (r : Registry) → Staged e r (create_stage rb c port e r)
  unfolding create_stage remove_listner_server
  create_stage-Staged e r =
      if_elim (Staged e r) (is_nonzero c.create) (λ failed. (refl, rw failed refl))
        λ opened. mark_stage-Staged opened e (with_sock rb c port e r) (ground arith)

  -- A socket was opened: the tenant was new, and all that stands before the socket succeeded.
  abbrev pub opens : Option Entry → Bool
  opens (some _) = false
  opens none = elim c.slab [
    | none ↦ false
    | some _ ↦ c.roots && c.lists && not (is_nonzero c.create)
  ]

  module _ (mark : ℕ) (r : Registry) where
    -- The whole effect of a start.
    abbrev pub Started : Start × Registry → Type 0
    Started (ended rc released, r') =
        IsValid r'
        × ((key : ℕ) → key < 2 ^ 31 → serves r' key ≡ serves r key)
        × (released ≡ (if opens (serves r mark) then some c.sock else none))
    Started (accepting e sock, r') =
        IsValid r'
        × (serves r mark ≡ none)
        × (e.key ≡ mark)
        × ((key : ℕ)
            → key < 2 ^ 31
            → serves r' key ≡ (if mark == key then some e else serves r key))
        × (sock ≡ c.sock)
        × (r'.info e.addr
            ≡ record { port = u16 port; status = 6; sock = some c.sock; raw = c.probe })

    module _ (v : IsValid r) (small : mark < 2 ^ 31) (new : serves r mark ≡ none) (addr : ℕ)
        (slab : c.slab ≡ some addr) (memory : c.roots && c.lists ≡ true) where
      abbrev entry : Entry
      entry = record { key = mark; addr = addr }

      staged :
          (s : Start) (r1 r' : Registry)
          → r1.tree ≡ added_tree rb r entry
          → Staged entry r1 (s, r')
          → Started (s, r')
      staged (ended rc released) r1 r' t (erased, rel) = (
        erased-IsValid rb r v entry small new r' (erased ∙ ap (rb.erase entry) t),
        (λ key k. serves-erased rb r v entry small new r' key (erased ∙ ap (rb.erase entry) t) k),
        ground (arith, new, slab, memory, rel),
      )
      staged (accepting e sock) r1 r' t (same, kept, opened, sk, info) = (
        added-IsValid rb r v entry small r' (kept ∙ t),
        new,
        ap rank same,
        (λ key k.
            serves-added rb r v entry small new r' key (kept ∙ t) k
            ∙ ap (λ (z : Entry). if mark == key then some z else serves r key) (sym same)),
        sk,
        ap (λ (z : Entry). r'.info z.addr) same ∙ info,
      )

    refused : IsValid r → (rc : ℤ) → opens (serves r mark) ≡ false → Started (ended rc none, r)
    refused v rc h = (v, (λ key k. refl), ground arith)

    module _ (v : IsValid r) (small : mark < 2 ^ 31) (new : serves r mark ≡ none) where
      abbrev Registers : Option (Entry × Registry) → Type 0
      Registers z = Started (registered rb c port r z)

      no_slab : c.slab ≡ none → register_server_sock rb c mark r ≡ none
      unfolding register_server_sock
      no_slab h = ground arith

      no_memory : c.roots && c.lists ≡ false → register_server_sock rb c mark r ≡ none
      unfolding register_server_sock
      no_memory h = ground arith

      all_memory :
          (addr : ℕ)
          → c.slab ≡ some addr
          → c.roots && c.lists ≡ true
          → register_server_sock rb c mark r
            ≡ some (added rb (record { key = mark; addr = addr }) r)
      unfolding register_server_sock
      all_memory addr h m = ground arith

      with_slab : (o : Option ℕ) → c.slab ≡ o → Registers (register_server_sock rb c mark r)
      with_slab none h =
          subst Registers (sym (no_slab h)) (refused v (pos 0) (ground (arith, new, h)))
      with_slab (some addr) h = elim (Bool-cases (c.roots && c.lists)) [
        | inr m ↦ subst Registers (sym (no_memory m)) (refused v (pos 0) (ground (arith, new, h)))
        | inl m ↦
            let e = entry v small new addr h m in
            let r1 = at_status rb (added rb e r).1 e 1 in
            subst Registers (sym (all_memory addr h m)) (
              staged v small new addr h m (create_stage rb c port e r1).0 r1
                (create_stage rb c port e r1).1 refl (create_stage-Staged e r1))
      ]

    unpacked : mark < 2 ^ 31 → port < 2 ^ 32 → void2uint (add_server_cb mark port) ≡ (mark, port)
    unfolding add_server_cb
    unpacked h k = void2uint-uint2void mark port (omega arith) k

    abbrev run : ℕ × ℕ → Option Entry → Start × Registry
    run p (some e) = (ended (neg eexist) none, r)
    run p none = registered rb c p.1 r (register_server_sock rb c p.0 r)

    start_run :
        split_server_start rb c (add_server_cb mark port) r
        ≡ run
            (void2uint (add_server_cb mark port))
            (serves r (void2uint (add_server_cb mark port)).0)
    unfolding split_server_start
    start_run = ground arith

    by_tenant :
        (o : Option Entry)
        → serves r mark ≡ o
        → IsValid r
        → mark < 2 ^ 31
        → Started (run (mark, port) o)
    by_tenant (some e) h v small = refused v (neg eexist) (ground (arith, h))
    by_tenant none h v small = with_slab v small h c.slab refl

  -- In a valid registry, the start of a server for a tenant id below 2 ^ 31 and a 32-bit port leaves
  -- a valid registry, and either ends or accepts. If it ends, every tenant has the server it had, and it has released its socket
  -- exactly if it had opened one. If it accepts, the tenant had no server and has this one now, with
  -- the socket, the port, the probe socket and the status 6, and every other tenant has the server
  -- it had.
  pub split_server_start_lem :
      (mark : ℕ) (r : Registry)
      → IsValid r
      → mark < 2 ^ 31
      → port < 2 ^ 32
      → Started mark r (split_server_start rb c (add_server_cb mark port) r)
  split_server_start_lem mark r v small p =
      subst (Started mark r)
        (sym (
          start_run mark r
          ∙ ap (λ (q : ℕ × ℕ). run mark r q (serves r q.0)) (unpacked mark r small p)))
        (by_tenant mark r (serves r mark) refl v small)
