-- ===== src/Connect/Advance.antt =====
-- The threads prealloc_connection and start_new_pre_connection_syn of tcpsplit/conn_pool.c with the
-- pools and the tenants that they share. A pair in a pool is known by its socket.
use ktcp_split.Common.{
  ℕ, ◌≡◌, refl, Bool, true, false, Option, none, some, List, [], ◌∷◌, arith, if◌then◌else◌, All,
}
use ktcp_split.Common.Int.{ℤ, pos, neg, is_le_zero}
use ktcp_split.RbTree.{RbOps}
use ktcp_split.Listner.{Entry, rank, Registry, search_rb_listner}
use ktcp_split.Pairing.{wait_qp_ready_timeout, null, sock, tx_qp, Pair, qp_exists, new_pair}
use ktcp_split.Preconn.{Pools, add_preconn_qp, alloc_prexeisting_conn}
use ktcp_split.Preconn.Runs.{Op, add}
use ktcp_split.Preconn.Stacks.{stack, IsPools}
use ktcp_split.Preconn.View.{is_some}
use ktcp_split.Preconn.Refine.{Suits, Suited, carry_out_all}
use ktcp_split.Preconn.Others.{is_elsewhere, take-others-add}
use ktcp_split.Connect.{
  Exit, exit, SocketCalls, PoolCalls, Waits, Duplex, awaited, first_error, nonzero, negative,
  prealloc_connection, start_new_pre_connection_syn,
}

-- The calls before add_preconn_qp.
abbrev pub open_calls : PoolCalls → Option ℤ
open_calls c = first_error (
    nonzero c.create
    ∷ negative c.set_mark
    ∷ negative c.keepalive
    ∷ negative c.nodelay
    ∷ nonzero c.connect
    ∷ [])

-- The result of add_preconn_qp, which is called last.
abbrev pub added_calls : PoolCalls → Bool → PoolCalls
added_calls c ok = record c { add = if ok then pos 0 else neg 1 }

module _ (rb : RbOps Entry rank) where
  -- The result and the sockets released, and the pools.
  pub prealloc_into :
      Option ℕ → PoolCalls → Option (ℕ × Bool) → ℕ → ℕ → Pools → (ℤ × List ℕ) × Pools
  prealloc_into stack' c slab ip cpu p = elim (open_calls c) [
    | some rc ↦ (prealloc_connection stack' c, p)
    | none ↦
        let (ok, p') = add_preconn_qp rb slab ip cpu c.sock p in
        (prealloc_connection stack' (added_calls c ok), p')
  ]

-- The tenant is looked up, and a pair is taken from the pool of the next hop.
pub start_from :
    Waits
    → Duplex
    → Bool
    → SocketCalls
    → ℤ
    → Option Pair
    → Registry
    → ℕ
    → ℕ
    → ℕ
    → Pools
    → Exit × Pools
start_from waits duplex ip_transparent c forward found r mark hop cpu p =
    let (qp, p') = alloc_prexeisting_conn hop cpu p in
    (
      start_new_pre_connection_syn waits duplex ip_transparent c qp
          (is_some (search_rb_listner r.tree mark)) forward found,
      p',
    )

-- The pair of a connection whose sending half has a socket; data flows when the other half comes in time.
abbrev pub relayed : Waits → Duplex → ℤ → ℕ → Exit
relayed waits duplex forward s =
    let (ready, qp) = awaited waits tx_qp (record (new_pair (sock s) null) { in_tree = true }) in
    if ready
    then exit (duplex qp).0 [] true (some (duplex qp).1)
    else exit forward [] true (some (wait_qp_ready_timeout qp))

pub start_from-taken :
    (waits : Waits) (duplex : Duplex) (ip_transparent : Bool) (calls : SocketCalls) (forward : ℤ)
    (r : Registry) (mark hop cpu s : ℕ) (p : Pools) (server : Entry)
    → search_rb_listner r.tree mark ≡ some server
    → is_le_zero forward ≡ false
    → (alloc_prexeisting_conn hop cpu p).0 ≡ some s
    → (start_from waits duplex ip_transparent calls forward none r mark hop cpu p).0
      ≡ relayed waits duplex forward s
unfolding start_from start_new_pre_connection_syn qp_exists
start_from-taken waits duplex ip_transparent calls forward r mark hop cpu s p server h k t =
    rw (t, h) (ground (arith, k))

module _ (rb : RbOps Entry rank) (p : Pools) (v : IsPools p) (sound : p.fault ≡ false)
    (slab : Option (ℕ × Bool)) (hop cpu : ℕ) (stack' : Option ℕ) (c : PoolCalls)
    (fits : Suits (add slab hop cpu c.sock) p) (opens : open_calls c ≡ none)
    (ok : (add_preconn_qp rb slab hop cpu c.sock p).0 ≡ true) (ops : List Op) where
  filled-lem :
      prealloc_into rb stack' c slab hop cpu p
      ≡ ((pos 0, []), (add_preconn_qp rb slab hop cpu c.sock p).1)
  unfolding prealloc_into prealloc_connection
  filled-lem = ground (arith, opens, ok)

  -- Take pools whose entries are in order, have keys below 2^31 and share no address, and in which no
  -- freed memory was used. A connection is opened in advance for a next hop below 2^31 on a CPU: all
  -- its calls succeed, add_preconn_qp included, and a new pool would be at an address where none
  -- stands and have memory for its lists. Then its thread returns 0 and releases no socket. After any
  -- operations on the pools of other next hops or CPUs, let a SYN of a tenant with a listener come for
  -- that next hop on that CPU, of a connection that the tree does not have, and let the forward to the
  -- next hop succeed. Then the connection runs on the socket that was opened in advance: data flows
  -- if the other half comes in time, or else the pair is given up. The pool is then as it was before.
  pub start_from-prealloc_into :
      (waits : Waits) (duplex : Duplex) (ip_transparent : Bool) (calls : SocketCalls) (forward : ℤ)
      (r : Registry) (mark : ℕ) (server : Entry)
      → Suited rb ops (prealloc_into rb stack' c slab hop cpu p).1
      → All (λ op. is_elsewhere hop cpu op ≡ true) ops
      → search_rb_listner r.tree mark ≡ some server
      → is_le_zero forward ≡ false
      → let ((rc, released), p1) = prealloc_into rb stack' c slab hop cpu p in
        let (_, p2) = carry_out_all rb ops p1 in
        let (x, p3) = start_from waits duplex ip_transparent calls forward none r mark hop cpu p2 in
        (rc ≡ pos 0)
        × (released ≡ [])
        × (x ≡ relayed waits duplex forward c.sock)
        × (stack p3 hop cpu ≡ stack p hop cpu)
  unfolding start_from
  start_from-prealloc_into waits duplex ip_transparent calls forward r mark server =
      rw filled-lem (λ s a h k.
        let (t, rest) = take-others-add rb p v sound slab hop cpu c.sock fits ok ops s a in
        (
          refl,
          refl,
          start_from-taken waits duplex ip_transparent calls forward r mark hop cpu c.sock _ server
              h k t,
          rest,
        ))
