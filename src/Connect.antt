-- ===== src/Connect.antt =====
-- The threads that set a connection up: tcpsplit/split.c (start_new_connection_syn,
-- start_new_connection) and tcpsplit/conn_pool.c (start_new_pre_connection_syn, prealloc_connection,
-- start_new_pending_connection, craete_prec_conn_probe, the start of prec_conn_listner_server).
-- The result of each call of the kernel is an argument. What a thread leaves behind is its result. The
-- tenant of a connection is taken to have a listener where the code does not test it.
pub mod Halves
pub mod Pooled
pub mod NextHop
pub mod Advance
pub mod Life
mod Tests
use ktcp_split.Common.{
  ℕ, Bool, true, false, Option, none, some, List, [], ◌∷◌, ◌++◌, if◌then◌else◌, ◌||◌,
}
use ktcp_split.Common.Int.{ℤ, pos, neg, is_neg, is_nonzero, is_le_zero}
use ktcp_split.Pairing.{
  Slot, null, einval, sock, is_err_or_null, live, Dir, tx_qp, rx_qp, Pair, set_qp_dir, get_qp,
  put_qp, qp_exists, wait_qp_ready, wait_qp_ready_timeout, new_pair,
}

-- `if ((rc = ...))` and `if ((rc = ...) < 0)`: the error that ends the thread.
abbrev pub nonzero : ℤ → Option ℤ
nonzero rc = if is_nonzero rc then some rc else none

abbrev pub negative : ℤ → Option ℤ
negative rc = if is_neg rc then some rc else none

-- The first error of the calls, in their order.
abbrev pub first_error : List (Option ℤ) → Option ℤ
first_error [] = none
first_error (none ∷ calls) = first_error calls
first_error (some rc ∷ calls) = some rc

pub record SocketCalls : Type 0 where
  pub create : ℤ
  pub sock : ℕ
  pub nodelay : ℤ
  pub set_mark : ℤ
  pub transparent : ℤ
  pub bind : ℤ
  pub connect : ℤ

abbrev pub created : ℤ → ℕ → List ℕ
created rc s = if is_nonzero rc then [] else s ∷ []

-- `if (ip_transparent) { ... }`
abbrev pub bound : Bool → SocketCalls → List (Option ℤ)
bound ip_transparent c = if ip_transparent then nonzero c.transparent ∷ nonzero c.bind ∷ [] else []

pub open_tx : Bool → SocketCalls → Option ℤ
open_tx ip_transparent c = first_error (
    (nonzero c.create ∷ negative c.nodelay ∷ negative c.set_mark ∷ [])
    ++ bound ip_transparent c
    ++ (nonzero c.connect ∷ []))

-- The result, the sockets that the thread itself releases, whether its `struct addresses` is freed,
-- and the pair, if it has one. A NULL pair that is read is an oops.
pub data Exit : Type 0 where
  exit : ℤ → List ℕ → Bool → Option Pair → Exit
  oops : Exit

-- The pair when the wait is over: woken, or after the time-out.
abbrev pub Waits : Type 0
Waits = Pair → Bool × Pair

-- half_duplex: its result and the pair afterwards.
abbrev pub Duplex : Type 0
Duplex = Pair → ℤ × Pair

abbrev pub awaited : Waits → Dir → Pair → Bool × Pair
awaited waits dir qp =
    let (q, sleeps) = wait_qp_ready dir qp in if sleeps then waits q else (true, q)

module _ (waits : Waits) (duplex : Duplex) where
  -- After kernel_connect, with `rc` 0.
  abbrev forward_tx : Bool × Pair → Exit
  forward_tx (ready, qp) =
      if ready
      then (if is_err_or_null qp.rx || is_err_or_null qp.tx
          then exit (pos 0) [] true (some (put_qp qp))
          else let (rc, q) = duplex qp in exit rc [] true (some q))
      else exit (pos 0) [] true (some (wait_qp_ready_timeout qp))

  abbrev connect_tx : Bool → SocketCalls → Option Pair → Exit
  connect_tx ip_transparent c none = exit (pos 0) [] true none
  connect_tx ip_transparent c (some qp) = elim (open_tx ip_transparent c) [
    | some rc ↦ exit rc (created c.create c.sock) false (some qp)
    | none ↦ forward_tx (awaited waits tx_qp (set_qp_dir tx_qp (sock c.sock) qp))
  ]

  -- The last argument is the pair of the same key in the tree.
  pub start_new_connection_syn : Bool → SocketCalls → Option Pair → Exit
  start_new_connection_syn ip_transparent c found =
      connect_tx ip_transparent c (qp_exists tx_qp (new_pair einval null) found)

-- The calls on the accepted socket.
pub record AcceptedCalls : Type 0 where
  pub set_mark : ℤ
  pub origdst : ℤ
  pub nodelay : ℤ
  pub peername : ℤ
  pub affinity : ℤ

pub open_rx : AcceptedCalls → Option ℤ
open_rx c = first_error (
    negative c.set_mark
    ∷ nonzero c.origdst
    ∷ negative c.nodelay
    ∷ nonzero c.peername
    ∷ nonzero c.affinity
    ∷ [])

module _ (waits : Waits) (duplex : Duplex) where
  abbrev forward_rx : Bool × Pair → Exit
  forward_rx (ready, qp) =
      if ready
      then (if is_err_or_null qp.rx || is_err_or_null qp.tx
          then exit (pos 0) [] true (some qp)
          else exit (pos 0) [] true (some (duplex qp).1))
      else exit (pos 0) [] true (some (wait_qp_ready_timeout qp))

  abbrev join_rx : Option Pair → Exit
  join_rx none = oops
  join_rx (some qp) = forward_rx (awaited waits rx_qp qp)

  -- The accepted socket, its calls, the pair of the same key. There is no `struct addresses` here.
  pub start_new_connection : ℕ → AcceptedCalls → Option Pair → Exit
  start_new_connection rx c found = elim (open_rx c) [
    | some rc ↦ exit rc (rx ∷ []) true none
    | none ↦ join_rx (qp_exists rx_qp (new_pair null (sock rx)) found)
  ]

module _ (waits : Waits) (duplex : Duplex) (ip_transparent : Bool) (c : SocketCalls) where
  -- After the wait; this thread does not test the sockets. `rc` is that of forward_conn_info.
  abbrev forward_pre : ℤ → Bool × Pair → Exit
  forward_pre forward (ready, qp) =
      if ready
      then exit (duplex qp).0 [] true (some (duplex qp).1)
      else exit forward [] true (some (wait_qp_ready_timeout qp))

  abbrev with_rc : ℤ → Exit → Exit
  with_rc rc (exit _ socks freed qp) = exit rc socks freed qp
  with_rc rc oops = oops

  -- A failed forward falls back to start_new_connection_syn; the tree has the pair then.
  abbrev join_pre : ℤ → Option Pair → Exit
  join_pre forward none = exit (pos 0) [] false none
  join_pre forward (some qp) =
      if is_le_zero forward
      then with_rc forward (start_new_connection_syn waits duplex ip_transparent c (some qp))
      else forward_pre forward (awaited waits tx_qp qp)

  -- The pool's socket, if it has one; whether the tenant has a listener; the result of
  -- forward_conn_info; the pair of the same key.
  pub start_new_pre_connection_syn : Option ℕ → Bool → ℤ → Option Pair → Exit
  start_new_pre_connection_syn none listner forward found =
      with_rc (pos 0) (start_new_connection_syn waits duplex ip_transparent c found)
  start_new_pre_connection_syn (some s) listner forward found =
      if listner
      then join_pre forward (qp_exists tx_qp (new_pair (sock s) null) found)
      else exit (pos 0) [] false none

pub record PoolCalls : Type 0 where
  pub create : ℤ
  pub sock : ℕ
  pub set_mark : ℤ
  pub keepalive : ℤ
  pub nodelay : ℤ
  pub connect : ℤ
  pub add : ℤ

-- The result and the sockets released. `tx` has no first value: where the socket is not created, it is
-- what the stack holds.
pub prealloc_connection : Option ℕ → PoolCalls → ℤ × List ℕ
prealloc_connection stack c =
    let tx = if is_nonzero c.create then stack else some c.sock in
    let error = first_error (
      nonzero c.create
      ∷ negative c.set_mark
      ∷ negative c.keepalive
      ∷ negative c.nodelay
      ∷ nonzero c.connect
      ∷ nonzero c.add
      ∷ []) in
    elim error [ none ↦ (pos 0, []) | some rc ↦ (rc, elim tx [ none ↦ [] | some s ↦ s ∷ [] ]) ]

abbrev pub not_positive : ℤ → Option ℤ
not_positive rc = if is_le_zero rc then some rc else none

-- `hop` is the result of preconn_wait_for_next_hop. With both sockets the pair has two references,
-- one for each half_duplex.
pub start_new_pending_connection : Bool → ℤ → SocketCalls → Pair → Option ℤ × Pair
start_new_pending_connection ip_transparent hop c qp =
    elim (first_error (
      (nonzero c.create ∷ not_positive hop ∷ negative c.nodelay ∷ negative c.set_mark ∷ [])
      ++ bound ip_transparent c
      ++ (nonzero c.connect ∷ []))) [
        | some rc ↦ (some rc, qp)
        | none ↦ (none, get_qp (get_qp (set_qp_dir tx_qp (sock c.sock) qp)))
      ]

-- The raw socket, or NULL.
pub craete_prec_conn_probe : ℤ → ℕ → ℤ → ℤ → Option ℕ
craete_prec_conn_probe create s set_mark hdrincl =
    elim (first_error (nonzero create ∷ negative set_mark ∷ nonzero hdrincl ∷ [])) [
      | some rc ↦ none
      | none ↦ some s
    ]
