-- ===== src/Connect/Tests.antt =====
-- Runs of the threads that set connections up.
use ktcp_split.Common.{
  ℕ, ◌++◌, ◌∷◌, arith, ◌≡◌, refl, Bool, true, false, Option, none, some, List, [], ◌∷◌,
  if◌then◌else◌,
}
use ktcp_split.Common.Int.{pos, negsuc}
use ktcp_split.Pairing.{Pair, null, einval, sock, new_pair, tx_qp, qp_exists, put_qp}
use ktcp_split.Connect.{
  exit, SocketCalls, AcceptedCalls, PoolCalls, Waits, Duplex, open_tx, open_rx, created,
  start_new_connection_syn, start_new_connection,
}
use ktcp_split.Forward.{Turn, Flow, returned, half_duplex, duplex_loop}
use ktcp_split.Connect.Life.{accept_joins, syn_joins, duplex_of, gives_back, IsOver, connection_lem}
use ktcp_split.Connect.Halves.{releases, frees, is_none, start_new_connection_syn_lem}
use ktcp_split.RbTree.{leaf, node, search_rb}
use ktcp_split.RbTree.Plain.{plain_rb}
use ktcp_split.Listner.{Entry, rank, Registry, search_rb_listner, probe_listner}
use ktcp_split.Preconn.{add_preconn_qp, search_rb_preconn}
use ktcp_split.Preconn.Runs.{Op, add, take}
use ktcp_split.Preconn.Stacks.{stack}
use ktcp_split.Preconn.Faults.{add_preconn_qp-fault}
use ktcp_split.Preconn.Refine.{carry_out_all}
use ktcp_split.Preconn.Empty.{no_pools, no_pools-IsPools}
use ktcp_split.Connect.Advance.{prealloc_into, start_from, relayed, start_from-prealloc_into}
use ktcp_split.Qp.{Addresses}
use ktcp_split.Connect.NextHop.{
  Padding, layout, sizeof_addresses, forward_conn_info, preconn_wait_for_next_hop,
  preconn_wait_for_next_hop-forward_conn_info,
}

abbrev woken : Waits
woken p = (true, record p { rx = sock 9 })

abbrev through : Duplex
through p = (pos 0, put_qp p)

abbrev good : SocketCalls
good = record {
  create = pos 0;
  sock = 5;
  nodelay = pos 0;
  set_mark = pos 0;
  transparent = pos 0;
  bind = pos 0;
  connect = pos 0;
}

-- ECONNREFUSED
abbrev refused : SocketCalls
refused = record good { connect = negsuc 110 }

start_new_connection_syn_lem_example :
    let x = start_new_connection_syn woken through true refused none in
    let failed = elim (open_tx true refused) as (λ _. Bool) [ none ↦ false | some rc ↦ true ] in
    let duplicate = is_none (qp_exists tx_qp (new_pair einval null) none) in
    (releases x
      ≡ (if duplicate then [] else if failed then created refused.create refused.sock else []))
    × (frees x ≡ (if duplicate then true else if failed then false else true))
start_new_connection_syn_lem_example = start_new_connection_syn_lem woken through true refused none

abbrev noise : Padding
noise = record { family = 513; zero_lo = 77; zero_hi = 99 }

-- 10.0.0.1:4369 to 10.0.0.2:80 of tenant 7, and the first bytes of its stream.
abbrev told : Addresses
told = record {
  dest_addr = 33554442;
  dest_port = 20480;
  src_addr = 16777226;
  src_port = 4369;
  sin_addr = 637796618;
  mark = 7;
}

preconn_wait_for_next_hop-forward_conn_info_example :
    preconn_wait_for_next_hop
      ((forward_conn_info (pos sizeof_addresses) (layout noise noise told)).1 ++ (71 ∷ 69 ∷ []))
    ≡ (pos sizeof_addresses, some told, 71 ∷ 69 ∷ [])
preconn_wait_for_next_hop-forward_conn_info_example =
    preconn_wait_for_next_hop-forward_conn_info noise noise told (71 ∷ 69 ∷ []) (omega arith)

-- If kernel_sendmsg takes one byte less, a byte of the stream becomes one of the tenant's number.
short :
    (preconn_wait_for_next_hop
      ((forward_conn_info (pos 39) (layout noise noise told)).1 ++ (71 ∷ 69 ∷ []))).0
    ≡ pos sizeof_addresses
unfolding preconn_wait_for_next_hop forward_conn_info
short = refl

-- A registry that serves the tenant 7, and a connection to the next hop 5 that is opened on CPU 1.
abbrev tenant : Entry
tenant = record { key = 7; addr = 60 }

abbrev tenants : Registry
tenants = record {
  tree = node leaf tenant leaf;
  info = λ a. record { port = 0; status = 0; sock = none; raw = none };
}

abbrev opening : PoolCalls
opening = record {
  create = pos 0;
  sock = 21;
  set_mark = pos 0;
  keepalive = pos 0;
  nodelay = pos 0;
  connect = pos 0;
  add = pos 0;
}

abbrev fresh_object : Option (ℕ × Bool)
fresh_object = some (80, true)

opening-added : (add_preconn_qp (plain_rb rank) fresh_object 5 1 21 no_pools).0 ≡ true
unfolding search_rb_preconn search_rb
opening-added =
    (add_preconn_qp-fault (plain_rb rank) 5 1 21 no_pools no_pools-IsPools (omega arith)
      fresh_object).0

-- Another CPU and another next hop.
abbrev elsewhere : List Op
elsewhere = add none 5 0 22 ∷ take 6 1 ∷ []

served : search_rb_listner tenants.tree 7 ≡ some tenant
unfolding search_rb_listner search_rb probe_listner
served = refl

start_from-prealloc_into_example :
    let ((rc, released), p1) =
      prealloc_into (plain_rb rank) none opening fresh_object 5 1 no_pools in
    let (_, p2) = carry_out_all (plain_rb rank) elsewhere p1 in
    let (x, p3) = start_from woken through true good (pos 32) none tenants 7 5 1 p2 in
    (rc ≡ pos 0)
    × (released ≡ [])
    × (x ≡ relayed woken through (pos 32) 21)
    × (stack p3 5 1 ≡ stack no_pools 5 1)
start_from-prealloc_into_example =
    start_from-prealloc_into (plain_rb rank) no_pools no_pools-IsPools refl fresh_object 5 1 none
      opening (omega arith, λ h. tt) refl opening-added elsewhere woken through true good (pos 32)
      tenants 7 tenant ((omega arith, λ h. tt), (omega arith, tt)) (refl, (refl, tt)) served refl

abbrev accepted : AcceptedCalls
accepted = record {
  set_mark = pos 0;
  origdst = pos 0;
  nodelay = pos 0;
  peername = pos 0;
  affinity = pos 0;
}

abbrev turn : List ℕ → Turn
turn bytes = record { bytes = bytes; error = 0; send = pos 2; stop = false }

-- Two bytes, and then the end of the stream.
abbrev two_bytes : List Turn
two_bytes = turn (65 ∷ 66 ∷ []) ∷ turn [] ∷ []

abbrev two_flow : Flow
two_flow = record { bytes = 2; received = 65 ∷ 66 ∷ []; delivered = 65 ∷ 66 ∷ []; puts = 1 }

two_bytes-flow : half_duplex true two_bytes ≡ returned (pos 0) two_flow
unfolding half_duplex duplex_loop
two_bytes-flow = refl

connection_lem_example :
    ((q : Pair) × (start_new_connection_syn
          (accept_joins 9)
          (duplex_of (pos 0) two_flow)
          true
          good
          none
        ≡ exit (pos 0) [] true (some q))
      × IsOver true 5 9 (gives_back 1 q))
    × ((q : Pair) × (start_new_connection (syn_joins 5) (duplex_of (pos 0) two_flow) 9 accepted none
          ≡ exit (pos 0) [] true (some q))
        × IsOver true 5 9 (gives_back 1 q))
unfolding open_tx open_rx
connection_lem_example =
    connection_lem true good accepted 9 two_bytes two_bytes (pos 0) (pos 0) two_flow two_flow refl
      refl two_bytes-flow two_bytes-flow
