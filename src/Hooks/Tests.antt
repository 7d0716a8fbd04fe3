-- ===== src/Hooks/Tests.antt =====
-- A SYN from 10.0.0.1:4369 to 10.0.0.2:80 of tenant 7, and its probe.
use ktcp_split.Common.{◌+◌, if◌then◌else◌, ℕ, ◌≡◌, refl, true, false, none, some, [], ◌∷◌, arith}
use ktcp_split.RbTree.{leaf, node, search_rb}
use ktcp_split.Listner.{Entry, search_rb_listner, probe_listner}
use ktcp_split.Qp.{Addresses, tuple_of, qp2cpu}
use ktcp_split.Hooks.{
  Skb, Iphdr, Tcphdr, Probe, accept, drop, start_new_connection_syn, start_new_pre_connection_syn,
  cbn_ingress_hook, cbn_egress_hook, trace_iph, start_probe_syn, build_addresses,
}
use ktcp_split.ThreadPool.{KthreadPool}
use ktcp_split.ThreadPool.Fixture.{es, pool, pool-IsServed, supply}
use ktcp_split.ThreadPool.MagazineStore.{past}
use ktcp_split.ThreadPool.Runs.{Log, IsServed}
use ktcp_split.Common.Int.{pos}
use ktcp_split.RbTree.Plain.{plain_rb}
use ktcp_split.Listner.{rank, Registry, ServerCalls}
use ktcp_split.Listner.Laws.{IsValid, serves}
use ktcp_split.Listner.Runs.{add, del, run, replay}
use ktcp_split.Hooks.Tenants.{probe_for, cbn_ingress_hook-run}
use ktcp_split.Hooks.Dispatch.{Handed, egress, egress-Handed}
use ktcp_split.Hooks.Relay.{opened, relay-local, relay-gue}

abbrev seven : Entry
seven = record { key = 7; addr = 200 }

abbrev no_ip : Iphdr
no_ip = record { protocol = 0; saddr = 0; daddr = 0 }

abbrev no_tcp : Tcphdr
no_tcp = record { source = 0; dest = 0; window = 0; syn = false; ack = false }

abbrev ip : Iphdr
ip = record { protocol = 6; saddr = 16777226; daddr = 33554442 }

abbrev syn_header : Tcphdr
syn_header = record { source = 4369; dest = 20480; window = 5000; syn = true; ack = false }

abbrev packet : Skb
packet = record {
  mark = 7;
  dev_name = 101 ∷ 116 ∷ 104 ∷ [];
  ip = ip;
  tcp = syn_header;
  put = none;
  inner_protocol = 0;
  inner_ip = no_ip;
  inner_tcp = no_tcp;
  inner_put = none;
}

abbrev probe : Probe
probe = record { iphdr = ip; tcphdr = syn_header; listner = seven }

abbrev sent : Skb
sent = record packet { tcp = record syn_header { window = 4369; source = 1024 } }

abbrev through_tunnel : Skb
through_tunnel = record sent { dev_name = 103 ∷ 117 ∷ 101 ∷ 49 ∷ [] }

abbrev slab : Addresses
slab = record { dest_addr = 1; dest_port = 2; src_addr = 3; src_port = 4; sin_addr = 5; mark = 6 }

abbrev built : Addresses
built = record {
  dest_addr = 33554442;
  dest_port = 20480;
  src_addr = 16777226;
  src_port = 4369;
  sin_addr = 5;
  mark = 7;
}

abbrev tunnelled : Skb
tunnelled = record packet {
  ip = record { protocol = 17; saddr = 9; daddr = 167772161 };
  inner_protocol = 4;
  inner_ip = ip;
  inner_tcp = record syn_header { window = 4369; source = 1024 };
  inner_put = some built;
}

relay-local_example :
    (a : Addresses) × (cbn_egress_hook 4 (some slab) sent
      ≡ (drop, sent, some (start_new_connection_syn a (qp2cpu 4 (opened packet)))))
    × (tuple_of a ≡ opened packet)
    × (a.mark ≡ sent.mark)
unfolding cbn_ingress_hook trace_iph start_probe_syn search_rb_listner search_rb probe_listner
relay-local_example =
    relay-local (node leaf seven leaf) true true packet sent probe slab refl
      (refl, refl, omega arith) 4 refl

relay-gue_example :
    (a : Addresses) × ((cbn_egress_hook 4 (some slab) through_tunnel).0 ≡ accept)
    × (cbn_egress_hook 4 none tunnelled
        ≡ (drop, tunnelled, some (start_new_pre_connection_syn a (qp2cpu 4 (opened packet)))))
    × (tuple_of a ≡ opened packet)
    × (a.sin_addr ≡ tunnelled.ip.daddr)
unfolding cbn_ingress_hook trace_iph start_probe_syn search_rb_listner search_rb probe_listner
    cbn_egress_hook build_addresses
relay-gue_example =
    relay-gue (node leaf seven leaf) true true packet through_tunnel probe slab refl
      (refl, refl, omega arith) 4 none tunnelled refl (omega arith) refl refl refl refl refl

abbrev port_of : Addresses → ℕ
port_of a = a.src_port

abbrev dest_of : Probe → ℕ
dest_of p = p.tcphdr.dest

egress-Handed_example :
    (a : Addresses) × (s : Log × KthreadPool es) × (egress es
        (λ a. (0, past a))
        2
        3
        1
        port_of
        dest_of
        4
        (some slab)
        sent
        (record { given = []; called = [] }, pool)
      ≡ some ((drop, sent), s))
    × IsServed es s.0 s.1
    × Handed es
        (λ a. (0, past a))
        supply
        2
        (port_of a)
        (some (qp2cpu 4 (opened packet)))
        (record { given = []; called = [] }, pool)
        s
    × (tuple_of a ≡ opened packet)
    × (a.mark ≡ sent.mark)
unfolding cbn_ingress_hook trace_iph start_probe_syn search_rb_listner search_rb probe_listner
egress-Handed_example =
    egress-Handed es (λ a. (0, past a)) supply 2 3 1 port_of dest_of true true
      (node leaf seven leaf) packet sent probe slab 4 (record { given = []; called = [] }) pool refl
      (refl, refl, omega arith) refl pool-IsServed

abbrev registry : Registry
registry = record {
  tree = node leaf seven leaf;
  info = λ a. record { port = 5557; status = 6; sock = some a; raw = some (a + 1) };
}

registry-IsValid : IsValid registry
registry-IsValid = omega arith

abbrev server_calls : ServerCalls
server_calls = record {
  slab = some 300;
  roots = true;
  lists = true;
  create = pos 0;
  sock = 31;
  set_mark = pos 0;
  bind = pos 0;
  listen = pos 0;
  probe = some 32;
}

-- Tenant 7 loses its server and gets another.
cbn_ingress_hook-run_example :
    let (starts, r') = run (plain_rb rank) (del 7 ∷ add server_calls 7 5558 ∷ []) registry in
    cbn_ingress_hook true r'.tree true packet ≡ (
      accept,
      if trace_iph packet
          then probe_for packet
              (replay (del 7 ∷ add server_calls 7 5558 ∷ []) starts (serves registry) 7)
          else none,
    )
cbn_ingress_hook-run_example =
    cbn_ingress_hook-run (plain_rb rank) (del 7 ∷ add server_calls 7 5558 ∷ []) registry packet
      registry-IsValid (omega arith) (omega arith)
