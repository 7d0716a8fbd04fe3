-- ===== src/Hooks/Relay.antt =====
-- A SYN's way from the ingress hook, through the probe, to the thread that connects.
use ktcp_split.Common.{ℕ, ◌≡◌, ◌≢◌, refl, ap, Bool, true, false, Option, none, some, arith, ◌∙◌}
use ktcp_split.Common.Words.{swap16}
use ktcp_split.RbTree.{Tree}
use ktcp_split.Listner.{Entry, search_rb_listner}
use ktcp_split.Qp.{Addresses, Tuple, tuple_of, qp2cpu, addresses2cpu}
use ktcp_split.Hooks.{
  Skb, Probe, accept, drop, start_new_connection_syn, start_new_pre_connection_syn, cbp_probe_port,
  ipproto_tcp, ipproto_udp, ipproto_ipip, trace_iph, is_out_gue, build_addresses, cbn_ingress_hook,
  cbn_egress_hook, start_probe_syn,
}

-- The connection that a SYN opens.
abbrev pub opened : Skb → Tuple
opened skb = record {
  port_s = skb.tcp.source;
  port_d = skb.tcp.dest;
  addr_s = skb.ip.saddr;
  addr_d = skb.ip.daddr;
}

-- The packet carries the headers that the probe sends.
abbrev pub Carries : Probe → Skb → Type 0
Carries p out =
    (out.ip ≡ (start_probe_syn p).0) × (out.tcp ≡ (start_probe_syn p).1) × (out.mark ≢ 0)

module _ (root : Tree Entry) (syn : Skb) (p : Probe) where
  -- The ingress hook lets the packet pass; the probe that it starts has the packet's headers and the
  -- listener of the packet's tenant, and there is one only for a SYN.
  pub cbn_ingress_hook-probe :
      (rx memory : Bool)
      → cbn_ingress_hook rx root memory syn ≡ (accept, some p)
      → (p.iphdr ≡ syn.ip)
        × (p.tcphdr ≡ syn.tcp)
        × (search_rb_listner root syn.mark ≡ some p.listner)
        × (trace_iph syn ≡ true)
  unfolding cbn_ingress_hook
  cbn_ingress_hook-probe rx memory h = ground arith

trace_iph-protocol : (skb : Skb) → trace_iph skb ≡ true → skb.ip.protocol ≡ ipproto_tcp
unfolding trace_iph
trace_iph-protocol skb h = ground arith

-- The connection that the egress hook reads from a probe packet: its source port is in the window.
abbrev read_back : Addresses → Skb → Addresses
read_back slab out = record slab {
  dest_addr = out.ip.daddr;
  src_addr = out.ip.saddr;
  dest_port = out.tcp.dest;
  src_port = out.tcp.window;
  mark = out.mark;
}

module _ (online : ℕ) (slab : Addresses) (out : Skb) where
  egress-local :
      out.ip.protocol ≡ ipproto_tcp
      → out.tcp.source ≡ swap16 cbp_probe_port
      → out.mark ≢ 0
      → is_out_gue out ≡ false
      → cbn_egress_hook online (some slab) out ≡ (
        drop,
        out,
        some (
            start_new_connection_syn
              (read_back slab out)
              (addresses2cpu online (read_back slab out))),
      )
  unfolding cbn_egress_hook build_addresses
  egress-local p s m g = ground arith

  egress-gue :
      out.ip.protocol ≡ ipproto_tcp
      → out.tcp.source ≡ swap16 cbp_probe_port
      → out.mark ≢ 0
      → is_out_gue out ≡ true
      → cbn_egress_hook online (some slab) out
        ≡ (accept, record out { put = some (read_back slab out) }, none)
  unfolding cbn_egress_hook build_addresses
  egress-gue p s m g = ground arith

egress-around :
    (online : ℕ) (slab : Option Addresses) (around : Skb) (a : Addresses)
    → around.mark ≢ 0
    → around.ip.protocol ≡ ipproto_udp
    → around.inner_protocol ≡ ipproto_ipip
    → around.inner_ip.protocol ≡ ipproto_tcp
    → around.inner_tcp.source ≡ swap16 cbp_probe_port
    → around.inner_put ≡ some a
    → cbn_egress_hook online slab around ≡ (
      drop,
      around,
      some (
          start_new_pre_connection_syn
            (record a { sin_addr = around.ip.daddr })
            (addresses2cpu online a)),
    )
unfolding cbn_egress_hook
egress-around online slab around a m u i t s q = ground arith

module _ (root : Tree Entry) (rx memory : Bool) (syn out : Skb) (p : Probe) (slab : Addresses)
    (h : cbn_ingress_hook rx root memory syn ≡ (accept, some p)) (c : Carries p out) where
  carried :
      (out.ip.protocol ≡ ipproto_tcp)
      × (out.tcp.source ≡ swap16 cbp_probe_port)
      × (tuple_of (read_back slab out) ≡ opened syn)
  unfolding start_probe_syn
  carried =
      let (i, t, found, is_syn) = cbn_ingress_hook-probe root syn p rx memory h in
      (rw (c.0, i) (trace_iph-protocol syn is_syn), rw c.1 refl, rw (c.0, c.1, i, t) refl)

  -- A SYN that the ingress hook turns into a probe reaches the thread pool of this host as the
  -- connection that it opens: when a marked packet with the probe's headers leaves by a device
  -- that is no tunnel, and there is memory, it is dropped, and the work is
  -- start_new_connection_syn for the SYN's own four-tuple and the packet's mark, on the CPU that
  -- the four-tuple determines.
  pub relay-local :
      (online : ℕ)
      → is_out_gue out ≡ false
      → (a : Addresses) × (cbn_egress_hook online (some slab) out
          ≡ (drop, out, some (start_new_connection_syn a (qp2cpu online (opened syn)))))
        × (tuple_of a ≡ opened syn)
        × (a.mark ≡ out.mark)
  unfolding addresses2cpu
  relay-local online g =
      let (tcp, port, same) = carried in
      (
        read_back slab out,
        egress-local online slab out tcp port c.2 g
            ∙ ap
                (λ u. (
                  drop,
                  out,
                  some (start_new_connection_syn (read_back slab out) (qp2cpu online u)),
                ))
                same,
        same,
        refl,
      )

  -- When a marked packet with the probe's headers leaves by the tunnel device instead, and there
  -- is memory, it passes. A marked UDP packet around it, which has its headers and the pointer
  -- that the hook put behind them inside, is dropped: the work is start_new_pre_connection_syn for
  -- the SYN's own four-tuple, on the CPU that it determines, with the destination of the UDP
  -- packet as the next hop.
  pub relay-gue :
      (online : ℕ) (memory' : Option Addresses) (around : Skb)
      → is_out_gue out ≡ true
      → around.mark ≢ 0
      → around.ip.protocol ≡ ipproto_udp
      → around.inner_protocol ≡ ipproto_ipip
      → around.inner_ip ≡ out.ip
      → around.inner_tcp ≡ out.tcp
      → around.inner_put ≡ (cbn_egress_hook online (some slab) out).1.put
      → (a : Addresses) × ((cbn_egress_hook online (some slab) out).0 ≡ accept)
        × (cbn_egress_hook online memory' around
            ≡ (drop, around, some (start_new_pre_connection_syn a (qp2cpu online (opened syn)))))
        × (tuple_of a ≡ opened syn)
        × (a.sin_addr ≡ around.ip.daddr)
  unfolding addresses2cpu
  relay-gue online memory' around g m udp ipip ip tcp put =
      let (proto, port, same) = carried in
      let gue = egress-gue online slab out proto port c.2 g in
      (
        record (read_back slab out) { sin_addr = around.ip.daddr },
        ap (λ u. u.0) gue,
        egress-around online memory' around (read_back slab out) m udp ipip (rw ip proto)
              (rw tcp port) (put ∙ ap (λ u. u.1.put) gue)
            ∙ ap
                (λ u. (
                  drop,
                  around,
                  some (
                      start_new_pre_connection_syn
                        (record (read_back slab out) { sin_addr = around.ip.daddr })
                        (qp2cpu online u)),
                ))
                same,
        same,
        refl,
      )
