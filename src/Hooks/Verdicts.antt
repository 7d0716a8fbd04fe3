-- ===== src/Hooks/Verdicts.antt =====
-- What the egress hook does to the packets of the tenants that are no probes.
use ktcp_split.Common.{
  ℕ, ◌≡◌, Bool, true, false, Option, none, some, arith, ◌==◌, ◌&&◌, not, if◌then◌else◌,
}
use ktcp_split.Common.Words.{swap16}
use ktcp_split.Qp.{Addresses}
use ktcp_split.Hooks.{
  Skb, accept, drop, is_cbn_probe, ipproto_tcp, ipproto_udp, cbp_probe_port, cbn_egress_hook,
  is_out_gue, build_addresses,
}

-- A marked packet that is a probe: a TCP packet from the probe's port, or a UDP packet around one.
abbrev pub is_probe : Skb → Bool
is_probe skb =
    not (skb.mark == 0)
    && (if skb.ip.protocol == ipproto_tcp
        then swap16 skb.tcp.source == cbp_probe_port
        else (skb.ip.protocol == ipproto_udp) && is_cbn_probe skb)

-- A packet that is no probe passes as it is, and starts nothing. A probe is dropped, except a TCP
-- one that leaves through the tunnel device, which passes when there is memory.
pub cbn_egress_hook_lem :
    (online : ℕ) (slab : Option Addresses) (skb : Skb)
    → ((is_probe skb ≡ false) → cbn_egress_hook online slab skb ≡ (accept, skb, none))
      × ((is_probe skb ≡ true)
          → (cbn_egress_hook online slab skb).0 ≡ elim slab [
            | none ↦ drop
            | some a ↦ if (skb.ip.protocol == ipproto_tcp) && is_out_gue skb then accept else drop
          ])
unfolding cbn_egress_hook build_addresses
cbn_egress_hook_lem online slab skb = (λ h. ground arith, λ h. ground arith)
