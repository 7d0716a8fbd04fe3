-- ===== src/Hooks/Tenants.antt =====
-- The ingress hook of tcpsplit/split.c over the registry of the servers: which SYNs it takes after the
-- servers were started and stopped.
use ktcp_split.Common.{
  ◌^◌, ◌<◌, ◌≡◌, refl, true, Option, none, some, List, arith, All, if◌then◌else◌,
}
use ktcp_split.RbTree.{RbOps}
use ktcp_split.Listner.{Entry, rank, Registry}
use ktcp_split.Listner.Laws.{IsValid, serves}
use ktcp_split.Listner.Runs.{Op, run, replay, InRange, run-replay}
use ktcp_split.Hooks.{Skb, Probe, accept, trace_iph, cbn_ingress_hook}

-- The probe of a packet for the server of its tenant, if there is one.
abbrev pub probe_for : Skb → Option Entry → Option Probe
probe_for skb none = none
probe_for skb (some e) = some (record { iphdr = skb.ip; tcphdr = skb.tcp; listner = e })

-- The hook passes every packet; a probe is sent for a SYN of a tenant that has a server.
taken :
    (r : Registry) (skb : Skb) (o : Option Entry)
    → serves r skb.mark ≡ o
    → cbn_ingress_hook true r.tree true skb
      ≡ (accept, if trace_iph skb then probe_for skb o else none)
unfolding cbn_ingress_hook trace_iph
taken r skb none h = ground (arith, h)
taken r skb (some e) h = ground (arith, h)

-- From a valid registry, after any sequence of starts and removals of servers with ids and ports in range,
-- the hook at the entrance of the host, with memory for a probe, lets each packet of a tenant id in range
-- pass, and sends a probe if and only if the packet is a SYN that the trace selects and the tenant then has a
-- server, as the same operations make the map of the tenants: the probe has the packet's headers and that
-- server.
pub cbn_ingress_hook-run :
    (rb : RbOps Entry rank) (ops : List Op) (r : Registry) (skb : Skb)
    → IsValid r
    → All InRange ops
    → skb.mark < 2 ^ 31
    → let (starts, r') = run rb ops r in
      cbn_ingress_hook true r'.tree true skb ≡ (
        accept,
        if trace_iph skb then probe_for skb (replay ops starts (serves r) skb.mark) else none,
      )
cbn_ingress_hook-run rb ops r skb v range small =
    let (starts, r') = run rb ops r in
    let (_, agrees, _) = run-replay rb ops r (serves r) v (λ key k. refl) range in
    taken r' skb (replay ops starts (serves r) skb.mark) (agrees skb.mark small)
