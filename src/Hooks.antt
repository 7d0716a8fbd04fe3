-- ===== src/Hooks.antt =====
-- The packet hooks: tcpsplit/split.c (udp_port, tcp_port, is_out_gue, build_addresses, is_cbn_probe,
-- get_cbn_probe, set_cbn_probe, cbn_egress_hook, cbn_ingress_hook), trace_iph of
-- tcpsplit/cbn_common.h and start_probe_syn of tcpsplit/conn_pool.c.
-- A packet is the fields of its headers that the hooks read, as the machine loads them. What the
-- kernel does to a packet between two hooks is not modelled: the theorems take the second packet with
-- the headers that it got from the first.
pub mod Relay
pub mod Verdicts
pub mod Dispatch
pub mod Tenants
mod Tests
use ktcp_split.Common.{
  ℕ, Bool, true, false, Option, none, some, List, [], ◌∷◌, ltb, ◌==◌, if◌then◌else◌, ◌&&◌, not,
  ◌>>=◌,
}
use ktcp_split.Common.Words.{swap16}
use ktcp_split.RbTree.{Tree}
use ktcp_split.Listner.{Entry, search_rb_listner}
use ktcp_split.Qp.{Addresses, addresses2cpu}

pub record Iphdr : Type 0 where
  pub protocol : ℕ
  pub saddr : ℕ
  pub daddr : ℕ

pub record Tcphdr : Type 0 where
  pub source : ℕ
  pub dest : ℕ
  pub window : ℕ
  pub syn : Bool
  pub ack : Bool

-- `put` and `inner_put`: the pointer that stands after the transport header and the inner transport
-- header, NULL or the object's fields.
pub record Skb : Type 0 where
  pub mark : ℕ
  pub dev_name : List ℕ
  pub ip : Iphdr
  pub tcp : Tcphdr
  pub put : Option Addresses
  pub inner_protocol : ℕ
  pub inner_ip : Iphdr
  pub inner_tcp : Tcphdr
  pub inner_put : Option Addresses

abbrev pub ipproto_ipip : ℕ
ipproto_ipip = 4

abbrev pub ipproto_tcp : ℕ
ipproto_tcp = 6

abbrev pub ipproto_udp : ℕ
ipproto_udp = 17

abbrev pub cbp_probe_port : ℕ
cbp_probe_port = 4

pub data Verdict : Type 0 where
  accept drop : Verdict

-- `struct probe`
pub record Probe : Type 0 where
  pub iphdr : Iphdr
  pub tcphdr : Tcphdr
  pub listner : Entry

-- What a hook gives to the thread pool, with the CPU where it names one.
pub data Work : Type 0 where
  start_new_connection_syn : Addresses → ℕ → Work
  start_new_pre_connection_syn : Addresses → ℕ → Work

-- The source and the destination port in the order of the host; the UDP header begins like TCP's.
abbrev pub ports : Tcphdr → ℕ × ℕ
ports h = (swap16 h.source, swap16 h.dest)

-- `!memcmp(a, prefix, strlen(prefix))`
abbrev pub is_prefix : List ℕ → List ℕ → Bool
is_prefix [] ys = true
is_prefix (x ∷ xs) [] = false
is_prefix (x ∷ xs) (y ∷ ys) = let rest = is_prefix xs ys in x == y && rest

-- "gue"
abbrev pub cbn_tunnel_prefix : List ℕ
cbn_tunnel_prefix = 103 ∷ 117 ∷ 101 ∷ []

abbrev pub is_out_gue : Skb → Bool
is_out_gue skb = is_prefix cbn_tunnel_prefix skb.dev_name

-- The argument is the object of the slab, whose field `sin_addr` is left as it is.
pub build_addresses : Option Addresses → Skb → Option Addresses
build_addresses slab skb = do
  a ← slab
  some (record a {
    dest_addr = skb.ip.daddr;
    src_addr = skb.ip.saddr;
    dest_port = skb.tcp.dest;
    src_port = skb.tcp.source;
    mark = skb.mark;
  })

abbrev pub is_cbn_probe : Skb → Bool
is_cbn_probe skb =
    if skb.inner_protocol == ipproto_ipip
    then (skb.inner_ip.protocol == ipproto_tcp) && (swap16 skb.inner_tcp.source == cbp_probe_port)
    else false

abbrev pub get_cbn_probe : Skb → Option Addresses
get_cbn_probe skb = skb.inner_put

-- Always 0, with the packet one pointer longer.
abbrev pub set_cbn_probe : Skb → Addresses → ℕ × Skb
set_cbn_probe skb a = (0, record skb { put = some a })

module _ (online : ℕ) where
  -- The branch of a TCP packet whose source port is the probe's, given build_addresses' result.
  egress_probe : Skb → Option Addresses → Verdict × Skb × Option Work
  egress_probe skb none = (drop, skb, none)
  egress_probe skb (some built) =
      let a = record built { src_port = skb.tcp.window } in
      if is_out_gue skb
      then (let (rc, skb') = set_cbn_probe skb a in
          ((if rc == 0 then accept else drop), skb', none))
      else (drop, skb, some (start_new_connection_syn a (addresses2cpu online a)))

  -- The branch of a tunnelled probe: its CPU is computed before the next hop is stored.
  egress_tunnel : Skb → Option Addresses → Verdict × Skb × Option Work
  egress_tunnel skb none = (drop, skb, none)
  egress_tunnel skb (some a) = (
    drop,
    skb,
    some (
        start_new_pre_connection_syn (record a { sin_addr = skb.ip.daddr })
          (addresses2cpu online a)),
  )

  -- The verdict, the packet as it goes on, and the work for the pool.
  pub cbn_egress_hook : Option Addresses → Skb → Verdict × Skb × Option Work
  unfolding egress_probe egress_tunnel
  cbn_egress_hook slab skb =
      if skb.mark == 0
      then (accept, skb, none)
      else if skb.ip.protocol == ipproto_tcp
      then (if swap16 skb.tcp.source == cbp_probe_port
          then egress_probe skb (build_addresses slab skb)
          else (accept, skb, none))
      else (if (skb.ip.protocol == ipproto_udp) && is_cbn_probe skb
          then egress_tunnel skb (get_cbn_probe skb)
          else (accept, skb, none))

-- A SYN that opens a connection, of a tenant.
unfoldable pub trace_iph : Skb → Bool
trace_iph skb = (skb.ip.protocol == 6) && (skb.tcp.syn && not skb.tcp.ack) && not (skb.mark == 0)

-- The hook's `priv` is "RX", or another string.
pub cbn_ingress_hook : Bool → Tree Entry → Bool → Skb → Verdict × Option Probe
unfolding trace_iph
cbn_ingress_hook rx root memory skb =
    if rx && not (skb.mark == 0)
    then elim (search_rb_listner root skb.mark) [
      | none ↦ (accept, none)
      | some listner ↦
          if trace_iph skb && memory
          then (accept, some (record { iphdr = skb.ip; tcphdr = skb.tcp; listner = listner }))
          else (accept, none)
    ]
    else (accept, none)

-- The headers that are sent on the raw socket of the listener, and the address that they are sent to.
pub start_probe_syn : Probe → Iphdr × Tcphdr × ℕ
start_probe_syn p = (
  p.iphdr,
  record (p.tcphdr) { window = p.tcphdr.source; source = swap16 cbp_probe_port },
  p.iphdr.daddr,
)
