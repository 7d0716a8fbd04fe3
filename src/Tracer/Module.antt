-- ===== src/Tracer/Module.antt =====
-- The start and the end of the packet tracer: the hook table, pkt_trace_init and pkt_trace_clean of
-- pkt_tracer/pkt_trace.c.
use ktcp_split.Common.{ℕ, ◌≡◌, refl, Bool, true, false, some, List, [], ◌∷◌, ◌++◌, ◌||◌, ◌&&◌}
use ktcp_split.Common.Text.{codes}
use ktcp_split.Lifecycle.{
  cbn_trace_hook, HookNum, pre_routing, local_in, forward, local_out, post_routing, Priority,
  pri_first, pri_last, HookOps, Call, nf_register_net_hooks, nf_unregister_net_hooks,
}
use ktcp_split.Lifecycle.Monitor.{nothing, call, calls}

abbrev traced : HookNum → Priority → List ℕ → HookOps
traced n priority priv = record {
  hook = cbn_trace_hook;
  hooknum = n;
  priority = priority;
  priv = priv;
}

abbrev pub cbn_nf_hooks : List HookOps
cbn_nf_hooks =
    traced post_routing pri_first (codes "POST")
    ∷ traced post_routing pri_last (codes "POST LAST")
    ∷ traced local_out pri_first (codes "NF_INET_LOCAL_OUT")
    ∷ traced local_in pri_first (codes "NF_INET_LOCAL_IN")
    ∷ traced forward pri_first (codes "NF_INET_FORWARD")
    ∷ traced pre_routing pri_first (codes "RX")
    ∷ traced pre_routing pri_last (codes "RX-Last")
    ∷ []

unfoldable pub pkt_trace_init : List Call
pkt_trace_init = nf_register_net_hooks cbn_nf_hooks ∷ []

unfoldable pub pkt_trace_clean : List Call
pkt_trace_clean = nf_unregister_net_hooks cbn_nf_hooks ∷ []

abbrev is_first : Priority → Bool
is_first pri_first = true
is_first _ = false

abbrev at : HookNum → HookNum → Bool
at pre_routing pre_routing = true
at local_in local_in = true
at forward forward = true
at local_out local_out = true
at post_routing post_routing = true
at _ _ = false

abbrev first_at : HookNum → List HookOps → Bool
first_at n [] = false
first_at n (h ∷ hs) = (at n h.hooknum && is_first h.priority) || first_at n hs

-- At each of the five points a packet is traced before any other hook, and the end of the tracer removes
-- what its start has registered.
pub pkt_trace_lem :
    (n : HookNum)
    → (first_at n cbn_nf_hooks ≡ true)
      × (calls (pkt_trace_init ++ pkt_trace_clean) nothing ≡ some nothing)
unfolding pkt_trace_init pkt_trace_clean calls call
pkt_trace_lem pre_routing = (refl, refl)
pkt_trace_lem local_in = (refl, refl)
pkt_trace_lem forward = (refl, refl)
pkt_trace_lem local_out = (refl, refl)
pkt_trace_lem post_routing = (refl, refl)
