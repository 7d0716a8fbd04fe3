-- ===== src/Lifecycle.antt =====
-- The start and the end of the module of tcpsplit: init_kallsyms, the hook table, cbn_datapath_init and
-- cbn_datapath_clean of tcpsplit/split.c, cbn_pre_connect_init, cbn_pre_connect_end and
-- clear_client_pre_connections of tcpsplit/conn_pool.c, cbn_kthread_pool_init and
-- cbn_kthread_pool_clean of tcpsplit/thread_pool.c, and the files of tcpsplit/proc.c.
-- What they ask of the kernel is the list of their calls, in order; the calls that fail are not
-- listed where the code looks at their results, and the code of tcpsplit looks at none.
pub mod Monitor
pub mod Laws
mod Tests
use ktcp_split.Common.{
  ℕ, Bool, true, false, Option, none, some, List, [], ◌∷◌, ◌++◌, map, ◌==◌, ◌||◌, if◌then◌else◌,
  ◌>>=◌,
}
use ktcp_split.Common.Int.{ℤ, pos, negsuc}
use ktcp_split.Common.Text.{codes}
use ktcp_split.RbTree.{RbOps, in_order}
use ktcp_split.RbTree.PostOrder.{PostOps}
use ktcp_split.Listner.{Entry, rank, Registry}
use ktcp_split.Listner.Stop.{stop_sockets}

pub data Slab : Type 0 where
  qp_slab listner_slab syn_slab probe_slab preconn_slab pool_slab : Slab

pub data Thread : Type 0 where
  refil_thread prec_conn_listner_server : Thread

-- `struct nf_hook_ops`
pub data Hook : Type 0 where
  cbn_egress_hook cbn_ingress_hook cbn_trace_hook : Hook

pub data HookNum : Type 0 where
  pre_routing local_in forward local_out post_routing : HookNum

pub data Priority : Type 0 where
  pri_first pri_last : Priority
  pri_raw : ℕ → Priority

pub record HookOps : Type 0 where
  pub hook : Hook
  pub hooknum : HookNum
  pub priority : Priority
  pub priv : List ℕ

-- `struct file_operations`: what opens and reads a file, and what a write to it calls.
pub data Show : Type 0 where
  cbn_proc_show cbn_transparent_show cbn_version_show connections_read stats_log_read : Show

pub data Write : Type 0 where
  cbn_add_server cbn_del_server preconn_proc_command cbn_transparent_command : Write
  logger_log_write stats_log_write : Write

pub record Fops : Type 0 where
  pub read : Show
  pub write : Option Write

-- The calls of the kernel. A name stands for the directory too.
pub data Call : Type 0 where
  kmem_cache_create kmem_cache_destroy : Slab → Call
  kmem_cache_free : Slab → ℕ → Call
  kthread_run kthread_stop : Thread → Call
  nf_register_net_hooks nf_unregister_net_hooks : List HookOps → Call
  proc_mkdir : List ℕ → Call
  proc_create : List ℕ → ℕ → Fops → Call
  remove_proc_subtree : List ℕ → Call
  kernel_sock_shutdown sock_release : ℕ → Call

abbrev priority_offset : ℕ
priority_offset = 50

abbrev egress_ops : HookOps
egress_ops = record {
  hook = cbn_egress_hook;
  hooknum = post_routing;
  priority = pri_first;
  priv = codes "TX";
}

abbrev ingress_ops : HookOps
ingress_ops = record {
  hook = cbn_ingress_hook;
  hooknum = pre_routing;
  priority = pri_raw priority_offset;
  priv = codes "RX";
}

-- The hooks of tcpsplit.
abbrev pub cbn_nf_hooks : List HookOps
cbn_nf_hooks = egress_ops ∷ ingress_ops ∷ []

-- With VANILA_KERNEL: the addresses of the three functions, 0 for none. The result is not 0 if one is
-- missing; on other kernels nothing is looked up.
unfoldable pub init_kallsyms : Bool → ℕ → ℕ → ℕ → ℕ
init_kallsyms vanila psched_setaffinity pkthread_bind_mask p__alloc_reserved_percpu =
    if vanila
    then (if (psched_setaffinity == 0)
          || (pkthread_bind_mask == 0)
          || (p__alloc_reserved_percpu == 0)
        then 1
        else 0)
    else 0

unfoldable pub cbn_kthread_pool_init : List Call
cbn_kthread_pool_init = kmem_cache_create pool_slab ∷ kthread_run refil_thread ∷ []

unfoldable pub cbn_kthread_pool_clean : List Call
cbn_kthread_pool_clean = kthread_stop refil_thread ∷ kmem_cache_destroy pool_slab ∷ []

unfoldable pub cbn_pre_connect_init : List Call
cbn_pre_connect_init = kmem_cache_create preconn_slab ∷ kthread_run prec_conn_listner_server ∷ []

-- Each pair of a list is freed and its socket released; `(qp, sock)` stands for a pair.
unfoldable pub clear_pre_connections : List (ℕ × ℕ) → List Call
clear_pre_connections [] = []
clear_pre_connections ((qp, sock) ∷ rest) =
    sock_release sock ∷ kmem_cache_free qp_slab qp ∷ clear_pre_connections rest

abbrev shut_down : Option ℕ → List Call
shut_down none = []
shut_down (some sock) = kernel_sock_shutdown sock ∷ []

-- The socket of `pre_conn_listner`, if it is set, and the two lists.
unfoldable pub cbn_pre_connect_end : Option ℕ → List (ℕ × ℕ) → List (ℕ × ℕ) → List Call
cbn_pre_connect_end pre_conn_listner client server =
    shut_down pre_conn_listner
    ++ (clear_pre_connections client
        ++ (clear_pre_connections server ++ (kmem_cache_destroy preconn_slab ∷ [])))

abbrev pub connections_fops : Fops
connections_fops = record { read = connections_read; write = none }

abbrev pub preconn_proc_fops : Fops
preconn_proc_fops = record { read = cbn_proc_show; write = some preconn_proc_command }

abbrev pub cbn_add_fops : Fops
cbn_add_fops = record { read = cbn_proc_show; write = some cbn_add_server }

abbrev pub cbn_del_fops : Fops
cbn_del_fops = record { read = cbn_proc_show; write = some cbn_del_server }

abbrev pub cbn_transparent_fops : Fops
cbn_transparent_fops = record { read = cbn_transparent_show; write = some cbn_transparent_command }

abbrev pub cbn_version_fops : Fops
cbn_version_fops = record { read = cbn_version_show; write = none }

-- The modes are octal 666 and 444.
unfoldable pub cbn_proc_init : List Call
cbn_proc_init =
    proc_mkdir (codes "cbn")
    ∷ proc_create (codes "connections") 438 connections_fops
    ∷ proc_create (codes "cbn_proc") 438 cbn_add_fops
    ∷ proc_create (codes "cbn_del") 438 cbn_del_fops
    ∷ proc_create (codes "conn_pool") 438 preconn_proc_fops
    ∷ proc_create (codes "cbn_transparent") 438 cbn_transparent_fops
    ∷ proc_create (codes "version") 292 cbn_version_fops
    ∷ []

unfoldable pub cbn_proc_clean : List Call
cbn_proc_clean = remove_proc_subtree (codes "cbn") ∷ []

-- The result and the calls, given that of init_kallsyms.
unfoldable pub cbn_datapath_init : ℕ → ℤ × List Call
cbn_datapath_init missing =
    if missing == 0
    then (
      pos 0,
      kmem_cache_create qp_slab
          ∷ kmem_cache_create listner_slab
          ∷ kmem_cache_create syn_slab
          ∷ kmem_cache_create probe_slab
          ∷ (cbn_kthread_pool_init
              ++ (cbn_pre_connect_init ++ (nf_register_net_hooks cbn_nf_hooks ∷ cbn_proc_init))),
    )
    else (negsuc 0, [])

-- remove_listner_server of each server that stop_sockets comes to.
unfoldable pub stop_calls : List Entry → List (Option ℕ) → List Call
stop_calls (e ∷ stopped) (sock ∷ socks) =
    shut_down sock ++ (kmem_cache_free listner_slab e.addr ∷ stop_calls stopped socks)
stop_calls _ _ = []

-- What is asked of the kernel, given the servers that stop_sockets has come to.
abbrev pub clean_calls :
    Option ℕ → List (ℕ × ℕ) → List (ℕ × ℕ) → List Entry → List (Option ℕ) → List Call
clean_calls pre_conn_listner client server stopped socks =
    cbn_proc_clean
    ++ (nf_unregister_net_hooks cbn_nf_hooks
        ∷ (cbn_pre_connect_end pre_conn_listner client server
            ++ (stop_calls stopped socks
                ++ (cbn_kthread_pool_clean
                    ++ (kmem_cache_destroy qp_slab
                        ∷ kmem_cache_destroy syn_slab
                        ∷ kmem_cache_destroy probe_slab
                        ∷ kmem_cache_destroy listner_slab
                        ∷ [])))))

module _ (rb : RbOps Entry rank) (walk : PostOps Entry rank) where
  -- The calls, and what is left of the registry.
  unfoldable pub cbn_datapath_clean :
      Option ℕ → List (ℕ × ℕ) → List (ℕ × ℕ) → Registry → Option (List Call × Registry)
  cbn_datapath_clean pre_conn_listner client server r =
      stop_sockets rb walk r >>= λ (stopped, socks, r').
      some (clean_calls pre_conn_listner client server stopped socks, r')
