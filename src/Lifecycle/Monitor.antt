-- ===== src/Lifecycle/Monitor.antt =====
-- What a module holds of the kernel after its calls, and which calls are in order: only what is held is
-- given back, an object goes to a slab that exists, the hooks, the files and the threads that are
-- started find the slabs that they use, and a slab goes only after the hooks and the files. A slab
-- that is destroyed while a thread that uses it has not been stopped is noted with that thread.
-- The threads are those that kthread_run starts here, and not the threads of the pool.
use ktcp_split.Common.{
  ℕ, ◌+◌, Bool, true, false, not, ◌&&◌, Option, none, some, List, [], ◌∷◌, ◌++◌, ◌==◌,
  if◌then◌else◌, ◌>>=◌,
}
use ktcp_split.Lifecycle.{
  Slab, qp_slab, listner_slab, syn_slab, probe_slab, preconn_slab, pool_slab, Thread, refil_thread,
  prec_conn_listner_server, Hook, cbn_egress_hook, cbn_ingress_hook, cbn_trace_hook, HookNum,
  pre_routing, local_in, forward, local_out, post_routing, Priority, pri_first, pri_last, pri_raw,
  HookOps, Call, kmem_cache_create, kmem_cache_destroy, kmem_cache_free, kthread_run, kthread_stop,
  nf_register_net_hooks, nf_unregister_net_hooks, proc_mkdir, proc_create, remove_proc_subtree,
  kernel_sock_shutdown, sock_release, Show, cbn_proc_show, connections_read, Write, cbn_add_server,
  cbn_del_server, preconn_proc_command,
}

abbrev pub slab_id : Slab → ℕ
slab_id qp_slab = 0
slab_id listner_slab = 1
slab_id syn_slab = 2
slab_id probe_slab = 3
slab_id preconn_slab = 4
slab_id pool_slab = 5

abbrev pub thread_id : Thread → ℕ
thread_id refil_thread = 0
thread_id prec_conn_listner_server = 1

abbrev hook_id : Hook → ℕ
hook_id cbn_egress_hook = 0
hook_id cbn_ingress_hook = 1
hook_id cbn_trace_hook = 2

abbrev hooknum_id : HookNum → ℕ
hooknum_id pre_routing = 0
hooknum_id local_in = 1
hooknum_id forward = 2
hooknum_id local_out = 3
hooknum_id post_routing = 4

abbrev priority_id : Priority → ℕ
priority_id pri_first = 0
priority_id pri_last = 1
priority_id (pri_raw n) = n + 2

abbrev same_bytes : List ℕ → List ℕ → Bool
same_bytes [] [] = true
same_bytes (x ∷ xs) (y ∷ ys) = (x == y) && same_bytes xs ys
same_bytes _ _ = false

abbrev same_hook : HookOps → HookOps → Bool
same_hook a b =
    (hook_id a.hook == hook_id b.hook)
    && (hooknum_id a.hooknum == hooknum_id b.hooknum)
    && (priority_id a.priority == priority_id b.priority)
    && same_bytes a.priv b.priv

abbrev same_hooks : List HookOps → List HookOps → Bool
same_hooks [] [] = true
same_hooks (a ∷ as') (b ∷ bs) = same_hook a b && same_hooks as' bs
same_hooks _ _ = false

abbrev is_nil {ℓ} : {A : Type ℓ} → List A → Bool
is_nil [] = true
is_nil (x ∷ xs) = false

module _ {A : Type 0} (id : A → ℕ) where
  abbrev pub has : A → List A → Bool
  has a [] = false
  has a (x ∷ xs) = if id a == id x then true else has a xs

  abbrev pub without : A → List A → List A
  without a [] = []
  without a (x ∷ xs) = if id a == id x then xs else x ∷ without a xs

-- The slabs, the threads, the hooks, the directory with its files, and the slabs that were destroyed
-- before a thread that uses them was stopped.
pub record Held : Type 0 where
  pub slabs : List Slab
  pub threads : List Thread
  pub hooks : List HookOps
  pub files : List (List ℕ)
  pub early : List (Slab × Thread)

abbrev pub nothing : Held
nothing = record { slabs = []; threads = []; hooks = []; files = []; early = [] }

-- The slabs that a hook and the threads that it starts take objects of.
abbrev needed : Hook → List Slab
needed cbn_egress_hook = syn_slab ∷ qp_slab ∷ preconn_slab ∷ pool_slab ∷ []
needed cbn_ingress_hook = probe_slab ∷ pool_slab ∷ []
needed cbn_trace_hook = []

-- The same for a thread and for a file, by the functions that read and write it and the threads that
-- these start. Reads walk the objects of the slabs.
abbrev pub used_by : Thread → List Slab
used_by refil_thread = pool_slab ∷ []
used_by prec_conn_listner_server = qp_slab ∷ pool_slab ∷ []

abbrev read_by : Show → List Slab
read_by cbn_proc_show = listner_slab ∷ []
read_by connections_read = listner_slab ∷ qp_slab ∷ []
read_by _ = []

abbrev written_by : Option Write → List Slab
written_by (some cbn_add_server) = listner_slab ∷ qp_slab ∷ pool_slab ∷ []
written_by (some cbn_del_server) = listner_slab ∷ []
written_by (some preconn_proc_command) = qp_slab ∷ preconn_slab ∷ pool_slab ∷ []
written_by _ = []

abbrev all_in : List Slab → List Slab → Bool
all_in [] slabs = true
all_in (s ∷ rest) slabs = has slab_id s slabs && all_in rest slabs

abbrev all_needed : List HookOps → List Slab → Bool
all_needed [] slabs = true
all_needed (h ∷ hs) slabs = all_in (needed h.hook) slabs && all_needed hs slabs

abbrev only_if : Bool → Held → Option Held
only_if b h = if b then some h else none

-- The threads that run and use the slab.
abbrev users : Slab → List Thread → List (Slab × Thread)
users s [] = []
users s (t ∷ threads) =
    let rest = users s threads in if has slab_id s (used_by t) then (s, t) ∷ rest else rest

unfoldable pub call : Call → Held → Option Held
call (kmem_cache_create s) h =
    only_if (not (has slab_id s h.slabs)) (record h { slabs = s ∷ h.slabs })
call (kmem_cache_destroy s) h =
    only_if (has slab_id s h.slabs && is_nil h.hooks && is_nil h.files)
      (record h { slabs = without slab_id s h.slabs; early = h.early ++ users s h.threads })
call (kmem_cache_free s addr) h = only_if (has slab_id s h.slabs) h
call (kthread_run t) h =
    only_if (not (has thread_id t h.threads) && all_in (used_by t) h.slabs)
      (record h { threads = t ∷ h.threads })
call (kthread_stop t) h =
    only_if (has thread_id t h.threads) (record h { threads = without thread_id t h.threads })
call (nf_register_net_hooks hs) h =
    only_if (is_nil h.hooks && all_needed hs h.slabs) (record h { hooks = hs })
call (nf_unregister_net_hooks hs) h = only_if (same_hooks hs h.hooks) (record h { hooks = [] })
call (proc_mkdir name) h = only_if (is_nil h.files) (record h { files = name ∷ [] })
call (proc_create name mode fops) h =
    only_if
      (not (is_nil h.files)
        && all_in (read_by fops.read) h.slabs
        && all_in (written_by fops.write) h.slabs)
      (record h { files = h.files ++ (name ∷ []) })
call (remove_proc_subtree name) h = elim h.files [
  | [] ↦ none
  | dir ∷ files ↦ only_if (same_bytes name dir) (record h { files = [] })
]
call (kernel_sock_shutdown sock) h = some h
call (sock_release sock) h = some h

-- What is held in the end, or `none` for a call that is out of order.
unfoldable pub calls : List Call → Held → Option Held
calls [] h = some h
calls (c ∷ rest) h = call c h >>= λ h'. calls rest h'
