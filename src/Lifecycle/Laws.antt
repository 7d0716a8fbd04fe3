-- ===== src/Lifecycle/Laws.antt =====
-- The calls of the module from its start to its end.
use ktcp_split.Common.{
  ℕ, ◌≡◌, refl, ap, ◌∙◌, Bool, true, Option, none, some, List, [], ◌∷◌, ◌++◌, ◌>>=◌, arith,
}
use mathlib.Core.Option.{some-injective, none-ne-some}
use ktcp_split.Common.Text.{codes}
use ktcp_split.Common.Int.{pos}
use ktcp_split.RbTree.{RbOps}
use ktcp_split.RbTree.PostOrder.{PostOps}
use ktcp_split.Listner.{Entry, rank, Registry}
use ktcp_split.Listner.Stop.{stop_sockets_lem}
use ktcp_split.Listner.Laws.{IsValid}
use ktcp_split.Lifecycle.{
  kmem_cache_free, qp_slab, listner_slab, syn_slab, probe_slab, preconn_slab, pool_slab,
  refil_thread, cbn_nf_hooks, prec_conn_listner_server, Call, init_kallsyms, cbn_kthread_pool_init,
  cbn_kthread_pool_clean, cbn_pre_connect_init, cbn_pre_connect_end, clear_pre_connections,
  shut_down, cbn_proc_init, cbn_proc_clean, cbn_datapath_init, cbn_datapath_clean, clean_calls,
  stop_calls,
}
use ktcp_split.Lifecycle.Monitor.{Held, nothing, has, slab_id, call, calls}

after_call :
    (o : Option Held) (k k' : Held → Option Held) (h : Held) {end : Option Held}
    → (o >>= k) ≡ some h
    → ((m : Held) → k m ≡ some h → k' m ≡ end)
    → (o >>= k') ≡ end
after_call none k k' h e f = absurd (none-ne-some h e)
after_call (some m) k k' h e f = f m e

-- Calls that are in order, and more after them.
calls-append :
    (xs ys : List Call) (h h' : Held) → calls xs h ≡ some h' → calls (xs ++ ys) h ≡ calls ys h'
unfolding calls
calls-append [] ys h h' e = ap (calls ys) (some-injective h h' e)
calls-append (c ∷ xs) ys h h' e = after_call (call c h) _ _ h' e (λ m. calls-append xs ys m h')

calls-shut_down : (sock : Option ℕ) (h : Held) → calls (shut_down sock) h ≡ some h
unfolding calls call
calls-shut_down none h = refl
calls-shut_down (some s) h = refl

-- Calls that give back objects to a slab that is there leave what is held.
module _ (h : Held) where
  calls-clear :
      (pairs : List (ℕ × ℕ))
      → has slab_id qp_slab h.slabs ≡ true
      → calls (clear_pre_connections pairs) h ≡ some h
  unfolding calls call clear_pre_connections
  calls-clear [] there = refl
  calls-clear ((qp, sock) ∷ rest) there = rw there (calls-clear rest there)

  calls-stop :
      (stopped : List Entry) (socks : List (Option ℕ))
      → has slab_id listner_slab h.slabs ≡ true
      → calls (stop_calls stopped socks) h ≡ some h
  unfolding calls call stop_calls
  calls-stop [] socks there = refl
  calls-stop (e ∷ stopped) [] there = refl
  calls-stop (e ∷ stopped) (sock ∷ socks) there =
      calls-append (shut_down sock) (kmem_cache_free listner_slab e.addr ∷ stop_calls stopped socks)
        h h (calls-shut_down sock h)
      ∙ rw there (calls-stop stopped socks there)

-- The socket of the server of the connections opened in advance is shut down, and its thread is not
-- stopped.
abbrev pub left : Held
left = record nothing {
  threads = prec_conn_listner_server ∷ [];
  early = (pool_slab, prec_conn_listner_server) ∷ (qp_slab, prec_conn_listner_server) ∷ [];
}

-- What the module holds while it runs.
abbrev pub running : Held
running = record {
  slabs = preconn_slab ∷ pool_slab ∷ probe_slab ∷ syn_slab ∷ listner_slab ∷ qp_slab ∷ [];
  threads = prec_conn_listner_server ∷ refil_thread ∷ [];
  hooks = cbn_nf_hooks;
  files =
      codes "cbn"
      ∷ codes "connections"
      ∷ codes "cbn_proc"
      ∷ codes "cbn_del"
      ∷ codes "conn_pool"
      ∷ codes "cbn_transparent"
      ∷ codes "version"
      ∷ [];
  early = [];
}

abbrev closed : Held
closed = record running { hooks = []; files = [] }

init-running : calls (cbn_datapath_init 0).1 nothing ≡ some running
unfolding calls call cbn_datapath_init cbn_kthread_pool_init cbn_pre_connect_init cbn_proc_init
init-running = refl

abbrev quiet : Held
quiet = record closed { slabs = pool_slab ∷ probe_slab ∷ syn_slab ∷ listner_slab ∷ qp_slab ∷ [] }

end-quiet :
    (listner : Option ℕ) (client server : List (ℕ × ℕ))
    → calls (cbn_pre_connect_end listner client server) closed ≡ some quiet
unfolding cbn_pre_connect_end calls call
end-quiet listner client server =
    calls-append (shut_down listner) _ closed closed (calls-shut_down listner closed)
    ∙ calls-append (clear_pre_connections client) _ closed closed (calls-clear closed client refl)
    ∙ calls-append (clear_pre_connections server) _ closed closed (calls-clear closed server refl)

no_missing : (missing : ℕ) → (cbn_datapath_init missing).0 ≡ pos 0 → missing ≡ 0
unfolding cbn_datapath_init
no_missing missing h = ground arith

clean-left :
    (listner : Option ℕ) (client server : List (ℕ × ℕ)) (stopped : List Entry)
    (socks : List (Option ℕ))
    → calls (clean_calls listner client server stopped socks) running ≡ some left
unfolding calls call cbn_proc_clean cbn_kthread_pool_clean
clean-left listner client server stopped socks =
    calls-append (cbn_pre_connect_end listner client server) _ closed quiet
      (end-quiet listner client server)
    ∙ calls-append (stop_calls stopped socks) _ quiet quiet (calls-stop quiet stopped socks refl)

module _ (rb : RbOps Entry rank) (walk : PostOps Entry rank) where
  -- The calls of the start and of the end, in this order, are in order: the slabs that a hook, a file or
  -- a thread uses are there when it starts, each object goes back to a slab that exists, what is given
  -- back was held, and no slab goes before the hooks and the files. All that is left is the thread of
  -- the server of the connections opened in advance, which has not been stopped when the two slabs
  -- that it uses, of the pool and of the pairs, are destroyed; no slab goes before the refill thread, if
  -- that uses it, is stopped. The threads of the pool itself are not looked at.
  pub cbn_datapath_clean_lem :
      (vanila : Bool) (a b c : ℕ) (listner : Option ℕ) (client server : List (ℕ × ℕ)) (r : Registry)
      → IsValid r
      → (cbn_datapath_init (init_kallsyms vanila a b c)).0 ≡ pos 0
      → (done : List Call × Registry) × (cbn_datapath_clean rb walk listner client server r
          ≡ some done)
        × (calls ((cbn_datapath_init (init_kallsyms vanila a b c)).1 ++ done.0) nothing ≡ some left)
  unfolding cbn_datapath_clean
  cbn_datapath_clean_lem vanila a b c listner client server r v h =
      let ((stopped, socks, r'), run, _) = stop_sockets_lem rb walk r v in
      let done = clean_calls listner client server stopped socks in
      (
        (done, r'),
        rw run refl,
        rw (no_missing (init_kallsyms vanila a b c) h) (
            calls-append (cbn_datapath_init 0).1 done nothing running init-running
            ∙ clean-left listner client server stopped socks),
      )
