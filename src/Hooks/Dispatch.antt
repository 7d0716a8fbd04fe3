-- ===== src/Hooks/Dispatch.antt =====
-- The hooks of tcpsplit/split.c over the pool of threads: what becomes of the work that a hook hands to
-- kthread_pool_run and kthread_pool_run_cpu.
use ktcp_split.Common.{
  ℕ, ◌≡◌, refl, sym, ap, subst, ◌∙◌, ◌⊎◌, inl, inr, Bool, false, Option, none, some, List, [], ◌∷◌,
  arith, ◌>>=◌,
}
use mathlib.Core.Option.{some-injective}
use ktcp_split.RbTree.{Tree}
use ktcp_split.Listner.{Entry}
use ktcp_split.Qp.{Addresses, tuple_of, qp2cpu}
use ktcp_split.ThreadPool.Store.{ElementStore}
use ktcp_split.ThreadPool.{KthreadPool}
use ktcp_split.ThreadPool.Laws.{IsSound, Started, pool_run_lem, pipe_loop_round_lem}
use ktcp_split.ThreadPool.Runs.{
  Action, run, round, Log, noted, noted_call, call_of, run-IsServed, act, acts, IsServed,
}
use ktcp_split.ThreadPool.Draws.{pool_run-alloc}
use ktcp_split.Hooks.{
  Skb, Probe, Verdict, accept, drop, Work, start_new_connection_syn, start_new_pre_connection_syn,
  is_out_gue, cbn_ingress_hook, cbn_egress_hook,
}
use ktcp_split.Hooks.Relay.{opened, Carries, relay-local}

module _ (es : ElementStore) (env : es.Store → es.Env) where
  -- The functions that the threads call, and where the arguments stand.
  module _ (syn pre_syn probe_syn : ℕ) (address : Addresses → ℕ) (probe_address : Probe → ℕ) where
    abbrev pub task_of : Work → Action
    task_of (start_new_connection_syn a cpu) = run syn (address a) (some cpu)
    task_of (start_new_pre_connection_syn a cpu) = run pre_syn (address a) (some cpu)

    abbrev tasks : Option Work → List Action
    tasks none = []
    tasks (some w) = task_of w ∷ []

    abbrev probe_tasks : Option Probe → List Action
    probe_tasks none = []
    probe_tasks (some p) = run probe_syn (probe_address p) none ∷ []

    -- The hooks with their calls of the pool, which do not look at its result.
    unfoldable pub egress :
        ℕ
        → Option Addresses
        → Skb
        → Log × KthreadPool es
        → Option ((Verdict × Skb) × (Log × KthreadPool es))
    egress online slab skb s =
        let (verdict, skb', work) = cbn_egress_hook online slab skb in
        acts es env (tasks work) s >>= λ s'. some ((verdict, skb'), s')

    unfoldable pub ingress :
        Bool
        → Tree Entry
        → Bool
        → Skb
        → Log × KthreadPool es
        → Option (Verdict × (Log × KthreadPool es))
    ingress rx root memory skb s =
        let (verdict, probe) = cbn_ingress_hook rx root memory skb in
        acts es env (probe_tasks probe) s >>= λ s'. some (verdict, s')

  module _ (fits : (s : es.Store) → es.IsValid s → es.Fits s (env s)) where
    -- A task was handed to a thread, which may run on the given CPUs and whose next round calls it; or the
    -- allocator of the pool has no thread, and nothing is noted.
    abbrev pub Handed : ℕ → ℕ → Option ℕ → Log × KthreadPool es → Log × KthreadPool es → Type 0
    Handed func arg mask (log, pool) (log', pool') =
        ((log' ≡ log)
          × (es.alloc (env pool.allocator) pool.allocator ≡ some (none, pool'.allocator)))
        ⊎ ((e : ℕ) × (log'.given ≡ (e, func, arg) ∷ log.given)
            × ((pool'.elems e).mask ≡ mask)
            × (s : Log × KthreadPool es) × (act es env (round e) (log', pool') ≡ some s)
            × (s.0.called ≡ (e, func, arg) ∷ log.called))

    run-Handed :
        (func arg : ℕ) (mask : Option ℕ) (log : Log) (pool : KthreadPool es)
        → IsServed es log pool
        → (s : Log × KthreadPool es) × (acts es env (run func arg mask ∷ []) (log, pool) ≡ some s)
          × IsServed es s.0 s.1
          × Handed func arg mask (log, pool) s
    unfolding act acts
    run-Handed func arg mask log pool v =
        let (r, same, served) = run-IsServed es env fits func arg mask log pool v in
        let (x, pool', same', sound, h) =
          pool_run_lem es (env pool.allocator) pool func arg mask v.sound
            (fits pool.allocator v.sound.valid) in
        (
          (record log { given = noted func arg r.0 log.given }, r.1),
          ground (arith, same),
          served,
          subst
              (λ q.
                Handed func arg mask (log, pool)
                  (record log { given = noted func arg q.0 log.given }, q.1))
              (some-injective _ _ (sym same' ∙ same))
              (handed x pool' sound h (pool_run-alloc es env func arg mask pool (x, pool') same')),
        )
      where
        handed :
            (x : Option ℕ) (pool' : KthreadPool es)
            → IsSound es pool'
            → Started es pool func arg mask x pool'
            → es.alloc (env pool.allocator) pool.allocator ≡ some (x, pool'.allocator)
            → Handed func arg mask
                (log, pool)
                (record log { given = noted func arg x log.given }, pool')
        handed none pool' sound h taken = inl (refl, taken)
        handed (some e) pool' sound h taken =
            let (back, round_run, _, _, _, _) =
              pipe_loop_round_lem es (env pool'.allocator) pool' e sound
                (fits pool'.allocator sound.valid) h.1 in
            inr (
              e,
              refl,
              ap (λ t. t.mask) h.3,
              (
                record {
                  given = (e, func, arg) ∷ log.given;
                  called = noted_call e (call_of (pool'.elems e)) log.called;
                },
                back,
              ),
              ground (arith, h.1, round_run),
              ap (λ t. noted_call e (call_of t) log.called) h.3,
            )

    module _ (syn pre_syn probe_syn : ℕ) (address : Addresses → ℕ) (probe_address : Probe → ℕ) where
      abbrev pub Probed : Option Probe → Log → KthreadPool es → Log × KthreadPool es → Type 0
      Probed none log pool s = s ≡ (log, pool)
      Probed (some p) log pool s = Handed probe_syn (probe_address p) none (log, pool) s

      accepts :
          (rx memory : Bool) (root : Tree Entry) (skb : Skb)
          → (cbn_ingress_hook rx root memory skb).0 ≡ accept
      unfolding cbn_ingress_hook
      accepts rx memory root skb = ground arith

      probed :
          (probe : Option Probe) (log : Log) (pool : KthreadPool es)
          → IsServed es log pool
          → (s : Log × KthreadPool es) × (acts es env
                (probe_tasks syn pre_syn probe_syn address probe_address probe)
                (log, pool)
              ≡ some s)
            × IsServed es s.0 s.1
            × Probed probe log pool s
      unfolding acts
      probed none log pool v = ((log, pool), refl, v, refl)
      probed (some p) log pool v = run-Handed probe_syn (probe_address p) none log pool v

      -- The ingress hook lets every packet pass; in a sound pool it does not fault and keeps it so. Its
      -- probe, if there is one, is handed to a thread, on any CPU, whose next round calls start_probe_syn with
      -- it, or the allocator has no thread for it and nothing is noted; without a probe nothing is done.
      pub ingress-Handed :
          (rx memory : Bool) (root : Tree Entry) (skb : Skb) (log : Log) (pool : KthreadPool es)
          → IsServed es log pool
          → (s : Log × KthreadPool es) × (ingress syn pre_syn probe_syn address probe_address rx
                root memory skb
                (log, pool)
              ≡ some (accept, s))
            × IsServed es s.0 s.1
            × Probed (cbn_ingress_hook rx root memory skb).1 log pool s
      unfolding ingress
      ingress-Handed rx memory root skb log pool v =
          let (s, same, served, handed) =
            probed (cbn_ingress_hook rx root memory skb).1 log pool v in
          (s, rw (same, accepts rx memory root skb) refl, served, handed)

      -- A SYN that the ingress hook has turned into a probe leaves as a marked packet by a device that is no
      -- tunnel, and there is memory: the packet is dropped, and in a sound pool the hook does not fault and
      -- keeps it so. A thread is handed start_new_connection_syn with the SYN's own four-tuple and the mark, to
      -- run on the CPU that the four-tuple determines, and calls it in its next round; or the allocator of
      -- the pool has no thread for it, and nothing is noted.
      pub egress-Handed :
          (rx memory : Bool) (root : Tree Entry) (skb out : Skb) (p : Probe) (slab : Addresses)
          (online : ℕ) (log : Log) (pool : KthreadPool es)
          → cbn_ingress_hook rx root memory skb ≡ (accept, some p)
          → Carries p out
          → is_out_gue out ≡ false
          → IsServed es log pool
          → (a : Addresses) × (s : Log × KthreadPool es) × (egress syn pre_syn probe_syn address
                probe_address online
                (some slab)
                out
                (log, pool)
              ≡ some ((drop, out), s))
            × IsServed es s.0 s.1
            × Handed syn (address a) (some (qp2cpu online (opened skb))) (log, pool) s
            × (tuple_of a ≡ opened skb)
            × (a.mark ≡ out.mark)
      unfolding egress
      egress-Handed rx memory root skb out p slab online log pool h c g v =
          let (a, hook, tuple, mark) = relay-local root rx memory skb out p slab h c online g in
          let cpu = qp2cpu online (opened skb) in
          let (s, same, served, handed) = run-Handed syn (address a) (some cpu) log pool v in
          (a, s, rw (hook, same) refl, served, handed, tuple, mark)
