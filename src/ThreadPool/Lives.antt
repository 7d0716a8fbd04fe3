-- ===== src/ThreadPool/Lives.antt =====
-- The pool as it lives: starts of tasks, rounds of threads, and turns of refil_thread, in any order.
use native.Mathlib.Decide.{ℕ_discrete}
use ktcp_split.Common.{
  ℕ, ◌+◌, ◌-◌, ◌*◌, ◌^◌, ◌<◌, ◌≤◌, ◌≡◌, ◌≢◌, refl, sym, ap, ◌∙◌, Option, none, some, List, [], ◌∷◌,
  ◌++◌, arith, ◌>>=◌,
}
use ktcp_split.ThreadPool.Store.{ElementStore}
use ktcp_split.ThreadPool.{Grant, KthreadPool, refill_pool}
use ktcp_split.ThreadPool.Refill.{granted, refill_pool_lem}
use ktcp_split.ThreadPool.Runs.{
  Action, Log, act, IsServed, act-IsServed, tasks_of, pending, waiting,
}

module _ (es : ElementStore) where
  open es use {Store, Env, IsValid, Fits, held, full_count}

  -- An action of the pool, or a turn of refil_thread, with what the kernel gives it.
  pub data Move : Type 0 where
    acted : Action → Move
    refilled : (ℕ → Grant) → Move

  unfoldable pub move : (Store → Env) → Move → Log × KthreadPool es → Option (Log × KthreadPool es)
  move env (acted a) s = act es env a s
  move env (refilled grant) (log, pool) =
      refill_pool es env grant pool >>= λ pool'. some (log, pool')

  unfoldable pub moves :
      (Store → Env) → List Move → Log × KthreadPool es → Option (Log × KthreadPool es)
  moves env [] s = some s
  moves env (m ∷ rest) s = move env m s >>= moves env rest

  -- How many threads a refill makes.
  abbrev pub missing : KthreadPool es → ℕ
  missing pool = pool.pool_size - full_count pool.allocator * 4

  -- The slab and kthread_create give a refill its objects: each is new, so that it is no thread of the
  -- pool, neither in the store nor out with a task. The count is an unsigned word.
  abbrev pub IsNew : Move → KthreadPool es → Type 0
  IsNew (acted a) pool = Unit
  IsNew (refilled grant) pool =
      ((k : ℕ) → ((grant k).elem ≢ 0) × ((grant k).task ≢ 0))
      × (pool.top_count < 2 ^ 32)
      × ((e : ℕ) → held pool.allocator e + granted grant e (missing pool) ≤ 1)
      × ((e : ℕ) → 0 < granted grant e (missing pool) → (pool.elems e).pool_task ≡ none)

  module _ (env : Store → Env) (fits : (s : Store) → IsValid s → Fits s (env s)) where
    -- Each refill of a run finds new objects, in the state that it is in.
    abbrev pub AreNew : List Move → Log × KthreadPool es → Type 0
    AreNew [] s = Unit
    AreNew (m ∷ rest) s =
        IsNew m s.1 × ((s' : Log × KthreadPool es) → move env m s ≡ some s' → AreNew rest s')

    abbrev Moved : Move → Log × KthreadPool es → Type 0
    Moved m s = (s' : Log × KthreadPool es) × (move env m s ≡ some s') × IsServed es s'.0 s'.1

    refilled-IsServed :
        (grant : ℕ → Grant) (log : Log) (pool : KthreadPool es)
        → IsServed es log pool
        → IsNew (refilled grant) pool
        → Moved (refilled grant) (log, pool)
    unfolding move
    refilled-IsServed grant log pool v (made, top, room, idle) =
        let (pool', run, sound, _, _, kept, same) =
          refill_pool_lem es env fits grant made pool v.sound top room in
        ((log, pool'), rw run refl, record { sound = sound; tasks = kept_tasks pool' kept same })
      where
        kept_tasks :
            (pool' : KthreadPool es)
            → ((e : ℕ) → (pool.elems e).pool_task ≡ none → (pool'.elems e).pool_task ≡ none)
            → ((e : ℕ) → granted grant e (missing pool) ≡ 0 → pool'.elems e ≡ pool.elems e)
            → (e : ℕ) → tasks_of e log.given ≡ pending (pool'.elems e) ++ tasks_of e log.called
        kept_tasks pool' kept same e = elim (ℕ_discrete (granted grant e (missing pool)) 0) [
          | yes old ↦ v.tasks e ∙ ap (λ u. pending u ++ tasks_of e log.called) (sym (same e old))
          | no new ↦
              let before = idle e (omega (arith, new)) in
              v.tasks e
              ∙ ap (λ t. waiting t (pool.elems e).arg ++ tasks_of e log.called) before
              ∙ sym
                  (ap (λ t. waiting t (pool'.elems e).arg ++ tasks_of e log.called) (kept e before))
        ]

    move-IsServed :
        (m : Move) (log : Log) (pool : KthreadPool es)
        → IsServed es log pool
        → IsNew m pool
        → Moved m (log, pool)
    unfolding move
    move-IsServed (acted a) log pool v new = act-IsServed es env fits a log pool v
    move-IsServed (refilled grant) log pool v new = refilled-IsServed grant log pool v new

    -- Over any sequence of starts of tasks, rounds of threads, and turns of refil_thread, each of which
    -- gets new objects, a sound pool whose store finds room does not fault and stays sound. Each thread,
    -- also one that a refill has made, has called the tasks that it was given, in their order and with
    -- their arguments, each once, but for the last one while it has not called it yet.
    pub moves_lem :
        (run : List Move) (log : Log) (pool : KthreadPool es)
        → IsServed es log pool
        → AreNew run (log, pool)
        → (s : Log × KthreadPool es) × (moves env run (log, pool) ≡ some s) × IsServed es s.0 s.1
    unfolding moves
    moves_lem [] log pool v new = ((log, pool), refl, v)
    moves_lem (m ∷ run) log pool v (now, later) =
        let (s, one, w) = move-IsServed m log pool v now in
        let (s', rest, u) = moves_lem run s.0 s.1 w (later s one) in
        (s', ap (λ o. o >>= moves env run) one ∙ rest, u)
