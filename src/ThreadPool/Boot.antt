-- ===== src/ThreadPool/Boot.antt =====
-- The start of the pool: cbn_kthread_pool_init and refil_thread of tcpsplit/thread_pool.c, over the
-- magazine allocator, with parse_module_params of tcpsplit/split.c.
use ktcp_split.Common.{
  ℕ, zero, suc, ◌+◌, ◌-◌, ◌*◌, ◌%◌, ◌^◌, ◌≤◌, ◌≡◌, ◌≢◌, refl, sym, ap, Option, none, some, List, [],
  ◌∷◌, ◌++◌, length, arith, ◌>>=◌,
}
use ktcp_split.Common.Int.{ℤ, pos, negsuc}
use ktcp_split.Magazine.{Memory, MagAllocator, mag_allocator_init}
use ktcp_split.Magazine.Contents.{held}
use ktcp_split.Magazine.Init.{AreBlocks, mag_allocator_init_lem}
use ktcp_split.ThreadPool.Store.{ElementStore}
use ktcp_split.ThreadPool.{Grant, KthreadPool, PoolElem, refill_pool}
use ktcp_split.ThreadPool.Laws.{IsSound}
use ktcp_split.ThreadPool.Refill.{granted, refill_pool_lem}
use ktcp_split.ThreadPool.Runs.{IsServed, waiting}
use ktcp_split.ThreadPool.MagazineStore.{IsReady, HasRoom, magazine_store}

-- The parameter of the module, if it is positive.
unfoldable pub parse_module_params : ℤ → ℕ → ℕ
parse_module_params (pos zero) size = size
parse_module_params (pos (suc n)) size = suc n
parse_module_params (negsuc n) size = size

-- No element has been made yet.
abbrev pub no_elems : ℕ → PoolElem
no_elems e = record { pool_task = none; arg = 0; mask = none }

module _ (es : ElementStore) where
  open es use {Store, Env}

  -- One entry for each turn of the loop before it is told to stop: what the kernel gives the refill.
  unfoldable pub refil_thread :
      (Store → Env) → List (ℕ → Grant) → KthreadPool es → Option (KthreadPool es)
  refil_thread env [] pool = some pool
  refil_thread env (grant ∷ grants) pool = do
    pool' ← refill_pool es env grant pool
    refil_thread env grants pool'

module _ (contexts : ℕ) where
  -- The memory, and what the `kzalloc` of each pair returns.
  unfoldable pub cbn_kthread_pool_init :
      Memory → List ℕ → ℕ → Option (KthreadPool (magazine_store contexts))
  cbn_kthread_pool_init m kzallocs size = do
    a ← mag_allocator_init m kzallocs
    some (record { top_count = 0; pool_size = size; allocator = a; elems = no_elems })

  module _ (env : MagAllocator → ℕ × ℕ)
      (supply : (a : MagAllocator) → IsReady contexts a → HasRoom contexts a (env a)) where
    abbrev pub Boots : Option (KthreadPool (magazine_store contexts)) → ℕ → (ℕ → Grant) → Type 0
    Boots result size grant =
        (pool : KthreadPool (magazine_store contexts)) × (result ≡ some pool)
        × IsServed (magazine_store contexts) (record { given = []; called = [] }) pool
        × ((e : ℕ) → held pool.allocator e ≡ granted grant e size)
        × (pool.top_count ≡ size % 2 ^ 32)

    -- If each `kzalloc` of the initialisation succeeds and no two results overlap, and the first turn of
    -- refil_thread gets new elements and threads and finds room, the pool starts without a fault: it is
    -- sound, has pool_size idle threads, exactly those that were made, and none has a task.
    pub boot_lem :
        (m : Memory) (kzallocs : List ℕ) (size : ℕ) (grant : ℕ → Grant)
        → AreBlocks kzallocs
        → contexts ≤ length kzallocs
        → ((k : ℕ) → ((grant k).elem ≢ 0) × ((grant k).task ≢ 0))
        → ((e : ℕ) → granted grant e size ≤ 1)
        → Boots
            (cbn_kthread_pool_init m kzallocs size
              >>= refil_thread (magazine_store contexts) env (grant ∷ []))
            size
            grant
    unfolding cbn_kthread_pool_init refil_thread
    boot_lem m kzallocs size grant blocks enough made fresh =
        let (a, init, valid, empty, pairs, none_full) = mag_allocator_init_lem m kzallocs blocks in
        let pool : KthreadPool (magazine_store contexts) = record {
          top_count = 0;
          pool_size = size;
          allocator = a;
          elems = no_elems;
        } in
        let sound : IsSound (magazine_store contexts) pool = record {
          valid = (valid, omega (arith, pairs, enough));
          single = λ e. omega (arith, empty e);
          idle = λ e h. refl;
        } in
        let missing : size - a.depot.full_count * 4 ≡ size = omega (arith, none_full) in
        let room : (e : ℕ) → held a e + granted grant e (size - a.depot.full_count * 4) ≤ 1 =
          λ e. rw missing (omega (arith, empty e, fresh e)) in
        let (pool', run, sound', more, top, idle, _) =
          refill_pool_lem (magazine_store contexts) env supply grant made pool sound (omega arith)
            room in
        (
          pool',
          ground (arith, init, run),
          record {
            sound = sound';
            tasks = λ e. ap (λ t. waiting t (pool'.elems e).arg ++ []) (sym (idle e refl));
          },
          (λ e. omega (arith, more e, empty e, ap (granted grant e) missing)),
          omega (arith, top, missing),
        )
