-- ===== src/ThreadPool.antt =====
-- tcpsplit/thread_pool.c and tcpsplit/thread_pool.h: kernel threads that wait in a pool and run one
-- task at a time. The pool keeps its idle threads in an `ElementStore`, which tcpsplit/magazine.c
-- implements. An element is the address of its `struct pool_elem`; a task is a number for the
-- function, and so is its argument. A wait of a thread for its next task is the gap between two
-- steps. `none` is a fault of the store.
pub mod Store
pub mod Laws
pub mod Refill
pub mod Runs
pub mod Draws
pub mod MagazineStore
pub mod Boot
pub mod Lives
pub mod Fixture
mod Tests
use ktcp_split.Common.{
  ℕ, zero, suc, ◌+◌, ◌*◌, ◌%◌, ◌^◌, Bool, true, false, ◌||◌, Option, none, some, List, [], ◌∷◌,
  ◌==◌, if◌then◌else◌, ◌>>=◌,
}
use ktcp_split.Common.Int.{ℤ, pos, negsuc, sub_ℕ, is_neg, pos_part}
use mathlib.Core.Option
use Store.{ElementStore}

-- The fields of `struct pool_elem` that change once a thread waits in the pool.
pub record PoolElem : Type 0 where
  pub pool_task : Option ℕ
  pub arg : ℕ
  -- The CPU that the thread is bound to, or `none` for any.
  pub mask : Option ℕ

-- `int count` of `refill_pool`, from `pool_size` and the number of full magazines; then its clamp.
abbrev pub refill_count : ℕ → ℕ → ℤ
refill_count pool_size full_count = sub_ℕ pool_size (full_count * 4)

abbrev pub clamp_count : ℤ → ℕ
clamp_count count = if is_neg count then 0 else pos_part count

-- What the kernel gives one round of `refill_pool`: the element (0 if the slab is exhausted) and
-- the thread (0 if it is NULL).
pub record Grant : Type 0 where
  pub elem : ℕ
  pub task : ℕ

module _ (es : ElementStore) where
  open es use {Store, Env, alloc, free, full_count}

  -- `struct kthread_pool`, with the memory of its elements.
  pub record KthreadPool : Type 0 where
    pub top_count : ℕ
    pub pool_size : ℕ
    pub allocator : Store
    pub elems : ℕ → PoolElem

  abbrev pub update : (ℕ → PoolElem) → ℕ → PoolElem → ℕ → PoolElem
  update f e v q = if e == q then v else f q

  -- The wake-up of the refill thread changes nothing here: its rounds are `refill_pool`.
  pub kthread_pool_alloc : Env → KthreadPool → Option (Option ℕ × KthreadPool)
  kthread_pool_alloc env pool = do
    (elem, s) ← alloc env pool.allocator
    some (elem, record pool { allocator = s })

  -- `none` in the result is ERR_PTR(-ENOMEM).
  abbrev pub start : ℕ → ℕ → Option ℕ → Option ℕ × KthreadPool → Option ℕ × KthreadPool
  start func arg mask (none, pool) = (none, pool)
  start func arg mask (some e, pool) = (
    some e,
    record pool {
      elems = update pool.elems e (record { pool_task = some func; arg = arg; mask = mask });
    },
  )

  pub pool_run : Env → KthreadPool → ℕ → ℕ → Option ℕ → Option (Option ℕ × KthreadPool)
  unfolding kthread_pool_alloc
  pool_run env pool func arg mask = do r ← kthread_pool_alloc env pool; some (start func arg mask r)

  unfoldable pub kthread_pool_run_cpu :
      Env → KthreadPool → ℕ → ℕ → ℕ → Option (Option ℕ × KthreadPool)
  kthread_pool_run_cpu env pool func arg cpu = pool_run env pool func arg (some cpu)

  unfoldable pub kthread_pool_run : Env → KthreadPool → ℕ → ℕ → Option (Option ℕ × KthreadPool)
  kthread_pool_run env pool func arg = pool_run env pool func arg none

  pub kthread_pool_reuse : Env → KthreadPool → ℕ → Option KthreadPool
  kthread_pool_reuse env pool elem = do
    s ← free env pool.allocator elem
    some (record pool { allocator = s })

  -- One round of `pipe_loop_task` of the thread of `elem`, woken and not told to stop: the call that
  -- it makes, if it has a task, and the pool that it leaves when it sleeps.
  pub pipe_loop_round : Env → KthreadPool → ℕ → Option (Option (ℕ × ℕ) × KthreadPool)
  unfolding kthread_pool_reuse
  pipe_loop_round env pool elem =
      let old = pool.elems elem in
      (do
        pool' ←
            kthread_pool_reuse env
              (record pool { elems = update pool.elems elem (record old { pool_task = none }) })
              elem
        some (Option.map (λ f. (f, old.arg)) old.pool_task, pool'))

  -- `while (count--)`: the number of rounds left names what the kernel gives the round. The CPU and
  -- its memory may depend on what the store already uses.
  pub refill_rounds : (Store → Env) → (ℕ → Grant) → ℕ → KthreadPool → Option KthreadPool
  unfolding kthread_pool_reuse
  refill_rounds env grant zero pool = some pool
  refill_rounds env grant (suc count) pool =
      elim ((grant count).elem == 0 || (grant count).task == 0) [
        | true ↦ some pool
        | false ↦
            kthread_pool_reuse (env pool.allocator)
              (record pool {
                elems =
                    update pool.elems (grant count).elem
                      (record (pool.elems (grant count).elem) { pool_task = none });
              })
              (grant count).elem
            >>= λ pool'.
                refill_rounds env grant count
                  (record pool' { top_count = (pool'.top_count + 1) % 2 ^ 32 })
      ]

  pub refill_pool : (Store → Env) → (ℕ → Grant) → KthreadPool → Option KthreadPool
  refill_pool env grant pool =
      refill_rounds env grant
        (clamp_count (refill_count pool.pool_size (full_count pool.allocator))) pool
