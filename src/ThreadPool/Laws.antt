-- ===== src/ThreadPool/Laws.antt =====
-- The pool over any store that keeps its laws: idle threads have no task, a thread that was handed
-- out is not handed out again before it is back, and a sleeping thread is back.
use mathlib.Core.Option
use ktcp_split.Common.{
  ℕ, ◌+◌, ◌≤◌, ◌<◌, ◌≡◌, ◌≢◌, refl, Option, none, some, arith, returned, ◌==◌, if◌then◌else◌,
}
use ktcp_split.ThreadPool.Store.{ElementStore}
use ktcp_split.ThreadPool.{KthreadPool, update, pool_run, pipe_loop_round}

module _ (es : ElementStore) where
  open es use {Store, Env, IsValid, Fits, held, alloc, free, alloc_law, free_law}

  -- The store is valid, has no thread twice, and each thread in it is idle.
  pub record IsSound (pool : KthreadPool es) : Type 0 where
    pub valid : IsValid pool.allocator
    pub single : (e : ℕ) → held pool.allocator e ≤ 1
    pub idle : (e : ℕ) → 0 < held pool.allocator e → (pool.elems e).pool_task ≡ none

  -- What a start leaves: without a thread nothing changed, and with one it left the store idle and
  -- has the task.
  abbrev pub Started : KthreadPool es → ℕ → ℕ → Option ℕ → Option ℕ → KthreadPool es → Type 0
  Started pool func arg mask none pool' =
      ((e : ℕ) → held pool'.allocator e ≡ held pool.allocator e)
      × ((e : ℕ) → pool'.elems e ≡ pool.elems e)
  Started pool func arg mask (some x) pool' =
      (held pool.allocator x ≡ 1)
      × (held pool'.allocator x ≡ 0)
      × ((pool.elems x).pool_task ≡ none)
      × (pool'.elems x ≡ record { pool_task = some func; arg = arg; mask = mask })
      × ((e : ℕ) → e ≢ x → pool'.elems e ≡ pool.elems e)

  module _ (env : Env) (pool : KthreadPool es) (func arg : ℕ) (mask : Option ℕ) (v : IsSound pool)
      (fits : Fits pool.allocator env) where
    abbrev pub Start : Type 0
    Start =
        (r : Option ℕ) × (pool' : KthreadPool es) × (pool_run es env pool func arg mask
          ≡ some (r, pool'))
        × IsSound pool'
        × Started pool func arg mask r pool'

    started :
        (elem : Option ℕ) (s : Store)
        → alloc env pool.allocator ≡ some (elem, s)
        → IsValid s
        → ((e : ℕ) → held pool.allocator e ≡ held s e + returned e elem)
        → Start
    unfolding pool_run
    started none s run valid counts = (
      none,
      record pool { allocator = s },
      ground (arith, run),
      record {
        valid = valid;
        single = λ e. omega (arith, v.single e, counts e);
        idle = λ e h. v.idle e (omega (arith, counts e));
      },
      ((λ e. omega (arith, counts e)), λ e. refl),
    )
    started (some x) s run valid counts = (
      some x,
      record pool {
        allocator = s;
        elems = update es pool.elems x (record { pool_task = some func; arg = arg; mask = mask });
      },
      ground (arith, run),
      record {
        valid = valid;
        single = λ e. omega (arith, v.single e, counts e);
        idle = λ e h. ground (arith, v.idle e, v.single e, counts e);
      },
      (
        ground (arith, v.single x, counts x),
        ground (arith, v.single x, counts x),
        v.idle x (ground (arith, counts x)),
        ground arith,
        λ e h. ground (arith, h),
      ),
    )

    -- In a sound pool `__kthread_pool_run` does not fault and leaves a sound pool. A thread that it
    -- returns was idle in the pool, is not in it afterwards, and has the given task, argument and
    -- CPU mask, and no other thread has changed; if it returns none, no thread has changed and the
    -- store holds what it held.
    pub pool_run_lem : Start
    pool_run_lem =
        let (elem, s, run, valid, counts) = alloc_law env pool.allocator v.valid fits in
        started elem s run valid counts

  module _ (env : Env) (pool : KthreadPool es) (elem : ℕ) (v : IsSound pool)
      (fits : Fits pool.allocator env) (away : held pool.allocator elem ≡ 0) where
    abbrev pub Round : Type 0
    Round =
        (pool' : KthreadPool es) × (pipe_loop_round es env pool elem
          ≡ some (Option.map (λ f. (f, (pool.elems elem).arg)) (pool.elems elem).pool_task, pool'))
        × IsSound pool'
        × (held pool'.allocator elem ≡ 1)
        × ((pool'.elems elem).pool_task ≡ none)
        × ((e : ℕ) → e ≢ elem → pool'.elems e ≡ pool.elems e)

    rounded :
        (s : Store)
        → free env pool.allocator elem ≡ some s
        → IsValid s
        → ((e : ℕ) → held s e ≡ held pool.allocator e + (if e == elem then 1 else 0))
        → Round
    unfolding pipe_loop_round
    rounded s run valid counts = (
      record pool {
        allocator = s;
        elems = update es pool.elems elem (record (pool.elems elem) { pool_task = none });
      },
      ground (arith, run),
      record {
        valid = valid;
        single = λ e. ground (arith, v.single e, counts e, away);
        idle = λ e h. ground (arith, v.idle e, counts e, away);
      },
      ground (arith, counts elem, away),
      ground arith,
      λ e h. ground (arith, h),
    )

    -- A thread that is not in a sound pool makes the call of its task, if it has one, and is in the
    -- pool again, once and idle, when it sleeps; no other thread changes and the pool stays sound.
    pub pipe_loop_round_lem : Round
    pipe_loop_round_lem =
        let (s, run, valid, counts) = free_law env pool.allocator elem v.valid fits in
        rounded s run valid counts
