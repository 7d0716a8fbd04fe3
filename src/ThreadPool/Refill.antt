-- ===== src/ThreadPool/Refill.antt =====
-- `refill_pool`: how many threads it makes.
use ktcp_split.Common.{
  ℕ, zero, suc, ◌+◌, ◌-◌, ◌*◌, ◌%◌, ◌^◌, ◌≤◌, ◌<◌, ◌≡◌, ◌≢◌, refl, ◌∙◌, Option, none, some, arith,
  ◌==◌, if◌then◌else◌,
}
use ktcp_split.ThreadPool.Store.{ElementStore}
use ktcp_split.ThreadPool.{
  Grant, KthreadPool, update, refill_rounds, refill_pool, clamp_count, refill_count,
}
use ktcp_split.ThreadPool.Laws.{IsSound}

-- How often `e` is among the elements of the last `count` rounds.
abbrev pub granted : (ℕ → Grant) → ℕ → ℕ → ℕ
granted grant e zero = 0
granted grant e (suc count) = (if e == (grant count).elem then 1 else 0) + granted grant e count

clamp_count-refill_count : (n k : ℕ) → clamp_count (refill_count n k) ≡ n - k * 4
clamp_count-refill_count n k = ground arith

module _ (es : ElementStore) where
  open es use {Store, Env, IsValid, Fits, held, full_count, free, free_law}

  module _ (env : Store → Env) (supply : (s : Store) → IsValid s → Fits s (env s))
      (grant : ℕ → Grant) (made : (k : ℕ) → ((grant k).elem ≢ 0) × ((grant k).task ≢ 0)) where
    abbrev pub Refilled : ℕ → KthreadPool es → Option (KthreadPool es) → Type 0
    Refilled count pool result =
        (pool' : KthreadPool es) × (result ≡ some pool')
        × IsSound es pool'
        × ((e : ℕ) → held pool'.allocator e ≡ held pool.allocator e + granted grant e count)
        × (pool'.top_count ≡ (pool.top_count + count) % 2 ^ 32)
        × ((e : ℕ) → (pool.elems e).pool_task ≡ none → (pool'.elems e).pool_task ≡ none)
        × ((e : ℕ) → granted grant e count ≡ 0 → pool'.elems e ≡ pool.elems e)

    -- The pool after one round.
    abbrev filled : ℕ → KthreadPool es → Store → KthreadPool es
    filled count pool s = record pool {
      allocator = s;
      top_count = (pool.top_count + 1) % 2 ^ 32;
      elems =
          update es pool.elems (grant count).elem
            (record (pool.elems (grant count).elem) { pool_task = none });
    }

    module _ (count : ℕ) (pool : KthreadPool es) (v : IsSound es pool)
        (fresh : (e : ℕ) → held pool.allocator e + granted grant e (suc count) ≤ 1) (s : Store)
        (run : free (env pool.allocator) pool.allocator (grant count).elem ≡ some s)
        (valid : IsValid s)
        (counts : (e : ℕ)
          → held s e ≡ held pool.allocator e + (if e == (grant count).elem then 1 else 0)) where
      filled-IsSound : IsSound es (filled count pool s)
      filled-IsSound = record {
        valid = valid;
        single = λ e. omega (arith, fresh e, counts e);
        idle = λ e h. ground (arith, v.idle e, counts e);
      }

      filled-fresh : (e : ℕ) → held s e + granted grant e count ≤ 1
      filled-fresh e = omega (arith, fresh e, counts e)

      round :
          refill_rounds es env grant (suc count) pool
          ≡ refill_rounds es env grant count (filled count pool s)
      unfolding refill_rounds
      round = ground (arith, made count, run)

      untouched :
          (e : ℕ) → granted grant e (suc count) ≡ 0 → (filled count pool s).elems e ≡ pool.elems e
      untouched e h = ground (arith, h)

      after_round :
          Refilled count
            (filled count pool s)
            (refill_rounds es env grant count (filled count pool s))
          → Refilled (suc count) pool (refill_rounds es env grant (suc count) pool)
      after_round (pool', rest, sound, more, top, idle, same) = (
        pool',
        rw round rest,
        sound,
        (λ e. omega (arith, more e, counts e)),
        omega (arith, top),
        (λ e h. idle e (ground (arith, h))),
        λ e h. same e (omega (arith, h)) ∙ untouched e h,
      )

    refill_rounds_lem :
        (count : ℕ) (pool : KthreadPool es)
        → IsSound es pool
        → pool.top_count < 2 ^ 32
        → ((e : ℕ) → held pool.allocator e + granted grant e count ≤ 1)
        → Refilled count pool (refill_rounds es env grant count pool)
    unfolding refill_rounds
    refill_rounds_lem zero pool v t fresh =
        (pool, refl, v, (λ e. omega arith), omega arith, (λ e h. h), λ e h. refl)
    refill_rounds_lem (suc count) pool v t fresh =
        let (s, run, valid, counts) =
          free_law (env pool.allocator) pool.allocator (grant count).elem v.valid
            (supply pool.allocator v.valid) in
        after_round count pool v fresh s run valid counts (
          refill_rounds_lem count (filled count pool s)
            (filled-IsSound count pool v fresh s run valid counts) (omega arith)
            (filled-fresh count pool v fresh s run valid counts))

    -- If each round gets a new element and a thread, and the store always finds room, a refill of a
    -- sound pool makes one thread for each that pool_size exceeds four times the number of full
    -- magazines, puts exactly those into the store, counts them in top_count (modulo 2 ^ 32), gives
    -- no thread a task, changes no other thread, and leaves a sound pool; if nothing is missing it
    -- makes none.
    pub refill_pool_lem :
        (pool : KthreadPool es)
        → IsSound es pool
        → pool.top_count < 2 ^ 32
        → ((e : ℕ)
            → held pool.allocator e
                + granted grant e (pool.pool_size - full_count pool.allocator * 4)
              ≤ 1)
        → Refilled
            (pool.pool_size - full_count pool.allocator * 4)
            pool
            (refill_pool es env grant pool)
    unfolding refill_pool
    refill_pool_lem pool v t fresh =
        rw (clamp_count-refill_count pool.pool_size (full_count pool.allocator))
          (refill_rounds_lem (pool.pool_size - full_count pool.allocator * 4) pool v t fresh)
