-- ===== src/ThreadPool/Tests.antt =====
-- The pool over the magazine allocator, at a pool of one cpu.
use ktcp_split.Common.{◌>>=◌, List, ◌≡◌, ℕ, ◌+◌, ◌≢◌, refl, some, [], ◌∷◌, arith}
use ktcp_split.ThreadPool.{Grant, KthreadPool, refill_pool}
use ktcp_split.ThreadPool.MagazineStore.{magazine_store, past}
use ktcp_split.ThreadPool.Runs.{run, round, Log, IsServed}
use ktcp_split.Common.Int.{pos}
use ktcp_split.ThreadPool.Boot.{
  parse_module_params, cbn_kthread_pool_init, refil_thread, Boots, boot_lem,
}
use ktcp_split.ThreadPool.Fixture.{pool, pool-IsServed, supply}
use ktcp_split.ThreadPool.Lives.{Move, acted, refilled, moves, moves_lem}
use ktcp_split.ThreadPool.Refill.{Refilled, refill_pool_lem}

abbrev grant : ℕ → Grant
grant k = record { elem = 800 + k; task = 900 + k }

grant-made : (k : ℕ) → ((grant k).elem ≢ 0) × ((grant k).task ≢ 0)
grant-made k = omega arith

refill_pool_lem_example :
    Refilled
      (magazine_store 2)
      (λ a. (0, past a))
      supply
      grant
      grant-made
      3
      pool
      (refill_pool (magazine_store 2) (λ a. (0, past a)) grant pool)
refill_pool_lem_example =
    refill_pool_lem (magazine_store 2) (λ a. (0, past a)) supply grant grant-made pool
      pool-IsServed.sound (omega arith) λ e. ground arith

abbrev blocks : List ℕ
blocks = 64 ∷ 1024 ∷ []

boot_lem_example :
    Boots 2
      (λ a. (0, past a))
      supply
      (cbn_kthread_pool_init 2 (λ p i. 0) blocks 3
        >>= refil_thread (magazine_store 2) (λ a. (0, past a)) (grant ∷ []))
      3
      grant
boot_lem_example =
    boot_lem 2 (λ a. (0, past a)) supply (λ p i. 0) blocks 3 grant (omega arith) (omega arith)
      grant-made (λ e. ground arith)

-- Without the parameter the pool has its default size.
default_size : parse_module_params (pos 0) 64 ≡ 64
unfolding parse_module_params
default_size = refl

-- A refill, the start of a task, and the rounds of two threads, one of them new.
abbrev life : List (Move (magazine_store 2))
life = refilled grant ∷ acted (run 5 6 (some 0)) ∷ acted (round 700) ∷ acted (round 800) ∷ []

moves_lem_example :
    (s : Log × KthreadPool (magazine_store 2)) × (moves
        (magazine_store 2)
        (λ a. (0, past a))
        life
        (record { given = []; called = [] }, pool)
      ≡ some s)
    × IsServed (magazine_store 2) s.0 s.1
moves_lem_example =
    moves_lem (magazine_store 2) (λ a. (0, past a)) supply life (record { given = []; called = [] })
      pool pool-IsServed
      (
        (grant-made, omega arith, (λ e. ground arith), λ e h. refl),
        λ s e. (tt, λ s' e'. (tt, λ s'' e''. (tt, λ s3 e3. tt))),
      )
