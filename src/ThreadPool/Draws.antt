-- ===== src/ThreadPool/Draws.antt =====
-- Which threads a sequence of tasks gets: those that the allocator gives, one call after another.
use ktcp_split.Common.{
  ℕ, ◌≡◌, refl, subst, ap, Option, none, some, List, [], ◌∷◌, ◌>>=◌, ◌==◌, if◌then◌else◌,
}
use mathlib.Core.Option.{some-injective, none-ne-some}
use ktcp_split.ThreadPool.Store.{ElementStore}
use ktcp_split.ThreadPool.{PoolElem, KthreadPool, start, pool_run, kthread_pool_alloc}
use ktcp_split.ThreadPool.Runs.{noted}

-- The log of a function that is given to threads with each argument in turn, or to none.
abbrev pub noted_all : ℕ → List ℕ → List (Option ℕ) → List (ℕ × ℕ × ℕ) → List (ℕ × ℕ × ℕ)
noted_all func [] threads log = log
noted_all func (arg ∷ args) [] log = log
noted_all func (arg ∷ args) (e ∷ threads) log = noted_all func args threads (noted func arg e log)

-- The arguments that no thread was given, the latest first.
abbrev pub lost_all : List ℕ → List (Option ℕ) → List ℕ → List ℕ
lost_all [] threads lost = lost
lost_all (arg ∷ args) [] lost = lost
lost_all (arg ∷ args) (none ∷ threads) lost = lost_all args threads (arg ∷ lost)
lost_all (arg ∷ args) (some e ∷ threads) lost = lost_all args threads lost

-- The elements when a task was given to a thread, if there is one.
abbrev pub tasked : ℕ → ℕ → Option ℕ → Option ℕ → (ℕ → PoolElem) → ℕ → PoolElem
tasked func arg mask none elems = elems
tasked func arg mask (some e) elems =
    λ q. if e == q then record { pool_task = some func; arg = arg; mask = mask } else elems q

-- The same for a task that is given to threads on each CPU in turn.
abbrev pub tasked_on : ℕ → ℕ → List ℕ → List (Option ℕ) → (ℕ → PoolElem) → ℕ → PoolElem
tasked_on func arg [] threads elems = elems
tasked_on func arg (cpu ∷ cpus) [] elems = elems
tasked_on func arg (cpu ∷ cpus) (e ∷ threads) elems =
    tasked_on func arg cpus threads (tasked func arg (some cpu) e elems)

module _ (es : ElementStore) (env : es.Store → es.Env) where
  -- What the allocator gives in turn, `none` where it is empty.
  abbrev pub Draws : List (Option ℕ) → es.Store → es.Store → Type 0
  Draws [] s s' = s' ≡ s
  Draws (e ∷ threads) s s'' =
      (s' : es.Store) × (es.alloc (env s) s ≡ some (e, s')) × Draws threads s' s''

  drawn_from :
      (func arg : ℕ) (mask : Option ℕ) (pool : KthreadPool es) (r : Option ℕ × KthreadPool es)
      (o : Option (Option ℕ × es.Store))
      → ((o >>= λ x. some (x.0, record pool { allocator = x.1 })) >>= λ q.
          some (start es func arg mask q))
        ≡ some r
      → o ≡ some (r.0, r.1.allocator)
  drawn_from func arg mask pool r none h = absurd (none-ne-some r h)
  drawn_from func arg mask pool r (some (none, s)) h =
      ap (λ (q : Option ℕ × KthreadPool es). some (q.0, q.1.allocator)) (some-injective _ r h)
  drawn_from func arg mask pool r (some (some e, s)) h =
      ap (λ (q : Option ℕ × KthreadPool es). some (q.0, q.1.allocator)) (some-injective _ r h)

  -- The thread that a start takes is the one that the allocator gives.
  pub pool_run-alloc :
      (func arg : ℕ) (mask : Option ℕ) (pool : KthreadPool es) (r : Option ℕ × KthreadPool es)
      → pool_run es (env pool.allocator) pool func arg mask ≡ some r
      → es.alloc (env pool.allocator) pool.allocator ≡ some (r.0, r.1.allocator)
  unfolding pool_run kthread_pool_alloc
  pool_run-alloc func arg mask pool r h =
      drawn_from func arg mask pool r (es.alloc (env pool.allocator) pool.allocator) h

  tasked_from :
      (func arg : ℕ) (mask : Option ℕ) (pool : KthreadPool es) (r : Option ℕ × KthreadPool es)
      (o : Option (Option ℕ × es.Store))
      → ((o >>= λ x. some (x.0, record pool { allocator = x.1 })) >>= λ q.
          some (start es func arg mask q))
        ≡ some r
      → tasked func arg mask r.0 pool.elems ≡ r.1.elems
  tasked_from func arg mask pool r none h = absurd (none-ne-some r h)
  tasked_from func arg mask pool r (some (none, s)) h =
      subst (λ (q : Option ℕ × KthreadPool es). tasked func arg mask q.0 pool.elems ≡ q.1.elems)
        (some-injective _ r h) refl
  tasked_from func arg mask pool r (some (some e, s)) h =
      subst (λ (q : Option ℕ × KthreadPool es). tasked func arg mask q.0 pool.elems ≡ q.1.elems)
        (some-injective _ r h) refl

  -- The thread that a start takes has the task, on the CPUs of the mask, and no other thread changes.
  pub pool_run-tasked :
      (func arg : ℕ) (mask : Option ℕ) (pool : KthreadPool es) (r : Option ℕ × KthreadPool es)
      → pool_run es (env pool.allocator) pool func arg mask ≡ some r
      → tasked func arg mask r.0 pool.elems ≡ r.1.elems
  unfolding pool_run kthread_pool_alloc
  pool_run-tasked func arg mask pool r h =
      tasked_from func arg mask pool r (es.alloc (env pool.allocator) pool.allocator) h
