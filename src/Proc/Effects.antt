-- ===== src/Proc/Effects.antt =====
-- What a command that was written to a file does to the servers, the pool of threads and the flag.
use ktcp_split.Common.{
  ℕ, ◌^◌, ◌<◌, ◌≡◌, refl, sym, ap, ◌∙◌, Option, none, some, List, [], ◌∷◌, map, arith, length,
  ◌>>=◌, ◌==◌, if◌then◌else◌,
}
use ktcp_split.RbTree.{RbOps}
use ktcp_split.Listner.{Entry, rank, Registry}
use ktcp_split.Listner
use ktcp_split.Listner.Laws.{IsValid, serves, del_server_cb_lem}
use ktcp_split.Preconn.{pattern}
use ktcp_split.Preconn
use ktcp_split.ThreadPool.Store.{ElementStore}
use ktcp_split.ThreadPool.{KthreadPool, kthread_pool_run, kthread_pool_run_cpu}
use ktcp_split.ThreadPool.Runs.{noted, IsServed, run-IsServed}
use ktcp_split.ThreadPool.Draws.{
  Draws, noted_all, tasked, tasked_on, pool_run-alloc, pool_run-tasked,
}
use ktcp_split.Proc.{Command, add_server_cb, del_server_cb, preconn_write_cb, set_transparent}

module _ (es : ElementStore) where
  open es use {Store, Env}

  -- The pool, with the tasks that it was given, the registry, and `ip_transparent`.
  pub record Host : Type 0 where
    pub pool : KthreadPool es
    pub given : List (ℕ × ℕ × ℕ)
    pub registry : Registry
    pub ip_transparent : ℕ

  -- `split_server` and `prealloc_connection` stand for the functions of the tasks, and `cpus` for the
  -- CPUs that are possible.
  module _ (rb : RbOps Entry rank) (env : Store → Env) (split_server prealloc_connection : ℕ)
      (cpus : List ℕ) where
    abbrev started : ℕ → ℕ → Host → Option ℕ × KthreadPool es → Host
    started func arg h (e, pool) = record h { pool = pool; given = noted func arg e h.given }

    -- One connection is opened on each CPU of the list.
    unfoldable pub open_connections : ℕ → List ℕ → Host → Option Host
    open_connections ip [] h = some h
    open_connections ip (cpu ∷ rest) h =
        kthread_pool_run_cpu es (env h.pool.allocator) h.pool prealloc_connection ip cpu >>= λ r.
        open_connections ip rest (started prealloc_connection ip h r)

    abbrev connected : Option (ℕ × List ℕ) → Host → Option Host
    connected none h = some h
    connected (some (ip, on)) h = open_connections ip on h

    unfoldable pub perform : Command → Host → Option Host
    perform (add_server_cb tid port) h =
        let arg = Listner.add_server_cb (pattern tid) (pattern port) in
        kthread_pool_run es (env h.pool.allocator) h.pool split_server arg >>= λ r.
        some (started split_server arg h r)
    perform (del_server_cb tid) h =
        some (record h { registry = (Listner.del_server_cb rb (pattern tid) h.registry).1 })
    perform (preconn_write_cb octets) h = connected (Preconn.preconn_write_cb octets cpus) h
    perform (set_transparent b) h = some (record h { ip_transparent = b })

  module _ (rb : RbOps Entry rank) (env : Store → Env)
      (fits : (s : Store) → es.IsValid s → es.Fits s (env s)) (split_server prealloc_connection : ℕ)
      (cpus : List ℕ) (called : List (ℕ × ℕ × ℕ)) where
    abbrev pub IsRunning : Host → Type 0
    IsRunning h =
        IsServed es (record { given = h.given; called = called }) h.pool × IsValid h.registry

    -- The allocator is asked once for each CPU of the list; each thread that it gives is noted with the
    -- address as the argument of prealloc_connection.
    abbrev pub Opened : ℕ → List ℕ → Host → Host → Type 0
    Opened ip on h h' =
        (threads : List (Option ℕ)) × (length threads ≡ length on)
        × Draws es env threads h.pool.allocator h'.pool.allocator
        × (h'.given ≡ noted_all prealloc_connection (map (λ _. ip) on) threads h.given)
        × (h'.pool.elems ≡ tasked_on prealloc_connection ip on threads h.pool.elems)
        × (h'.registry ≡ h.registry)
        × (h'.ip_transparent ≡ h.ip_transparent)

    Opened-started :
        (ip cpu : ℕ) (on : List ℕ) (h h' : Host) (e : Option ℕ) (pool : KthreadPool es)
        → es.alloc (env h.pool.allocator) h.pool.allocator ≡ some (e, pool.allocator)
        → tasked prealloc_connection ip (some cpu) e h.pool.elems ≡ pool.elems
        → Opened ip on
            (started rb env split_server prealloc_connection cpus prealloc_connection ip h
              (e, pool))
            h'
        → Opened ip (cpu ∷ on) h h'
    Opened-started ip cpu on h h' e pool taken task
          (threads, size, drawn, given, elems, registry, flag) =
        (
          e ∷ threads,
          omega (arith, size),
          (pool.allocator, taken, drawn),
          given,
          elems ∙ ap (tasked_on prealloc_connection ip on threads) (sym task),
          registry,
          flag,
        )

    open_connections_lem :
        (ip : ℕ) (on : List ℕ) (h : Host)
        → IsRunning h
        → (h' : Host) × (open_connections rb env split_server prealloc_connection cpus ip on h
            ≡ some h')
          × IsRunning h'
          × Opened ip on h h'
    unfolding open_connections kthread_pool_run_cpu
    open_connections_lem ip [] h v = (h, refl, v, ([], refl, refl, refl, refl, refl, refl))
    open_connections_lem ip (cpu ∷ on) h v =
        let (r, same, w) =
          run-IsServed es env fits prealloc_connection ip (some cpu)
            (record { given = h.given; called = called }) h.pool v.0 in
        let h1 = started rb env split_server prealloc_connection cpus prealloc_connection ip h r in
        let (h', rest, running, opened) = open_connections_lem ip on h1 (w, v.1) in
        (
          h',
          ap
                (λ o. o >>= λ q.
                  open_connections rb env split_server prealloc_connection cpus ip on (
                    started rb env split_server prealloc_connection cpus prealloc_connection ip h
                      q))
                same
              ∙ rest,
          running,
          Opened-started ip cpu on h h' r.0 r.1
              (pool_run-alloc es env prealloc_connection ip (some cpu) h.pool r same)
              (pool_run-tasked es env prealloc_connection ip (some cpu) h.pool r same) opened,
        )

    abbrev pub Wanted : Option (ℕ × List ℕ) → Host → Host → Type 0
    Wanted none h h' = h' ≡ h
    Wanted (some (ip, on)) h h' = Opened ip on h h'

    connected_lem :
        (o : Option (ℕ × List ℕ)) (h : Host)
        → IsRunning h
        → (h' : Host) × (connected rb env split_server prealloc_connection cpus o h ≡ some h')
          × IsRunning h'
          × Wanted o h h'
    connected_lem none h v = (h, refl, v, refl)
    connected_lem (some (ip, on)) h v = open_connections_lem ip on h v

    -- What each command does.
    abbrev pub Effect : Command → Host → Host → Type 0
    Effect (add_server_cb tid port) h h' =
        ((e : Option ℕ) × (es.alloc (env h.pool.allocator) h.pool.allocator
            ≡ some (e, h'.pool.allocator))
          × (h'.given
              ≡ noted split_server (Listner.add_server_cb (pattern tid) (pattern port)) e h.given)
          × (h'.pool.elems
              ≡ tasked split_server (Listner.add_server_cb (pattern tid) (pattern port)) none e
                  h.pool.elems))
        × (h'.registry ≡ h.registry)
        × (h'.ip_transparent ≡ h.ip_transparent)
    Effect (del_server_cb tid) h h' =
        ((key : ℕ)
          → key < 2 ^ 31
          → serves h'.registry key ≡ (if pattern tid == key then none else serves h.registry key))
        × (h'.given ≡ h.given)
    Effect (preconn_write_cb octets) h h' = Wanted (Preconn.preconn_write_cb octets cpus) h h'
    Effect (set_transparent b) h h' = h' ≡ record h { ip_transparent = b }

    -- The id of a tenant whose server is stopped is not negative.
    abbrev pub InRange : Command → Type 0
    InRange (del_server_cb tid) = pattern tid < 2 ^ 31
    InRange c = Unit

    abbrev pub Performed : Command → Host → Type 0
    Performed c h =
        (h' : Host) × (perform rb env split_server prealloc_connection cpus c h ≡ some h')
        × IsRunning h'
        × Effect c h h'

    -- In a sound pool whose store finds room and a valid registry, every command ends without a fault and
    -- keeps both so. The start of a server hands split_server, with both numbers as its argument, to the
    -- thread that the allocator gives, on any CPU, or to none if it gives none. The stop of a server with an id that
    -- is not negative removes that tenant alone. An address asks the allocator once for each connection
    -- that is wanted, one call after another, and hands prealloc_connection, with the address, to each
    -- thread that it gives, on the CPU of that connection; a wrong address does nothing. The flag is set and nothing else.
    pub perform_lem : (c : Command) (h : Host) → InRange c → IsRunning h → Performed c h
    unfolding perform kthread_pool_run
    perform_lem (add_server_cb tid port) h i v =
        let arg = Listner.add_server_cb (pattern tid) (pattern port) in
        let (r, same, w) =
          run-IsServed es env fits split_server arg none
            (record { given = h.given; called = called }) h.pool v.0 in
        (
          started rb env split_server prealloc_connection cpus split_server arg h r,
          ground (arith, same),
          (w, v.1),
          (
            (
              r.0,
              pool_run-alloc es env split_server arg none h.pool r same,
              refl,
              sym (pool_run-tasked es env split_server arg none h.pool r same),
            ),
            refl,
            refl,
          ),
        )
    perform_lem (del_server_cb tid) h i v =
        let (valid, served, shut) = del_server_cb_lem rb h.registry v.1 (pattern tid) i in
        (
          record h { registry = (Listner.del_server_cb rb (pattern tid) h.registry).1 },
          refl,
          (v.0, valid),
          (served, refl),
        )
    perform_lem (preconn_write_cb octets) h i v =
        connected_lem (Preconn.preconn_write_cb octets cpus) h v
    perform_lem (set_transparent b) h i v = (record h { ip_transparent = b }, refl, v, refl)
