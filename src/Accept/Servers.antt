-- ===== src/Accept/Servers.antt =====
-- The whole run of a server: its start, its accept loop and its end. The registry is taken to stay as
-- it is while the server is in its loop.
use native.Mathlib.Decide.{ℕ_discrete}
use ktcp_split.Common.{
  ℕ, ◌^◌, ◌<◌, ◌≡◌, refl, sym, subst, ap, ◌∙◌, ◌⊎◌, inl, inr, true, false, Option, none, some, List,
  arith, if◌then◌else◌, ◌>>=◌, ◌==◌, Bool-cases,
}
use ktcp_split.Common.Int.{ℤ, is_nonzero}
use ktcp_split.RbTree.{RbOps}
use ktcp_split.Listner.{
  Entry, Info, rank, Registry, ServerCalls, Start, accepting, ended, add_server_cb,
  split_server_start, split_server_end, remove_listner_server,
}
use ktcp_split.Listner.Laws.{IsValid, serves, serves-deleted}
use ktcp_split.Listner.Starts.{Started, split_server_start_lem, opens}
use ktcp_split.ThreadPool.Store.{ElementStore}
use ktcp_split.ThreadPool.Runs.{IsServed}
use ktcp_split.Accept.{
  Turn, Outcome, waits, left, oops, State, Ended, after_loop, after_start, split_server,
}
use ktcp_split.Accept.Loop.{loop_end, accept_loop_lem}

module _ (es : ElementStore) (rb : RbOps Entry rank) (c : ServerCalls) (port mark : ℕ)
    (r : Registry) where
  -- The tenant has this server, on the socket that it opened, and the others have what they had.
  abbrev pub Serving : Entry → Registry → Type 0
  Serving e r' =
      (serves r mark ≡ none)
      × ((r'.info e.addr).sock ≡ some c.sock)
      × ((key : ℕ) → key < 2 ^ 31 → serves r' key ≡ (if mark == key then some e else serves r key))

  abbrev pub Unchanged : Registry → Type 0
  Unchanged r' = (key : ℕ) → key < 2 ^ 31 → serves r' key ≡ serves r key

  abbrev began : Start
  began = (split_server_start rb c (add_server_cb mark port) r).0

  -- How a server stands, given how its start and its accept loop ended: it accepts, or faults on a NULL
  -- pair; it was refused at its start and has released the socket that it had opened; it was stopped,
  -- which leaves the loop with 0, and is gone with its socket; or a failed accept has ended it, which
  -- releases the socket that the tenant's entry still names.
  pub data Stands (ts : List Turn) : Ended es → Type 0 where
    runs :
        (x : Ended es) (e : Entry) (sock : ℕ)
        → began ≡ accepting e sock
        → (loop_end ts ≡ waits) ⊎ (loop_end ts ≡ oops)
        → x.outcome ≡ loop_end ts
        → x.freed ≡ none
        → Serving e x.registry
        → Stands ts x
    refused :
        (x : Ended es) (rc : ℤ) (sock : Option ℕ)
        → began ≡ ended rc sock
        → x.outcome ≡ left rc
        → x.freed ≡ (if opens rb c port (serves r mark) then some c.sock else none)
        → Unchanged x.registry
        → Stands ts x
    stopped :
        (x : Ended es) (rc : ℤ) (e : Entry) (sock : ℕ)
        → began ≡ accepting e sock
        → loop_end ts ≡ left rc
        → is_nonzero rc ≡ false
        → x.outcome ≡ left rc
        → x.freed ≡ some c.sock
        → Unchanged x.registry
        → Stands ts x
    dangling :
        (x : Ended es) (rc : ℤ) (e : Entry) (sock : ℕ)
        → began ≡ accepting e sock
        → loop_end ts ≡ left rc
        → is_nonzero rc ≡ true
        → x.outcome ≡ left rc
        → x.freed ≡ some c.sock
        → Serving e x.registry
        → Stands ts x

  removed :
      mark < 2 ^ 31
      → (e : Entry) (r' r'' : Registry) → IsValid r'
      → Serving e r'
      → r''.tree ≡ rb.erase e r'.tree
      → Unchanged r''
  removed small e r' r'' v h t key k =
      let here : serves r' mark ≡ some e = ground (arith, h.2 mark small) in
      let gone = serves-deleted rb r' v mark small e r'' key here t k in
      elim (ℕ_discrete mark key) [
        | yes same ↦ ground (arith, gone, same, h.0, ap (serves r) same)
        | no other ↦ ground (arith, gone, other, h.2 key k)
      ]

  module _ (env : es.Store → es.Env) (func : ℕ) (small : mark < 2 ^ 31) where
    kept :
        (e : Entry) (rc : ℤ) (r' : Registry)
        → is_nonzero rc ≡ true
        → (split_server_end rb rc e c.sock r').2 ≡ r'
    unfolding split_server_end
    kept e rc r' n = ground (arith, n)

    module _ (ts : List Turn) (e : Entry) (sock : ℕ) (b : began ≡ accepting e sock) where
      ends :
          (rc : ℤ) (r' : Registry) (s : State es)
          → loop_end ts ≡ left rc
          → IsValid r'
          → Serving e r'
          → Stands ts (after_loop es rb env func e c.sock r' (left rc, s)).0
      unfolding split_server_end remove_listner_server
      ends rc r' s over v h =
          let (x, s') = after_loop es rb env func e c.sock r' (left rc, s) in
          elim (Bool-cases (is_nonzero rc)) [
            | inl n ↦
                dangling x rc e sock b over n (ground (arith, n)) (ground (arith, n))
                  (subst (Serving e) (sym (kept e rc r' n)) h)
            | inr n ↦
                stopped x rc e sock b over n (ground (arith, n)) (ground (arith, n))
                  (removed small e r' x.registry v h (ground (arith, n)))
          ]

      after_loop-Stands :
          (o : Outcome) (r' : Registry) (s : State es)
          → loop_end ts ≡ o
          → IsValid r'
          → Serving e r'
          → Stands ts (after_loop es rb env func e c.sock r' (o, s)).0
      after_loop-Stands (left rc) r' s over v h = ends rc r' s over v h
      after_loop-Stands waits r' s over v h = runs _ e sock b (inl over) (sym over) refl h
      after_loop-Stands oops r' s over v h = runs _ e sock b (inr over) (sym over) refl h

    after_loop-state :
        (e : Entry) (o : Outcome) (sock : ℕ) (r' : Registry) (s : State es)
        → (after_loop es rb env func e sock r' (o, s)).1 ≡ s
    after_loop-state e (left rc) sock r' s = refl
    after_loop-state e waits sock r' s = refl
    after_loop-state e oops sock r' s = refl

    module _ (fits : (q : es.Store) → es.IsValid q → es.Fits q (env q))
        (called : List (ℕ × ℕ × ℕ)) where
      abbrev pub Ran : List Turn → Option (Ended es × State es) → Type 0
      Ran ts o =
          (x : Ended es) × (s : State es) × (o ≡ some (x, s))
          × IsServed es (record { given = s.given; called = called }) s.pool
          × Stands ts x

      started :
          (ts : List Turn) (s : State es) (start : Start) (r' : Registry)
          → IsServed es (record { given = s.given; called = called }) s.pool
          → began ≡ start
          → Started rb c port mark r (start, r')
          → Ran ts (after_start es rb env func ts s (start, r'))
      started ts s (ended rc sock) r' v b h = (
        record { outcome = left rc; freed = sock; registry = r' },
        s,
        refl,
        v,
        refused _ rc sock b refl h.2 h.1,
      )
      started ts s (accepting e sock) r' v b h =
          let o = loop_end ts in
          let (s', same, w, _) =
            accept_loop_lem es env fits func e.key (some e.addr) called ts s v in
          let (x, _) = after_loop es rb env func e sock r' (o, s') in
          (
            x,
            s',
            ap (λ q. q >>= λ z. some (after_loop es rb env func e sock r' z)) same
                ∙ ap (λ z. some (x, z)) (after_loop-state e o sock r' s'),
            w,
            subst (λ k. Stands ts (after_loop es rb env func e k r' (o, s')).0) (sym h.4)
                (after_loop-Stands ts e sock b o r' s' refl h.0
                  (h.1, ap (λ (i : Info). i.sock) h.5, h.3)),
          )

      -- In a valid registry and a sound pool whose store finds room, split_server for a tenant id below
      -- 2 ^ 31 and a 32-bit port does not fault, and leaves a sound pool. If its start is refused, the
      -- tenants are as before, and its socket is released if one was opened. Otherwise the end of the
      -- accept loop decides: while it accepts, or stands at a NULL pair, only its tenant has changed; left
      -- with 0, which is a stop, the tenants are as before and its socket is released; left by a failed
      -- accept, its socket is released and the tenant's entry, which still names that socket, stays in
      -- the registry.
      pub split_server_lem :
          (ts : List Turn) (s : State es)
          → IsValid r
          → port < 2 ^ 32
          → IsServed es (record { given = s.given; called = called }) s.pool
          → Ran ts (split_server es rb env func c (add_server_cb mark port) ts r s)
      unfolding split_server
      split_server_lem ts s v p w =
          let (start, r') = split_server_start rb c (add_server_cb mark port) r in
          started ts s start r' w refl (split_server_start_lem rb c port mark r v small p)
