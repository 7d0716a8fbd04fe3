-- ===== src/Accept/Loop.antt =====
-- What becomes of the connections that an accept loop takes.
use ktcp_split.Common.{
  ℕ, ◌+◌, ◌≡◌, ◌≢◌, refl, sym, subst, ◌∙◌, true, false, Option, none, some, List, [], ◌∷◌, arith,
  All, length, map, if◌then◌else◌, Bool-cases, Option-cases, inl, inr,
}
use ktcp_split.Common.Int.{is_nonzero}
use ktcp_split.ThreadPool.Store.{ElementStore}
use ktcp_split.ThreadPool.{KthreadPool, pool_run, kthread_pool_run}
use ktcp_split.ThreadPool.Runs.{IsServed, run-IsServed}
use ktcp_split.ThreadPool.Draws.{Draws, noted_all, lost_all, pool_run-alloc}
use ktcp_split.Accept.{Turn, Outcome, waits, left, oops, State, new_qp, lose, handed, accept_loop}

-- The pairs and the sockets that the loop takes before it ends.
abbrev pub offered : List Turn → List (ℕ × ℕ)
offered [] = []
offered (t ∷ ts) =
    let rest = offered ts in
    if is_nonzero t.rc then [] else elim t.qp as (λ _. List (ℕ × ℕ)) [
      | none ↦ []
      | some a ↦ (a, t.nsock) ∷ (if t.stop then [] else rest)
    ]

-- How the loop ends.
abbrev pub loop_end : List Turn → Outcome
loop_end [] = waits
loop_end (t ∷ ts) =
    let rest = loop_end ts in
    if is_nonzero t.rc
    then left t.rc
    else elim t.qp as (λ _. Outcome) [ none ↦ oops | some a ↦ if t.stop then left t.rc else rest ]

abbrev pub addresses : List (ℕ × ℕ) → List ℕ
addresses pairs = map (λ o. o.0) pairs

-- No pair of the list has the address.
abbrev pub Unused : ℕ → List (ℕ × ℕ) → Type 0
Unused a pairs = All (λ (o : ℕ × ℕ). o.0 ≢ a) pairs

-- The addresses differ from each other.
abbrev pub Distinct : List (ℕ × ℕ) → Type 0
Distinct [] = Unit
Distinct (o ∷ pairs) = Unused o.0 pairs × Distinct pairs

module _ (es : ElementStore) where
  open es use {Store, Env, IsValid, Fits}

  module _ (env : Store → Env) (fits : (s : Store) → IsValid s → Fits s (env s)) (func tid : ℕ)
      (listner : Option ℕ) (called : List (ℕ × ℕ × ℕ)) where
    abbrev pub IsServing : State es → Type 0
    IsServing s = IsServed es (record { given = s.given; called = called }) s.pool

    -- The allocator was asked once for each of the pairs, in their order: the thread that it gave is noted
    -- with the pair as its argument, and the pair is lost if it gave none. Each pair has the fields of its
    -- connection; no other pair has changed.
    pub record Offered (pairs : List (ℕ × ℕ)) (s s' : State es) : Type 0 where
      pub threads : List (Option ℕ)
      pub size : length threads ≡ length pairs
      pub drawn : Draws es env threads s.pool.allocator s'.pool.allocator
      pub given : s'.given ≡ noted_all func (addresses pairs) threads s.given
      pub lost : s'.lost ≡ lost_all (addresses pairs) threads s.lost
      pub counts : length s'.given + length s'.lost ≡ length s.given + length s.lost + length pairs
      pub others : (a : ℕ) → Unused a pairs → s'.qps a ≡ s.qps a
      pub fields :
          Distinct pairs
          → All (λ (o : ℕ × ℕ). s'.qps o.0 ≡ new_qp es env func tid listner o.1) pairs

    abbrev pub Looped : Outcome → List (ℕ × ℕ) → State es → Option (Outcome × State es) → Type 0
    Looped outcome pairs s o =
        (s' : State es) × (o ≡ some (outcome, s')) × IsServing s' × Offered pairs s s'

    stays :
        (outcome : Outcome) (s : State es) → IsServing s → Looped outcome [] s (some (outcome, s))
    stays outcome s v = (
      s,
      refl,
      v,
      record {
        threads = [];
        size = refl;
        drawn = refl;
        given = refl;
        lost = refl;
        counts = omega arith;
        others = λ a u. refl;
        fields = λ d. tt;
      },
    )

    handed-counts :
        (a nsock : ℕ) (s : State es) (e : Option ℕ) (pool : KthreadPool es)
        → let s' = handed es env func tid listner a nsock s (e, pool) in
          length s'.given + length s'.lost ≡ length s.given + length s.lost + 1
    handed-counts a nsock s none pool = omega arith
    handed-counts a nsock s (some e) pool = omega arith

    lost-next :
        (a : ℕ) (args : List ℕ) (e : Option ℕ) (threads : List (Option ℕ)) (lost : List ℕ)
        → lost_all args threads (lose es e a lost) ≡ lost_all (a ∷ args) (e ∷ threads) lost
    lost-next a args none threads lost = refl
    lost-next a args (some e) threads lost = refl

    -- One connection, and then the rest of the loop.
    joined :
        (end : Outcome) (a nsock : ℕ) (pairs : List (ℕ × ℕ)) (s : State es)
        (r : Option ℕ × KthreadPool es) (o : Option (Outcome × State es))
        → es.alloc (env s.pool.allocator) s.pool.allocator ≡ some (r.0, r.1.allocator)
        → Looped end pairs (handed es env func tid listner a nsock s r) o
        → Looped end ((a, nsock) ∷ pairs) s o
    joined end a nsock pairs s (e, pool) o given (s', same, serving, h) = (
      s',
      same,
      serving,
      record {
        threads = e ∷ h.threads;
        size = omega (arith, h.size);
        drawn = (pool.allocator, given, h.drawn);
        given = h.given;
        lost = h.lost ∙ lost-next a (addresses pairs) e h.threads s.lost;
        counts = omega (arith, h.counts, handed-counts a nsock s e pool);
        others = λ b u. h.others b u.1 ∙ ground (arith, u.0);
        fields = λ d. (h.others a d.0 ∙ ground arith, h.fields d.1);
      },
    )

    agree :
        (x x' : Outcome) (p p' : List (ℕ × ℕ)) (s : State es) (o o' : Option (Outcome × State es))
        → x ≡ x'
        → p ≡ p'
        → o ≡ o'
        → Looped x' p' s o'
        → Looped x p s o
    agree x x' p p' s o o' d e f h =
        subst (λ q. Looped q p s o) (sym d)
          (subst (λ q. Looped x' q s o) (sym e) (subst (λ q. Looped x' p' s q) (sym f) h))

    module _ (t : Turn) (ts : List Turn) (s : State es) (a : ℕ) (r : Option ℕ × KthreadPool es)
        (e : is_nonzero t.rc ≡ false) (f : t.qp ≡ some a)
        (same : pool_run es (env s.pool.allocator) s.pool func a none ≡ some r) where
      stopped :
          t.stop ≡ true
          → accept_loop es env func tid listner (t ∷ ts) s
            ≡ some (left t.rc, handed es env func tid listner a t.nsock s r)
      unfolding accept_loop kthread_pool_run
      stopped k = rw (e, f, same, k) refl

      onward :
          t.stop ≡ false
          → accept_loop es env func tid listner (t ∷ ts) s
            ≡ accept_loop es env func tid listner ts (handed es env func tid listner a t.nsock s r)
      unfolding accept_loop kthread_pool_run
      onward k = rw (e, f, same, k) refl

    -- In a sound pool whose store finds room, an accept loop never faults, and leaves a sound pool in
    -- which each thread has called the tasks that it was given, but for the one that it has still to
    -- call. It ends as the first turn that ends it says. For each pair that it took from the slab, in order,
    -- the allocator was asked once: the thread that it gave was handed the loop's task with the pair as
    -- its argument, and if it gave none the pair is lost. If the slab gave different addresses, each pair has the socket of its
    -- connection, the tenant and the listener of the loop, and no references; no other pair changes.
    pub accept_loop_lem :
        (ts : List Turn) (s : State es)
        → IsServing s
        → Looped (loop_end ts) (offered ts) s (accept_loop es env func tid listner ts s)
    unfolding accept_loop
    accept_loop_lem [] s v = stays waits s v
    accept_loop_lem (t ∷ ts) s v = elim (Bool-cases (is_nonzero t.rc)) [
      | inl e ↦ rw (e) (stays (left t.rc) s v)
      | inr e ↦ elim (Option-cases t.qp) [
        | inl n ↦ rw (e, n) (stays oops s v)
        | inr f ↦
            let a = f.0 in
            let (r, same, w) =
              run-IsServed es env fits func a none (record { given = s.given; called = called })
                s.pool v in
            let s' = handed es env func tid listner a t.nsock s r in
            let taken = pool_run-alloc es env func a none s.pool r same in
            let run = accept_loop es env func tid listner (t ∷ ts) s in
            elim (Bool-cases t.stop) [
              | inl k ↦
                  agree (loop_end (t ∷ ts)) (left t.rc) (offered (t ∷ ts)) ((a, t.nsock) ∷ []) s run
                    (some (left t.rc, s')) (ground (arith, e, f.1, k)) (ground (arith, e, f.1, k))
                    (stopped t ts s a r e f.1 same k)
                    (joined (left t.rc) a t.nsock [] s r (some (left t.rc, s')) taken
                      (stays (left t.rc) s' w))
              | inr k ↦
                  let rest = accept_loop es env func tid listner ts s' in
                  agree (loop_end (t ∷ ts)) (loop_end ts) (offered (t ∷ ts))
                    ((a, t.nsock) ∷ offered ts) s run rest (ground (arith, e, f.1, k))
                    (ground (arith, e, f.1, k)) (onward t ts s a r e f.1 same k)
                    (joined (loop_end ts) a t.nsock (offered ts) s r rest taken
                      (accept_loop_lem ts s' w))
            ]
      ]
    ]
