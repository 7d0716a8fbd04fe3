-- ===== src/ThreadPool/Runs.antt =====
-- Runs of the pool: starts of tasks by the hooks, and rounds of the threads, in any order.
use mathlib.Core.Option
use native.Mathlib.Decide.{ℕ_discrete}
use ktcp_split.Common.{
  ℕ, ◌≡◌, ◌≢◌, refl, sym, ap, subst, ◌∙◌, Option, none, some, List, [], ◌∷◌, ◌++◌, arith, ◌==◌,
  if◌then◌else◌, ◌>>=◌,
}
use ktcp_split.ThreadPool.Store.{ElementStore}
use ktcp_split.ThreadPool.{PoolElem, KthreadPool, pool_run, pipe_loop_round}
use ktcp_split.ThreadPool.Laws.{IsSound, Started, pool_run_lem, pipe_loop_round_lem}

-- A call of __kthread_pool_run, or a round of the thread of an element.
pub data Action : Type 0 where
  run : ℕ → ℕ → Option ℕ → Action
  round : ℕ → Action

-- The tasks that were given to threads and those that threads have called, with their arguments; the
-- latest is the first.
pub record Log : Type 0 where
  pub given : List (ℕ × ℕ × ℕ)
  pub called : List (ℕ × ℕ × ℕ)

abbrev pub noted : ℕ → ℕ → Option ℕ → List (ℕ × ℕ × ℕ) → List (ℕ × ℕ × ℕ)
noted func arg none log = log
noted func arg (some e) log = (e, func, arg) ∷ log

abbrev pub noted_call : ℕ → Option (ℕ × ℕ) → List (ℕ × ℕ × ℕ) → List (ℕ × ℕ × ℕ)
noted_call e none log = log
noted_call e (some call) log = (e, call.0, call.1) ∷ log

-- The call that a round makes.
abbrev pub call_of : PoolElem → Option (ℕ × ℕ)
call_of elem = Option.map (λ f. (f, elem.arg)) elem.pool_task

-- The tasks of one thread.
abbrev pub tasks_of : ℕ → List (ℕ × ℕ × ℕ) → List (ℕ × ℕ)
tasks_of e [] = []
tasks_of e (x ∷ log) = let rest = tasks_of e log in if e == x.0 then (x.1, x.2) ∷ rest else rest

-- The task that a thread has and has not called yet.
abbrev pub waiting : Option ℕ → ℕ → List (ℕ × ℕ)
waiting none arg = []
waiting (some f) arg = (f, arg) ∷ []

abbrev pub pending : PoolElem → List (ℕ × ℕ)
pending elem = waiting elem.pool_task elem.arg

tasks_of-noted_call :
    (x : ℕ) (task : Option ℕ) (arg : ℕ) (called : List (ℕ × ℕ × ℕ))
    → tasks_of x (noted_call x (Option.map (λ f. (f, arg)) task) called)
      ≡ waiting task arg ++ tasks_of x called
tasks_of-noted_call x none arg called = refl
tasks_of-noted_call x (some f) arg called = ground arith

tasks_of-noted_call_other :
    (e x : ℕ) (call : Option (ℕ × ℕ)) (called : List (ℕ × ℕ × ℕ))
    → e ≢ x
    → tasks_of e (noted_call x call called) ≡ tasks_of e called
tasks_of-noted_call_other e x none called h = refl
tasks_of-noted_call_other e x (some call) called h = ground (arith, h)

module _ (es : ElementStore) where
  open es use {Store, Env, IsValid, Fits, held}

  -- The context of a call may depend on the store. A thread that is in the store sleeps.
  unfoldable pub act : (Store → Env) → Action → Log × KthreadPool es → Option (Log × KthreadPool es)
  act env (run func arg mask) (log, pool) = do
    r ← pool_run es (env pool.allocator) pool func arg mask
    some (record log { given = noted func arg r.0 log.given }, r.1)
  act env (round e) (log, pool) =
      if held pool.allocator e == 0
      then (pipe_loop_round es (env pool.allocator) pool e >>= λ r.
          some (record log { called = noted_call e r.0 log.called }, r.1))
      else some (log, pool)

  unfoldable pub acts :
      (Store → Env) → List Action → Log × KthreadPool es → Option (Log × KthreadPool es)
  acts env [] s = some s
  acts env (a ∷ rest) s = act env a s >>= acts env rest

  -- For each thread, the tasks that it was given are those that it called and the one that it has.
  pub record IsServed (log : Log) (pool : KthreadPool es) : Type 0 where
    pub sound : IsSound es pool
    pub tasks : (e : ℕ) → tasks_of e log.given ≡ pending (pool.elems e) ++ tasks_of e log.called

  module _ (env : Store → Env) (fits : (s : Store) → IsValid s → Fits s (env s)) where
    abbrev Acted : Action → Log × KthreadPool es → Type 0
    Acted a s = (s' : Log × KthreadPool es) × (act env a s ≡ some s') × IsServed s'.0 s'.1

    started :
        (func arg : ℕ) (mask : Option ℕ) (log : Log) (pool pool' : KthreadPool es)
        → IsServed log pool
        → (r : Option ℕ) → Started es pool func arg mask r pool'
        → (e : ℕ)
        → tasks_of e (noted func arg r log.given) ≡ pending (pool'.elems e) ++ tasks_of e log.called
    started func arg mask log pool pool' v none h e = ground (arith, v.tasks e, h.1 e)
    started func arg mask log pool pool' v (some x) h e =
        let gone : pending (pool.elems x) ≡ [] = ap (λ t. waiting t (pool.elems x).arg) h.2 in
        let now : pending (pool'.elems x) ≡ (func, arg) ∷ [] = ap pending h.3 in
        elim (ℕ_discrete e x) [
          | yes same ↦
              subst
                (λ q.
                  tasks_of q (noted func arg (some x) log.given)
                  ≡ pending (pool'.elems q) ++ tasks_of q log.called)
                (sym same) (ground (arith, v.tasks x, gone, now))
          | no other ↦ ground (arith, v.tasks e, ap pending (h.4 e other), other)
        ]

    slept :
        (x : ℕ) (log : Log) (pool pool' : KthreadPool es)
        → IsServed log pool
        → (pool'.elems x).pool_task ≡ none
        → ((q : ℕ) → q ≢ x → pool'.elems q ≡ pool.elems q)
        → (e : ℕ)
        → tasks_of e log.given
          ≡ pending (pool'.elems e) ++ tasks_of e (noted_call x (call_of (pool.elems x)) log.called)
    slept x log pool pool' v idle others e =
        let gone : pending (pool'.elems x) ≡ [] = ap (λ t. waiting t (pool'.elems x).arg) idle in
        elim (ℕ_discrete e x) [
          | yes same ↦
              subst
                (λ q.
                  tasks_of q log.given
                  ≡ pending (pool'.elems q)
                    ++ tasks_of q (noted_call x (call_of (pool.elems x)) log.called))
                (sym same)
                (v.tasks x
                  ∙ sym
                      (tasks_of-noted_call x (pool.elems x).pool_task (pool.elems x).arg log.called)
                  ∙ ap (λ u. u ++ tasks_of x (noted_call x (call_of (pool.elems x)) log.called))
                      (sym gone))
          | no other ↦
              v.tasks e
              ∙ ap (λ u. pending u ++ tasks_of e log.called) (sym (others e other))
              ∙ ap (λ u. pending (pool'.elems e) ++ u)
                  (sym (tasks_of-noted_call_other e x (call_of (pool.elems x)) log.called other))
        ]

    pub run-IsServed :
        (func arg : ℕ) (mask : Option ℕ) (log : Log) (pool : KthreadPool es)
        → IsServed log pool
        → (r : Option ℕ × KthreadPool es) × (pool_run es (env pool.allocator) pool func arg mask
            ≡ some r)
          × IsServed (record log { given = noted func arg r.0 log.given }) r.1
    run-IsServed func arg mask log pool v =
        let (r, pool', same, sound, h) =
          pool_run_lem es (env pool.allocator) pool func arg mask v.sound
            (fits pool.allocator v.sound.valid) in
        (
          (r, pool'),
          same,
          record { sound = sound; tasks = started func arg mask log pool pool' v r h },
        )

    pub act-IsServed :
        (a : Action) (log : Log) (pool : KthreadPool es) → IsServed log pool → Acted a (log, pool)
    unfolding act
    act-IsServed (run func arg mask) log pool v =
        let (r, same, w) = run-IsServed func arg mask log pool v in
        ((record log { given = noted func arg r.0 log.given }, r.1), ground (arith, same), w)
    act-IsServed (round e) log pool v = elim (ℕ_discrete (held pool.allocator e) 0) [
      | yes away ↦
          let (pool', same, sound, back, idle, others) =
            pipe_loop_round_lem es (env pool.allocator) pool e v.sound
              (fits pool.allocator v.sound.valid) away in
          (
            (record log { called = noted_call e (call_of (pool.elems e)) log.called }, pool'),
            ground (arith, away, same),
            record { sound = sound; tasks = slept e log pool pool' v idle others },
          )
      | no back ↦ ((log, pool), ground (arith, back), v)
    ]

    -- Over any sequence of starts and of rounds of its threads, a sound pool whose store finds room
    -- does not fault and stays sound. Each thread has called the tasks that it was given, in their
    -- order and with their arguments, each once, but for the last one while it has not called it yet.
    pub acts_lem :
        (actions : List Action) (log : Log) (pool : KthreadPool es)
        → IsServed log pool
        → (s : Log × KthreadPool es) × (acts env actions (log, pool) ≡ some s) × IsServed s.0 s.1
    unfolding acts
    acts_lem [] log pool v = ((log, pool), refl, v)
    acts_lem (a ∷ actions) log pool v =
        let (s, one, w) = act-IsServed a log pool v in
        let (s', rest, u) = acts_lem actions s.0 s.1 w in
        (s', ap (λ o. o >>= acts env actions) one ∙ rest, u)
