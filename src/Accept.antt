-- ===== src/Accept.antt =====
-- The loops that accept connections: that of split_server in tcpsplit/split.c, and
-- prec_conn_listner_server of tcpsplit/conn_pool.c. Each accepted socket gets a pair (`struct cbn_qp`)
-- from the slab and a thread of the pool. The results of the calls of the kernel are arguments.
pub mod Loop
pub mod Servers
pub mod PrecServer
mod Tests
use ktcp_split.Common.{
  ℕ, Bool, true, false, Option, none, some, List, [], ◌∷◌, ◌==◌, if◌then◌else◌, ◌>>=◌,
}
use ktcp_split.Common.Int.{ℤ, is_neg, is_nonzero}
use ktcp_split.Common.Words.{u16}
use ktcp_split.RbTree.{RbOps}
use ktcp_split.Listner.{
  Entry, rank, Registry, ServerCalls, Start, accepting, ended, split_server_start, split_server_end,
}
use ktcp_split.ThreadPool.Store.{ElementStore}
use ktcp_split.ThreadPool.{KthreadPool, kthread_pool_run}
use ktcp_split.ThreadPool.Runs.{noted}

-- The fields of a new pair that the loops set.
pub record Qp : Type 0 where
  pub rx : ℕ
  pub tid : ℕ
  pub listner : Option ℕ
  pub ref_cnt : ℕ

-- One turn: kernel_accept with its socket, kmem_cache_alloc, kthread_should_stop().
pub record Turn : Type 0 where
  pub rc : ℤ
  pub nsock : ℕ
  pub qp : Option ℕ
  pub stop : Bool

-- The loop is in kernel_accept, was left with `rc`, or has written to a NULL pair.
pub data Outcome : Type 0 where
  waits : Outcome
  left : ℤ → Outcome
  oops : Outcome

module _ (es : ElementStore) where
  open es use {Store, Env}

  -- The pool, the pairs by their addresses, and what became of the new pairs: the threads that were
  -- given one, and the pairs that got none.
  pub record State : Type 0 where
    pub pool : KthreadPool es
    pub qps : ℕ → Qp
    pub given : List (ℕ × ℕ × ℕ)
    pub lost : List ℕ

  abbrev pub set_qp : (ℕ → Qp) → ℕ → Qp → ℕ → Qp
  set_qp qps a v b = if a == b then v else qps b

  abbrev pub lose : Option ℕ → ℕ → List ℕ → List ℕ
  lose none a lost = a ∷ lost
  lose (some e) a lost = lost

  module _ (env : Store → Env) (func tid : ℕ) (listner : Option ℕ) where
    abbrev pub new_qp : ℕ → Qp
    new_qp nsock = record { rx = nsock; tid = tid; listner = listner; ref_cnt = 0 }

    -- The result of kthread_pool_run is not tested.
    abbrev pub handed : ℕ → ℕ → State → Option ℕ × KthreadPool es → State
    handed a nsock s (e, pool) = record {
      pool = pool;
      qps = set_qp s.qps a (new_qp nsock);
      given = noted func a e s.given;
      lost = lose e a s.lost;
    }

    unfoldable pub accept_loop : List Turn → State → Option (Outcome × State)
    accept_loop [] s = some (waits, s)
    accept_loop (t ∷ ts) s =
        if is_nonzero t.rc
        then some (left t.rc, s)
        else elim t.qp as (λ _. Option (Outcome × State)) [
          | none ↦ some (oops, s)
          | some a ↦
              (kthread_pool_run es (env s.pool.allocator) s.pool func a >>= λ r.
              (if t.stop
                then some (left t.rc, handed a t.nsock s r)
                else accept_loop ts (handed a t.nsock s r)))
        ]

  abbrev pub released : ℕ → Outcome → Option ℕ
  released sock (left rc) = some sock
  released sock _ = none

  -- What the server of split_server has come to: the outcome, the socket that it released, the
  -- registry. `start_new_connection` is the function that its threads call.
  pub record Ended : Type 0 where
    pub outcome : Outcome
    pub freed : Option ℕ
    pub registry : Registry

  module _ (rb : RbOps Entry rank) (env : Store → Env) (start_new_connection : ℕ) where
    abbrev pub after_loop : Entry → ℕ → Registry → Outcome × State → Ended × State
    after_loop e sock r (left rc, s) =
        let (rc', freed, r') = split_server_end rb rc e sock r in
        (record { outcome = left rc'; freed = freed; registry = r' }, s)
    after_loop e sock r (waits, s) = (record { outcome = waits; freed = none; registry = r }, s)
    after_loop e sock r (oops, s) = (record { outcome = oops; freed = none; registry = r }, s)

    abbrev pub after_start : List Turn → State → Start × Registry → Option (Ended × State)
    after_start ts s (ended rc sock, r) =
        some (record { outcome = left rc; freed = sock; registry = r }, s)
    after_start ts s (accepting e sock, r) =
        accept_loop env start_new_connection e.key (some e.addr) ts s >>= λ o.
        some (after_loop e sock r o)

    -- The whole thread.
    unfoldable pub split_server :
        ServerCalls → ℕ → List Turn → Registry → State → Option (Ended × State)
    split_server c mark_port ts r s = after_start ts s (split_server_start rb c mark_port r)

-- The calls of prec_conn_listner_server, in their order.
pub record PrecCalls : Type 0 where
  pub create : ℤ
  pub sock : ℕ
  pub bind : ℤ
  pub set_mark : ℤ
  pub listen : ℤ

-- What the server for connections opened in advance has come to: the outcome, whether it stands in
-- `pre_conn_listner`, the socket that it released.
pub record PrecEnded : Type 0 where
  pub outcome : Outcome
  pub registered : Bool
  pub freed : Option ℕ

module _ (es : ElementStore) (env : es.Store → es.Env) (start_new_pending_connection : ℕ) where
  abbrev pub prec_failed : ℤ → Option ℕ → State es → Option (PrecEnded × State es)
  prec_failed rc sock s = some (record { outcome = left rc; registered = false; freed = sock }, s)

  abbrev pub prec_loop : ℕ → List Turn → State es → Option (PrecEnded × State es)
  prec_loop sock ts s = accept_loop es env start_new_pending_connection 0 none ts s >>= λ o.
      some (record { outcome = o.0; registered = true; freed = released es sock o.0 }, o.1)

  unfoldable pub prec_conn_listner_server :
      PrecCalls → List Turn → State es → Option (PrecEnded × State es)
  prec_conn_listner_server c ts s =
      if is_nonzero c.create
      then prec_failed c.create none s
      else (if is_nonzero c.bind
          then prec_failed c.bind (some c.sock) s
          else (if is_neg c.set_mark
              then prec_failed c.set_mark (some c.sock) s
              else (if is_nonzero c.listen
                  then prec_failed c.listen (some c.sock) s
                  else prec_loop c.sock ts s)))
