-- ===== src/Accept/Tests.antt =====
-- Runs of the accept loops, with one idle thread in the pool.
use ktcp_split.Common.{
  ◌+◌, ◌≡◌, refl, true, false, not, ◌&&◌, none, some, List, [], ◌∷◌, arith, if◌then◌else◌,
}
use ktcp_split.Common.Int.{pos, negsuc, is_neg, is_nonzero}
use ktcp_split.RbTree.{leaf}
use ktcp_split.RbTree.Plain.{plain_rb}
use ktcp_split.Magazine.{MagAllocator}
use ktcp_split.Listner.{rank, Registry, ServerCalls, add_server_cb}
use ktcp_split.Listner.Laws.{IsValid}
use ktcp_split.ThreadPool.{KthreadPool}
use ktcp_split.ThreadPool.Store.{ElementStore}
use ktcp_split.ThreadPool.MagazineStore.{IsReady, magazine_store, past, HasRoom-past}
use ktcp_split.ThreadPool.Runs.{IsServed}
use ktcp_split.Accept.{
  Turn, State, accept_loop, split_server, PrecCalls, PrecEnded, prec_conn_listner_server, released,
}
use ktcp_split.Accept.Loop.{loop_end, offered, Looped, accept_loop_lem}
use ktcp_split.Accept.Servers.{Ran, split_server_lem}
use ktcp_split.Accept.PrecServer.{prec_conn_listner_server_lem}

abbrev es : ElementStore
es = magazine_store 2

-- One idle thread, 700.
abbrev allocator : MagAllocator
allocator = record {
  memory = λ p i. 700 + i;
  depot = record { full_list = []; empty_list = []; full_count = 0; empty_count = 0 };
  pairs =
      record { mag0 = 64; mag1 = 112; count0 = 1; count1 = 0 }
      ∷ record { mag0 = 256; mag1 = 304; count0 = 0; count1 = 0 }
      ∷ [];
}

abbrev pool : KthreadPool es
pool = record {
  top_count = 1;
  pool_size = 3;
  allocator = allocator;
  elems = λ e. record { pool_task = none; arg = 0; mask = none };
}

abbrev state : State es
state = record {
  pool = pool;
  qps = λ a. record { rx = 0; tid = 0; listner = none; ref_cnt = 0 };
  given = [];
  lost = [];
}

pool-IsServed : IsServed es (record { given = []; called = [] }) pool
pool-IsServed = record {
  sound = record {
    valid = (ground arith, omega arith);
    single = λ e. ground arith;
    idle = λ e h. refl;
  };
  tasks = λ e. refl;
}

supply : (a : MagAllocator) → IsReady 2 a → (magazine_store 2).Fits a (0, past a)
supply a v = HasRoom-past 2 a (omega arith)

-- Two connections, of which the second finds no thread, and a failed accept.
abbrev turns : List Turn
turns =
    record { rc = pos 0; nsock = 41; qp = some 5000; stop = false }
    ∷ record { rc = pos 0; nsock = 42; qp = some 6000; stop = false }
    ∷ record { rc = negsuc 21; nsock = 0; qp = none; stop = false }
    ∷ []

accept_loop_lem_example :
    Looped es
      (λ a. (0, past a))
      supply
      5
      7
      (some 300)
      []
      (loop_end turns)
      (offered turns)
      state
      (accept_loop es (λ a. (0, past a)) 5 7 (some 300) turns state)
accept_loop_lem_example =
    accept_loop_lem es (λ a. (0, past a)) supply 5 7 (some 300) [] turns state pool-IsServed

abbrev calls : ServerCalls
calls = record {
  slab = some 300;
  roots = true;
  lists = true;
  create = pos 0;
  sock = 31;
  set_mark = pos 0;
  bind = pos 0;
  listen = pos 0;
  probe = some 32;
}

abbrev registry : Registry
registry = record {
  tree = leaf;
  info = λ a. record { port = 0; status = 0; sock = none; raw = none };
}

registry-IsValid : IsValid registry
registry-IsValid = omega arith

split_server_lem_example :
    Ran es
      (plain_rb rank)
      calls
      5557
      2
      registry
      (λ a. (0, past a))
      5
      (omega arith)
      supply
      []
      turns
      (split_server es
        (plain_rb rank)
        (λ a. (0, past a))
        5
        calls
        (add_server_cb 2 5557)
        turns
        registry
        state)
split_server_lem_example =
    split_server_lem es (plain_rb rank) calls 5557 2 registry (λ a. (0, past a)) 5 (omega arith)
      supply [] turns state registry-IsValid (omega arith) pool-IsServed

abbrev prec_calls : PrecCalls
prec_calls = record { create = pos 0; sock = 31; bind = pos 0; set_mark = pos 0; listen = pos 0 }

prec_conn_listner_server_lem_example :
    (x : PrecEnded) × (s : State es) × (prec_conn_listner_server es
        (λ a. (0, past a))
        6
        prec_calls
        turns
        state
      ≡ some (x, s))
    × IsServed es (record { given = s.given; called = [] }) s.pool
    × (x.registered ≡ (
        not (is_nonzero prec_calls.create)
        && not (is_nonzero prec_calls.bind)
        && not (is_neg prec_calls.set_mark)
        && not (is_nonzero prec_calls.listen)))
    × (x.freed
        ≡ (if is_nonzero prec_calls.create then none else released es prec_calls.sock x.outcome))
prec_conn_listner_server_lem_example =
    prec_conn_listner_server_lem es (λ a. (0, past a)) supply 6 prec_calls turns state pool-IsServed
