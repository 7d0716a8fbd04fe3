-- ===== src/ThreadPool/Fixture.antt =====
-- A pool of threads over the magazines of two CPUs, for the tests.
use ktcp_split.Common.{◌+◌, refl, none, [], ◌∷◌, arith}
use ktcp_split.Magazine.{MagAllocator}
use ktcp_split.ThreadPool.{KthreadPool}
use ktcp_split.ThreadPool.Store.{ElementStore}
use ktcp_split.ThreadPool.MagazineStore.{IsReady, magazine_store, past, HasRoom-past}
use ktcp_split.ThreadPool.Runs.{IsServed}

abbrev pub es : ElementStore
es = magazine_store 2

-- One idle thread, 700.
abbrev pub allocator : MagAllocator
allocator = record {
  memory = λ p i. 700 + i;
  depot = record { full_list = []; empty_list = []; full_count = 0; empty_count = 0 };
  pairs =
      record { mag0 = 64; mag1 = 112; count0 = 1; count1 = 0 }
      ∷ record { mag0 = 256; mag1 = 304; count0 = 0; count1 = 0 }
      ∷ [];
}

abbrev pub pool : KthreadPool es
pool = record {
  top_count = 1;
  pool_size = 3;
  allocator = allocator;
  elems = λ e. record { pool_task = none; arg = 0; mask = none };
}

pub pool-IsServed : IsServed es (record { given = []; called = [] }) pool
pool-IsServed = record {
  sound = record {
    valid = (ground arith, omega arith);
    single = λ e. ground arith;
    idle = λ e h. refl;
  };
  tasks = λ e. refl;
}

pub supply : (a : MagAllocator) → IsReady 2 a → (magazine_store 2).Fits a (0, past a)
supply a v = HasRoom-past 2 a (omega arith)
