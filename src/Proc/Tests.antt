-- ===== src/Proc/Tests.antt =====
-- Writes to the files.
use ktcp_split.Common.{◌≡◌, refl, inr, none, some, [], ◌∷◌, arith}
use ktcp_split.Common.Int.{pos}
use ktcp_split.RbTree.{leaf}
use ktcp_split.RbTree.Plain.{plain_rb}
use ktcp_split.Listner.{rank}
use ktcp_split.Listner.Laws.{IsValid}
use ktcp_split.ThreadPool.Fixture.{es, pool, pool-IsServed, supply}
use ktcp_split.ThreadPool.MagazineStore.{past}
use ktcp_split.Proc.{Values, add_server_cb, cbn_add_server}
use ktcp_split.Proc.Effects.{Host, Performed, perform_lem}

abbrev tenant : Values
tenant = record { count = 2; numbers = pos 7 ∷ pos 5557 ∷ [] }

abbrev host : Host es
host = record {
  pool = pool;
  given = [];
  registry = record {
    tree = leaf;
    info = λ a. record { port = 0; status = 0; sock = none; raw = none };
  };
  ip_transparent = 1;
}

host-IsValid : IsValid host.registry
host-IsValid = omega arith

perform_lem_example :
    Performed es
      (plain_rb rank)
      (λ a. (0, past a))
      supply
      5
      6
      (0 ∷ 1 ∷ [])
      []
      (add_server_cb (pos 7) (pos 5557))
      host
perform_lem_example =
    perform_lem es (plain_rb rank) (λ a. (0, past a)) supply 5 6 (0 ∷ 1 ∷ []) []
      (add_server_cb (pos 7) (pos 5557)) host tt (pool-IsServed, host-IsValid)

-- The command comes from a write of two numbers.
written : cbn_add_server 7 (inr tenant) ≡ (pos 7, some (add_server_cb (pos 7) (pos 5557)))
unfolding cbn_add_server
written = refl
