-- ===== src/Lifecycle/Tests.antt =====
-- The start and the end of the module at a registry with two tenants.
use ktcp_split.Common.{ℕ, ◌*◌, ◌+◌, ◌≡◌, refl, true, none, some, List, [], ◌∷◌, ◌++◌, arith}
use ktcp_split.Common.Int.{pos}
use ktcp_split.RbTree.{leaf, node}
use ktcp_split.RbTree.Plain.{plain_rb, plain_walk}
use ktcp_split.Listner.{Entry, rank, Registry}
use ktcp_split.Listner.Laws.{IsValid}
use ktcp_split.Lifecycle.{
  Call, kmem_cache_create, kmem_cache_free, kmem_cache_destroy, qp_slab, init_kallsyms,
  cbn_datapath_init, cbn_datapath_clean,
}
use ktcp_split.Lifecycle.Monitor.{nothing, call, calls}
use ktcp_split.Lifecycle.Laws.{left, cbn_datapath_clean_lem}

abbrev entry : ℕ → Entry
entry n = record { key = n; addr = 100 * n }

abbrev registry : Registry
registry = record {
  tree = node leaf (entry 2) (node leaf (entry 7) leaf);
  info = λ a. record { port = 5557; status = 6; sock = some a; raw = some (a + 1) };
}

registry-IsValid : IsValid registry
registry-IsValid = omega arith

found : (cbn_datapath_init (init_kallsyms true 16 32 48)).0 ≡ pos 0
unfolding cbn_datapath_init init_kallsyms
found = refl

cbn_datapath_clean_lem_example :
    (done : List Call × Registry) × (cbn_datapath_clean
        (plain_rb rank)
        (plain_walk rank)
        (some 5)
        []
        ((11, 12) ∷ [])
        registry
      ≡ some done)
    × (calls ((cbn_datapath_init (init_kallsyms true 16 32 48)).1 ++ done.0) nothing ≡ some left)
cbn_datapath_clean_lem_example =
    cbn_datapath_clean_lem (plain_rb rank) (plain_walk rank) true 16 32 48 (some 5) []
      ((11, 12) ∷ []) registry registry-IsValid found

-- An object that goes back to a slab that is gone is out of order.
late_free :
    calls
      (kmem_cache_create qp_slab ∷ kmem_cache_destroy qp_slab ∷ kmem_cache_free qp_slab 9 ∷ [])
      nothing
    ≡ none
unfolding calls call
late_free = refl
