-- ===== src/Preconn/Runs.antt =====
-- Sequences of operations on the pools, on any CPUs.
use ktcp_split.Common.{ℕ, Bool, Option, List, [], ◌∷◌}
use ktcp_split.RbTree.{RbOps}
use ktcp_split.Listner.{Entry, rank}
use ktcp_split.Preconn.{Pools, add_preconn_qp, alloc_prexeisting_conn}
use ktcp_split.Preconn.Counts.{
  IsCounted, add_preconn_qp-IsCounted, alloc_prexeisting_conn-IsCounted,
}

-- A pair is added for a next hop on a CPU, with what the slab gives, or taken.
pub data Op : Type 0 where
  add : Option (ℕ × Bool) → ℕ → ℕ → ℕ → Op
  take : ℕ → ℕ → Op

module _ (rb : RbOps Entry rank) where
  abbrev pub apply : Op → Pools → Pools
  apply (add slab ip cpu qp) p = (add_preconn_qp rb slab ip cpu qp p).1
  apply (take ip cpu) p = (alloc_prexeisting_conn ip cpu p).1

  unfoldable pub run : List Op → Pools → Pools
  run [] p = p
  run (op ∷ ops) p = run ops (apply op p)

  apply-IsCounted : (op : Op) (p : Pools) → IsCounted p → IsCounted (apply op p)
  apply-IsCounted (add slab ip cpu qp) p v = add_preconn_qp-IsCounted rb slab ip cpu qp p v
  apply-IsCounted (take ip cpu) p v = alloc_prexeisting_conn-IsCounted ip cpu p v

  -- If each count is the length of its list as a 32-bit number, so it is after any sequence of
  -- additions and removals of pairs, for known and new next hops, on any CPUs.
  pub run-IsCounted : (ops : List Op) (p : Pools) → IsCounted p → IsCounted (run ops p)
  unfolding run
  run-IsCounted [] p v = v
  run-IsCounted (op ∷ ops) p v = run-IsCounted ops (apply op p) (apply-IsCounted op p v)
