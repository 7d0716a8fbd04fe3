-- ===== src/Qp/Pairs.antt =====
-- The trees of the pairs that wait for their other half.
use ktcp_split.Common.{◌≡◌, List, [], ◌∷◌, All}
use ktcp_split.RbTree.{Tree, in_order, RbOps}
use ktcp_split.RbTree.Lists.{IsSorted, find, insert}
use ktcp_split.RbTree.Laws.{add_rb-Links, Agrees}
use ktcp_split.Qp.{Node, qp_rank, probe_qp, add_rb_data}
use ktcp_split.Qp.Compare.{probe_qp-sign_of}

agrees : (d : Node) (es : List Node) → All (Agrees qp_rank (probe_qp d.tuple) (qp_rank d)) es
agrees d [] = tt
agrees d (e ∷ es) = (probe_qp-sign_of d e, agrees d es)

-- Adding a pair to a tree in the order of the ranks returns the pair of the same rank, or nothing when
-- there is none; the pairs are then those before, with the new one in its place when its rank was free.
pub add_rb_data_lem :
    (rb : RbOps Node qp_rank) (root : Tree Node) (d : Node)
    → IsSorted qp_rank (in_order root)
    → let (old, root') = add_rb_data rb root d in
      (old ≡ find qp_rank (qp_rank d) (in_order root))
      × (in_order root' ≡ insert qp_rank d (in_order root))
unfolding add_rb_data
add_rb_data_lem rb root d s = add_rb-Links rb (probe_qp d.tuple) d root (agrees d (in_order root)) s
