-- ===== src/Qp/Tests.antt =====
-- Runs of the keys of pairs, and their theorems at a web connection.
use ktcp_split.Common.{◌≡◌, refl}
use ktcp_split.RbTree.{Tree, leaf, node, in_order}
use ktcp_split.RbTree.Plain.{plain_rb}
use ktcp_split.RbTree.Lists.{find, insert}
use ktcp_split.Qp.{Tuple, Node, xor_bytes, qp_rank, add_rb_data, qp2cpu}
use ktcp_split.Qp.Pairs.{add_rb_data_lem}

-- 10.0.0.1:4369 to 10.0.0.2:80, in the order of the network.
abbrev web : Tuple
web = record { port_s = 4369; port_d = 20480; addr_s = 16777226; addr_d = 33554442 }

-- 10.0.0.9:4369 to 10.0.0.3:22
abbrev shell : Tuple
shell = record { port_s = 4369; port_d = 5632; addr_s = 150994954; addr_d = 50331658 }

abbrev pending : Tree Node
pending = node leaf (record { tuple = web; addr = 9 }) leaf

abbrev second : Node
second = record {
  tuple = record { port_s = 8755; port_d = 20480; addr_s = 1; addr_d = 2 };
  addr = 3;
}

web_cpu : qp2cpu 4 web ≡ 3
unfolding qp2cpu xor_bytes
web_cpu = refl

add_rb_data_lem_example :
    let (old, root') = add_rb_data (plain_rb qp_rank) pending second in
    (old ≡ find qp_rank (qp_rank second) (in_order pending))
    × (in_order root' ≡ insert qp_rank second (in_order pending))
add_rb_data_lem_example = add_rb_data_lem (plain_rb qp_rank) pending second (tt, tt)
