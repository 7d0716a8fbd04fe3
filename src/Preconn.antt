-- ===== src/Preconn.antt =====
-- The pools of connections that are opened in advance, one for each next hop and CPU:
-- tcpsplit/preconn_rb_tree.h (init_preconn, search_rb_preconn, add_rb_preconn, get_rb_preconn) and, of
-- tcpsplit/conn_pool.c, prealloc_connection_pool, alloc_prexeisting_conn, add_preconn_qp,
-- fill_preconn_address, build_ip and preconn_write_cb.
-- A tree entry is the key and the address of a `struct cbn_preconnection`; the per-cpu lists stand in
-- `lists`, by address and CPU. `fault` is set when memory is used after it is freed.
pub mod Octets
pub mod Counts
pub mod Runs
pub mod Stacks
pub mod Opened
pub mod View
pub mod Refine
pub mod Given
pub mod Faults
pub mod Others
pub mod Race
pub mod Empty
mod Tests
use ktcp_split.Common.{
  ℕ, ◌+◌, ◌-◌, ◌*◌, ◌^◌, ◌/◌, ◌%◌, Bool, true, false, Option, none, some, List, [], ◌∷◌, ◌++◌, map,
  ltb, ◌==◌, if◌then◌else◌, ◌&&◌, ◌>>=◌, bit_or,
}
use ktcp_split.Common.Int.{ℤ, pos, neg, negsuc, is_nonzero, ltb_ℤ}
use ktcp_split.Common.Words.{u16, u32, sub32, swap16, swap32}
use ktcp_split.RbTree.{Tree, search_rb, RbOps, add_rb}
use ktcp_split.Listner.{Entry, rank, probe_listner}

-- `struct percpu_list`: the addresses of the pairs, and their number.
pub record PercpuList : Type 0 where
  pub list : List ℕ
  pub len : ℕ

pub record Pools : Type 0 where
  pub tree : Tree Entry
  pub lists : ℕ → ℕ → PercpuList
  pub fault : Bool

abbrev pub per_core_pool_min : ℕ
per_core_pool_min = 4

abbrev pub per_core_pool_max : ℕ
per_core_pool_max = 16

abbrev pub preconn_server_port : ℕ
preconn_server_port = 5565

abbrev pub set_list : (ℕ → ℕ → PercpuList) → ℕ → ℕ → PercpuList → ℕ → ℕ → PercpuList
set_list f a c v b d = if (a == b) && (c == d) then v else f b d

abbrev pub clear_lists : (ℕ → ℕ → PercpuList) → ℕ → ℕ → ℕ → PercpuList
clear_lists f a b d = if a == b then record { list = []; len = 0 } else f b d

-- `int32_t result = key - this->key` is the comparison of the listeners.
unfoldable pub search_rb_preconn : Tree Entry → ℕ → Option Entry
search_rb_preconn root key = search_rb (probe_listner key) root

pub add_rb_preconn : RbOps Entry rank → Tree Entry → Entry → Option Entry × Tree Entry
add_rb_preconn rb root d = add_rb rb (probe_listner d.key) d root

abbrev enomem : ℕ
enomem = 12

-- `percpu`: alloc_reserved_percpu had memory for the lists, which are then empty.
pub init_preconn : Bool → Entry → Pools → ℤ × Pools
init_preconn percpu e p =
    if percpu then (pos 0, record p { lists = clear_lists p.lists e.addr }) else (neg enomem, p)

-- Where init_preconn fails, the object is freed, and used all the same.
abbrev pub after_init : Bool → Entry → Pools → Pools
after_init percpu e p =
    let (rc, p') = init_preconn percpu e p in
    if is_nonzero rc then record p' { fault = true } else p'

module _ (rb : RbOps Entry rank) where
  -- A new entry is linked, unless another thread was first.
  abbrev pub linked : Entry → Pools → Option Entry × Pools
  linked e p =
      let (old, tree) = add_rb_preconn rb p.tree e in
      elim old [ none ↦ (some e, record p { tree = tree }) | some o ↦ (none, p) ]

  -- What follows the search. `slab` is the address of the new object, and whether there is memory for
  -- its lists. Other threads may run before the object is linked.
  abbrev pub searched : Option Entry → Option (ℕ × Bool) → ℕ → Pools → Option Entry × Pools
  searched (some e) slab key p = (some e, p)
  searched none none key p = (none, p)
  searched none (some (addr, percpu)) key p =
      let e : Entry = record { key = key; addr = addr } in linked e (after_init percpu e p)

  pub get_rb_preconn : Option (ℕ × Bool) → ℕ → Pools → Option Entry × Pools
  get_rb_preconn slab key p = searched (search_rb_preconn p.tree key) slab key p

  -- `list_add` and the count, for the CPU that runs; false stands for -1.
  pub add_preconn_qp : Option (ℕ × Bool) → ℕ → ℕ → ℕ → Pools → Bool × Pools
  unfolding get_rb_preconn
  add_preconn_qp slab addr_d cpu qp p =
      let (preconn, p') = get_rb_preconn slab addr_d p in
      elim preconn [
        | none ↦ (false, p')
        | some e ↦
            let pcpl = p'.lists e.addr cpu in
            (
              true,
              record p' {
                lists =
                    set_list p'.lists e.addr cpu
                      (record { list = qp ∷ pcpl.list; len = u32 (pcpl.len + 1) });
              },
            )
      ]

-- The head of the list, which leaves it; the refill of the pool is scheduled either way.
abbrev pub popped : Pools → ℕ → ℕ → List ℕ → Option ℕ × Pools
popped p addr cpu [] = (none, p)
popped p addr cpu (qp ∷ rest) = (
  some qp,
  record p {
    lists =
        set_list p.lists addr cpu (record { list = rest; len = sub32 (p.lists addr cpu).len 1 });
  },
)

pub alloc_prexeisting_conn : ℕ → ℕ → Pools → Option ℕ × Pools
alloc_prexeisting_conn ip cpu p = elim (search_rb_preconn p.tree ip) [
  | none ↦ (none, p)
  | some e ↦ popped p e.addr cpu (p.lists e.addr cpu).list
]

abbrev pub repeat : ℕ → ℕ → List ℕ
repeat ℕ.zero x = []
repeat (ℕ.suc n) x = x ∷ repeat n x

-- The CPUs that prealloc_connection is started on, in the order of the starts, given the CPUs that are
-- possible.
pub prealloc_connection_pool : ℕ → List ℕ → Pools → List ℕ
prealloc_connection_pool ip [] p = []
prealloc_connection_pool ip (cpu ∷ cpus) p =
    let rest = prealloc_connection_pool ip cpus p in
    let len : ℕ = elim (search_rb_preconn p.tree ip) [
      | none ↦ 0
      | some e ↦ (p.lists e.addr cpu).len
    ] in
    (if ltb len per_core_pool_max then repeat per_core_pool_min cpu else []) ++ rest

-- The address and the port that a connection in advance is opened to.
abbrev pub fill_preconn_address : ℕ → ℕ × ℕ
fill_preconn_address ip = (ip, swap16 preconn_server_port)

-- `ip << 8 | octet` of 32 bits for the octets that are left; an octet above 255 makes it 0. A negative
-- octet, which passes the test, is or-ed as its bit pattern.
abbrev pub pattern : ℤ → ℕ
pattern (pos n) = n
pattern (negsuc n) = 2 ^ 32 - (n + 1)

pub build_ip : ℕ → List ℤ → ℕ
build_ip ip [] = ip
build_ip ip (octet ∷ octets) =
    let rest = build_ip (bit_or (u32 (ip * 256)) (pattern octet)) octets in
    if ltb_ℤ (pos 255) octet then 0 else rest

abbrev pub every : List ℕ → List ℕ
every [] = []
every (cpu ∷ rest) = repeat per_core_pool_min cpu ++ every rest

-- The address in the order of the network, and the CPUs that a connection is opened on.
unfoldable pub preconn_write_cb : List ℤ → List ℕ → Option (ℕ × List ℕ)
preconn_write_cb array cpus =
    let ip = build_ip 0 array in if ip == 0 then none else some (swap32 ip, every cpus)
