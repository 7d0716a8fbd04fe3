-- ===== src/Qp.antt =====
-- The key of a connection pair: tcpsplit/tcp_split.h (the union in `struct cbn_qp`), qp2cpu and
-- addresses2cpu of tcpsplit/qp.c, and add_rb_data and de_tree_qp of tcpsplit/rb_data_tree.h.
-- Ports and addresses are words as the machine loads them; the machine is little-endian, and `char`
-- is signed, as on x86.
pub mod Compare
pub mod Pairs
pub mod Cpu
mod Tests
use ktcp_split.Common.{
  ℕ, zero, suc, ◌+◌, ◌-◌, ◌*◌, ◌/◌, ◌%◌, ◌^◌, Bool, Option, none, some, List, [], ◌∷◌, ltb, ◌==◌,
  if◌then◌else◌, bit_xor,
}
use ktcp_split.Common.Words.{u32, sub32}
use ktcp_split.RbTree.{Sign, below, same, above, Tree, RbOps, add_rb}

-- The four-tuple of `struct cbn_qp`.
pub record Tuple : Type 0 where
  pub port_s : ℕ
  pub port_d : ℕ
  pub addr_s : ℕ
  pub addr_d : ℕ

-- The fields of `struct addresses`: the two sockets' addresses, the next hop, the tenant.
pub record Addresses : Type 0 where
  pub dest_addr : ℕ
  pub dest_port : ℕ
  pub src_addr : ℕ
  pub src_port : ℕ
  pub sin_addr : ℕ
  pub mark : ℕ

abbrev pub byte : ℕ → ℕ → ℕ
byte w i = w / 256 ^ i % 256

abbrev pub rb_key_length : ℕ
rb_key_length = 12

-- `char key[RB_KEY_LENGTH]`, the bytes that the four fields share the memory with.
abbrev pub qp_key : Tuple → List ℕ
qp_key t =
    byte t.port_s 0
    ∷ byte t.port_s 1
    ∷ byte t.port_d 0
    ∷ byte t.port_d 1
    ∷ byte t.addr_s 0
    ∷ byte t.addr_s 1
    ∷ byte t.addr_s 2
    ∷ byte t.addr_s 3
    ∷ byte t.addr_d 0
    ∷ byte t.addr_d 1
    ∷ byte t.addr_d 2
    ∷ byte t.addr_d 3
    ∷ []

-- `strncmp` of the C library: the sign of the first difference before the end of both strings.
pub strncmp : ℕ → List ℕ → List ℕ → Sign
strncmp zero xs ys = same
strncmp (suc n) [] ys = same
strncmp (suc n) (x ∷ xs) [] = same
strncmp (suc n) (x ∷ xs) (y ∷ ys) =
    let rest = strncmp n xs ys in
    if x == y then (if x == 0 then same else rest) else (if ltb x y then below else above)

-- The bytes up to the first NUL, read as a number of n digits: the order that `strncmp` follows.
pub c_rank : ℕ → List ℕ → ℕ
c_rank zero xs = 0
c_rank (suc n) [] = 0
c_rank (suc n) (x ∷ xs) = let rest = c_rank n xs in if x == 0 then 0 else x * 256 ^ n + rest

-- A node of a pair tree: its key, and the address of its `struct cbn_qp`.
pub record Node : Type 0 where
  pub tuple : Tuple
  pub addr : ℕ

pub probe_qp : Tuple → Node → Sign
probe_qp t this = strncmp rb_key_length (qp_key t) (qp_key this.tuple)

pub qp_rank : Node → ℕ
qp_rank e = c_rank rb_key_length (qp_key e.tuple)

-- The duplicate, or `none` and the tree with the new pair. The lock of the tree makes it one step.
pub add_rb_data : RbOps Node qp_rank → Tree Node → Node → Option Node × Tree Node
add_rb_data rb root d = add_rb rb (probe_qp d.tuple) d root

pub de_tree_qp : RbOps Node qp_rank → Node → Tree Node → Tree Node
de_tree_qp rb node root = rb.erase node root

-- A `char` as an operand of `unsigned int`.
abbrev pub sign_extend : ℕ → ℕ
sign_extend b = if ltb b 128 then b else 2 ^ 32 - 256 + b

pub xor_bytes : ℕ → List ℕ → ℕ
xor_bytes core [] = core
xor_bytes core (b ∷ bs) = xor_bytes (bit_xor core (sign_extend b)) bs

-- The argument stands for num_online_cpus().
pub qp2cpu : ℕ → Tuple → ℕ
qp2cpu online t = let core = xor_bytes 0 (qp_key t) in sub32 core (u32 (core / online * online))

abbrev pub tuple_of : Addresses → Tuple
tuple_of a = record {
  port_s = a.src_port;
  port_d = a.dest_port;
  addr_s = a.src_addr;
  addr_d = a.dest_addr;
}

unfoldable pub addresses2cpu : ℕ → Addresses → ℕ
unfolding qp2cpu
addresses2cpu online a = qp2cpu online (tuple_of a)
