-- ===== src/Connect/NextHop.antt =====
-- What a proxy tells the next one over a connection that was opened in advance: forward_conn_info and
-- preconn_wait_for_next_hop of tcpsplit/conn_pool.c. A `struct addresses` is its bytes, of a
-- little-endian machine; the family and the padding of its two socket addresses have no value that counts.
use ktcp_split.Common.{
  ℕ, ◌+◌, ◌*◌, ◌^◌, ◌<◌, ◌≡◌, Option, none, some, List, [], ◌∷◌, ◌++◌, arith, length, take,
}
use ktcp_split.Common.Int.{ℤ, pos, negsuc}
use ktcp_split.Qp.{Addresses, byte}

-- `sizeof(struct addresses)`
abbrev pub sizeof_addresses : ℕ
sizeof_addresses = 40

abbrev two : ℕ → List ℕ → List ℕ
two w rest = byte w 0 ∷ byte w 1 ∷ rest

abbrev four : ℕ → List ℕ → List ℕ
four w rest = byte w 0 ∷ byte w 1 ∷ byte w 2 ∷ byte w 3 ∷ rest

-- The ten bytes that the code does not set: `sin_family` and `sin_zero`.
pub record Padding : Type 0 where
  pub family : ℕ
  pub zero_lo : ℕ
  pub zero_hi : ℕ

abbrev sockaddr_in : Padding → ℕ → ℕ → List ℕ → List ℕ
sockaddr_in pad port addr rest =
    two pad.family (two port (four addr (four pad.zero_lo (four pad.zero_hi rest))))

abbrev pub layout : Padding → Padding → Addresses → List ℕ
layout d s a =
    sockaddr_in d a.dest_port a.dest_addr
      (sockaddr_in s a.src_port a.src_addr (four a.sin_addr (four a.mark [])))

-- The result of kernel_sendmsg, and what it puts on the connection.
unfoldable pub forward_conn_info : ℤ → List ℕ → ℤ × List ℕ
forward_conn_info (pos sent) bytes = (pos sent, take sent bytes)
forward_conn_info (negsuc e) bytes = (negsuc e, [])

abbrev u16_of : ℕ → ℕ → ℕ
u16_of a b = a + 256 * b

abbrev u32_of : ℕ → ℕ → ℕ → ℕ → ℕ
u32_of a b c d = a + 256 * (b + 256 * (c + 256 * d))

-- With MSG_WAITALL: the result, the `struct addresses` if all of it came, and what follows on the
-- connection. A connection that ends early gives fewer bytes.
unfoldable pub preconn_wait_for_next_hop : List ℕ → ℤ × Option Addresses × List ℕ
preconn_wait_for_next_hop
      (f0 ∷ f1 ∷ p0 ∷ p1 ∷ a0 ∷ a1 ∷ a2 ∷ a3 ∷ z0 ∷ z1 ∷ z2 ∷ z3 ∷ z4 ∷ z5 ∷ z6 ∷ z7 ∷ g0 ∷ g1 ∷ q0
        ∷ q1 ∷ b0 ∷ b1 ∷ b2 ∷ b3 ∷ y0 ∷ y1 ∷ y2 ∷ y3 ∷ y4 ∷ y5 ∷ y6 ∷ y7 ∷ n0 ∷ n1 ∷ n2 ∷ n3 ∷ m0
        ∷ m1 ∷ m2 ∷ m3 ∷ rest) =
    (
      pos sizeof_addresses,
      some (record {
        dest_addr = u32_of a0 a1 a2 a3;
        dest_port = u16_of p0 p1;
        src_addr = u32_of b0 b1 b2 b3;
        src_port = u16_of q0 q1;
        sin_addr = u32_of n0 n1 n2 n3;
        mark = u32_of m0 m1 m2 m3;
      }),
      rest,
    )
preconn_wait_for_next_hop bytes = (pos (length bytes), none, [])

u16-bytes : (w : ℕ) → w < 2 ^ 16 → u16_of (byte w 0) (byte w 1) ≡ w
u16-bytes w h = omega arith

u32-bytes : (w : ℕ) → w < 2 ^ 32 → u32_of (byte w 0) (byte w 1) (byte w 2) (byte w 3) ≡ w
u32-bytes w h = omega arith

-- The fields are within their types.
pub record IsTyped (a : Addresses) : Type 0 where
  pub dest_port : a.dest_port < 2 ^ 16
  pub src_port : a.src_port < 2 ^ 16
  pub dest_addr : a.dest_addr < 2 ^ 32
  pub src_addr : a.src_addr < 2 ^ 32
  pub sin_addr : a.sin_addr < 2 ^ 32
  pub mark : a.mark < 2 ^ 32

-- When kernel_sendmsg takes the whole `struct addresses`, the next proxy receives the connection that was
-- forwarded, field by field, whatever the padding holds, and what follows on the connection, if there
-- is anything, is left as it is for half_duplex.
pub preconn_wait_for_next_hop-forward_conn_info :
    (d s : Padding) (a : Addresses) (later : List ℕ)
    → IsTyped a
    → preconn_wait_for_next_hop
        ((forward_conn_info (pos sizeof_addresses) (layout d s a)).1 ++ later)
      ≡ (pos sizeof_addresses, some a, later)
unfolding forward_conn_info preconn_wait_for_next_hop
preconn_wait_for_next_hop-forward_conn_info d s a later t = λ i. (
  pos sizeof_addresses,
  some (record {
    dest_addr = u32-bytes a.dest_addr t.dest_addr i;
    dest_port = u16-bytes a.dest_port t.dest_port i;
    src_addr = u32-bytes a.src_addr t.src_addr i;
    src_port = u16-bytes a.src_port t.src_port i;
    sin_addr = u32-bytes a.sin_addr t.sin_addr i;
    mark = u32-bytes a.mark t.mark i;
  }),
  later,
)
