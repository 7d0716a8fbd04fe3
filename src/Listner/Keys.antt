-- ===== src/Listner/Keys.antt =====
-- The keys of the servers' tree: the packing of key and port into a pointer, and the comparison of
-- two keys by the sign of their 32-bit difference.
use ktcp_split.Common.{ℕ, ◌+◌, ◌^◌, ◌<◌, ◌≡◌, arith}
use ktcp_split.Common.Bits.{or_fields}
use ktcp_split.Common.Words.{sub32, u32}
use ktcp_split.RbTree.{below, sign_of}
use ktcp_split.Listner.{Entry, probe_listner, uint2void, void2uint}

-- Unpacking gives back any two 32-bit numbers that were packed.
pub void2uint-uint2void : (a b : ℕ) → a < 2 ^ 32 → b < 2 ^ 32 → void2uint (uint2void a b) ≡ (a, b)
unfolding void2uint uint2void
void2uint-uint2void a b h k = ground (arith, or_fields 32 a b)

-- If both keys lie within 2 ^ 31 above some base, modulo 2 ^ 32, the comparison is that of their
-- distances from the base.
pub probe_listner-window :
    (base key : ℕ) (e : Entry)
    → base < 2 ^ 32
    → key < 2 ^ 32
    → e.key < 2 ^ 32
    → sub32 key base < 2 ^ 31
    → sub32 e.key base < 2 ^ 31
    → probe_listner key e ≡ sign_of (sub32 key base) (sub32 e.key base)
unfolding probe_listner
probe_listner-window base key e hb hk he h k = ground arith

-- Over all 32-bit keys the comparison is no order: each key is below the key a third of the range
-- further on, that one is below the next, and the next is below the first.
pub probe_listner-cyclic :
    (key a1 a2 a3 : ℕ)
    → key < 2 ^ 32
    → let key2 = u32 (key + 1431655765) in
      let key3 = u32 (key2 + 1431655765) in
      (probe_listner key (record { key = key2; addr = a2 }) ≡ below)
      × (probe_listner key2 (record { key = key3; addr = a3 }) ≡ below)
      × (probe_listner key3 (record { key = key; addr = a1 }) ≡ below)
unfolding probe_listner
probe_listner-cyclic key a1 a2 a3 h = ground arith

pub probe_listner-nonneg :
    (key : ℕ) (e : Entry) → key < 2 ^ 31 → e.key < 2 ^ 31 → probe_listner key e ≡ sign_of key e.key
unfolding probe_listner
probe_listner-nonneg key e h k = ground arith
