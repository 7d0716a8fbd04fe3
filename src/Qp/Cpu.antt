-- ===== src/Qp/Cpu.antt =====
-- The CPU of a connection.
use native.Mathlib.Nat.{div-add-mod', mod-lt}
use ktcp_split.Common.{ℕ, ◌*◌, ◌/◌, ◌%◌, ◌^◌, ◌≤◌, ◌<◌, ◌≡◌, List, [], ◌∷◌, arith}
use ktcp_split.Common.Bits.{xor-lt}
use ktcp_split.Common.Words.{sub32, u32}
use ktcp_split.Qp.{Tuple, qp_key, sign_extend, xor_bytes, qp2cpu, rb_key_length}
use ktcp_split.Qp.Compare.{AreBytes, qp_key-AreBytes}

xor_bytes-lt :
    (n core : ℕ) (bs : List ℕ) → core < 2 ^ 32 → AreBytes n bs → xor_bytes core bs < 2 ^ 32
unfolding xor_bytes
xor_bytes-lt n core [] h b = h
xor_bytes-lt ℕ.zero core (x ∷ bs) h b = absurd b
xor_bytes-lt (ℕ.suc n) core (x ∷ bs) h b =
    xor_bytes-lt n _ bs (xor-lt 32 core (sign_extend x) h (ground (arith, b.0))) b.1

remainder :
    (core online : ℕ)
    → 0 < online
    → core < 2 ^ 32
    → (sub32 core (u32 (core / online * online)) ≡ core % online) × (core % online < online)
remainder core online h k =
    let least : core / online * online ≤ core = omega (arith, div-add-mod' core online) in
    let word : u32 (core / online * online) ≡ core / online * online = omega arith in
    (rw word (omega (arith, div-add-mod' core online)), mod-lt core h)

-- On a machine with a CPU online, a connection's CPU is one of those online: it is the remainder of
-- the exclusive or of the sign-extended key bytes.
pub qp2cpu-lt :
    (online : ℕ) (t : Tuple)
    → 0 < online
    → (qp2cpu online t ≡ xor_bytes 0 (qp_key t) % online) × (qp2cpu online t < online)
unfolding qp2cpu
qp2cpu-lt online t h =
    let core = xor_bytes 0 (qp_key t) in
    let (equal, less) =
      remainder core online h
        (xor_bytes-lt rb_key_length 0 (qp_key t) (omega arith) (qp_key-AreBytes t)) in
    (equal, rw equal less)
