-- ===== src/Qp/Compare.antt =====
-- What the comparison of two keys by `strncmp` decides.
use ktcp_split.Common.{ℕ, zero, suc, ◌+◌, ◌*◌, ◌^◌, ◌<◌, ◌≡◌, refl, List, [], ◌∷◌, arith}
use native.Mathlib.Nat.{pow-suc}
use ktcp_split.RbTree.{same, sign_of}
use ktcp_split.Qp.{Tuple, Node, byte, qp_key, rb_key_length, strncmp, probe_qp, c_rank, qp_rank}

abbrev pub AreBytes : ℕ → List ℕ → Type 0
AreBytes zero [] = Unit {0}
AreBytes zero (x ∷ xs) = ⊥
AreBytes (suc n) [] = ⊥
AreBytes (suc n) (x ∷ xs) = (x < 256) × AreBytes n xs

digit_top : (x p r : ℕ) → x < 256 → r < p → x * p + r < 256 * p
digit_top x p r h k = grind arith

c_rank-lt : (n : ℕ) (xs : List ℕ) → AreBytes n xs → c_rank n xs < 256 ^ n
unfolding c_rank
c_rank-lt zero xs b = omega arith
c_rank-lt (suc n) [] b = absurd b
c_rank-lt (suc n) (x ∷ xs) b =
    ground (arith, c_rank-lt n xs b.1, pow-suc 256 n, digit_top x (256 ^ n) (c_rank n xs))

digit_lt : (x y p r s : ℕ) → x < y → r < p → x * p + r < y * p + s
digit_lt x y p r s h k = grind arith

-- `strncmp` orders byte strings as the numbers that their bytes before the first NUL spell.
pub strncmp-sign_of :
    (n : ℕ) (xs ys : List ℕ)
    → AreBytes n xs
    → AreBytes n ys
    → strncmp n xs ys ≡ sign_of (c_rank n xs) (c_rank n ys)
unfolding strncmp c_rank
strncmp-sign_of zero xs ys b c = refl
strncmp-sign_of (suc n) [] ys b c = absurd b
strncmp-sign_of (suc n) (x ∷ xs) [] b c = absurd c
strncmp-sign_of (suc n) (x ∷ xs) (y ∷ ys) b c = ground (
  arith,
  strncmp-sign_of n xs ys b.1 c.1,
  c_rank-lt n xs b.1,
  c_rank-lt n ys c.1,
  digit_lt x y (256 ^ n) (c_rank n xs) (c_rank n ys),
  digit_lt y x (256 ^ n) (c_rank n ys) (c_rank n xs),
)

pub qp_key-AreBytes : (t : Tuple) → AreBytes rb_key_length (qp_key t)
qp_key-AreBytes t = omega arith

-- The comparison of two pairs follows the order of their ranks.
pub probe_qp-sign_of : (d : Node) (e : Node) → probe_qp d.tuple e ≡ sign_of (qp_rank d) (qp_rank e)
unfolding probe_qp qp_rank
probe_qp-sign_of d e =
    strncmp-sign_of rb_key_length (qp_key d.tuple) (qp_key e.tuple) (qp_key-AreBytes d.tuple)
      (qp_key-AreBytes e.tuple)

strncmp-cons :
    (n x : ℕ) (xs ys : List ℕ) → strncmp n xs ys ≡ same → strncmp (suc n) (x ∷ xs) (x ∷ ys) ≡ same
unfolding strncmp
strncmp-cons n x xs ys h = ground arith

strncmp-nul : (n : ℕ) (xs ys : List ℕ) → strncmp (suc n) (0 ∷ xs) (0 ∷ ys) ≡ same
unfolding strncmp
strncmp-nul n xs ys = refl

-- The key ends at its first NUL byte: two connections from the same source port to destination
-- ports below 256, whose first key byte is 0, compare as equal whatever their ports and addresses.
pub probe_qp-low_ports :
    (t : Tuple) (e : Node)
    → t.port_s ≡ e.tuple.port_s
    → byte t.port_d 0 ≡ 0
    → byte e.tuple.port_d 0 ≡ 0
    → probe_qp t e ≡ same
unfolding probe_qp
probe_qp-low_ports t e s p q =
    rw (s, p, q) (strncmp-cons 11 _ _ _ (strncmp-cons 10 _ _ _ (strncmp-nul 9 _ _)))
