-- ===== src/Common/Bits.antt =====
-- The laws of `^` and `|` on machine words that the code relies on, from the digit recursion that
-- the native operations stand for.
use Prim.Native.Nat.{
  ℕ, zero, suc, ◌+◌, ◌-◌, ◌*◌, ◌/◌, ◌%◌, ◌^◌, ◌≤◌, ◌<◌, max, digits, bitwise, bit_or, bit_xor,
  bit_or-bitwise, bit_xor-bitwise, differ,
}
use mathlib.Core.Path.{◌≡◌, refl, ap, ◌∙◌}
use native.Mathlib.Nat.{pow-suc}
use native.Mathlib.Omega.{arith}

-- The recursion on digits needs no more fuel than its first operand.
module _ (last : ℕ → ℕ) (digit : ℕ → ℕ → ℕ) where
  one_more :
      (b fuel a : ℕ) → a ≤ fuel → digits last digit (suc fuel) a b ≡ digits last digit fuel a b
  one_more b zero zero h = refl
  one_more b (suc fuel) zero h = refl
  one_more b zero (suc a) h = absurd (omega arith)
  one_more b (suc fuel) (suc a) h =
      let half = one_more (b / 2) fuel (suc a / 2) (omega arith) in
      ap (λ high. high * 2 + digit (suc a % 2) (b % 2)) half

  spare_fuel :
      (spare a b fuel : ℕ) → fuel ≡ spare + a → digits last digit fuel a b ≡ digits last digit a a b
  spare_fuel zero a b fuel e = ap (λ n. digits last digit n a b) (omega (arith, e))
  spare_fuel (suc spare) a b zero e = absurd (omega arith)
  spare_fuel (suc spare) a b (suc fuel) e =
      one_more b fuel a (omega arith) ∙ spare_fuel spare a b fuel (omega arith)

  -- The highest digits, and the lowest.
  lowest_digit :
      (b a : ℕ)
      → let half = suc a / 2 in
        bitwise last digit (suc a) b
        ≡ digits last digit half half (b / 2) * 2 + digit (suc a % 2) (b % 2)
  lowest_digit b a =
      let half = suc a / 2 in
      ap (λ high. high * 2 + digit (suc a % 2) (b % 2))
        (spare_fuel (a - half) half (b / 2) a (omega arith))

or_step : (a b : ℕ) → bit_or a b ≡ bit_or (a / 2) (b / 2) * 2 + max (a % 2) (b % 2)
or_step (suc n) b = simp bit_or-bitwise (lowest_digit (λ y. y) max b n)
or_step zero b = simp bit_or-bitwise (omega arith)

-- `differ` is the distance of two numbers, which on two digits is their sum modulo 2.
differ-digits : (x y : ℕ) → x < 2 → y < 2 → differ x y ≡ (x + y) % 2
differ-digits zero y h k = omega arith
differ-digits (suc zero) zero h k = refl
differ-digits (suc zero) (suc zero) h k = refl
differ-digits (suc zero) (suc (suc y)) h k = absurd (omega arith)
differ-digits (suc (suc x)) y h k = absurd (omega arith)

xor_step : (a b : ℕ) → bit_xor a b ≡ bit_xor (a / 2) (b / 2) * 2 + (a % 2 + b % 2) % 2
xor_step zero b = simp bit_xor-bitwise (omega arith)
xor_step (suc a) b = simp bit_xor-bitwise (
    omega (
      arith,
      lowest_digit (λ y. y) differ b a,
      differ-digits (suc a % 2) (b % 2) (omega arith) (omega arith),
    ))

halve :
    (a b : ℕ)
    → (bit_xor (b / 2) (bit_xor (a / 2) (b / 2)) ≡ a / 2)
      × (bit_xor (bit_xor (a / 2) (b / 2)) (a / 2) ≡ b / 2)
    → (bit_xor b (bit_xor a b) ≡ a) × (bit_xor (bit_xor a b) a ≡ b)
halve a b (p, q) =
    let high : bit_xor a b / 2 ≡ bit_xor (a / 2) (b / 2) = omega (arith, xor_step a b) in
    (
      omega (arith, xor_step a b, xor_step b (bit_xor a b), ap (bit_xor (b / 2)) high, p),
      omega (
        arith,
        xor_step a b,
        xor_step (bit_xor a b) a,
        ap (λ (t : ℕ). bit_xor t (a / 2)) high,
        q,
      ),
    )

or-zero_fuel : (n a : ℕ) → a ≤ n → bit_or a 0 ≡ a
or-zero_fuel zero zero h = refl
or-zero_fuel zero (suc a) h = absurd (omega arith)
or-zero_fuel (suc n) zero h = refl
or-zero_fuel (suc n) (suc a) h =
    omega (arith, or_step (suc a) 0, or-zero_fuel n (suc a / 2) (omega arith))

double : (q k : ℕ) → q * 2 ^ suc k / 2 ≡ q * 2 ^ k
double q k = omega (arith, ap (λ (t : ℕ). q * t) (pow-suc 2 k))

-- `b ^ (a ^ b)` is `a`, and `(a ^ b) ^ a` is `b`.
xor_cancel_fuel :
    (n a b : ℕ) → a + b ≤ n → (bit_xor b (bit_xor a b) ≡ a) × (bit_xor (bit_xor a b) a ≡ b)
xor_cancel_fuel zero zero zero p = (refl, refl)
xor_cancel_fuel zero (suc a) b p = absurd (omega arith)
xor_cancel_fuel zero zero (suc b) p = absurd (omega arith)
xor_cancel_fuel (suc n) zero zero p = (refl, refl)
xor_cancel_fuel (suc n) (suc a) b p =
    halve (suc a) b (xor_cancel_fuel n (suc a / 2) (b / 2) (omega arith))
xor_cancel_fuel (suc n) zero (suc b) p =
    halve zero (suc b) (xor_cancel_fuel n zero (suc b / 2) (omega arith))

pub xor_cancel : (a b : ℕ) → (bit_xor b (bit_xor a b) ≡ a) × (bit_xor (bit_xor a b) a ≡ b)
xor_cancel a b = xor_cancel_fuel (a + b) a b (omega arith)

-- `(q << k) | r` is a sum when `r` has at most k digits.
pub or_fields : (k q r : ℕ) → r < 2 ^ k → bit_or (q * 2 ^ k) r ≡ q * 2 ^ k + r
or_fields zero q r h =
    let e : r ≡ 0 = omega arith in rw e (omega (arith, or-zero_fuel (q * 1) (q * 1) (omega arith)))
or_fields (suc k) q r h = omega (
  arith,
  pow-suc 2 k,
  ap (λ (t : ℕ). q * t) (pow-suc 2 k),
  or_step (q * 2 ^ suc k) r,
  ap (λ (t : ℕ). bit_or t (r / 2)) (double q k),
  or_fields k q (r / 2) (omega (arith, pow-suc 2 k)),
)

-- `(q << 8) | r` is a sum when `r` is a byte.
pub or_byte : (q r : ℕ) → r < 256 → bit_or (q * 256) r ≡ q * 256 + r
or_byte q r h = or_fields 8 q r h

-- `^` stays within the digits of its operands.
pub xor-lt : (k a b : ℕ) → a < 2 ^ k → b < 2 ^ k → bit_xor a b < 2 ^ k
xor-lt zero a b h p =
    let e : a ≡ 0 = omega arith in let f : b ≡ 0 = omega arith in rw (e, f) (omega arith)
xor-lt (suc k) a b h p = omega (
  arith,
  pow-suc 2 k,
  xor_step a b,
  xor-lt k (a / 2) (b / 2) (omega (arith, pow-suc 2 k)) (omega (arith, pow-suc 2 k)),
)
