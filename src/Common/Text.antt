-- ===== src/Common/Text.antt =====
-- Text as bytes, and what `%d`, `%u` and `%x` of the C library print.
use Prim.Native.Char.{code}
use Prim.Native.Nat.{ℕ, zero, suc, ◌+◌, ◌-◌, ◌*◌, ◌/◌, ◌%◌, ◌^◌, ◌≤◌, ◌<◌}
use Prim.Native.String.{String}
use mathlib.Core.List.{List, [], ◌∷◌, ◌++◌}
use mathlib.Core.Option.{Option, none, some}
use mathlib.Core.Path.{◌≡◌, ap, refl}
use native.Mathlib.Nat.{pow-suc, pow-zero}
use native.Mathlib.Omega.{arith}
use ktcp_split.Common.Int.{ℤ, pos, negsuc}
use ktcp_split.Common.Lists.{take, length, length-append}
use ktcp_split.Common.Words.{signed32}
use ktcp_split.Common.Tests.{ltb, if◌then◌else◌}

-- The bytes of an ASCII literal.
abbrev pub codes : String → List ℕ
codes String.[] = []
codes (String.◌∷◌ c s) = code c ∷ codes s

-- The byte of a digit of a base of at most sixteen.
abbrev pub digit : ℕ → ℕ
digit n = if ltb n 10 then b'0' + n else b'a' + n - 10

-- The digits of `n`, of which there are at most `k`.
unfoldable pub digits : ℕ → ℕ → ℕ → List ℕ
digits base zero n = []
digits base (suc k) n =
    let high = digits base k (n / base) in
    if ltb n base then digit n ∷ [] else high ++ (digit (n % base) ∷ [])

-- Twenty digits are enough for 64 bits.
abbrev pub print_nat : ℕ → List ℕ
print_nat n = digits 10 20 n

abbrev pub print_hex : ℕ → List ℕ
print_hex n = digits 16 16 n

abbrev pub print_int : ℤ → List ℕ
print_int (pos n) = print_nat n
print_int (negsuc n) = b'-' ∷ print_nat (suc n)

-- `sprintf(&buffer[idx], ...)` into a buffer of `size` bytes, where `idx` is the length of what it
-- holds: the text and its NUL byte are written, or, past the end, `none`.
abbrev pub sprintf : ℕ → List ℕ → List ℕ → Option (List ℕ)
sprintf size buffer text =
    if ltb (length buffer + length text) size then some (buffer ++ text) else none

-- `scnprintf`: what it writes, with the NUL byte, and the length that it returns.
abbrev pub scnprintf : List ℕ → ℕ → List ℕ × ℤ
scnprintf text ℕ.zero = ([], pos 0)
scnprintf text (ℕ.suc room) = (take room text ++ (0 ∷ []), pos (length (take room text)))

abbrev pub concat : List (List ℕ) → List ℕ
concat [] = []
concat (xs ∷ xss) = xs ++ concat xss

-- The sum of the lengths.
abbrev pub total : List (List ℕ) → ℕ
total [] = 0
total (xs ∷ xss) = length xs + total xss

pub length-concat : (xss : List (List ℕ)) → length (concat xss) ≡ total xss
length-concat [] = refl
length-concat (xs ∷ xss) = omega (arith, length-append xs (concat xss), length-concat xss)

-- Each text is at most as long as its bound.
abbrev pub Within : List (List ℕ) → List ℕ → Type 0
Within [] ns = Unit
Within (xs ∷ xss) [] = ⊥
Within (xs ∷ xss) (n ∷ ns) = (length xs ≤ n) × Within xss ns

abbrev pub sum : List ℕ → ℕ
sum [] = 0
sum (n ∷ ns) = n + sum ns

pub length-concat-Within :
    (xss : List (List ℕ)) (ns : List ℕ) → Within xss ns → length (concat xss) ≤ sum ns
length-concat-Within [] ns w = omega arith
length-concat-Within (xs ∷ xss) [] w = absurd w
length-concat-Within (xs ∷ xss) (n ∷ ns) w =
    omega (arith, length-append xs (concat xss), length-concat-Within xss ns w.1, w.0)

-- `%0kd` of a number that is not negative: zeros up to k bytes.
abbrev pub repeat : ℕ → ℕ → List ℕ
repeat zero b = []
repeat (suc n) b = b ∷ repeat n b

abbrev pub pad : ℕ → List ℕ → List ℕ
pad k text = repeat (k - length text) b'0' ++ text

digit_below : (b n p : ℕ) → 0 < b → n < p * b → n / b < p
digit_below b n p h k = grind arith

-- A number below `base ^ j` has at most j digits, if it has one.
pub length-digits :
    (base k j n : ℕ) → 1 < base → 0 < j → n < base ^ j → length (digits base k n) ≤ j
unfolding digits
length-digits base zero j n b h p = omega arith
length-digits base (suc k) zero n b h p = absurd (omega arith)
length-digits base (suc k) (suc zero) n b h p =
    let same : base ^ 1 ≡ base = rw (pow-suc base 0, pow-zero base) (omega arith) in
    let small : n < base = omega (arith, same) in ground arith
length-digits base (suc k) (suc (suc j)) n b h p =
    let rest =
      length-digits base k (suc j) (n / base) b (omega arith)
        (digit_below base n (base ^ suc j) (omega arith) (rw (← pow-suc base (suc j)) p)) in
    ground (arith, rest, length-append (digits base k (n / base)) (digit (n % base) ∷ []))

length-digits_pos : (base k n : ℕ) → 0 < length (digits base (suc k) n)
unfolding digits
length-digits_pos base k n =
    ground (arith, length-append (digits base k (n / base)) (digit (n % base) ∷ []))

-- A printed number has at least one byte, and at most j if it is below 10 ^ j.
pub length-print_nat : (j n : ℕ) → 0 < j → n < 10 ^ j → length (print_nat n) ≤ j
length-print_nat j n h p = length-digits 10 20 j n (omega arith) h p

pub length-print_nat_pos : (n : ℕ) → 0 < length (print_nat n)
length-print_nat_pos n = length-digits_pos 10 19 n

pub length-print_hex : (j n : ℕ) → 0 < j → n < 16 ^ j → length (print_hex n) ≤ j
length-print_hex j n h p = length-digits 16 16 j n (omega arith) h p

length-repeat : (n b : ℕ) → length (repeat n b) ≡ n
length-repeat zero b = refl
length-repeat (suc n) b = ap suc (length-repeat n b)

pub length-pad : (k : ℕ) (text : List ℕ) → length text ≤ k → length (pad k text) ≡ k
length-pad k text h = omega (
  arith,
  length-append (repeat (k - length text) b'0') text,
  length-repeat (k - length text) b'0',
)

pub length-print_int : (w : ℕ) → w < 2 ^ 32 → length (print_int (signed32 w)) ≤ 11
length-print_int w h = ground (
  arith,
  length-print_nat 10 w (omega arith),
  length-print_nat 10 (suc (2 ^ 32 - w - 1)) (omega arith),
)
