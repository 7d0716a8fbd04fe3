-- ===== src/Tracer/HexDump.antt =====
-- hex_dump of tcpsplit/cbn_common.h and pkt_tracer/cbn_common.h: what it prints, and that the bytes can
-- be read back.
use ktcp_split.Common.{
  ℕ, ◌+◌, ◌-◌, ◌*◌, ◌/◌, ◌%◌, ◌<◌, ◌≡◌, refl, ap, ◌∙◌, List, [], ◌∷◌, ◌++◌, arith, All, length, ltb,
  ◌==◌, if◌then◌else◌,
}
use ktcp_split.Common.Text.{print_nat, print_hex, pad, digit, digits}

-- `%02x `
abbrev hex_byte : ℕ → List ℕ
hex_byte b = pad 2 (print_hex b) ++ (b' ' ∷ [])

-- The offset, before each sixteen bytes.
abbrev header : ℕ → List ℕ
header i = if i % 16 == 0 then 10 ∷ (print_nat i ++ (9 ∷ b':' ∷ [])) else []

unfoldable pub hex_from : ℕ → List ℕ → List ℕ
hex_from i [] = 10 ∷ []
hex_from i (b ∷ buf) = header i ++ (hex_byte b ++ hex_from (i + 1) buf)

unfoldable pub hex_dump : List ℕ → List ℕ
hex_dump buf = hex_from 0 buf

abbrev drop : ℕ → List ℕ → List ℕ
drop ℕ.zero xs = xs
drop (ℕ.suc n) [] = []
drop (ℕ.suc n) (x ∷ xs) = drop n xs

abbrev undigit : ℕ → ℕ
undigit c = if ltb c b'a' then c - b'0' else c - b'a' + 10

abbrev byte_of : List ℕ → ℕ
byte_of (h ∷ l ∷ text) = undigit h * 16 + undigit l
byte_of _ = 0

-- The bytes from offset i on, of which there are n, in the text of a dump.
abbrev pub read_hex : ℕ → ℕ → List ℕ → List ℕ
read_hex ℕ.zero i text = []
read_hex (ℕ.suc n) i text =
    let bytes = drop (length (header i)) text in byte_of bytes ∷ read_hex n (i + 1) (drop 3 bytes)

drop-append : (xs ys : List ℕ) → drop (length xs) (xs ++ ys) ≡ ys
drop-append [] ys = refl
drop-append (x ∷ xs) ys = drop-append xs ys

undigit-digit : (n : ℕ) → n < 16 → undigit (digit n) ≡ n
undigit-digit n h = ground arith

two_digits : (b : ℕ) → b < 256 → pad 2 (print_hex b) ≡ digit (b / 16) ∷ digit (b % 16) ∷ []
unfolding digits
two_digits b h = ground arith

byte_back : (b : ℕ) (text : List ℕ) → b < 256 → byte_of (hex_byte b ++ text) ≡ b
byte_back b text h =
    ap (λ d. byte_of ((d ++ (b' ' ∷ [])) ++ text)) (two_digits b h)
    ∙ omega (arith, undigit-digit (b / 16) (omega arith), undigit-digit (b % 16) (omega arith))

byte_gone : (b : ℕ) (text : List ℕ) → b < 256 → drop 3 (hex_byte b ++ text) ≡ text
byte_gone b text h = ap (λ d. drop 3 ((d ++ (b' ' ∷ [])) ++ text)) (two_digits b h)

-- The bytes of a dump can be read back.
pub read_hex-hex_from :
    (i : ℕ) (buf : List ℕ) → All (λ b. b < 256) buf → read_hex (length buf) i (hex_from i buf) ≡ buf
unfolding hex_from
read_hex-hex_from i [] h = refl
read_hex-hex_from i (b ∷ buf) h =
    rw
      (
        drop-append (header i) (hex_byte b ++ hex_from (i + 1) buf),
        byte_back b (hex_from (i + 1) buf) h.0,
        byte_gone b (hex_from (i + 1) buf) h.0,
        read_hex-hex_from (i + 1) buf h.1,
      )
      refl
