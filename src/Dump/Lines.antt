-- ===== src/Dump/Lines.antt =====
-- The line of a pair in the dump, and where it goes: printout and dump_qp2user of tcpsplit/debug.c.
use ktcp_split.Common.{
  ℕ, ◌^◌, ◌<◌, ◌≤◌, ◌≡◌, refl, ap, Bool, true, false, List, [], ◌∷◌, ◌++◌, arith, length, take,
  if◌then◌else◌, ◌==◌,
}
use ktcp_split.Common.Int.{ℤ, pos}
use ktcp_split.Common.Text.{
  codes, concat, print_nat, print_int, scnprintf, length-concat-Within, length-print_nat,
  length-print_int,
}
use ktcp_split.Common.Words.{signed32, swap16}
use ktcp_split.Qp.{Tuple}
use ktcp_split.Tracer.{print_ip4}
use ktcp_split.Tracer.Bounds.{length-print_ip4}

abbrev strlen : ℕ
strlen = 256

-- What dump_qp2user reads of a pair. `printed` is what `%p` prints of its address.
pub record Dumped : Type 0 where
  pub ref_cnt : ℕ
  pub tx : Bool
  pub rx : Bool
  pub printed : List ℕ
  pub tuple : Tuple

abbrev name_if : Bool → List ℕ → List ℕ
name_if b name = if b then name else []

abbrev pub parts : ℕ → Dumped → List (List ℕ)
parts cpu qp =
    codes "[cpu = "
    ∷ print_int (signed32 cpu)
    ∷ codes ", rc  = "
    ∷ print_nat qp.ref_cnt
    ∷ codes "]:QP ["
    ∷ name_if qp.tx (codes "TX")
    ∷ codes ":"
    ∷ name_if qp.rx (codes "RX")
    ∷ codes "] "
    ∷ qp.printed
    ∷ codes ": "
    ∷ print_ip4 qp.tuple.addr_s
    ∷ codes ":"
    ∷ print_nat (swap16 qp.tuple.port_s)
    ∷ codes " => "
    ∷ print_ip4 qp.tuple.addr_d
    ∷ codes ":"
    ∷ print_nat (swap16 qp.tuple.port_d)
    ∷ codes "\n"
    ∷ []

-- What stands in `str`, and the length.
unfoldable pub dump_qp2user : ℕ → Dumped → List ℕ × ℤ
dump_qp2user cpu qp = scnprintf (concat (parts cpu qp)) strlen

-- The bytes that copy_to_user left, of a buffer; a NULL buffer gets a trace and 0.
unfoldable pub printout : (ℕ → ℕ → ℕ) → ℕ → ℕ → ℤ
printout fault buff len = if buff == 0 then pos 0 else pos (fault buff len)

name_if_short : (b : Bool) (x y : ℕ) → length (name_if b (x ∷ y ∷ [])) ≤ 2
name_if_short true x y = omega arith
name_if_short false x y = omega arith

swapped : (w : ℕ) → length (print_nat (swap16 w)) ≤ 5
swapped w = length-print_nat 5 (swap16 w) (omega arith) (omega arith)

take_all : (n : ℕ) (xs : List ℕ) → length xs ≤ n → take n xs ≡ xs
take_all n [] h = refl
take_all ℕ.zero (x ∷ xs) h = absurd (omega (arith, h))
take_all (ℕ.suc n) (x ∷ xs) h = ap (◌∷◌ x) (take_all n xs (omega (arith, h)))

-- The line of a pair has at most 114 bytes, whatever its addresses, ports, count and CPU, if `%p` prints at
-- most sixteen: it is never cut.
pub dump_qp2user_lem :
    (cpu : ℕ) (qp : Dumped)
    → cpu < 2 ^ 32
    → qp.ref_cnt < 2 ^ 32
    → length qp.printed ≤ 16
    → (length (concat (parts cpu qp)) ≤ 114)
      × (dump_qp2user cpu qp
          ≡ (concat (parts cpu qp) ++ (0 ∷ []), pos (length (concat (parts cpu qp)))))
unfolding dump_qp2user
dump_qp2user_lem cpu qp c r p =
    let line = concat (parts cpu qp) in
    let short : length line ≤ 114 =
      length-concat-Within (parts cpu qp)
        (7 ∷ 11 ∷ 8 ∷ 10 ∷ 6 ∷ 2 ∷ 1 ∷ 2 ∷ 2 ∷ 16 ∷ 2 ∷ 15 ∷ 1 ∷ 5 ∷ 4 ∷ 15 ∷ 1 ∷ 5 ∷ 1 ∷ [])
        (omega (
          arith,
          length-print_int cpu c,
          length-print_nat 10 qp.ref_cnt (omega arith) (omega (arith, r)),
          name_if_short qp.tx 84 88,
          name_if_short qp.rx 82 88,
          p,
          length-print_ip4 qp.tuple.addr_s,
          swapped qp.tuple.port_s,
          length-print_ip4 qp.tuple.addr_d,
          swapped qp.tuple.port_d,
        )) in
    let whole : take 255 line ≡ line = take_all 255 line (omega (arith, short)) in
    (short, ap (λ l. (l ++ (0 ∷ []), pos (length l))) whole)
