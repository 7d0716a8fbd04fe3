-- ===== src/ServerList/Bounds.antt =====
-- How many servers fit in the page of the list.
use mathlib.Core.List.{append-nil, append_assoc}
use ktcp_split.Common.{
  sym, ap, ℕ, ◌+◌, ◌*◌, ◌^◌, ◌<◌, ◌≤◌, ◌≡◌, none, some, List, [], ◌∷◌, ◌++◌, map, arith, All,
  length, length-append,
}
use ktcp_split.Common.Text.{
  codes, print_nat, print_int, concat, length-concat, length-print_int, length-print_nat,
  length-print_nat_pos,
}
use ktcp_split.Common.Words.{signed32}
use ktcp_split.Listner.{Entry, Info}
use ktcp_split.Proc.{page_size}
use ktcp_split.ServerList.{fields, line, print_lines}

-- The fields have their types: `int32_t key`, `uint16_t port` and `status`.
pub record Typed (info : ℕ → Info) (e : Entry) : Type 0 where
  pub key : e.key < 2 ^ 32
  pub port : (info e.addr).port < 2 ^ 16
  pub status : (info e.addr).status < 2 ^ 16

length-fields :
    (tid port status : List ℕ)
    → length (fields tid port status) ≡ 19 + length tid + length port + length status
length-fields tid port status = omega (
  arith,
  length-concat
      (codes "tid=" ∷ tid ∷ codes " port=" ∷ port ∷ codes " status=" ∷ status ∷ codes "\n" ∷ []),
)

length-print_int_pos : (w : ℕ) → 0 < length (print_int (signed32 w))
length-print_int_pos w = ground (arith, length-print_nat_pos w)

line_bounds :
    (info : ℕ → Info) (e : Entry)
    → Typed info e
    → (22 ≤ length (line info e)) × (length (line info e) ≤ 40)
unfolding line
line_bounds info e t =
    let sum =
      length-fields (print_int (signed32 e.key)) (print_nat (info e.addr).port)
        (print_nat (info e.addr).status) in
    (
      omega (
        arith,
        sum,
        length-print_int_pos e.key,
        length-print_nat_pos (info e.addr).port,
        length-print_nat_pos (info e.addr).status,
      ),
      omega (
        arith,
        sum,
        length-print_int e.key t.key,
        length-print_nat 5 (info e.addr).port (omega arith) (omega arith),
        length-print_nat 5 (info e.addr).status (omega arith) (omega arith),
      ),
    )

-- What the loop prints.
abbrev pub lines : (ℕ → Info) → List Entry → List ℕ
lines info es = concat (map (line info) es)

pub length-lines :
    (info : ℕ → Info) (es : List Entry)
    → All (Typed info) es
    → length (lines info es) ≤ 40 * length es
length-lines info [] t = omega arith
length-lines info (e ∷ es) t = omega (
  arith,
  (line_bounds info e t.0).1,
  length-append (line info e) (lines info es),
  length-lines info es t.1,
)

pub print_lines-fits :
    (info : ℕ → Info) (es : List Entry) (buffer : List ℕ)
    → All (Typed info) es
    → length buffer + 40 * length es < page_size
    → print_lines info es buffer ≡ some (buffer ++ lines info es)
unfolding print_lines
print_lines-fits info [] buffer t h = ap some (sym (append-nil buffer))
print_lines-fits info (e ∷ es) buffer t h =
    let (_, most) = line_bounds info e t.0 in
    let text = line info e in
    let rest =
      print_lines-fits info es (buffer ++ text) t.1
        (omega (arith, most, length-append buffer text)) in
    ground (arith, rest, most, append_assoc buffer text (lines info es))

pub print_lines-overflows :
    (info : ℕ → Info) (es : List Entry) (buffer : List ℕ)
    → All (Typed info) es
    → length buffer < page_size
    → page_size ≤ length buffer + 22 * length es
    → print_lines info es buffer ≡ none
unfolding print_lines
print_lines-overflows info [] buffer t b h = absurd (omega arith)
print_lines-overflows info (e ∷ es) buffer t b h =
    let (least, _) = line_bounds info e t.0 in
    let text = line info e in
    ground (
      arith,
      least,
      length-append buffer text,
      λ (k : length buffer + length text < page_size).
          print_lines-overflows info es (buffer ++ text) t.1
            (omega (arith, length-append buffer text))
            (omega (arith, least, length-append buffer text)),
    )
