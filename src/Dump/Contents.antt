-- ===== src/Dump/Contents.antt =====
-- What the dump of the pairs of a CPU puts into the user's memory: dump_pending_connections of
-- tcpsplit/debug.c, with the lines of dump_qp2user.
use mathlib.Core.List.{append-nil, append_assoc}
use ktcp_split.Common.{
  ℕ, ◌+◌, ◌*◌, ◌%◌, ◌^◌, ◌<◌, ◌≤◌, ◌≡◌, refl, ap, sym, subst, ◌∙◌, length-append, List, [], ◌∷◌,
  ◌++◌, map, arith, length, take, All,
}
use ktcp_split.Common.Int.{ℤ, pos, negsuc}
use ktcp_split.Common.Words.{u32}
use ktcp_split.Common.Text.{concat}
use ktcp_split.Logger.{copy_at, slice}
use ktcp_split.Logger.Memory.{slice-copy_at_behind}
use ktcp_split.Dump.{dump_pending_connections}
use ktcp_split.Dump.Lines.{Dumped, parts, dump_qp2user, dump_qp2user_lem}

abbrev count_of : ℤ → ℕ
count_of (pos n) = n
count_of (negsuc n) = 0

unfoldable pub line : ℕ → Dumped → List ℕ
line cpu qp = concat (parts cpu qp)

-- `add`, for each pair.
abbrev pub adds : ℕ → List Dumped → List ℕ
adds cpu qps = map (λ qp. count_of (dump_qp2user cpu qp).1) qps

-- copy_to_user of each copy, from the text that `str` holds then.
abbrev pub copied : ℕ → List Dumped → List (ℕ × ℕ) → (ℕ → ℕ) → ℕ → ℕ
copied cpu [] copies memory = memory
copied cpu (qp ∷ qps) [] memory = memory
copied cpu (qp ∷ qps) ((off, add) ∷ copies) memory =
    copied cpu qps copies (copy_at memory off (take add (dump_qp2user cpu qp).0))

-- The fields have their C types, and `%p` prints at most sixteen bytes.
abbrev pub IsTyped : Dumped → Type 0
IsTyped qp = (qp.ref_cnt < 2 ^ 32) × (length qp.printed ≤ 16)

take-append : (xs ys : List ℕ) → take (length xs) (xs ++ ys) ≡ xs
take-append [] [] = refl
take-append [] (y ∷ ys) = refl
take-append (x ∷ xs) ys = ap (◌∷◌ x) (take-append xs ys)

copy_behind :
    (f : ℕ → ℕ) (off : ℕ) (xs : List ℕ)
    → slice (copy_at f off xs) 0 (off + length xs) ≡ slice f 0 off ++ xs
copy_behind f off xs =
    ap (λ l. slice (copy_at f off l) 0 (off + length xs)) (sym (append-nil xs))
    ∙ slice-copy_at_behind f off xs []

shown :
    (cpu : ℕ) (qp : Dumped)
    → cpu < 2 ^ 32
    → IsTyped qp
    → (length (line cpu qp) ≤ 114)
      × (dump_qp2user cpu qp ≡ (line cpu qp ++ (0 ∷ []), pos (length (line cpu qp))))
unfolding line
shown cpu qp c t = dump_qp2user_lem cpu qp c t.0 t.1

-- Where no copy fails, and 114 bytes for each pair behind the offset stay below 2 ^ 31, the user's
-- memory holds, behind what was there, the line of each pair, one after another and uncut; the result
-- is the offset of their end, at most 114 bytes further for each pair.
pub dump_pending_connections_lem :
    (cpu loc : ℕ) (memory : ℕ → ℕ) (qps : List Dumped)
    → cpu < 2 ^ 32
    → All IsTyped qps
    → loc + 114 * length qps < 2 ^ 31
    → let (end, copies) = dump_pending_connections (λ off add. 0) loc (adds cpu qps) in
      (slice (copied cpu qps copies memory) 0 end
        ≡ slice memory 0 loc ++ concat (map (line cpu) qps))
      × (end ≡ loc + length (concat (map (line cpu) qps)))
      × (end ≤ loc + 114 * length qps)
unfolding dump_pending_connections
dump_pending_connections_lem cpu loc memory [] c t small =
    (sym (append-nil (slice memory 0 loc)), omega arith, omega arith)
dump_pending_connections_lem cpu loc memory (qp ∷ qps) c t small =
    let text = line cpu qp in
    let (short, same) = shown cpu qp c t.0 in
    let memory' = copy_at memory loc text in
    let (held, end, room) =
      dump_pending_connections_lem cpu (loc + length text) memory' qps c t.1
        (omega (arith, small, short)) in
    let rest = concat (map (line cpu) qps) in
    let fits : (loc + length text) % 2 ^ 32 ≡ loc + length text = omega (arith, small, short) in
    let (stop, copies) =
      dump_pending_connections (λ off add. 0) (loc + length text) (adds cpu qps) in
    subst (λ d. Dumps d) (sym same)
      (rw fits (
        ap (λ l. slice (copied cpu qps copies (copy_at memory loc l)) 0 stop)
              (take-append text (0 ∷ []))
            ∙ held
            ∙ ap (λ l. l ++ rest) (copy_behind memory loc text)
            ∙ append_assoc (slice memory 0 loc) text rest,
        omega (arith, end, length-append text rest),
        omega (arith, room, short),
      ))
  where
    Dumps : List ℕ × ℤ → Type 0
    Dumps d =
        let add = count_of d.1 in
        let (end, copies) =
          dump_pending_connections (λ off add. 0) (u32 (loc + add)) (adds cpu qps) in
        (slice (copied cpu qps copies (copy_at memory loc (take add d.0))) 0 end
          ≡ slice memory 0 loc ++ concat (map (line cpu) (qp ∷ qps)))
        × (end ≡ loc + length (concat (map (line cpu) (qp ∷ qps))))
        × (end ≤ loc + 114 * length (qp ∷ qps))
