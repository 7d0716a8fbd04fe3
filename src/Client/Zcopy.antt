-- ===== src/Client/Zcopy.antt =====
-- The blocking read, and the pages that start_new_connection_z puts.
use mathlib.Core.List.{append-nil, append_assoc}
use ktcp_split.Common.{
  ℕ, zero, suc, ◌<◌, ◌≤◌, ◌≡◌, refl, sym, ap, ◌∙◌, inl, inr, true, false, Option, none, some, List,
  [], ◌∷◌, ◌++◌, arith, All, length, Bool-cases, if◌then◌else◌,
}
use ktcp_split.Common.Int.{ℤ, pos, is_neg, is_nonzero, pos_part}
use ktcp_split.Client.{vec_sz}
use ktcp_split.Client.Receive.{
  meter, Peek, empty, read, tcp_read_sock_zcopy_blocking, TurnZ, fill, put_pages, nulls, Zcopy,
  received, after_read, ticked, zcopy_loop, start_new_connection_z,
}

-- A turn in which the read waits.
abbrev pub Idle : Peek → Type 0
Idle empty = Unit
Idle (read rc) = is_nonzero rc ≡ false

abbrev pub Blocking : List Peek → ℕ × Option ℤ → Type 0
Blocking ps (waits, none) = (waits ≡ length ps) × All Idle ps
Blocking ps (waits, some rc) = (is_nonzero rc ≡ true) × (waits < length ps)

waited :
    (p : Peek) (ps : List Peek) (w : ℕ × Option ℤ)
    → Idle p
    → Blocking ps w
    → Blocking (p ∷ ps) (suc w.0, w.1)
waited p ps (waits, none) i b = (ap suc b.0, (i, b.1))
waited p ps (waits, some rc) i b = (b.0, omega (arith, b.1))

-- tcp_read_sock_zcopy_blocking returns no 0: it returns the first result that is not 0, after a wait
-- for each turn before it, and as long as every turn finds an empty queue or a read of nothing, it
-- waits in each of them and does not return.
pub tcp_read_sock_zcopy_blocking_lem :
    (ps : List Peek) → Blocking ps (tcp_read_sock_zcopy_blocking ps)
unfolding tcp_read_sock_zcopy_blocking
tcp_read_sock_zcopy_blocking_lem [] = (refl, tt)
tcp_read_sock_zcopy_blocking_lem (empty ∷ ps) =
    waited empty ps (tcp_read_sock_zcopy_blocking ps) tt (tcp_read_sock_zcopy_blocking_lem ps)
tcp_read_sock_zcopy_blocking_lem (read rc ∷ ps) = elim (Bool-cases (is_nonzero rc)) [
  | inl e ↦ rw (e) (e, omega arith)
  | inr e ↦ rw (e) (
      waited (read rc) ps (tcp_read_sock_zcopy_blocking ps) e (tcp_read_sock_zcopy_blocking_lem ps))
]

-- The pages of the reads whose bytes were counted.
abbrev pub pages_read : List ℕ → List ℕ → Option ℤ → List ℕ
pages_read pages rest none = []
pages_read pages rest (some r) = if is_neg r then [] else pages ++ rest

abbrev pub taken_pages : List TurnZ → List ℕ
taken_pages [] = []
taken_pages (t ∷ ts) =
    let rest = taken_pages ts in
    if t.stop then [] else pages_read t.pages rest (tcp_read_sock_zcopy_blocking t.peeks).1

put_pages-fill :
    (n : ℕ) (pages : List ℕ)
    → length pages ≤ n
    → put_pages (fill pages (nulls n)) ≡ (pages, nulls n)
unfolding put_pages
put_pages-fill zero [] h = refl
put_pages-fill (suc n) [] h = refl
put_pages-fill zero (a ∷ pages) h = absurd (omega arith)
put_pages-fill (suc n) (a ∷ pages) h = rw (put_pages-fill n pages (omega arith)) refl

abbrev pub Puts : Zcopy → Zcopy → List ℕ → Type 0
Puts z after pages = (after.cells ≡ nulls vec_sz) × (after.puts ≡ z.puts ++ pages)

-- A result of the blocking read is not 0.
abbrev Nonzero : Option ℤ → Type 0
Nonzero none = Unit
Nonzero (some r) = is_nonzero r ≡ true

Blocking-Nonzero : (ps : List Peek) (w : ℕ × Option ℤ) → Blocking ps w → Nonzero w.1
Blocking-Nonzero ps (waits, none) b = tt
Blocking-Nonzero ps (waits, some rc) b = b.0

received-Puts :
    (n : ℕ) (t : TurnZ) (z : Zcopy)
    → z.cells ≡ nulls vec_sz
    → length t.pages ≤ vec_sz
    → Puts z (received n t z) t.pages
received-Puts n t z c few =
    let e : put_pages (fill t.pages z.cells) ≡ (t.pages, nulls vec_sz) =
      ap (λ cells. put_pages (fill t.pages cells)) c ∙ put_pages-fill vec_sz t.pages few in
    (
      ap (λ (p : List ℕ × List (Option ℕ)). p.1) e,
      ap (λ (p : List ℕ × List (Option ℕ)). z.puts ++ p.0) e,
    )

after_read-Puts :
    (t : TurnZ) (ts : List TurnZ) (z : Zcopy) (again : Option ℤ × Zcopy)
    (onward : ℤ → Option ℤ × Zcopy) (o : Option ℤ)
    → Nonzero o
    → z.cells ≡ nulls vec_sz
    → ((r : ℤ) → Puts z (onward r).1 (t.pages ++ taken_pages ts))
    → Puts z (after_read (ticked t z) again onward o).1 (pages_read t.pages (taken_pages ts) o)
after_read-Puts t ts z again onward none nz c ih = (c, sym (append-nil z.puts))
after_read-Puts t ts z again onward (some r) nz c ih =
    ground (arith, nz, c, ih r, append-nil z.puts)

zcopy_loop-Puts :
    (rc : ℤ) (z : Zcopy) (ts : List TurnZ)
    → z.cells ≡ nulls vec_sz
    → All (λ t. length t.pages ≤ vec_sz) ts
    → Puts z (zcopy_loop rc z ts).1 (taken_pages ts)
unfolding zcopy_loop
zcopy_loop-Puts rc z [] c few = (c, sym (append-nil z.puts))
zcopy_loop-Puts rc z (t ∷ ts) c few =
    let onward : (r : ℤ)
        → Puts z (zcopy_loop r (received (pos_part r) t z) ts).1 (t.pages ++ taken_pages ts) =
      λ r.
        let one = received-Puts (pos_part r) t z c few.0 in
        let rest = zcopy_loop-Puts r (received (pos_part r) t z) ts one.0 few.1 in
        (
          rest.0,
          rest.1
              ∙ ap (λ u. u ++ taken_pages ts) one.1
              ∙ append_assoc z.puts t.pages (taken_pages ts),
        ) in
    let next =
      after_read-Puts t ts z (zcopy_loop (pos 0) (ticked t z) ts)
        (λ r. zcopy_loop r (received (pos_part r) t z) ts) (tcp_read_sock_zcopy_blocking t.peeks).1
        (Blocking-Nonzero t.peeks (tcp_read_sock_zcopy_blocking t.peeks)
          (tcp_read_sock_zcopy_blocking_lem t.peeks))
        c onward in
    elim (Bool-cases t.stop) [
      | inl e ↦ ground (arith, e, c, append-nil z.puts)
      | inr e ↦ ground (arith, e, next)
    ]

-- For reads of at most sixteen pages, start_new_connection_z has put the pages of the reads whose
-- bytes it counted, each once and in their order, and its sixteen cells are NULL, at every point of
-- its run.
pub start_new_connection_z_lem :
    (now : ℕ) (turns : List TurnZ)
    → All (λ t. length t.pages ≤ vec_sz) turns
    → let z = (start_new_connection_z now turns).1 in
      (z.cells ≡ nulls vec_sz) × (z.puts ≡ taken_pages turns)
unfolding start_new_connection_z
start_new_connection_z_lem now turns few =
    zcopy_loop-Puts (pos 0) (record { meter = meter now; cells = nulls vec_sz; puts = [] }) turns
      refl few
