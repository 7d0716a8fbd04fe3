-- ===== src/ServerList/Servers.antt =====
-- The servers in the list are those of the registry.
use mathlib.Core.Option
use ktcp_split.Common.{
  ℕ, ◌+◌, ◌*◌, ◌^◌, ◌<◌, ◌≤◌, ◌≡◌, refl, sym, ap, ◌∙◌, true, Option, none, some, List, [], ◌∷◌,
  ◌++◌, arith, All, length, length-append, if◌then◌else◌, ◌==◌,
}
use ktcp_split.RbTree.{Tree, leaf, node, in_order}
use ktcp_split.RbTree.Lists.{IsSorted, find}
use ktcp_split.Listner.{Entry, rank, Registry}
use ktcp_split.Listner.Laws.{IsValid, serves, serves-find}
use ktcp_split.Proc.{page_size}
use ktcp_split.ServerList.{postorder, proc_read_string}
use ktcp_split.ServerList.Bounds.{
  Typed, length-lines, lines, print_lines-fits, print_lines-overflows,
}

module _ (P : Entry → Type 0) where
  pub All-append : (xs ys : List Entry) → All P xs → All P ys → All P (xs ++ ys)
  All-append [] ys p q = q
  All-append (x ∷ xs) ys p q = (p.0, All-append xs ys p.1 q)

  All-appended : (xs ys : List Entry) → All P (xs ++ ys) → All P xs × All P ys
  All-appended [] ys p = (tt, p)
  All-appended (x ∷ xs) ys p = let (q, r) = All-appended xs ys p.1 in ((p.0, q), r)

  All-postorder : (t : Tree Entry) → All P (in_order t) → All P (postorder t)
  All-postorder leaf p = tt
  All-postorder (node l e r) p =
      let (q, h) = All-appended (in_order l) (e ∷ in_order r) p in
      All-append (postorder l ++ postorder r) (e ∷ [])
        (All-append (postorder l) (postorder r) (All-postorder l q) (All-postorder r h.1)) (h.0, tt)

length-postorder : (t : Tree Entry) → length (postorder t) ≡ length (in_order t)
length-postorder leaf = refl
length-postorder (node l e r) = omega (
  arith,
  length-postorder l,
  length-postorder r,
  length-append (in_order l) (e ∷ in_order r),
  length-append (postorder l) (postorder r),
  length-append (postorder l ++ postorder r) (e ∷ []),
)

-- How often the tenant `key` is in a list.
abbrev pub listed : ℕ → List Entry → ℕ
listed key [] = 0
listed key (e ∷ es) = (if e.key == key then 1 else 0) + listed key es

abbrev pub present : Option Entry → ℕ
present none = 0
present (some e) = 1

module _ (key : ℕ) where
  listed-append : (xs ys : List Entry) → listed key (xs ++ ys) ≡ listed key xs + listed key ys
  listed-append [] ys = omega arith
  listed-append (x ∷ xs) ys = omega (arith, listed-append xs ys)

  listed-postorder : (t : Tree Entry) → listed key (postorder t) ≡ listed key (in_order t)
  listed-postorder leaf = refl
  listed-postorder (node l e r) = omega (
    arith,
    listed-postorder l,
    listed-postorder r,
    listed-append (in_order l) (e ∷ in_order r),
    listed-append (postorder l) (postorder r),
    listed-append (postorder l ++ postorder r) (e ∷ []),
  )

  listed_above : (n : ℕ) (es : List Entry) → key ≤ n → All (λ e. n < e.key) es → listed key es ≡ 0
  listed_above n [] h a = refl
  listed_above n (e ∷ es) h a = ground (arith, listed_above n es h a.1)

  listed-find : (es : List Entry) → IsSorted rank es → listed key es ≡ present (find rank key es)
  listed-find [] s = refl
  listed-find (e ∷ es) s = ground (arith, listed_above e.key es, listed-find es s.1)

module _ (r : Registry) (typed : All (Typed r.info) (in_order r.tree)) where
  -- In a valid registry of at most 102 servers, whose fields have their C types, proc_read_string
  -- with its page allocated gives the lines of a list of servers in which each tenant id below 2 ^ 31
  -- occurs once if the tenant has a server and not at all otherwise; the text fits in the page.
  pub proc_read_string_lem :
      IsValid r
      → length (in_order r.tree) ≤ 102
      → (es : List Entry) × (proc_read_string true r ≡ some (some (lines r.info es)))
        × (length (lines r.info es) < page_size)
        × ((key : ℕ) → key < 2 ^ 31 → listed key es ≡ present (serves r key))
  unfolding proc_read_string
  proc_read_string_lem v few =
      let es = postorder r.tree in
      let short : 40 * length es < page_size = omega (arith, length-postorder r.tree) in
      let all = All-postorder (Typed r.info) r.tree typed in
      (
        es,
        ap (Option.map some) (print_lines-fits r.info es [] all (omega (arith, short))),
        omega (arith, short, length-lines r.info es all),
        λ key k.
            listed-postorder key r.tree
            ∙ listed-find key (in_order r.tree) v.sorted
            ∙ ap present (sym (serves-find r v key k)),
      )

  -- With 187 servers or more, whose fields have their C types, proc_read_string writes past the end
  -- of its page.
  pub proc_read_string-overflows : 187 ≤ length (in_order r.tree) → proc_read_string true r ≡ none
  unfolding proc_read_string
  proc_read_string-overflows many = ap (Option.map some) (
      print_lines-overflows r.info (postorder r.tree) [] (All-postorder (Typed r.info) r.tree typed)
        (omega arith) (omega (arith, length-postorder r.tree)))
