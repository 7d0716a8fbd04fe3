-- ===== src/ServerList/Tests.antt =====
-- The list of a registry with the tenants 2 and 7, and of a large one.
use ktcp_split.Common.{
  ℕ, zero, suc, ◌+◌, ◌^◌, ◌<◌, ◌≤◌, ◌≡◌, refl, true, false, none, some, List, [], ◌∷◌, arith,
  length, All,
}
use ktcp_split.Common.Int.{negsuc}
use ktcp_split.Common.Text.{codes, digits}
use ktcp_split.RbTree.{Tree, leaf, node, in_order}
use ktcp_split.Listner.{Entry, Info, Registry}
use ktcp_split.Listner.Laws.{IsValid, serves}
use ktcp_split.Proc.{page_size}
use ktcp_split.ServerList.{line, print_lines, proc_read_string, cbn_proc_show}
use ktcp_split.ServerList.Bounds.{Typed, lines}
use ktcp_split.ServerList.Servers.{
  All-append, listed, present, proc_read_string_lem, proc_read_string-overflows,
}

abbrev two : Entry
two = record { key = 2; addr = 100 }

abbrev seven : Entry
seven = record { key = 7; addr = 200 }

abbrev info : ℕ → Info
info a = record { port = 5557; status = 6; sock = some a; raw = some (a + 1) }

abbrev registry : Registry
registry = record { tree = node leaf two (node leaf seven leaf); info = info }

listing :
    proc_read_string true registry
    ≡ some (some (codes "tid=7 port=5557 status=6\ntid=2 port=5557 status=6\n"))
unfolding proc_read_string print_lines line digits
listing = refl

no_page : cbn_proc_show false registry ≡ some (codes "", negsuc 10)
unfolding cbn_proc_show
no_page = refl

registry-IsValid : IsValid registry
registry-IsValid = omega arith

registry-Typed : All (Typed info) (in_order registry.tree)
registry-Typed = omega arith

proc_read_string_lem_example :
    (es : List Entry) × (proc_read_string true registry ≡ some (some (lines info es)))
    × (length (lines info es) < page_size)
    × ((key : ℕ) → key < 2 ^ 31 → listed key es ≡ present (serves registry key))
proc_read_string_lem_example =
    proc_read_string_lem registry registry-Typed registry-IsValid (omega arith)

-- The tenants n - 1, ..., 0.
abbrev tenants : ℕ → Tree Entry
tenants zero = leaf
tenants (suc n) = node (tenants n) (record { key = n; addr = 100 }) leaf

abbrev full : Registry
full = record { tree = tenants 187; info = info }

tenants-Typed : (n : ℕ) → n ≤ 1000 → All (Typed info) (in_order (tenants n))
tenants-Typed zero h = tt
tenants-Typed (suc n) h =
    All-append (Typed info) (in_order (tenants n)) (record { key = n; addr = 100 } ∷ [])
      (tenants-Typed n (omega arith))
      (record { key = omega arith; port = omega arith; status = omega arith }, tt)

proc_read_string-overflows_example : proc_read_string true full ≡ none
proc_read_string-overflows_example =
    proc_read_string-overflows full (tenants-Typed 187 (omega arith)) (omega arith)
