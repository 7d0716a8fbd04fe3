-- ===== src/ServerList.antt =====
-- The list of the servers in /proc: proc_read_string of tcpsplit/split.c and cbn_proc_show of
-- tcpsplit/proc.c. A text is the list of its bytes. rbtree_postorder_for_each_entry_safe is the
-- kernel's: it visits the left tree, the right tree and then the node.
pub mod Bounds
pub mod Servers
mod Tests
use mathlib.Core.Option
use ktcp_split.Common.{
  ℕ, Bool, Option, none, some, List, [], ◌∷◌, ◌++◌, ◌>>=◌, length, ltb, if◌then◌else◌,
}
use ktcp_split.Common.Int.{ℤ, pos, neg}
use ktcp_split.Common.Text.{codes, concat, print_nat, print_int, sprintf}
use ktcp_split.Common.Words.{signed32}
use ktcp_split.RbTree.{Tree, leaf, node}
use ktcp_split.Listner.{Entry, Info, Registry}
use ktcp_split.Proc.{page_size}

abbrev pub postorder : Tree Entry → List Entry
postorder leaf = []
postorder (node l e r) = postorder l ++ postorder r ++ (e ∷ [])

-- "tid=%d port=%d status=%d\n" of the three numbers' texts.
abbrev pub fields : List ℕ → List ℕ → List ℕ → List ℕ
fields tid port status =
    concat
      (codes "tid=" ∷ tid ∷ codes " port=" ∷ port ∷ codes " status=" ∷ status ∷ codes "\n" ∷ [])

unfoldable pub line : (ℕ → Info) → Entry → List ℕ
line info e =
    fields (print_int (signed32 e.key)) (print_nat (info e.addr).port)
      (print_nat (info e.addr).status)

-- The loop; `none` is a write past the end of the page.
unfoldable pub print_lines : (ℕ → Info) → List Entry → List ℕ → Option (List ℕ)
print_lines info [] buffer = some buffer
print_lines info (e ∷ es) buffer = sprintf page_size buffer (line info e) >>= print_lines info es

-- The first argument tells whether the page was allocated. The inner `none` is NULL; `*loc` is the
-- length of the text.
unfoldable pub proc_read_string : Bool → Registry → Option (Option (List ℕ))
proc_read_string page r =
    if page then Option.map some (print_lines r.info (postorder r.tree) []) else some none

abbrev pub eagain : ℕ
eagain = 11

-- What it gives to the reader, and its result.
abbrev show : Option (List ℕ) → List ℕ × ℤ
show none = ([], neg eagain)
show (some text) = (
  (if ltb 0 (length text) then text else [])
      ++ codes "buffer len = "
      ++ print_nat (length text)
      ++ codes "/4096",
  pos (length text),
)

pub cbn_proc_show : Bool → Registry → Option (List ℕ × ℤ)
unfolding proc_read_string
cbn_proc_show page r = proc_read_string page r >>= λ text. some (show text)
