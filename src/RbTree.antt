-- ===== src/RbTree.antt =====
-- The search trees of tcpsplit/rb_data_tree.h and tcpsplit/preconn_rb_tree.h. The two loops, down the
-- tree to a node or to a free place, are the repository's; rb_insert_color and rb_erase are the
-- kernel's, and stand as parameters that keep the order of the entries.
pub mod Lists
pub mod Laws
pub mod Plain
pub mod PostOrder
use ktcp_split.Common.{
  ℕ, zero, suc, ◌≡◌, Bool, Option, none, some, List, [], ◌∷◌, ◌++◌, ltb, ◌==◌, if◌then◌else◌,
}
use Lists.{IsSorted}

-- The sign of the `int result` of a comparison.
pub data Sign : Type 0 where
  below same above : Sign

abbrev pub sign_of : ℕ → ℕ → Sign
sign_of a b = if ltb a b then below else (if a == b then same else above)

pub data Tree {ℓ} (A : Type ℓ) : Type ℓ where
  leaf : Tree A
  node : Tree A → A → Tree A → Tree A

abbrev pub in_order {ℓ} : {A : Type ℓ} → Tree A → List A
in_order leaf = []
in_order (node l x r) = in_order l ++ (x ∷ in_order r)

module _ {ℓ} {A : Type ℓ} (probe : A → Sign) where
  -- `while (node)`: `probe this` is the sign of the key minus that of `this`.
  unfoldable pub search_rb : Tree A → Option A
  search_rb leaf = none
  search_rb (node l x r) = elim (probe x) [
    | below ↦ search_rb l
    | same ↦ some x
    | above ↦ search_rb r
  ]

  -- `while (*new)` and rb_link_node: the entry that has the key already, and the tree.
  pub link_rb : A → Tree A → Option A × Tree A
  link_rb d leaf = (none, node leaf d leaf)
  link_rb d (node l x r) = elim (probe x) [
    | below ↦ let (old, l') = link_rb d l in (old, node l' x r)
    | same ↦ (some x, node l x r)
    | above ↦ let (old, r') = link_rb d r in (old, node l x r')
  ]

-- lib/rbtree.c of the kernel, for entries ordered by `rank`.
pub record RbOps {ℓ} (A : Type ℓ) (rank : A → ℕ) : Type ℓ where
  pub insert_color : Tree A → Tree A
  pub erase : A → Tree A → Tree A
  pub insert_color_law : (t : Tree A) → in_order (insert_color t) ≡ in_order t
  pub erase_law :
      (t : Tree A) (xs : List A) (x : A) (ys : List A)
      → IsSorted rank (in_order t)
      → in_order t ≡ xs ++ (x ∷ ys)
      → in_order (erase x t) ≡ xs ++ ys

module _ {ℓ} {A : Type ℓ} {rank : A → ℕ} (rb : RbOps A rank) where
  abbrev colored : Option A × Tree A → Option A × Tree A
  colored (none, t) = (none, rb.insert_color t)
  colored (some x, t) = (some x, t)

  -- The duplicate, or `none` and the tree with the new entry.
  pub add_rb : (A → Sign) → A → Tree A → Option A × Tree A
  unfolding link_rb
  add_rb probe d t = colored (link_rb probe d t)
