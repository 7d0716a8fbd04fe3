-- ===== src/Preconn/Stacks.antt =====
-- The pools as their users see them: for each next hop and each CPU a stack of connections.
use native.Mathlib.Decide.{ℕ_discrete}
use ktcp_split.Common.{
  ℕ, ◌+◌, ◌^◌, ◌<◌, ◌≡◌, ◌≢◌, ap, sym, ◌∙◌, Bool, true, false, Option, none, some, List, [], ◌∷◌,
  arith, ◌==◌, ◌&&◌, if◌then◌else◌, Option-cases, inl, inr, All, subst,
}
use ktcp_split.Common.Words.{u32}
use ktcp_split.RbTree.{RbOps, in_order}
use ktcp_split.RbTree.Lists.{find-split}
use ktcp_split.RbTree.Laws.{All-split}
use ktcp_split.Listner.{Entry, rank, Registry, search_rb_listner}
use ktcp_split.Listner.Laws.{IsValid, serves-find}
use ktcp_split.Preconn.{
  Pools, PercpuList, search_rb_preconn, get_rb_preconn, add_preconn_qp, popped,
  alloc_prexeisting_conn, set_list,
}

abbrev pub found : Pools → ℕ → Option Entry
found p key = search_rb_preconn p.tree key

abbrev stack_of : Option Entry → Pools → ℕ → List ℕ
stack_of none p cpu = []
stack_of (some e) p cpu = (p.lists e.addr cpu).list

-- The connections for a next hop on a CPU.
abbrev pub stack : Pools → ℕ → ℕ → List ℕ
stack p key cpu = stack_of (found p key) p cpu

pub stack-found :
    (p : Pools) (k c : ℕ) (e : Entry) → found p k ≡ some e → stack p k c ≡ (p.lists e.addr c).list
stack-found p k c e h = ap (λ o. stack_of o p c) h

pub stack-missing : (p : Pools) (k c : ℕ) → found p k ≡ none → stack p k c ≡ []
stack-missing p k c h = ap (λ o. stack_of o p c) h

-- The tree as that of the servers, which it shares its search with.
abbrev pub as_registry : Pools → Registry
as_registry p = record {
  tree = p.tree;
  info = λ a. record { port = 0; status = 0; sock = none; raw = none };
}

-- The entries are in order, and no two share their lists.
pub record IsPools (p : Pools) : Type 0 where
  pub valid : IsValid (as_registry p)
  pub apart :
      (j k : ℕ) (d e : Entry)
      → j < 2 ^ 31
      → k < 2 ^ 31
      → found p j ≡ some d
      → found p k ≡ some e
      → d.addr ≡ e.addr
      → j ≡ k

-- A pair that is added for a next hop on a CPU.
abbrev pub pushed : ℕ → ℕ → ℕ → (ℕ → ℕ → List ℕ) → ℕ → ℕ → List ℕ
pushed hop cpu qp s k c = if (hop == k) && (cpu == c) then qp ∷ s k c else s k c

-- The lists that change are those of one address.
pub stack-set_list :
    (p : Pools) (hop cpu k c : ℕ) (l : PercpuList) (e : Entry)
    → IsPools p
    → hop < 2 ^ 31
    → k < 2 ^ 31
    → found p hop ≡ some e
    → stack (record p { lists = set_list p.lists e.addr cpu l }) k c
      ≡ (if (hop == k) && (cpu == c) then l.list else stack p k c)
stack-set_list p hop cpu k c l e v small small' h = elim (ℕ_discrete hop k) [
  | yes same ↦ let here : found p k ≡ some e = ap (found p) (sym same) ∙ h in rw here (ground arith)
  | no other ↦ elim (Option-cases (found p k)) [
    | inl none' ↦ rw none' (ground arith)
    | inr (d, h') ↦
        let far : e.addr ≢ d.addr = λ same. other (v.apart hop k e d small small' h h' same) in
        rw h' (ground arith)
  ]
]

pub relist : (p : Pools) (l : ℕ → ℕ → PercpuList) → IsPools p → IsPools (record p { lists = l })
relist p l v = record { valid = v.valid; apart = v.apart }

-- No pool stands at an address.
abbrev pub IsFresh : Pools → ℕ → Type 0
IsFresh p addr = (k : ℕ) (d : Entry) → k < 2 ^ 31 → found p k ≡ some d → d.addr ≢ addr

pub IsFresh-All :
    (p : Pools) (addr : ℕ)
    → IsPools p
    → All (λ (e : Entry). e.addr ≢ addr) (in_order p.tree)
    → IsFresh p addr
unfolding search_rb_preconn search_rb_listner
IsFresh-All p addr v a k d small h =
    let there = sym (serves-find (as_registry p) v.valid k small) ∙ h in
    let (before, after, split, _, _) = find-split rank k (in_order p.tree) d there in
    (All-split (λ (e : Entry). e.addr ≢ addr) before d after
      (subst (All (λ (e : Entry). e.addr ≢ addr)) split a)).1

-- A pair for a next hop that has a pool.
pub add-there :
    (rb : RbOps Entry rank) (slab : Option (ℕ × Bool)) (p : Pools) (hop cpu qp : ℕ) (e : Entry)
    → found p hop ≡ some e
    → add_preconn_qp rb slab hop cpu qp p ≡ (
      true,
      record p {
        lists = set_list p.lists e.addr cpu (record {
          list = qp ∷ (p.lists e.addr cpu).list;
          len = u32 ((p.lists e.addr cpu).len + 1);
        });
      },
    )
unfolding add_preconn_qp get_rb_preconn
add-there rb slab p hop cpu qp e h = ground (arith, h)

pub add-failed :
    (rb : RbOps Entry rank) (p : Pools) (hop cpu qp : ℕ)
    → found p hop ≡ none
    → add_preconn_qp rb none hop cpu qp p ≡ (false, p)
unfolding add_preconn_qp get_rb_preconn
add-failed rb p hop cpu qp h = ground (arith, h)

pub take-there :
    (p : Pools) (hop cpu : ℕ) (e : Entry)
    → found p hop ≡ some e
    → alloc_prexeisting_conn hop cpu p ≡ popped p e.addr cpu (p.lists e.addr cpu).list
unfolding alloc_prexeisting_conn
take-there p hop cpu e h = ground (arith, h)

pub take-failed :
    (p : Pools) (hop cpu : ℕ) → found p hop ≡ none → alloc_prexeisting_conn hop cpu p ≡ (none, p)
unfolding alloc_prexeisting_conn
take-failed p hop cpu h = ground (arith, h)
