-- ===== src/Preconn/Opened.antt =====
-- A pool that is opened for a next hop that has none.
use native.Mathlib.Decide.{ℕ_discrete}
use ktcp_split.Common.{
  ℕ, ◌+◌, ◌^◌, ◌<◌, ◌≡◌, refl, ap, sym, ◌∙◌, true, false, Option, none, some, ◌∷◌, arith, ◌==◌,
  if◌then◌else◌, Option-cases, inl, inr, ◌⊎◌,
}
use ktcp_split.Common.Words.{u32}
use ktcp_split.RbTree.{RbOps}
use ktcp_split.Listner.{Entry, rank, search_rb_listner, add_rb_listner}
use ktcp_split.Listner.Laws.{
  serves, added_tree, added-IsValid, serves-added, added-Links, not_there,
}
use ktcp_split.Preconn.{
  Pools, search_rb_preconn, add_rb_preconn, get_rb_preconn, init_preconn, after_init, linked,
  add_preconn_qp, set_list, clear_lists,
}
use ktcp_split.Preconn.Stacks.{found, stack, as_registry, IsPools, IsFresh}

-- The pools with the new one, which is empty.
abbrev pub opened_pools : RbOps Entry rank → Pools → Entry → Pools
opened_pools rb p e = record p {
  tree = added_tree rb (as_registry p) e;
  lists = clear_lists p.lists e.addr;
}

module _ (rb : RbOps Entry rank) (p : Pools) (v : IsPools p) (e : Entry) (small : e.key < 2 ^ 31)
    (new : found p e.key ≡ none) where
  abbrev opened : Pools
  opened = opened_pools rb p e

  unserved : serves (as_registry p) e.key ≡ none
  unfolding search_rb_listner search_rb_preconn
  unserved = new

  not_first : (add_rb_preconn rb p.tree e).0 ≡ none
  unfolding add_rb_preconn add_rb_listner
  not_first =
      (added-Links rb (as_registry p) v.valid e small).0
      ∙ not_there rb (as_registry p) v.valid e small unserved

  pub linked-opened : linked rb e (after_init true e p) ≡ (some e, opened)
  unfolding init_preconn add_rb_preconn add_rb_listner
  linked-opened =
      ap
        (λ o. elim o as (λ _. Option Entry × Pools) [
          | none ↦ (some e, opened)
          | some o' ↦ (none, after_init true e p)
        ])
        not_first

  pub found-opened :
      (k : ℕ) → k < 2 ^ 31 → found opened k ≡ (if e.key == k then some e else found p k)
  unfolding search_rb_preconn search_rb_listner
  found-opened k h =
      serves-added rb (as_registry p) v.valid e small unserved (as_registry opened) k refl h

  -- Without memory for its lists the object is linked too.
  pub linked-failed :
      linked rb e (after_init false e p)
      ≡ (some e, record p { tree = added_tree rb (as_registry p) e; fault = true })
  unfolding init_preconn add_rb_preconn add_rb_listner
  linked-failed =
      ap
        (λ o. elim o as (λ _. Option Entry × Pools) [
          | none ↦ (some e, record p { tree = added_tree rb (as_registry p) e; fault = true })
          | some o' ↦ (none, after_init false e p)
        ])
        not_first

  new_or_old :
      (k : ℕ) (d : Entry)
      → k < 2 ^ 31
      → found opened k ≡ some d
      → (e.key ≡ k) × (d ≡ e) ⊎ (found p k ≡ some d)
  new_or_old k d h hk =
      let o = sym (found-opened k h) ∙ hk in
      elim (ℕ_discrete e.key k) [
        | yes same ↦ inl (same, ground (arith, o, same))
        | no other ↦ inr ground (arith, o)
      ]

  pub add-new :
      (cpu qp : ℕ)
      → add_preconn_qp rb (some (e.addr, true)) e.key cpu qp p ≡ (
        true,
        record opened {
          lists = set_list opened.lists e.addr cpu (record {
            list = qp ∷ (opened.lists e.addr cpu).list;
            len = u32 ((opened.lists e.addr cpu).len + 1);
          });
        },
      )
  unfolding add_preconn_qp get_rb_preconn
  add-new cpu qp = ground (arith, new, linked-opened)

  module _ (fresh : IsFresh p e.addr) where
    pub stack-opened : (k c : ℕ) → k < 2 ^ 31 → stack opened k c ≡ stack p k c
    stack-opened k c h = elim (ℕ_discrete e.key k) [
      | yes same ↦
          rw (found-opened k h) (rw same (rw (ap (found p) (sym same) ∙ new) (ground arith)))
      | no other ↦ elim (Option-cases (found p k)) [
        | inl none' ↦ rw (found-opened k h) (rw none' (ground arith))
        | inr (d, h') ↦ let far = fresh k d h h' in rw (found-opened k h) (rw h' (ground arith))
      ]
    ]

    pub opened-IsPools : IsPools opened
    opened-IsPools = record {
      valid = added-IsValid rb (as_registry p) v.valid e small (as_registry opened) refl;
      apart = λ j k d d' j' k' hj hk same. elim (new_or_old j d j' hj) [
        | inl (a, a') ↦ elim (new_or_old k d' k' hk) [
          | inl (b, b') ↦ sym a ∙ b
          | inr h ↦ absurd (fresh k d' k' h (sym same ∙ ap (λ x. x.addr) a'))
        ]
        | inr h ↦ elim (new_or_old k d' k' hk) [
          | inl (b, b') ↦ absurd (fresh j d j' h (same ∙ ap (λ x. x.addr) b'))
          | inr h' ↦ v.apart j k d d' j' k' h h' same
        ]
      ];
    }
