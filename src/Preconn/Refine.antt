-- ===== src/Preconn/Refine.antt =====
-- Sequences of operations on the pools give the answers that stacks of connections give.
use native.Mathlib.Decide.{ℕ_discrete}
use ktcp_split.Common.{
  ℕ, ◌^◌, ◌<◌, ◌≡◌, ◌≢◌, refl, ap, sym, ◌∙◌, Bool, true, false, Option, none, some, List, [], ◌∷◌,
  arith, ◌==◌, ◌&&◌, ◌||◌, if◌then◌else◌, Option-cases, inl, inr, All,
}
use ktcp_split.RbTree.{RbOps, in_order}
use ktcp_split.Listner.{Entry, rank}
use ktcp_split.Preconn.{Pools, PercpuList, add_preconn_qp, alloc_prexeisting_conn, popped, set_list}
use ktcp_split.Preconn.Runs.{Op, add, take}
use ktcp_split.Preconn.View.{Answer, added, taken, View, is_some, dropped, take_from, ask, ask_all}
use ktcp_split.Preconn.Stacks.{
  IsPools, stack, found, pushed, IsFresh, IsFresh-All, stack-set_list, relist, add-there,
  add-failed, take-there, take-failed, stack-found, stack-missing,
}
use ktcp_split.Preconn.Opened.{opened_pools, opened-IsPools, found-opened, stack-opened, add-new}

module _ (rb : RbOps Entry rank) where
  abbrev pub carry_out : Op → Pools → Answer × Pools
  carry_out (add slab hop cpu qp) p =
      let (ok, p') = add_preconn_qp rb slab hop cpu qp p in (added ok, p')
  carry_out (take hop cpu) p = let (qp, p') = alloc_prexeisting_conn hop cpu p in (taken qp, p')

  unfoldable pub carry_out_all : List Op → Pools → List Answer × Pools
  carry_out_all [] p = ([], p)
  carry_out_all (op ∷ ops) p =
      let (a, p') = carry_out op p in let (rest, p'') = carry_out_all ops p' in (a ∷ rest, p'')

pub record Shows (p : Pools) (w : View) : Type 0 where
  pub pools : IsPools p
  pub sound : p.fault ≡ false
  pub knows : (k : ℕ) → k < 2 ^ 31 → is_some (found p k) ≡ w.known k
  pub holds : (k c : ℕ) → k < 2 ^ 31 → stack p k c ≡ w.stacks k c

-- What the slab gives is at an address where no pool stands, and there is memory for its lists.
abbrev pub IsNew : Option (ℕ × Bool) → Pools → Type 0
IsNew none p = Unit
IsNew (some (addr, false)) p = ⊥
IsNew (some (addr, true)) p = All (λ (e : Entry). e.addr ≢ addr) (in_order p.tree)

-- The next hop is below 2^31. The slab is asked only for a next hop that has no pool.
abbrev pub Suits : Op → Pools → Type 0
Suits (add slab hop cpu qp) p = (hop < 2 ^ 31) × (found p hop ≡ none → IsNew slab p)
Suits (take hop cpu) p = hop < 2 ^ 31

known_again : (known : ℕ → Bool) (hop k : ℕ) → known hop ≡ true → known k ≡ ((hop == k) || known k)
known_again known hop k h = elim (ℕ_discrete hop k) [
  | yes same ↦ ground (arith, sym (ap known same) ∙ h)
  | no other ↦ ground arith
]

pushed_there :
    (s : ℕ → ℕ → List ℕ) (hop cpu qp k c : ℕ) (list : List ℕ)
    → s hop cpu ≡ list
    → dropped hop cpu (qp ∷ list) s k c ≡ pushed hop cpu qp s k c
pushed_there s hop cpu qp k c list h = elim (ℕ_discrete hop k) [
  | yes same ↦ elim (ℕ_discrete cpu c) [
    | yes same' ↦
        let here : s k c ≡ list = sym (ap (λ j. s j c) same) ∙ sym (ap (s hop) same') ∙ h in
        ground (arith, here)
    | no other ↦ ground arith
  ]
  | no other ↦ ground arith
]

module _ (p : Pools) (w w' : View) (v : Shows p w) (hop cpu : ℕ) (small : hop < 2 ^ 31) (e : Entry)
    (h : found p hop ≡ some e) where
  replaced :
      (l : PercpuList)
      → ((k : ℕ) → w.known k ≡ w'.known k)
      → ((k c : ℕ) → dropped hop cpu l.list w.stacks k c ≡ w'.stacks k c)
      → Shows (record p { lists = set_list p.lists e.addr cpu l }) w'
  replaced l same there = record {
    pools = relist p (set_list p.lists e.addr cpu l) v.pools;
    sound = v.sound;
    knows = λ k h'. v.knows k h' ∙ same k;
    holds = λ k c h'.
        stack-set_list p hop cpu k c l e v.pools small h' h
        ∙ ap (λ s. if (hop == k) && (cpu == c) then l.list else s) (v.holds k c h')
        ∙ there k c;
  }

  pub list_there : w.stacks hop cpu ≡ (p.lists e.addr cpu).list
  list_there = sym (v.holds hop cpu small) ∙ stack-found p hop cpu e h

  pub known_there : w.known hop ≡ true
  known_there = sym (v.knows hop small) ∙ ap (λ o. is_some o) h

module _ (rb : RbOps Entry rank) (p : Pools) (w : View) (v : Shows p w) (hop cpu : ℕ)
    (small : hop < 2 ^ 31) where
  popped_lem :
      (e : Entry) (list : List ℕ)
      → found p hop ≡ some e
      → let (a, p') = popped p e.addr cpu list in
        let (a', w') = take_from hop cpu w list in (taken a ≡ a') × Shows p' w'
  popped_lem e [] h = (refl, v)
  popped_lem e (qp ∷ rest) h =
      (refl, replaced p w _ v hop cpu small e h _ (λ k. refl) (λ k c. refl))

  take_lem :
      let (a, p') = carry_out rb (take hop cpu) p in
      let (a', w') = ask (take hop cpu) w in (a ≡ a') × Shows p' w'
  unfolding ask
  take_lem = elim (Option-cases (found p hop)) [
    | inl h ↦
        rw (take-failed p hop cpu h)
          (rw (sym (v.holds hop cpu small) ∙ stack-missing p hop cpu h) (refl, v))
    | inr (e, h) ↦
        rw (take-there p hop cpu e h) (rw (list_there p w w v hop cpu small e h) (popped_lem e _ h))
  ]

  push_lem :
      (slab : Option (ℕ × Bool)) (qp : ℕ) (e : Entry)
      → found p hop ≡ some e
      → let (a, p') = carry_out rb (add slab hop cpu qp) p in
        let (a', w') = ask (add slab hop cpu qp) w in (a ≡ a') × Shows p' w'
  unfolding ask
  push_lem slab qp e h =
      let yes_known = known_there p w w v hop cpu small e h in
      let list = list_there p w w v hop cpu small e h in
      rw (add-there rb slab p hop cpu qp e h) (
        rw yes_known (
          refl,
          replaced p w _ v hop cpu small e h _ (λ k. known_again w.known hop k yes_known)
              (λ k c. pushed_there w.stacks hop cpu qp k c _ list),
        ))

  module _ (addr : ℕ) (h : found p hop ≡ none) (a : IsFresh p addr) where
    abbrev new_entry : Entry
    new_entry = record { key = hop; addr = addr }

    abbrev new_view : View
    new_view = record w { known = λ k. (hop == k) || w.known k }

    opened_lem : Shows (opened_pools rb p new_entry) new_view
    opened_lem = record {
      pools = opened-IsPools rb p v.pools new_entry small h a;
      sound = v.sound;
      knows = λ k k'.
          let o = found-opened rb p v.pools new_entry small h k k' in
          ground (arith, o, v.knows k k');
      holds = λ k c k'. stack-opened rb p v.pools new_entry small h a k c k' ∙ v.holds k c k';
    }

    new_lem :
        (qp : ℕ)
        → let (a, p') = carry_out rb (add (some (addr, true)) hop cpu qp) p in
          let (a', w') = ask (add (some (addr, true)) hop cpu qp) w in (a ≡ a') × Shows p' w'
    unfolding ask
    new_lem qp =
        let there : found (opened_pools rb p new_entry) hop ≡ some new_entry =
          found-opened rb p v.pools new_entry small h hop small ∙ ground arith in
        let list =
          list_there (opened_pools rb p new_entry) new_view w opened_lem hop cpu small new_entry
            there in
        rw (add-new rb p v.pools new_entry small h cpu qp) (
          rw (sym (v.knows hop small) ∙ ap (λ o. is_some o) h) (
            refl,
            replaced (opened_pools rb p new_entry) new_view _ opened_lem hop cpu small new_entry
                there _ (λ k. refl) (λ k c. pushed_there w.stacks hop cpu qp k c _ list),
          ))

  failed_lem :
      (qp : ℕ)
      → found p hop ≡ none
      → let (a, p') = carry_out rb (add none hop cpu qp) p in
        let (a', w') = ask (add none hop cpu qp) w in (a ≡ a') × Shows p' w'
  unfolding ask
  failed_lem qp h =
      rw (add-failed rb p hop cpu qp h)
        (rw (sym (v.knows hop small) ∙ ap (λ o. is_some o) h) (refl, v))

module _ (rb : RbOps Entry rank) where
  added_lem :
      (slab : Option (ℕ × Bool)) (hop cpu qp : ℕ) (p : Pools) (w : View)
      → Shows p w
      → hop < 2 ^ 31
      → (found p hop ≡ none → IsNew slab p)
      → let (a, p') = carry_out rb (add slab hop cpu qp) p in
        let (a', w') = ask (add slab hop cpu qp) w in (a ≡ a') × Shows p' w'
  added_lem slab hop cpu qp p w v small new = elim (Option-cases (found p hop)) [
    | inr (e, h) ↦ push_lem rb p w v hop cpu small slab qp e h
    | inl h ↦ first slab (new h) h
  ]
    where
      first :
          (slab : Option (ℕ × Bool))
          → IsNew slab p
          → found p hop ≡ none
          → let (a, p') = carry_out rb (add slab hop cpu qp) p in
            let (a', w') = ask (add slab hop cpu qp) w in (a ≡ a') × Shows p' w'
      first none new h = failed_lem rb p w v hop cpu small qp h
      first (some (addr, false)) new h = absurd new
      first (some (addr, true)) new h =
          new_lem rb p w v hop cpu small addr h (IsFresh-All p addr v.pools new) qp

  pub carry_out_lem :
      (op : Op) (p : Pools) (w : View)
      → Shows p w
      → Suits op p
      → let (a, p') = carry_out rb op p in let (a', w') = ask op w in (a ≡ a') × Shows p' w'
  carry_out_lem (add slab hop cpu qp) p w v (small, new) = added_lem slab hop cpu qp p w v small new
  carry_out_lem (take hop cpu) p w v small = take_lem rb p w v hop cpu small

  abbrev pub Suited : List Op → Pools → Type 0
  Suited [] p = Unit
  Suited (op ∷ ops) p = Suits op p × Suited ops (carry_out rb op p).1

  -- Take pools that show a view, that is: the entries of the tree are in order, their keys are
  -- below 2^31, no two of them share an address, no freed memory was used, and for each next hop
  -- below 2^31 the view says whether it has a pool and which pairs the pool holds on each CPU. Then
  -- any sequence of additions and removals, for next hops below 2^31, where a new object is at an
  -- address where no pool stands and there is memory for its lists, gives the answers that stacks of
  -- pairs give, one for each next hop and CPU, and the pools show the stacks that come out.
  pub carry_out_all_lem :
      (ops : List Op) (p : Pools) (w : View)
      → Shows p w
      → Suited ops p
      → let (answers, p') = carry_out_all rb ops p in
        let (answers', w') = ask_all ops w in (answers ≡ answers') × Shows p' w'
  unfolding carry_out_all ask_all
  carry_out_all_lem [] p w v s = (refl, v)
  carry_out_all_lem (op ∷ ops) p w v (s, rest) =
      let (same, v') = carry_out_lem op p w v s in
      let (same', v'') = carry_out_all_lem ops (carry_out rb op p).1 (ask op w).1 v' rest in
      (
        ap (λ x. x ∷ (carry_out_all rb ops (carry_out rb op p).1).0) same
            ∙ ap (◌∷◌ (ask op w).0) same',
        v'',
      )
