-- ===== src/Preconn/Given.antt =====
-- What happens to the connections of the pools: none is lost, and none is given out twice.
use native.Mathlib.Decide.{ℕ_discrete}
use mathlib.Core.List.{append_assoc, Perm, perm_append_comm}
use mathlib.Core.List.Perm
use ktcp_split.Common.{
  ℕ, ◌^◌, ◌<◌, ◌≡◌, refl, ap, sym, ◌∙◌, true, false, none, some, List, [], ◌∷◌, ◌++◌, arith, ◌==◌,
  ◌&&◌, if◌then◌else◌, subst,
}
use ktcp_split.RbTree.{RbOps}
use ktcp_split.Listner.{Entry, rank}
use ktcp_split.Preconn.{Pools}
use ktcp_split.Preconn.Runs.{Op, add, take}
use ktcp_split.Preconn.Stacks.{stack, IsPools}
use ktcp_split.Preconn.View.{Answer, added, taken, View, ask, ask_all, take_from}
use ktcp_split.Preconn.Others.{view, view-Shows}
use ktcp_split.Preconn.Refine.{Suited, carry_out_all, carry_out_all_lem}

-- The pairs that an operation puts on the list of a next hop on a CPU.
abbrev pub given : ℕ → ℕ → Op → Answer → List ℕ
given k c (add slab hop cpu qp) (added true) = if (hop == k) && (cpu == c) then qp ∷ [] else []
given k c (add slab hop cpu qp) (added false) = []
given k c (add slab hop cpu qp) (taken qp') = []
given k c (take hop cpu) a = []

-- The pairs that an operation takes from there.
abbrev pub got : ℕ → ℕ → Op → Answer → List ℕ
got k c (add slab hop cpu qp) a = []
got k c (take hop cpu) (taken (some qp)) = if (hop == k) && (cpu == c) then qp ∷ [] else []
got k c (take hop cpu) (taken none) = []
got k c (take hop cpu) (added ok) = []

abbrev pub all_of : (Op → Answer → List ℕ) → List Op → List Answer → List ℕ
all_of f [] answers = []
all_of f (op ∷ ops) [] = []
all_of f (op ∷ ops) (a ∷ answers) = f op a ++ all_of f ops answers

taken-same :
    (hop cpu k c : ℕ) (w : View) (list : List ℕ)
    → w.stacks hop cpu ≡ list
    → let (a, w') = take_from hop cpu w list in
      got k c (take hop cpu) a ++ w'.stacks k c ≡ given k c (take hop cpu) a ++ w.stacks k c
taken-same hop cpu k c w [] h = refl
taken-same hop cpu k c w (qp ∷ rest) h = elim (ℕ_discrete hop k) [
  | yes same ↦ elim (ℕ_discrete cpu c) [
    | yes same' ↦
        let here : w.stacks k c ≡ qp ∷ rest =
          sym (ap (λ j. w.stacks j c) same) ∙ sym (ap (w.stacks hop) same') ∙ h in
        ground (arith, here)
    | no other ↦ ground arith
  ]
  | no other ↦ ground arith
]

ask-same :
    (op : Op) (w : View) (k c : ℕ)
    → let (a, w') = ask op w in got k c op a ++ w'.stacks k c ≡ given k c op a ++ w.stacks k c
unfolding ask
ask-same (add slab hop cpu qp) w k c = ground arith
ask-same (take hop cpu) w k c = taken-same hop cpu k c w (w.stacks hop cpu) refl

equal : (xs ys : List ℕ) → xs ≡ ys → Perm xs ys
equal xs ys e = subst (Perm xs) e Perm.rfl

swapped : (xs ys zs : List ℕ) → Perm (xs ++ (ys ++ zs)) (ys ++ (xs ++ zs))
swapped xs ys zs =
    subst (λ l. Perm l (ys ++ (xs ++ zs))) (append_assoc xs ys zs)
      (subst (Perm (xs ++ ys ++ zs)) (append_assoc ys xs zs)
        (Perm.append_right zs (perm_append_comm xs ys)))

shuffled :
    (t g rest now before after more : List ℕ)
    → t ++ now ≡ g ++ before
    → Perm (more ++ after) (rest ++ now)
    → Perm (t ++ (more ++ after)) (g ++ (rest ++ before))
shuffled t g rest now before after more same p = Perm.trans (Perm.append_left t p) (
    Perm.trans (swapped t rest now)
      (Perm.trans (Perm.append_left rest (equal _ _ same)) (swapped rest g before)))

ask_all-Perm :
    (ops : List Op) (w : View) (k c : ℕ)
    → let (answers, w') = ask_all ops w in
      Perm
        (all_of (got k c) ops answers ++ w'.stacks k c)
        (all_of (given k c) ops answers ++ w.stacks k c)
unfolding ask_all
ask_all-Perm [] w k c = Perm.rfl
ask_all-Perm (op ∷ ops) w k c =
    let (a, w') = ask op w in
    let (answers, w'') = ask_all ops w' in
    rw (append_assoc (got k c op a) (all_of (got k c) ops answers) (w''.stacks k c)) (
      rw (append_assoc (given k c op a) (all_of (given k c) ops answers) (w.stacks k c)) (
        shuffled (got k c op a) (given k c op a) (all_of (given k c) ops answers) (w'.stacks k c)
          (w.stacks k c) (w''.stacks k c) (all_of (got k c) ops answers) (ask-same op w k c)
          (ask_all-Perm ops w' k c)))

module _ (rb : RbOps Entry rank) where
  -- Take pools whose entries are in order, have keys below 2^31 and share no address, and in which no
  -- freed memory was used. After any sequence of additions and removals, for next hops below 2^31,
  -- where a new object is at an address where no pool stands and there is memory for its lists: for
  -- each next hop below 2^31 and each CPU, the pairs that were taken there, with those that are left,
  -- are those that were added there, with those that were there first, in some order. So none is
  -- lost, and each is given out at most as often as it was added, on its own next hop and CPU.
  pub carry_out_all-Perm :
      (ops : List Op) (p : Pools) (k c : ℕ)
      → IsPools p
      → p.fault ≡ false
      → Suited rb ops p
      → k < 2 ^ 31
      → let (answers, p') = carry_out_all rb ops p in
        Perm
          (all_of (got k c) ops answers ++ stack p' k c)
          (all_of (given k c) ops answers ++ stack p k c)
  carry_out_all-Perm ops p k c v f s small =
      let (same, end) = carry_out_all_lem rb ops p (view p) (view-Shows p v f) s in
      subst
        (λ l.
          Perm (all_of (got k c) ops (carry_out_all rb ops p).0 ++ l)
            (all_of (given k c) ops (carry_out_all rb ops p).0 ++ stack p k c))
        (sym (end.holds k c small))
        (subst
          (λ answers.
            Perm (all_of (got k c) ops answers ++ (ask_all ops (view p)).1.stacks k c)
              (all_of (given k c) ops answers ++ stack p k c))
          (sym same) (ask_all-Perm ops (view p) k c))
