-- ===== src/Preconn/Others.antt =====
-- What happens between the addition of a connection and its use.
use ktcp_split.Common.{
  ℕ, ◌≡◌, refl, ap, sym, ◌∙◌, Bool, true, false, Option, none, some, List, [], ◌∷◌, arith, ◌==◌,
  ◌&&◌, not, All,
}
use ktcp_split.RbTree.{RbOps}
use ktcp_split.Listner.{Entry, rank}
use ktcp_split.Preconn.{Pools, add_preconn_qp, alloc_prexeisting_conn}
use ktcp_split.Preconn.Runs.{Op, add, take}
use ktcp_split.Preconn.Stacks.{stack, found, IsPools}
use ktcp_split.Preconn.View.{Answer, added, taken, View, is_some, ask, ask_all, take_from}
use ktcp_split.Preconn.Refine.{
  Shows, Suits, Suited, carry_out_lem, carry_out_all, carry_out_all_lem,
}

-- An operation on another next hop or another CPU.
abbrev pub is_elsewhere : ℕ → ℕ → Op → Bool
is_elsewhere hop cpu (add slab hop' cpu' qp) = not ((hop' == hop) && (cpu' == cpu))
is_elsewhere hop cpu (take hop' cpu') = not ((hop' == hop) && (cpu' == cpu))

take_from-elsewhere :
    (hop cpu hop' cpu' : ℕ) (w : View) (list : List ℕ)
    → is_elsewhere hop cpu (take hop' cpu') ≡ true
    → (take_from hop' cpu' w list).1.stacks hop cpu ≡ w.stacks hop cpu
take_from-elsewhere hop cpu hop' cpu' w [] h = refl
take_from-elsewhere hop cpu hop' cpu' w (qp ∷ rest) h = ground (arith, h)

ask-elsewhere :
    (hop cpu : ℕ) (op : Op) (w : View)
    → is_elsewhere hop cpu op ≡ true
    → (ask op w).1.stacks hop cpu ≡ w.stacks hop cpu
unfolding ask
ask-elsewhere hop cpu (add slab hop' cpu' qp) w h = ground (arith, h)
ask-elsewhere hop cpu (take hop' cpu') w h = take_from-elsewhere hop cpu hop' cpu' w _ h

ask_all-elsewhere :
    (hop cpu : ℕ) (ops : List Op) (w : View)
    → All (λ op. is_elsewhere hop cpu op ≡ true) ops
    → (ask_all ops w).1.stacks hop cpu ≡ w.stacks hop cpu
unfolding ask_all
ask_all-elsewhere hop cpu [] w a = refl
ask_all-elsewhere hop cpu (op ∷ ops) w (h, a) =
    ask_all-elsewhere hop cpu ops (ask op w).1 a ∙ ask-elsewhere hop cpu op w h

ask-added :
    (slab : Option (ℕ × Bool)) (hop cpu qp : ℕ) (w : View)
    → (ask (add slab hop cpu qp) w).0 ≡ added true
    → (ask (add slab hop cpu qp) w).1.stacks hop cpu ≡ qp ∷ w.stacks hop cpu
unfolding ask
ask-added slab hop cpu qp w h = ground (arith, h)

ask-taken :
    (hop cpu qp : ℕ) (w : View) (rest : List ℕ)
    → w.stacks hop cpu ≡ qp ∷ rest
    → let (a, w') = ask (take hop cpu) w in (a ≡ taken (some qp)) × (w'.stacks hop cpu ≡ rest)
unfolding ask
ask-taken hop cpu qp w rest h = rw h (refl, ground arith)

abbrev taken_of : Answer → Option ℕ
taken_of (taken qp) = qp
taken_of (added ok) = none

-- The view of pools that are in order.
abbrev pub view : Pools → View
view p = record { known = λ j. is_some (found p j); stacks = stack p }

pub view-Shows : (p : Pools) → IsPools p → p.fault ≡ false → Shows p (view p)
view-Shows p v f = record { pools = v; sound = f; knows = λ j h. refl; holds = λ j d h. refl }

module _ (rb : RbOps Entry rank) (p : Pools) (v : IsPools p) (sound : p.fault ≡ false)
    (slab : Option (ℕ × Bool)) (hop cpu qp : ℕ) (fits : Suits (add slab hop cpu qp) p)
    (ok : (add_preconn_qp rb slab hop cpu qp p).0 ≡ true) (ops : List Op) where
  abbrev start : Pools
  start = (add_preconn_qp rb slab hop cpu qp p).1

  abbrev later : Pools
  later = (carry_out_all rb ops start).1

  pub take-others-add :
      Suited rb ops start
      → All (λ op. is_elsewhere hop cpu op ≡ true) ops
      → let (taken', end) = alloc_prexeisting_conn hop cpu later in
        (taken' ≡ some qp) × (stack end hop cpu ≡ stack p hop cpu)
  take-others-add s a =
      let (same, v1) =
        carry_out_lem rb (add slab hop cpu qp) p (view p) (view-Shows p v sound) fits in
      let (same', v2) = carry_out_all_lem rb ops start _ v1 s in
      let (same'', v3) = carry_out_lem rb (take hop cpu) later _ v2 fits.0 in
      let first = ask-added slab hop cpu qp (view p) (sym same ∙ ap added ok) in
      let there = ask_all-elsewhere hop cpu ops (ask (add slab hop cpu qp) (view p)).1 a ∙ first in
      let (last, rest) = ask-taken hop cpu qp _ (stack p hop cpu) there in
      (ap taken_of (same'' ∙ last), v3.holds hop cpu fits.0 ∙ rest)
