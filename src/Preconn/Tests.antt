-- ===== src/Preconn/Tests.antt =====
-- Runs of the pools, from the pools that the module starts with.
use mathlib.Core.List.{Perm}
use mathlib.Core.Option.{none-ne-some}
use ktcp_split.Common.{
  ℕ, ◌≢◌, All, Bool, Option, ◌≡◌, refl, true, false, none, some, List, [], ◌∷◌, arith, ◌++◌, not,
  ◌&&◌, ◌||◌,
}
use ktcp_split.RbTree.{search_rb, in_order}
use ktcp_split.RbTree.Plain.{plain_rb}
use ktcp_split.Listner.{Entry, rank}
use ktcp_split.Listner.Laws.{added-Links}
use ktcp_split.Preconn.Race.{race_lem}
use ktcp_split.Preconn.{Pools, search_rb_preconn, add_preconn_qp, searched}
use ktcp_split.Preconn.Runs.{Op, add, take}
use ktcp_split.Preconn.View.{is_some, View, added, taken, ask, ask_all}
use ktcp_split.Preconn.Stacks.{IsPools, as_registry, IsFresh, found, stack}
use ktcp_split.Preconn.Opened.{opened_pools, opened-IsPools}
use ktcp_split.Preconn.Empty.{no_pools, no_pools-IsPools}
use ktcp_split.Preconn.Given.{given, got, all_of, carry_out_all-Perm}
use ktcp_split.Preconn.Faults.{lacks_lists, entry_after, add_preconn_qp-fault}
use ktcp_split.Preconn.Refine.{Shows, Suited, carry_out_all, carry_out_all_lem}

abbrev no_view : View
no_view = record { known = λ k. false; stacks = λ k c. [] }

no_pools-Shows : Shows no_pools no_view
unfolding search_rb_preconn search_rb
no_pools-Shows = record {
  pools = no_pools-IsPools;
  sound = refl;
  knows = λ k k'. refl;
  holds = λ k c k'. refl;
}

abbrev ops : List Op
ops =
    add (some (80, true)) 5 1 11
    ∷ add none 5 1 12
    ∷ add none 6 0 13
    ∷ take 5 1
    ∷ take 5 0
    ∷ take 6 1
    ∷ []

ops-Suited : Suited (plain_rb rank) ops no_pools
ops-Suited = (
  (omega arith, λ h. tt),
  (
    (omega arith, λ h. tt),
    ((omega arith, λ h. tt), (omega arith, (omega arith, (omega arith, tt)))),
  ),
)

ops_answers :
    (ask_all ops no_view).0
    ≡ added true ∷ added true ∷ added false ∷ taken (some 12) ∷ taken none ∷ taken none ∷ []
unfolding ask_all ask
ops_answers = refl

carry_out_all_lem_example :
    let (answers, p') = carry_out_all (plain_rb rank) ops no_pools in
    let (answers', w') = ask_all ops no_view in (answers ≡ answers') × Shows p' w'
carry_out_all_lem_example =
    carry_out_all_lem (plain_rb rank) ops no_pools no_view no_pools-Shows ops-Suited

carry_out_all-Perm_example :
    let (answers, p') = carry_out_all (plain_rb rank) ops no_pools in
    Perm
      (all_of (got 5 1) ops answers ++ stack p' 5 1)
      (all_of (given 5 1) ops answers ++ stack no_pools 5 1)
carry_out_all-Perm_example =
    carry_out_all-Perm (plain_rb rank) ops no_pools 5 1 no_pools-IsPools refl ops-Suited
      (omega arith)

-- Two pairs were added there, and the second was taken.
given_there : all_of (given 5 1) ops (ask_all ops no_view).0 ≡ 11 ∷ 12 ∷ []
unfolding ask_all ask
given_there = refl

got_there : all_of (got 5 1) ops (ask_all ops no_view).0 ≡ 12 ∷ []
unfolding ask_all ask
got_there = refl

abbrev half : Option (ℕ × Bool)
half = some (80, false)

add_preconn_qp-fault_example :
    let (ok, p') = add_preconn_qp (plain_rb rank) half 5 1 11 no_pools in
    (ok ≡ is_some (entry_after 5 (found no_pools 5) half))
    × (found p' 5 ≡ entry_after 5 (found no_pools 5) half)
    × (p'.fault ≡ (no_pools.fault || (not (is_some (found no_pools 5)) && lacks_lists half)))
add_preconn_qp-fault_example =
    add_preconn_qp-fault (plain_rb rank) 5 1 11 no_pools no_pools-IsPools (omega arith) half

-- Another thread has opened the pool of the next hop 5, at the address 80.
abbrev first_entry : Entry
first_entry = record { key = 5; addr = 80 }

abbrev first_pools : Pools
first_pools = opened_pools (plain_rb rank) no_pools first_entry

no_entry : found no_pools 5 ≡ none
unfolding search_rb_preconn search_rb
no_entry = refl

no_pools-IsFresh : IsFresh no_pools 80
unfolding search_rb_preconn search_rb
no_pools-IsFresh k d small h = absurd (none-ne-some d h)

first_pools-IsPools : IsPools first_pools
first_pools-IsPools =
    opened-IsPools (plain_rb rank) no_pools no_pools-IsPools first_entry (omega arith) no_entry
      no_pools-IsFresh

apart_90 : All (λ (e : Entry). e.addr ≢ 90) (in_order first_pools.tree)
apart_90 =
    rw
      (added-Links (plain_rb rank) (as_registry no_pools) no_pools-IsPools.valid first_entry
        (omega arith)).1
      (λ same. absurd (omega (arith, same)), tt)

race_lem_example :
    let (got', p') = searched (plain_rb rank) none (some (90, true)) 5 first_pools in
    (got' ≡ elim (found first_pools 5) as (λ _. Option Entry) [
      | none ↦ some (record { key = 5; addr = 90 })
      | some d ↦ none
    ])
    × (p'.fault ≡ first_pools.fault)
    × IsPools p'
    × (stack p' 5 1 ≡ stack first_pools 5 1)
    × (found p' 5 ≡ elim (found first_pools 5) as (λ _. Option Entry) [
      | none ↦ some (record { key = 5; addr = 90 })
      | some d ↦ some d
    ])
race_lem_example =
    race_lem (plain_rb rank) 5 90 first_pools first_pools-IsPools (omega arith) 5 1 apart_90
      (omega arith)
