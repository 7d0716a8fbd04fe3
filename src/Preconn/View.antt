-- ===== src/Preconn/View.antt =====
-- The pools as stacks of connections, one for each next hop and CPU, and what they answer.
use ktcp_split.Common.{
  ℕ, Bool, true, false, Option, none, some, List, [], ◌∷◌, ◌==◌, ◌&&◌, ◌||◌, if◌then◌else◌,
}
use ktcp_split.Preconn.Runs.{Op, add, take}
use ktcp_split.Preconn.Stacks.{pushed}

pub data Answer : Type 0 where
  added : Bool → Answer
  taken : Option ℕ → Answer

-- Which next hops have a pool, and the connections of each on each CPU, the next one first.
pub record View : Type 0 where
  pub known : ℕ → Bool
  pub stacks : ℕ → ℕ → List ℕ

abbrev pub is_some {ℓ} : {A : Type ℓ} → Option A → Bool
is_some none = false
is_some (some x) = true

abbrev pub dropped : ℕ → ℕ → List ℕ → (ℕ → ℕ → List ℕ) → ℕ → ℕ → List ℕ
dropped hop cpu rest s k c = if (hop == k) && (cpu == c) then rest else s k c

abbrev pub take_from : ℕ → ℕ → View → List ℕ → Answer × View
take_from hop cpu w [] = (taken none, w)
take_from hop cpu w (qp ∷ rest) =
    (taken (some qp), record w { stacks = dropped hop cpu rest w.stacks })

-- What stacks do: a pair goes on its stack unless the next hop has no pool and no memory for one.
unfoldable pub ask : Op → View → Answer × View
ask (add slab hop cpu qp) w =
    if w.known hop || is_some slab
    then (
      added true,
      record { known = λ k. (hop == k) || w.known k; stacks = pushed hop cpu qp w.stacks },
    )
    else (added false, w)
ask (take hop cpu) w = take_from hop cpu w (w.stacks hop cpu)

unfoldable pub ask_all : List Op → View → List Answer × View
ask_all [] w = ([], w)
ask_all (op ∷ ops) w = let (a, w') = ask op w in let (rest, w'') = ask_all ops w' in (a ∷ rest, w'')
