-- ===== src/Listner/Tests.antt =====
-- Runs of the registry, and its theorems at a registry with the tenants 2 and 7.
use ktcp_split.Common.{
  ℕ, ◌+◌, ◌≡◌, refl, true, none, some, Option, sym, ◌∙◌, map, ◌*◌, List, [], ◌∷◌, arith,
}
use ktcp_split.Common.Int.{pos, negsuc}
use mathlib.Core.Option
use ktcp_split.RbTree.{Tree, leaf, node, in_order, RbOps}
use ktcp_split.RbTree.Lists.{delete}
use ktcp_split.RbTree.Plain.{plain_rb, spine, in_order-spine, erase_law, plain_walk}
use ktcp_split.Listner.{
  Entry, rank, Registry, ServerCalls, uint2void, add_server_cb, split_server_start,
  remove_listner_server,
}
use ktcp_split.Listner.Laws.{IsValid, serves}
use ktcp_split.Listner.Runs.{Op, add, del, run, replay, Agrees, Allowed, run-replay}
use ktcp_split.Listner.Stop.{stop_loop, stop_sockets, Stopped, stop_sockets_lem}
use ktcp_split.Listner.Starts.{Started, split_server_start_lem}

abbrev two : Entry
two = record { key = 2; addr = 100 }

abbrev seven : Entry
seven = record { key = 7; addr = 200 }

abbrev registry : Registry
registry = record {
  tree = node leaf two (node leaf seven leaf);
  info = λ a. record { port = 5557; status = 6; sock = some a; raw = some (a + 1) };
}

registry-IsValid : IsValid registry
registry-IsValid = omega arith

abbrev calls : ServerCalls
calls = record {
  slab = some 300;
  roots = true;
  lists = true;
  create = pos 0;
  sock = 31;
  set_mark = pos 0;
  bind = negsuc 97;
  listen = pos 0;
  probe = none;
}

packed : uint2void 2 5557 ≡ 8589940149
unfolding uint2void
packed = refl

split_server_start_lem_example :
    Started
      (plain_rb rank)
      calls
      5558
      9
      registry
      (split_server_start (plain_rb rank) calls (add_server_cb 9 5558) registry)
split_server_start_lem_example =
    split_server_start_lem (plain_rb rank) calls 5558 9 registry registry-IsValid (omega arith)
      (omega arith)

-- Tenant 9 is started, fails to bind, and is started again; tenant 2 is stopped.
abbrev ops : List Op
ops = add calls 9 5558 ∷ add (record calls { bind = pos 0; probe = some 32 }) 9 5558 ∷ del 2 ∷ []

run-replay_example :
    let (starts, r) = run (plain_rb rank) ops registry in
    IsValid r
    × Agrees r (replay ops starts (serves registry))
    × Allowed ops starts (serves registry)
run-replay_example =
    run-replay (plain_rb rank) ops registry (serves registry) registry-IsValid (λ key k. refl)
      (omega arith)

abbrev tenant : ℕ → Entry
tenant n = record { key = n; addr = 100 * n }

-- The red-black tree after the tenants 1 to 4 were linked in this order.
abbrev four : Registry
four = record {
  tree =
      node (node leaf (tenant 1) leaf) (tenant 2)
        (node leaf (tenant 3) (node leaf (tenant 4) leaf));
  info = registry.info;
}

four-IsValid : IsValid four
four-IsValid = omega arith

-- Two and three entries in the shapes that rb_erase leaves here.
abbrev shaped : List Entry → Tree Entry
shaped (x ∷ y ∷ []) = node (node leaf x leaf) y leaf
shaped (x ∷ y ∷ z ∷ []) = node (node leaf x leaf) y (node leaf z leaf)
shaped xs = spine rank xs

in_order-shaped : (xs : List Entry) → in_order (shaped xs) ≡ xs
in_order-shaped [] = refl
in_order-shaped (x ∷ []) = refl
in_order-shaped (x ∷ y ∷ []) = refl
in_order-shaped (x ∷ y ∷ z ∷ []) = refl
in_order-shaped (x ∷ y ∷ z ∷ w ∷ xs) = in_order-spine rank (x ∷ y ∷ z ∷ w ∷ xs)

abbrev shaped_rb : RbOps Entry rank
shaped_rb = record {
  insert_color = λ t. t;
  erase = λ x t. shaped (delete rank (rank x) (in_order t));
  insert_color_law = λ t. refl;
  erase_law = λ t xs x ys s e.
      in_order-shaped _ ∙ sym (in_order-spine rank _) ∙ erase_law rank t xs x ys s e;
}

stop_sockets_lem_example :
    (done : List Entry × List (Option ℕ) × Registry) × (stop_sockets shaped_rb
        (plain_walk rank)
        four
      ≡ some done)
    × Stopped shaped_rb (plain_walk rank) four done
stop_sockets_lem_example = stop_sockets_lem shaped_rb (plain_walk rank) four four-IsValid

abbrev seen : List Entry × List (Option ℕ) × Registry → List ℕ × List Entry
seen (stopped, socks, r) = (map rank stopped, in_order r.tree)

-- Erasing tenant 1 turns the tree to the left, and tenant 2, then before the entry that the walk goes
-- on with, is never stopped.
stop_sockets_misses :
    Option.map seen (stop_sockets shaped_rb (plain_walk rank) four)
    ≡ some (1 ∷ 4 ∷ 3 ∷ [], tenant 2 ∷ [])
unfolding stop_sockets stop_loop remove_listner_server
stop_sockets_misses = refl
