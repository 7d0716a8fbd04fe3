-- ===== src/Listner/Stop.antt =====
-- The end of all servers when the module is unloaded: stop_sockets of tcpsplit/split.c, which erases
-- each server of the tree while it walks the tree in post-order.
use ktcp_split.Common.{
  ℕ, ◌+◌, ◌<◌, ◌≤◌, ◌≡◌, ◌≢◌, refl, ap, ◌∙◌, Bool, true, Option, none, some, List, [], ◌∷◌, ◌++◌,
  map, arith, ◌==◌, ◌&&◌, if◌then◌else◌, length, length-append, ◌>>=◌,
}
use ktcp_split.RbTree.{Tree, in_order, RbOps}
use ktcp_split.RbTree.Lists.{
  IsSorted, find, find-below, find-split, IsSorted-split, delete-IsSorted, find-delete,
}
use ktcp_split.RbTree.Laws.{in_order-erase}
use ktcp_split.RbTree.PostOrder.{
  PostOps, post_order, tally, tally-append, tally-post_order, tally-split, IsSorted-tally,
}
use ktcp_split.Listner.{Entry, rank, Registry, remove_listner_server}
use ktcp_split.Listner.Laws.{IsValid}

module _ (rb : RbOps Entry rank) (walk : PostOps Entry rank) where
  -- `rbtree_postorder_for_each_entry_safe`: the entry after `pos` is read before `pos` is removed. The
  -- servers that were removed, the socket of each, and the registry.
  unfoldable pub stop_loop :
      ℕ → Option Entry → Registry → Option (List Entry × List (Option ℕ) × Registry)
  stop_loop fuel none r = some ([], [], r)
  stop_loop ℕ.zero (some pos) r = none
  stop_loop (ℕ.suc fuel) (some pos) r =
      let tmp = walk.next r.tree pos in
      let (shut, r') = remove_listner_server rb r pos in
      stop_loop fuel tmp r' >>= λ (stopped, socks, r''). some (pos ∷ stopped, shut ∷ socks, r'')

  -- As many turns as the tree has servers.
  unfoldable pub stop_sockets : Registry → Option (List Entry × List (Option ℕ) × Registry)
  stop_sockets r = stop_loop (length (in_order r.tree)) (walk.first r.tree) r

-- `struct cbn_qp` as stop_tennat_proxies reads it.
pub record Proxy : Type 0 where
  pub tx : Option ℕ
  pub rx : Option ℕ

abbrev shut : Option ℕ → List ℕ
shut none = []
shut (some sock) = sock ∷ []

-- stop_tennat_proxies, whose only call is commented out: the sockets that are shut down, along the walk,
-- which changes nothing.
unfoldable pub stop_tennat_proxies : List Proxy → List ℕ
stop_tennat_proxies [] = []
stop_tennat_proxies (pos ∷ rest) = shut pos.tx ++ (shut pos.rx ++ stop_tennat_proxies rest)

abbrev is : Entry → Entry → Bool
is e x = (e.key == x.key) && (e.addr == x.addr)

is_sound : (e x : Entry) → is e x ≡ true → x ≡ e
is_sound e x h = ap2 (ground arith) (ground arith)
  where
    ap2 : x.key ≡ e.key → x.addr ≡ e.addr → x ≡ e
    ap2 p q i = record { key = p i; addr = q i }

is_same : (x : Entry) (l : List Entry) → tally (is x) (x ∷ l) ≡ 1 + tally (is x) l
is_same x l = ground arith

-- An entry of a sorted list is the one of its key.
listed-found :
    (x : Entry) (l : List Entry)
    → IsSorted rank l
    → 0 < tally (is x) l
    → find rank (rank x) l ≡ some x
listed-found x l s h =
    let (before, y, after, split, here) = tally-split (is x) l h in
    let (_, lo, _, _) = IsSorted-split rank before y after (rw split at s) in
    let same : y ≡ x = is_sound x y here in
    ap (find rank (rank x)) split
    ∙ find-below rank (rank x) (rank y) before (y ∷ after) (omega (arith, ap rank same)) lo
    ∙ ground (arith, same)

-- What is left of a tree after an entry is erased.
abbrev Erased : (t t' : Tree Entry) → Entry → Type 0
Erased t t' x =
    ((p : Entry → Bool) → tally p (in_order t) ≡ (if p x then 1 else 0) + tally p (in_order t'))
    × IsSorted rank (in_order t')
    × (length (in_order t) ≡ 1 + length (in_order t'))

erased_lem :
    (rb : RbOps Entry rank) (t : Tree Entry) (x : Entry)
    → IsSorted rank (in_order t)
    → find rank (rank x) (in_order t) ≡ some x
    → Erased t (rb.erase x t) x
erased_lem rb t x s h =
    let (before, after, split, rest, same) = find-split rank (rank x) (in_order t) x h in
    let list = in_order-erase rb t x s h in
    (
      (λ p.
          rw (list ∙ rest, split)
            (omega (arith, tally-append p before (x ∷ after), tally-append p before after))),
      rw list (delete-IsSorted rank (rank x) (in_order t) s),
      rw (list ∙ rest, split)
          (omega (arith, length-append before (x ∷ after), length-append before after)),
    )

found-listed : (x : Entry) (l : List Entry) → find rank (rank x) l ≡ some x → 0 < tally (is x) l
found-listed x l h =
    let (before, after, split, _, _) = find-split rank (rank x) l x h in
    rw split (omega (arith, tally-append (is x) before (x ∷ after), is_same x after))

-- The entries behind an entry of the post-order walk are other entries of the tree.
behind :
    (t : Tree Entry) (before : List Entry) (x y : Entry) (after : List Entry)
    → IsSorted rank (in_order t)
    → post_order t ≡ before ++ (x ∷ y ∷ after)
    → (find rank (rank y) (in_order t) ≡ some y) × (rank x ≢ rank y)
behind t before x y after s e =
    let k = rank x in
    let at_key : Entry → Bool = λ z. z.key == k in
    let few : tally at_key (before ++ (x ∷ y ∷ after)) ≤ 1 = omega (
      arith,
      IsSorted-tally rank k (in_order t) s,
      tally-post_order at_key t,
      ap (tally at_key) e,
    ) in
    let there : 0 < tally (is y) (in_order t) = omega (
      arith,
      tally-post_order (is y) t,
      ap (tally (is y)) e,
      tally-append (is y) before (x ∷ y ∷ after),
      is_same y after,
    ) in
    (
      listed-found y (in_order t) s there,
      λ same. ground (arith, tally-append at_key before (x ∷ y ∷ after)),
    )

module _ (rb : RbOps Entry rank) (walk : PostOps Entry rank) where
  -- An entry that is the next one of a walk is in the tree, and stays when the one before it is erased.
  next_stays :
      (t : Tree Entry) (x y : Entry)
      → IsSorted rank (in_order t)
      → find rank (rank x) (in_order t) ≡ some x
      → walk.next t x ≡ some y
      → find rank (rank y) (in_order (rb.erase x t)) ≡ some y
  next_stays t x y s h n =
      let listed : 0 < tally (is x) (post_order t) =
        omega (arith, found-listed x (in_order t) h, tally-post_order (is x) t) in
      let (before, x', after, split, here) = tally-split (is x) (post_order t) listed in
      go before after (split ∙ ap (λ z. before ++ (z ∷ after)) (is_sound x x' here))
    where
      go :
          (before after : List Entry)
          → post_order t ≡ before ++ (x ∷ after)
          → find rank (rank y) (in_order (rb.erase x t)) ≡ some y
      go before [] e = cc (n, walk.next_law t before x [] s e)
      go before (z ∷ after) e =
          let same : z ≡ y = ground (arith, n, walk.next_law t before x (z ∷ after) s e) in
          let (found, other) =
            behind t before x y after s (e ∙ ap (λ w. before ++ (x ∷ w ∷ after)) same) in
          rw (in_order-erase rb t x s h)
            (find-delete rank (rank x) (rank y) (in_order t) s ∙ ground (arith, found, other))

  -- What a walk leaves of a tree, and what it did.
  abbrev pub Stopped : Registry → List Entry × List (Option ℕ) × Registry → Type 0
  Stopped r (stopped, socks, r') =
      ((p : Entry → Bool)
        → tally p (in_order r.tree) ≡ tally p stopped + tally p (in_order r'.tree))
      × (socks ≡ map (λ e. (r.info e.addr).sock) stopped)
      × (r'.info ≡ r.info)
      × IsSorted rank (in_order r'.tree)

  -- The entry that the walk has come to is in the tree.
  abbrev At : Tree Entry → Option Entry → Type 0
  At t none = Unit
  At t (some pos) = find rank (rank pos) (in_order t) ≡ some pos

  At-next :
      (r : Registry) (pos : Entry) (o : Option Entry)
      → IsSorted rank (in_order r.tree)
      → At r.tree (some pos)
      → walk.next r.tree pos ≡ o
      → At (rb.erase pos r.tree) o
  At-next r pos none s h n = tt
  At-next r pos (some y) s h n = next_stays r.tree pos y s h n

  stop_loop_lem :
      (fuel : ℕ) (o : Option Entry) (r : Registry)
      → IsSorted rank (in_order r.tree)
      → At r.tree o
      → length (in_order r.tree) ≤ fuel
      → (done : List Entry × List (Option ℕ) × Registry) × (stop_loop rb walk fuel o r ≡ some done)
        × Stopped r done
  unfolding stop_loop remove_listner_server
  stop_loop_lem fuel none r s h f = (([], [], r), refl, ((λ p. omega arith), refl, refl, s))
  stop_loop_lem ℕ.zero (some pos) r s h f =
      let (_, _, shorter) = erased_lem rb r.tree pos s h in absurd (omega (arith, f, shorter))
  stop_loop_lem (ℕ.suc fuel) (some pos) r s h f =
      let (tallies, sorted, shorter) = erased_lem rb r.tree pos s h in
      let ((stopped, socks, r''), run, (parts, shut, info, rest)) =
        stop_loop_lem fuel (walk.next r.tree pos) (record r { tree = rb.erase pos r.tree }) sorted
          (At-next r pos (walk.next r.tree pos) s h refl) (omega (arith, f, shorter)) in
      (
        (pos ∷ stopped, (r.info pos.addr).sock ∷ socks, r''),
        rw run refl,
        (
          (λ p. omega (arith, tallies p, parts p)),
          ap (◌∷◌ (r.info pos.addr).sock) shut,
          info,
          rest,
        ),
      )

  first-At :
      (t : Tree Entry) (o : Option Entry) → IsSorted rank (in_order t) → walk.first t ≡ o → At t o
  first-At t none s h = tt
  first-At t (some y) s h = listed-found y (in_order t) s (there (post_order t) refl)
    where
      there : (l : List Entry) → post_order t ≡ l → 0 < tally (is y) (in_order t)
      there [] e = cc (h, walk.first_law t, e)
      there (x ∷ l) e =
          let same : x ≡ y = ground (arith, h, walk.first_law t, e) in
          omega (
            arith,
            tally-post_order (is y) t,
            ap (tally (is y)) (e ∙ ap (λ z. z ∷ l) same),
            is_same y l,
          )

  -- In a valid registry the walk ends within as many turns as there are servers. Each server that it
  -- comes to is shut down, leaves the tree and is freed once, and no other: those that it stopped and
  -- those that the tree still holds are together those that there were.
  pub stop_sockets_lem :
      (r : Registry)
      → IsValid r
      → (done : List Entry × List (Option ℕ) × Registry) × (stop_sockets rb walk r ≡ some done)
        × Stopped r done
  unfolding stop_sockets
  stop_sockets_lem r v =
      stop_loop_lem (length (in_order r.tree)) (walk.first r.tree) r v.sorted
        (first-At r.tree (walk.first r.tree) v.sorted refl) (omega arith)
