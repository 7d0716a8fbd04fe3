-- ===== src/Preconn/Counts.antt =====
-- The counts of the pools, and what is taken from them.
use ktcp_split.Common.{
  ℕ, ◌+◌, ◌<◌, ◌≡◌, refl, ap, Bool, true, false, Option, none, some, List, [], ◌∷◌, ◌++◌, arith,
  All, length, if_elim, ltb,
}
use ktcp_split.Common.Words.{u32}
use ktcp_split.RbTree.{RbOps}
use ktcp_split.Listner.{Entry, rank}
use ktcp_split.Preconn.{
  PercpuList, Pools, set_list, init_preconn, after_init, searched, get_rb_preconn, linked,
  add_preconn_qp, alloc_prexeisting_conn, search_rb_preconn, prealloc_connection_pool,
  per_core_pool_max, per_core_pool_min, repeat, popped,
}

-- Each count is the length of its list, as a 32-bit number.
abbrev pub IsCounted : Pools → Type 0
IsCounted p = (addr cpu : ℕ) → (p.lists addr cpu).len ≡ u32 (length (p.lists addr cpu).list)

after_init-IsCounted :
    (percpu : Bool) (e : Entry) (p : Pools) → IsCounted p → IsCounted (after_init percpu e p)
unfolding init_preconn
after_init-IsCounted true e p v addr cpu = ground (arith, v addr cpu)
after_init-IsCounted false e p v addr cpu = v addr cpu

set_list-IsCounted :
    (p : Pools) (a c : ℕ) (v : PercpuList)
    → IsCounted p
    → v.len ≡ u32 (length v.list)
    → IsCounted (record p { lists = set_list p.lists a c v })
set_list-IsCounted p a c v h k addr cpu = ground (arith, h addr cpu)

linked-IsCounted :
    (rb : RbOps Entry rank) (e : Entry) (p : Pools) → IsCounted p → IsCounted (linked rb e p).1
linked-IsCounted rb e p v addr cpu = ground (arith, v addr cpu)

get_rb_preconn-IsCounted :
    (rb : RbOps Entry rank) (slab : Option (ℕ × Bool)) (key : ℕ) (p : Pools)
    → IsCounted p
    → IsCounted (get_rb_preconn rb slab key p).1
unfolding get_rb_preconn
get_rb_preconn-IsCounted rb slab key p v = got (search_rb_preconn p.tree key) slab
  where
    got :
        (found : Option Entry) (slab' : Option (ℕ × Bool))
        → IsCounted (searched rb found slab' key p).1
    got (some e) slab' = v
    got none none = v
    got none (some (addr, percpu)) =
        let e : Entry = record { key = key; addr = addr } in
        linked-IsCounted rb e (after_init percpu e p) (after_init-IsCounted percpu e p v)

-- If each count is the length of its list as a 32-bit number, so it is after a pair is added to a
-- pool, be the pool new or not.
pub add_preconn_qp-IsCounted :
    (rb : RbOps Entry rank) (slab : Option (ℕ × Bool)) (addr_d cpu qp : ℕ) (p : Pools)
    → IsCounted p
    → IsCounted (add_preconn_qp rb slab addr_d cpu qp p).1
unfolding add_preconn_qp
add_preconn_qp-IsCounted rb slab addr_d cpu qp p v =
    added (get_rb_preconn rb slab addr_d p) (get_rb_preconn-IsCounted rb slab addr_d p v)
  where
    added :
        (got : Option Entry × Pools)
        → IsCounted got.1
        → IsCounted
            (elim got.0 as (λ _. Bool × Pools) [
              | none ↦ (false, got.1)
              | some e ↦ (
                true,
                record (got.1) {
                  lists = set_list got.1.lists e.addr cpu (record {
                    list = qp ∷ (got.1.lists e.addr cpu).list;
                    len = u32 ((got.1.lists e.addr cpu).len + 1);
                  });
                },
              )
            ]).1
    added (none, p') v' = v'
    added (some e, p') v' = set_list-IsCounted p' e.addr cpu _ v' (omega (arith, v' e.addr cpu))

popped-IsCounted :
    (p : Pools) (v : IsCounted p) (addr cpu : ℕ) (list : List ℕ)
    → (p.lists addr cpu).list ≡ list
    → IsCounted (popped p addr cpu list).1
popped-IsCounted p v addr cpu [] h = v
popped-IsCounted p v addr cpu (qp ∷ rest) h =
    set_list-IsCounted p addr cpu _ v (omega (arith, v addr cpu, ap (λ l. length l) h))

-- If each count is the length of its list as a 32-bit number, so it is after a pair is taken from
-- a pool, be the pool empty or not.
pub alloc_prexeisting_conn-IsCounted :
    (ip cpu : ℕ) (p : Pools) → IsCounted p → IsCounted (alloc_prexeisting_conn ip cpu p).1
unfolding alloc_prexeisting_conn
alloc_prexeisting_conn-IsCounted ip cpu p v =
    elim (search_rb_preconn p.tree ip)
      as (λ o.
        IsCounted
          (elim o as (λ _. Option ℕ × Pools) [
            | none ↦ (none, p)
            | some e ↦ popped p e.addr cpu (p.lists e.addr cpu).list
          ]).1) [
            | none ↦ v
            | some e ↦ popped-IsCounted p v e.addr cpu (p.lists e.addr cpu).list refl
          ]

-- In pools whose counts are right, a pair that is added to the pool of a known next hop is the
-- first that is taken from it on that CPU, and every pool is then as it was.
pub alloc_prexeisting_conn-add_preconn_qp :
    (rb : RbOps Entry rank) (slab : Option (ℕ × Bool)) (ip cpu qp : ℕ) (p : Pools) (e : Entry)
    → IsCounted p
    → search_rb_preconn p.tree ip ≡ some e
    → let (qp', p') = alloc_prexeisting_conn ip cpu (add_preconn_qp rb slab ip cpu qp p).1 in
      (qp' ≡ some qp) × ((addr c : ℕ) → p'.lists addr c ≡ p.lists addr c)
unfolding alloc_prexeisting_conn add_preconn_qp get_rb_preconn
alloc_prexeisting_conn-add_preconn_qp rb slab ip cpu qp p e v h = ground (arith, h)

-- The number of pairs that the pool of a next hop counts on a CPU.
abbrev pub pool_len : Pools → ℕ → ℕ → ℕ
pool_len p ip cpu = elim (search_rb_preconn p.tree ip) [
  | none ↦ 0
  | some e ↦ (p.lists e.addr cpu).len
]

low_append :
    (p : Pools) (ip : ℕ) (n cpu : ℕ) (rest : List ℕ)
    → pool_len p ip cpu < per_core_pool_max
    → All (λ c. pool_len p ip c < per_core_pool_max) rest
    → All (λ c. pool_len p ip c < per_core_pool_max) (repeat n cpu ++ rest)
low_append p ip ℕ.zero cpu rest h a = a
low_append p ip (ℕ.suc n) cpu rest h a = (h, low_append p ip n cpu rest h a)

-- A refill starts connections only on CPUs whose pool holds fewer than sixteen pairs.
pub prealloc_connection_pool-low :
    (ip : ℕ) (cpus : List ℕ) (p : Pools)
    → All (λ c. pool_len p ip c < per_core_pool_max) (prealloc_connection_pool ip cpus p)
unfolding prealloc_connection_pool
prealloc_connection_pool-low ip [] p = tt
prealloc_connection_pool-low ip (cpu ∷ cpus) p =
    let rest = prealloc_connection_pool-low ip cpus p in
    if_elim
      (λ starts.
        All (λ c. pool_len p ip c < per_core_pool_max)
          (starts ++ prealloc_connection_pool ip cpus p))
      (ltb (pool_len p ip cpu) per_core_pool_max)
      (λ h. low_append p ip per_core_pool_min cpu _ (ground (arith, h)) rest) (λ _. rest)
