-- ===== src/Listner/Runs.antt =====
-- Sequences of starts and removals of servers, and the map of tenants that they implement.
use ktcp_split.Common.{
  ℕ, ◌^◌, ◌<◌, ◌≡◌, sym, ◌∙◌, Option, none, some, List, [], ◌∷◌, arith, All, ◌==◌, if◌then◌else◌,
}
use ktcp_split.RbTree.{RbOps}
use ktcp_split.Listner.{
  Entry, rank, Registry, ServerCalls, Start, accepting, ended, add_server_cb, split_server_start,
  del_server_cb,
}
use ktcp_split.Listner.Laws.{IsValid, serves, del_server_cb_lem}
use ktcp_split.Listner.Starts.{Started, split_server_start_lem}

-- A write to /proc that starts a server, with what its thread gets from the kernel, or stops one.
pub data Op : Type 0 where
  add : ServerCalls → ℕ → ℕ → Op
  del : ℕ → Op

-- The tenant id and the port are in range.
abbrev pub InRange : Op → Type 0
InRange (add c mark port) = (mark < 2 ^ 31) × (port < 2 ^ 32)
InRange (del tid) = tid < 2 ^ 31

module _ (rb : RbOps Entry rank) where
  -- The results of the starts, and the registry.
  unfoldable pub run : List Op → Registry → List Start × Registry
  run [] r = ([], r)
  run (add c mark port ∷ ops) r =
      let (start, r') = split_server_start rb c (add_server_cb mark port) r in
      let (starts, r'') = run ops r' in (start ∷ starts, r'')
  run (del tid ∷ ops) r = run ops (del_server_cb rb tid r).1

-- The abstract view: which server a tenant has.
abbrev pub Tenants : Type 0
Tenants = ℕ → Option Entry

abbrev pub started : ℕ → Start → Tenants → Tenants
started mark (ended rc sock) m key = m key
started mark (accepting e sock) m key = if mark == key then some e else m key

abbrev pub stopped : ℕ → Tenants → Tenants
stopped tid m key = if tid == key then none else m key

-- What the operations make of a map, given the results of the starts.
abbrev pub replay : List Op → List Start → Tenants → Tenants
replay [] starts m = m
replay (add c mark port ∷ ops) [] m = m
replay (add c mark port ∷ ops) (start ∷ starts) m = replay ops starts (started mark start m)
replay (del tid ∷ ops) starts m = replay ops starts (stopped tid m)

-- A start accepts only for a tenant that has no server.
abbrev pub Allowed : List Op → List Start → Tenants → Type 0
Allowed [] starts m = Unit
Allowed (add c mark port ∷ ops) [] m = Unit
Allowed (add c mark port ∷ ops) (ended rc sock ∷ starts) m = Allowed ops starts m
Allowed (add c mark port ∷ ops) (accepting e sock ∷ starts) m =
    (m mark ≡ none) × Allowed ops starts (started mark (accepting e sock) m)
Allowed (del tid ∷ ops) starts m = Allowed ops starts (stopped tid m)

-- The maps agree on the tenant ids that are in range.
abbrev pub Agrees : Registry → Tenants → Type 0
Agrees r m = (key : ℕ) → key < 2 ^ 31 → serves r key ≡ m key

module _ (rb : RbOps Entry rank) where
  module _ (c : ServerCalls) (mark port : ℕ) (small : mark < 2 ^ 31) (r : Registry) (m : Tenants)
      (a : Agrees r m) where
    started-Agrees :
        (start : Start) (r' : Registry)
        → Started rb c port mark r (start, r')
        → IsValid r' × Agrees r' (started mark start m)
    started-Agrees (ended rc sock) r' (v, same, _) = (v, λ key k. same key k ∙ a key k)
    started-Agrees (accepting e sock) r' h = (h.0, λ key k. ground (arith, h.3 key k, a key k))

    started-Allowed :
        (start : Start) (r' : Registry) (ops : List Op) (starts : List Start)
        → Started rb c port mark r (start, r')
        → Allowed ops starts (started mark start m)
        → Allowed (add c mark port ∷ ops) (start ∷ starts) m
    started-Allowed (ended rc sock) r' ops starts h k = k
    started-Allowed (accepting e sock) r' ops starts h k = (sym (a mark small) ∙ h.1, k)

  -- From a valid registry, any sequence of starts and removals with ids and ports in range leaves a
  -- valid registry, which serves the tenants as the map does that the same operations make of the
  -- tenants served before; and a start accepts only for a tenant without a server.
  pub run-replay :
      (ops : List Op) (r : Registry) (m : Tenants)
      → IsValid r
      → Agrees r m
      → All InRange ops
      → let (starts, r') = run rb ops r in
        IsValid r' × Agrees r' (replay ops starts m) × Allowed ops starts m
  unfolding run
  run-replay [] r m v a h = (v, a, tt)
  run-replay (add c mark port ∷ ops) r m v a h =
      let (start, r') = split_server_start rb c (add_server_cb mark port) r in
      let fact = split_server_start_lem rb c port mark r v h.0.0 h.0.1 in
      let (v', a') = started-Agrees c mark port h.0.0 r m a start r' fact in
      let (valid, agrees, allowed) = run-replay ops r' (started mark start m) v' a' h.1 in
      (
        valid,
        agrees,
        started-Allowed c mark port h.0.0 r m a start r' ops (run rb ops r').0 fact allowed,
      )
  run-replay (del tid ∷ ops) r m v a h =
      let (v', served, shut) = del_server_cb_lem rb r v tid h.0 in
      run-replay ops (del_server_cb rb tid r).1 (stopped tid m) v'
        (λ key k. ground (arith, served key k, a key k)) h.1
