-- ===== src/Connect/Pooled.antt =====
-- The connections that are opened in advance.
use ktcp_split.Common.{ℕ, ◌≡◌, Bool, true, false, Option, none, some, [], ◌∷◌, arith, if◌then◌else◌}
use ktcp_split.Common.Int.{ℤ, is_nonzero}
use ktcp_split.Pairing.{null, sock, put_qp, get_qp, new_pair}
use ktcp_split.Connect.{
  SocketCalls, PoolCalls, prealloc_connection, start_new_pending_connection, created,
}

-- A connection that is opened in advance keeps its socket when its result is 0, and otherwise releases
-- the socket that it created. Where it created none, it releases what the stack holds.
pub prealloc_connection_lem :
    (stack : Option ℕ) (c : PoolCalls)
    → let (rc, released) = prealloc_connection stack c in
      (is_nonzero c.create ≡ false
        → released ≡ (if is_nonzero rc then created c.create c.sock else []))
      × (is_nonzero c.create ≡ true
          → (rc ≡ c.create) × (released ≡ elim stack [ none ↦ [] | some s ↦ s ∷ [] ]))
unfolding prealloc_connection
prealloc_connection_lem stack c = (λ h. ground (arith, h), λ h. ground (arith, h))

-- A pair whose far half is accepted from the pool, and whose connection succeeds, has a reference for
-- each of its two directions: after both have given theirs back it is freed, with both its sockets
-- released, once each.
pub start_new_pending_connection_lem :
    (ip_transparent : Bool) (hop : ℤ) (c : SocketCalls) (rx : ℕ)
    → let (error, qp) =
        start_new_pending_connection ip_transparent hop c (new_pair null (sock rx)) in
      error ≡ none
      → let q = put_qp (put_qp qp) in
        ((put_qp qp).freed ≡ false)
        × (q.freed ≡ true)
        × (q.released ≡ c.sock ∷ rx ∷ [])
        × (q.fault ≡ false)
unfolding start_new_pending_connection get_qp put_qp
start_new_pending_connection_lem ip_transparent hop c rx h = ground (arith, h)
