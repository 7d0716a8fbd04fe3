-- ===== src/Connect/Halves.antt =====
-- The threads of the two halves.
use ktcp_split.Common.{
  ℕ, ◌≡◌, refl, Bool, true, false, Option, none, some, List, [], ◌∷◌, arith, if◌then◌else◌,
}
use ktcp_split.Common.Int.{ℤ, pos, is_le_zero}
use ktcp_split.Pairing.{null, einval, sock, tx_qp, Pair, qp_exists, new_pair}
use ktcp_split.Connect.{
  Exit, exit, oops, SocketCalls, AcceptedCalls, Waits, Duplex, open_tx, open_rx, created,
  start_new_connection_syn, start_new_connection, start_new_pre_connection_syn,
}

-- The sockets that a thread releases, and whether its addresses are freed.
abbrev pub releases : Exit → List ℕ
releases (exit rc socks freed qp) = socks
releases oops = []

abbrev pub frees : Exit → Bool
frees (exit rc socks freed qp) = freed
frees oops = false

abbrev pub is_none : Option Pair → Bool
is_none none = true
is_none (some p) = false

module _ (waits : Waits) (duplex : Duplex) where
  -- The thread that connects releases the socket that it created just when it has a pair and one of
  -- its calls failed, and no socket otherwise. It frees its addresses in all the other cases, and not
  -- in that one.
  pub start_new_connection_syn_lem :
      (ip_transparent : Bool) (c : SocketCalls) (found : Option Pair)
      → let x = start_new_connection_syn waits duplex ip_transparent c found in
        let failed = elim (open_tx ip_transparent c) as (λ _. Bool) [
          | none ↦ false
          | some rc ↦ true
        ] in
        let duplicate = is_none (qp_exists tx_qp (new_pair einval null) found) in
        (releases x ≡ (if duplicate then [] else if failed then created c.create c.sock else []))
        × (frees x ≡ (if duplicate then true else if failed then false else true))
  unfolding start_new_connection_syn
  start_new_connection_syn_lem ip_transparent c found = ground arith

  -- A new pair whose connect failed stays in the tree, marked as in progress: every later SYN of that
  -- connection ends as a duplicate, with the result 0 and no socket.
  pub start_new_connection_syn-again :
      (ip_transparent : Bool) (c : SocketCalls) (rc : ℤ)
      → open_tx ip_transparent c ≡ some rc
      → (p : Pair) × (start_new_connection_syn waits duplex ip_transparent c none
          ≡ exit rc (created c.create c.sock) false (some p))
        × (p.in_tree ≡ true)
        × ((later : SocketCalls)
            → start_new_connection_syn waits duplex ip_transparent later (some p)
              ≡ exit (pos 0) [] true none)
  unfolding start_new_connection_syn qp_exists
  start_new_connection_syn-again ip_transparent c rc h =
      (record (new_pair einval null) { in_tree = true }, ground (arith, h), refl, λ later. refl)

  -- A half that comes from the pool, and whose forward to the next hop fails, falls back to a new
  -- connection. The fallback finds the half's own pair, ends as a duplicate, and opens no socket:
  -- the thread ends with the result of the forward. A half that the tree has already ends with the
  -- result 0.
  pub start_new_pre_connection_syn-fallback :
      (ip_transparent : Bool) (c : SocketCalls) (s : ℕ) (forward : ℤ) (found : Option Pair)
      → is_le_zero forward ≡ true
      → start_new_pre_connection_syn waits duplex ip_transparent c (some s) true forward found ≡ (
          if is_none (qp_exists tx_qp (new_pair (sock s) null) found)
          then exit (pos 0) [] false none
          else exit forward [] true none)
  unfolding start_new_pre_connection_syn start_new_connection_syn qp_exists
  start_new_pre_connection_syn-fallback ip_transparent c s forward found h = ground (arith, h)

  -- The thread of an accepted socket releases it just when one of its calls on it failed. It reads
  -- a NULL pair only when the tree has a pair whose accepted half is not empty.
  pub start_new_connection_lem :
      (rx : ℕ) (c : AcceptedCalls) (found : Option Pair)
      → let failed = elim (open_rx c) as (λ _. Bool) [ none ↦ false | some rc ↦ true ] in
        let x = start_new_connection waits duplex rx c found in
        (releases x ≡ (if failed then rx ∷ [] else []))
        × (x ≡ oops → (p : Pair) × (found ≡ some p) × (p.rx ≡ null → ⊥))
  unfolding start_new_connection qp_exists
  start_new_connection_lem rx c found = ground arith
