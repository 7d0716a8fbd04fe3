-- ===== src/Connect/Life.antt =====
-- A connection from its two threads (tcpsplit/split.c: start_new_connection_syn, start_new_connection)
-- over half_duplex to the end of its pair.
use mathlib.Core.Bool.{and_comm}
use ktcp_split.Common.{
  ℕ, ◌≡◌, refl, Bool, true, false, ◌&&◌, none, some, List, [], ◌∷◌, arith, if◌then◌else◌, subst,
}
use ktcp_split.Common.Int.{ℤ, pos, is_le_zero}
use ktcp_split.Pairing.{
  null, einval, sock, tx_qp, rx_qp, Pair, set_qp_dir, get_qp, put_qp, qp_exists, wait_qp_ready,
  new_pair,
}
use ktcp_split.Forward.{Turn, Flow, returned, half_duplex}
use ktcp_split.Forward.Stream.{Counts, half_duplex-Counts}
use ktcp_split.Connect.{
  exit, SocketCalls, AcceptedCalls, Waits, Duplex, open_tx, open_rx, start_new_connection_syn,
  start_new_connection,
}

-- What a direction does to the pair.
abbrev pub gives_back : ℕ → Pair → Pair
gives_back ℕ.zero qp = qp
gives_back (ℕ.suc n) qp = gives_back n (put_qp qp)

abbrev pub duplex_of : ℤ → Flow → Duplex
duplex_of rc f qp = (rc, gives_back f.puts qp)

-- While one thread sleeps, the other joins the pair, and wakes it.
abbrev pub accept_joins : ℕ → Waits
accept_joins rx qp = elim (qp_exists rx_qp (new_pair null (sock rx)) (some qp)) [
  | none ↦ (false, qp)
  | some q ↦ (true, (wait_qp_ready rx_qp q).0)
]

abbrev pub syn_joins : ℕ → Waits
syn_joins tx qp = elim (qp_exists tx_qp (new_pair einval null) (some qp)) [
  | none ↦ (false, qp)
  | some q ↦ (true, (wait_qp_ready tx_qp (set_qp_dir tx_qp (sock tx) q)).0)
]

-- The pair when both directions are over.
abbrev pub IsOver : Bool → ℕ → ℕ → Pair → Type 0
IsOver both tx rx qp =
    (qp.in_tree ≡ false)
    × (qp.freed ≡ both)
    × (qp.released ≡ (if both then tx ∷ rx ∷ [] else []))
    × (qp.fault ≡ false)
    × (qp.late_unlock ≡ both)

puts_of :
    (ts : List Turn) (rc : ℤ) (f : Flow)
    → half_duplex true ts ≡ returned rc f
    → f.puts ≡ (if is_le_zero rc then 1 else 0)
puts_of ts rc f h = subst Counts h (half_duplex-Counts ts)

-- A pair that both threads have joined.
abbrev joined : ℕ → ℕ → Pair
joined tx rx = record (new_pair (sock tx) (sock rx)) { ref_cnt = 2; woken = true }

given_back-IsOver :
    (tx rx : ℕ) (b1 b2 : Bool)
    → IsOver
        (b1 && b2)
        tx
        rx
        (gives_back (if b2 then 1 else 0) (gives_back (if b1 then 1 else 0) (joined tx rx)))
unfolding put_qp
given_back-IsOver tx rx true true = (refl, refl, refl, refl, refl)
given_back-IsOver tx rx true false = (refl, refl, refl, refl, refl)
given_back-IsOver tx rx false true = (refl, refl, refl, refl, refl)
given_back-IsOver tx rx false false = (refl, refl, refl, refl, refl)

module _ (tx rx : ℕ) (rc1 rc2 : ℤ) (f1 f2 : Flow) where
  joined-IsOver :
      f1.puts ≡ (if is_le_zero rc1 then 1 else 0)
      → f2.puts ≡ (if is_le_zero rc2 then 1 else 0)
      → IsOver
          (is_le_zero rc1 && is_le_zero rc2)
          tx
          rx
          (gives_back f2.puts (gives_back f1.puts (joined tx rx)))
  joined-IsOver h1 h2 = rw (h1, h2) (given_back-IsOver tx rx (is_le_zero rc1) (is_le_zero rc2))

  syn_first :
      (ip_transparent : Bool) (c : SocketCalls)
      → open_tx ip_transparent c ≡ none
      → start_new_connection_syn (accept_joins rx) (duplex_of rc1 f1) ip_transparent c none
        ≡ exit rc1 [] true (some (gives_back f1.puts (joined c.sock rx)))
  unfolding start_new_connection_syn qp_exists get_qp wait_qp_ready
  syn_first ip_transparent c h = ground (arith, h)

  accept_first :
      (c : AcceptedCalls)
      → open_rx c ≡ none
      → start_new_connection (syn_joins tx) (duplex_of rc2 f2) rx c none
        ≡ exit (pos 0) [] true (some (gives_back f2.puts (joined tx rx)))
  unfolding start_new_connection qp_exists get_qp wait_qp_ready
  accept_first c h = ground (arith, h)

  swapped-IsOver :
      f1.puts ≡ (if is_le_zero rc1 then 1 else 0)
      → f2.puts ≡ (if is_le_zero rc2 then 1 else 0)
      → IsOver
          (is_le_zero rc1 && is_le_zero rc2)
          tx
          rx
          (gives_back f1.puts (gives_back f2.puts (joined tx rx)))
  swapped-IsOver h1 h2 =
      rw (h1, h2)
        (subst
          (λ both. IsOver both tx rx (
            gives_back (if is_le_zero rc1 then 1 else 0)
              (gives_back (if is_le_zero rc2 then 1 else 0) (joined tx rx))))
          (and_comm (is_le_zero rc2) (is_le_zero rc1))
          (given_back-IsOver tx rx (is_le_zero rc2) (is_le_zero rc1)))

-- A connection whose calls succeed on both sides, and whose two directions return: let one thread make
-- the pair and sleep, and the other join it and wake it, whichever is first. The first thread ends with
-- no socket released and its addresses freed. When the direction of the other has returned too, the
-- pair is out of the tree, and nothing used it after its release but the put_qp that releases it, which
-- unlocks the lock in it. It is freed, with both its sockets released, once
-- each, if both directions returned a result that is not positive, and otherwise it is not
-- freed.
pub connection_lem :
    (ip_transparent : Bool) (c : SocketCalls) (a : AcceptedCalls) (rx : ℕ)
    (sending accepting : List Turn) (rc1 rc2 : ℤ) (f1 f2 : Flow)
    → open_tx ip_transparent c ≡ none
    → open_rx a ≡ none
    → half_duplex true sending ≡ returned rc1 f1
    → half_duplex true accepting ≡ returned rc2 f2
    → let both = is_le_zero rc1 && is_le_zero rc2 in
      ((q : Pair) × (start_new_connection_syn
            (accept_joins rx)
            (duplex_of rc1 f1)
            ip_transparent
            c
            none
          ≡ exit rc1 [] true (some q))
        × IsOver both c.sock rx (gives_back f2.puts q))
      × ((q : Pair) × (start_new_connection (syn_joins c.sock) (duplex_of rc2 f2) rx a none
            ≡ exit (pos 0) [] true (some q))
          × IsOver both c.sock rx (gives_back f1.puts q))
connection_lem ip_transparent c a rx sending accepting rc1 rc2 f1 f2 h1 h2 d1 d2 =
    let p1 = puts_of sending rc1 f1 d1 in
    let p2 = puts_of accepting rc2 f2 d2 in
    (
      (
        gives_back f1.puts (joined c.sock rx),
        syn_first c.sock rx rc1 rc2 f1 f2 ip_transparent c h1,
        joined-IsOver c.sock rx rc1 rc2 f1 f2 p1 p2,
      ),
      (
        gives_back f2.puts (joined c.sock rx),
        accept_first c.sock rx rc1 rc2 f1 f2 a h2,
        swapped-IsOver c.sock rx rc1 rc2 f1 f2 p1 p2,
      ),
    )
