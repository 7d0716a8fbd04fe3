-- ===== src/Pairing/Tests.antt =====
-- Runs of two threads that share a pair, with the sockets 5 and 6.
use ktcp_split.Common.{◌≡◌, refl, true, some, List, [], ◌∷◌}
use ktcp_split.Pairing.{
  System, tx_qp, rx_qp, waiting, connecting, running, finished, go, Event, syn, connected, accepted,
  wakes, hangs_up, times_out, event, events, qp_exists, wait_qp_ready, get_qp, put_qp,
}
use ktcp_split.Pairing.Safety.{state_of, IsSafe, events-IsSafe, events-wakes, events-late_connect}

-- The SYN comes first, the accepted socket next; both halves forward, and hang up.
abbrev whole : List Event
whole = syn ∷ accepted ∷ connected ∷ wakes rx_qp ∷ hangs_up tx_qp ∷ hangs_up rx_qp ∷ []

abbrev closed : System
closed = state_of 5 6 finished finished (5 ∷ 6 ∷ [])

events-IsSafe_example : IsSafe 5 6 closed
unfolding event events qp_exists wait_qp_ready get_qp put_qp
events-IsSafe_example = events-IsSafe 5 6 whole closed refl refl

abbrev joined : List Event
joined = syn ∷ accepted ∷ connected ∷ []

events-wakes_example :
    ((state_of 5 6 running waiting []).pair.woken ≡ true)
    × (event 5 6 (wakes rx_qp) (state_of 5 6 running waiting [])
        ≡ some (
            go rx_qp running
              (state_of 5 6 running waiting []).pair
              (state_of 5 6 running waiting [])))
unfolding event events qp_exists wait_qp_ready get_qp put_qp
events-wakes_example =
    events-wakes 5 6 joined (state_of 5 6 running waiting []) rx_qp refl refl refl refl

events-late_connect_example :
    (u : System) × (events 5 6
        (times_out rx_qp ∷ connected ∷ [])
        (state_of 5 6 connecting waiting [])
      ≡ some u)
    × (u.pair.fault ≡ true)
unfolding event events qp_exists wait_qp_ready get_qp put_qp
events-late_connect_example =
    events-late_connect 5 6 (syn ∷ accepted ∷ []) (state_of 5 6 connecting waiting []) refl refl
      refl refl
