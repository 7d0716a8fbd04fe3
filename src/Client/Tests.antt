-- ===== src/Client/Tests.antt =====
-- Runs of the traffic generator.
use ktcp_split.Common.{
  ℕ, suc, ◌+◌, ◌≡◌, ◌⊎◌, refl, true, false, none, some, List, [], ◌∷◌, ◌++◌, map, length,
}
use ktcp_split.Common.Int.{pos, negsuc}
use ktcp_split.Client.{vec_sz}
use ktcp_split.Client.Receive.{
  null, page, unsets, Turn, meter, receive_loop, finish, start_new_connection,
}
use ktcp_split.Client.Send.{oops, sending, released, tcp_client, poll_thread}
use ktcp_split.Client.Pages.{Succeeds, Fails, start_new_connection-finish}

abbrev turns : List Turn
turns =
    record { stop = false; now = 5; rc = pos 100 }
    ∷ record { stop = false; now = 2000000000; rc = pos 60 }
    ∷ record { stop = false; now = 2000000001; rc = negsuc 103 }
    ∷ []

-- The second allocation fails.
start_new_connection-finish_example :
    (got : List ℕ) × (((length got ≡ vec_sz)
        × Succeeds got (some 8 ∷ none ∷ [])
        × (start_new_connection 0 (some 8 ∷ none ∷ []) turns
            ≡ finish (map page got) (receive_loop (pos 0) (meter 0) turns)))
      ⊎ ((m : ℕ) × (length got + suc m ≡ vec_sz)
          × Fails got (some 8 ∷ none ∷ [])
          × (start_new_connection 0 (some 8 ∷ none ∷ []) turns
              ≡ some (pos 0, meter 0, map page got ++ (null ∷ unsets m)))))
start_new_connection-finish_example = start_new_connection-finish 0 (some 8 ∷ none ∷ []) turns

no_page : tcp_client none (pos 0) 5 (pos 0) [] ≡ oops
unfolding tcp_client
no_page = refl

-- The thread is woken once, runs a client whose connection fails, and is told to stop.
polls :
    poll_thread (
      record { stop = false; stop_woken = false; client = released 5 4096 }
      ∷ record { stop = true; stop_woken = true; client = sending }
      ∷ [])
    ≡ ((released 5 4096 ∷ []), true)
unfolding poll_thread
polls = refl
