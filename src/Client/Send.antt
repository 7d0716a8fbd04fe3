-- ===== src/Client/Send.antt =====
-- The sending side: send_loop, tcp_client, udp_client and poll_thread of kernel_client/client.c.
use ktcp_split.Common.{
  ℕ, zero, suc, ◌+◌, ◌*◌, ◌^◌, Bool, true, false, Option, none, some, List, [], ◌∷◌, if◌then◌else◌,
}
use ktcp_split.Common.Int.{ℤ, is_nonzero, is_le_zero}
use ktcp_split.Client.{page_size}

-- The turns of the loop that are left, and the results of trace_sendmsg that are left; a result that
-- is not positive is tried again.
unfoldable pub send_loop : ℕ → List ℤ → ℕ × List ℤ
send_loop zero rcs = (zero, rcs)
send_loop (suc n) [] = (suc n, [])
send_loop (suc n) (rc ∷ rcs) =
    let again = send_loop (suc n) rcs in
    let next = send_loop n rcs in if is_le_zero rc then again else next

abbrev pub sends : ℕ
sends = 2 ^ 19

-- `iov_base` and `iov_len`.
pub record Vec : Type 0 where
  pub base : ℕ
  pub len : ℕ

-- The loop that fills `kvec[i]` for the `n` indices from `i`.
unfoldable pub fill_kvec : ℕ → ℕ → ℕ → List Vec
fill_kvec base i zero = []
fill_kvec base i (suc n) =
    record { base = base + i * (page_size * 4); len = page_size * 4 } ∷ fill_kvec base (suc i) n

-- How tcp_client ends: in an oops in sock_release(NULL), still in its loop, or with the socket that it
-- released and the pages that it freed.
pub data TcpEnd : Type 0 where
  oops : TcpEnd
  sending : TcpEnd
  released : ℕ → ℕ → TcpEnd

abbrev pub sock_release : Option ℕ → ℕ → TcpEnd
sock_release none base = oops
sock_release (some tx) base = released tx base

abbrev pub connected : ℕ → ℕ → ℕ × List ℤ → TcpEnd
connected tx base (zero, rcs) = released tx base
connected tx base (suc n, rcs) = sending

-- The pages, the results of sock_create_kern with its socket and of kernel_connect, and those of the
-- sends.
unfoldable pub tcp_client : Option ℕ → ℤ → ℕ → ℤ → List ℤ → TcpEnd
tcp_client none create tx connect rcs = sock_release none 0
tcp_client (some base) create tx connect rcs =
    if is_nonzero create
    then sock_release none base
    else (if is_nonzero connect
        then sock_release (some tx) base
        else connected tx base (send_loop sends rcs))

-- The page and the socket that udp_client leaves behind, and the messages sent.
unfoldable pub udp_client : Option ℕ → ℤ → ℕ → Option ℕ × Option ℕ × ℕ
udp_client none create tx = (none, none, 0)
udp_client (some page) create tx =
    if is_nonzero create then (some page, none, 0) else (some page, some tx, 2 ^ 25)

-- One turn: kthread_should_stop() before the sleep and after it, and how tcp_client would end.
pub record PollTurn : Type 0 where
  pub stop : Bool
  pub stop_woken : Bool
  pub client : TcpEnd

-- The runs of tcp_client, and whether the thread has returned.
unfoldable pub poll_thread : List PollTurn → List TcpEnd × Bool
poll_thread [] = ([], false)
poll_thread (t ∷ ts) =
    let (runs, over) = poll_thread ts in
    let run = elim t.client as (λ _. List TcpEnd × Bool) [
      | oops ↦ (oops ∷ [], false)
      | sending ↦ (sending ∷ [], false)
      | released tx base ↦ (released tx base ∷ runs, over)
    ] in
    if t.stop then ([], true) else (if t.stop_woken then (runs, over) else run)
