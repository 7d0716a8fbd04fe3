-- ===== src/Client/Serve.antt =====
-- The listening threads split_server and split_server_z of kernel_client/client.c, which are the same
-- but for the port and the thread that they start.
use ktcp_split.Common.{ℕ, Bool, Option, none, some, List, [], ◌∷◌, if◌then◌else◌}
use ktcp_split.Common.Int.{ℤ, is_nonzero}

-- The thread that a connection is given to.
pub data Thread : Type 0 where
  start_new_connection : ℕ → Thread
  start_new_connection_z : ℕ → Thread

-- sock_create_kern with its socket, kernel_bind with the port, kernel_listen.
pub record Calls : Type 0 where
  pub create : ℤ
  pub sock : ℕ
  pub bind : ℕ → ℤ
  pub listen : ℤ

-- One turn: kernel_accept with its socket, and kthread_should_stop().
pub record Accept : Type 0 where
  pub rc : ℤ
  pub nsock : ℕ
  pub stop : Bool

-- The threads that were started, the result if the server has ended, and the socket that it released.
pub record Served : Type 0 where
  pub threads : List Thread
  pub rc : Option ℤ
  pub released : Option ℕ

module _ (run : ℕ → Thread) (sock : ℕ) where
  unfoldable pub accept_loop : List Accept → Served
  accept_loop [] = record { threads = []; rc = none; released = none }
  accept_loop (a ∷ accepts) =
      let rest = accept_loop accepts in
      if is_nonzero a.rc
      then record { threads = []; rc = some a.rc; released = some sock }
      else (if a.stop
          then record { threads = run a.nsock ∷ []; rc = some a.rc; released = some sock }
          else record rest { threads = run a.nsock ∷ rest.threads })

-- The body of both.
unfoldable pub serve : ℕ → (ℕ → Thread) → Calls → List Accept → Served
serve port run c accepts =
    if is_nonzero c.create
    then record { threads = []; rc = some c.create; released = none }
    else (if is_nonzero (c.bind port)
        then record { threads = []; rc = some (c.bind port); released = some c.sock }
        else (if is_nonzero c.listen
            then record { threads = []; rc = some c.listen; released = some c.sock }
            else accept_loop run c.sock accepts))

abbrev pub port_z : ℕ
port_z = 8081

pub split_server_z : Calls → List Accept → Served
split_server_z c accepts = serve port_z start_new_connection_z c accepts

abbrev pub port : ℕ
port = 8080

pub split_server : Calls → List Accept → Served
split_server c accepts = serve port start_new_connection c accepts
