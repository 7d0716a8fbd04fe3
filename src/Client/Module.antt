-- ===== src/Client/Module.antt =====
-- The files of kernel_client/client.c under /proc, and the start and the end of the module.
use ktcp_split.Common.{ℕ, ◌+◌, Bool, true, false, ◌⊎◌, inl, inr, List, [], ◌∷◌, ◌==◌, if◌then◌else◌}
use ktcp_split.Common.Int.{ℤ, pos, neg}

abbrev pub einval : ℕ
einval = 22

-- `kbuf[0] == '0'`; the copy ends in a NUL byte.
abbrev first : List ℕ → ℕ
first [] = 0
first (b ∷ bs) = b

-- The copy of the text, or the error of memdup_user_nul; the length; `is_zcopy`. The result, the new
-- `is_zcopy`, and whether the task of the file is woken.
unfoldable pub client_write : ℤ ⊎ List ℕ → ℕ → Bool → ℤ × Bool × Bool
client_write (inl error) len is_zcopy = (error, is_zcopy, false)
client_write (inr kbuf) len is_zcopy = (pos len, (first kbuf == b'0'), true)

-- The result and the position.
unfoldable pub client_read : Bool → ℕ → ℤ × ℕ
client_read buf ppos = if buf then (pos 0, ppos + 1) else (neg einval, ppos)

pub data Task : Type 0 where
  udp_client_task tcp_client_task tcp_server tcp_server_z : Task

-- The result and the threads that run; the arguments tell whether the files were made.
unfoldable pub client_init : Bool → Bool → ℤ × List Task
client_init udp tcp =
    let tasks = udp_client_task ∷ tcp_client_task ∷ tcp_server ∷ tcp_server_z ∷ [] in
    if udp then (if tcp then (pos 0, tasks) else (neg 1, tasks)) else (neg 1, tasks)

-- The threads that are stopped, in their order.
abbrev pub client_exit : List Task
client_exit = udp_client_task ∷ tcp_client_task ∷ tcp_server ∷ tcp_server_z ∷ []
