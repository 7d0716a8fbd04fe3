-- ===== src/Client/Receive.antt =====
-- The threads that receive from a connection: start_new_connection, start_new_connection_z and
-- tcp_read_sock_zcopy_blocking of kernel_client/client.c.
use ktcp_split.Common.{
  ℕ, zero, suc, ◌+◌, ◌-◌, Bool, Option, none, some, List, [], ◌∷◌, ◌++◌, ltb, if◌then◌else◌,
}
use ktcp_split.Common.Int.{ℤ, pos, is_neg, is_nonzero, is_le_zero, pos_part}
use ktcp_split.Common.Words.{u64}
use ktcp_split.Client.{vec_sz, nsec_per_sec}

-- `kvec[i].iov_base`: without a value, or a pointer that may be NULL.
pub data Base : Type 0 where
  unset : Base
  null : Base
  page : ℕ → Base

-- What a thread counts, and has traced: the time and the bytes of a period.
pub record Meter : Type 0 where
  pub start : ℕ
  pub bytes : ℕ
  pub traced : List (ℕ × ℕ)

-- `if (ktime_after(now, ktime_add(start, NSEC_PER_SEC)))`
unfoldable pub tick : ℕ → Meter → Meter
tick now m =
    if ltb (m.start + nsec_per_sec) now
    then record { start = now; bytes = 0; traced = m.traced ++ ((now - m.start, m.bytes) ∷ []) }
    else m

-- `bytes += rc`
abbrev pub add_bytes : ℕ → Meter → Meter
add_bytes n m = record m { bytes = u64 (m.bytes + n) }

abbrev pub meter : ℕ → Meter
meter now = record { start = now; bytes = 0; traced = [] }

abbrev pub unsets : ℕ → List Base
unsets zero = []
unsets (suc n) = unset ∷ unsets n

-- The allocations of the first loop, in their order, into `n` cells: the cells, and whether all
-- succeeded. The cells after a failed allocation keep no value.
unfoldable pub alloc_kvec : ℕ → List (Option ℕ) → List Base × Bool
alloc_kvec zero pages = ([], Bool.true)
alloc_kvec (suc n) [] = (null ∷ unsets n, Bool.false)
alloc_kvec (suc n) (none ∷ pages) = (null ∷ unsets n, Bool.false)
alloc_kvec (suc n) (some a ∷ pages) = let (cells, all) = alloc_kvec n pages in (page a ∷ cells, all)

-- One turn of the receiving loop: kthread_should_stop(), ktime_get(), kernel_recvmsg().
pub record Turn : Type 0 where
  pub stop : Bool
  pub now : ℕ
  pub rc : ℤ

-- The loop still runs, or has been left with `rc`.
pub data Progress : Type 0 where
  running : Meter → Progress
  left : ℤ → Meter → Progress

unfoldable pub receive_loop : ℤ → Meter → List Turn → Progress
receive_loop rc m [] = running m
receive_loop rc m (t ∷ ts) =
    let m' = tick t.now m in
    let rest = receive_loop t.rc (add_bytes (pos_part t.rc) m') ts in
    if t.stop then left rc m else (if is_le_zero t.rc then left t.rc m' else rest)

-- The end of a thread: its result, what it traced, and the calls of free_pages. `none` while it
-- runs.
unfoldable pub finish : List Base → Progress → Option (ℤ × Meter × List Base)
finish cells (running m) = none
finish cells (left rc m) = some (rc, m, cells)

unfoldable pub start_new_connection :
    ℕ → List (Option ℕ) → List Turn → Option (ℤ × Meter × List Base)
start_new_connection now pages turns =
    let (cells, all) = alloc_kvec vec_sz pages in
    let loop = receive_loop (pos 0) (meter now) turns in
    finish cells (if all then loop else left (pos 0) (meter now))

-- What tcp_read_sock_zcopy_blocking sees in a turn: an empty queue, or a read and its result.
pub data Peek : Type 0 where
  empty : Peek
  read : ℤ → Peek

-- The number of waits in sk_wait_data, and the result, if it returned.
unfoldable pub tcp_read_sock_zcopy_blocking : List Peek → ℕ × Option ℤ
tcp_read_sock_zcopy_blocking [] = (0, none)
tcp_read_sock_zcopy_blocking (empty ∷ ps) =
    let (waits, rc) = tcp_read_sock_zcopy_blocking ps in (suc waits, rc)
tcp_read_sock_zcopy_blocking (read rc ∷ ps) =
    let (waits, rc') = tcp_read_sock_zcopy_blocking ps in
    if is_nonzero rc then (0, some rc) else (suc waits, rc')

-- One turn of start_new_connection_z: what its read sees, and the pages that it stores in the first
-- cells.
pub record TurnZ : Type 0 where
  pub stop : Bool
  pub now : ℕ
  pub peeks : List Peek
  pub pages : List ℕ

abbrev pub fill : List ℕ → List (Option ℕ) → List (Option ℕ)
fill [] cells = cells
fill (a ∷ pages) [] = []
fill (a ∷ pages) (c ∷ cells) = some a ∷ fill pages cells

-- The loop of put_page, up to the first NULL: the pages put, and the cells.
unfoldable pub put_pages : List (Option ℕ) → List ℕ × List (Option ℕ)
put_pages [] = ([], [])
put_pages (none ∷ cells) = ([], none ∷ cells)
put_pages (some a ∷ cells) = let (puts, rest) = put_pages cells in (a ∷ puts, none ∷ rest)

abbrev pub nulls : ℕ → List (Option ℕ)
nulls zero = []
nulls (suc n) = none ∷ nulls n

-- The thread: what it counted, its cells and the pages it has put; and its result once it has ended.
pub record Zcopy : Type 0 where
  pub meter : Meter
  pub cells : List (Option ℕ)
  pub puts : List ℕ

abbrev pub received : ℕ → TurnZ → Zcopy → Zcopy
received n t z =
    let (puts, cells) = put_pages (fill t.pages z.cells) in
    record { meter = add_bytes n (tick t.now z.meter); cells = cells; puts = z.puts ++ puts }

-- A read that still waits blocks the thread. `!rc` is tested as the code does, though the read does
-- not return 0.
abbrev pub after_read :
    Zcopy → Option ℤ × Zcopy → (ℤ → Option ℤ × Zcopy) → Option ℤ → Option ℤ × Zcopy
after_read z again onward none = (none, z)
after_read z again onward (some r) =
    if is_neg r then (some r, z) else (if is_nonzero r then onward r else again)

abbrev pub ticked : TurnZ → Zcopy → Zcopy
ticked t z = record z { meter = tick t.now z.meter }

unfoldable pub zcopy_loop : ℤ → Zcopy → List TurnZ → Option ℤ × Zcopy
zcopy_loop rc z [] = (none, z)
zcopy_loop rc z (t ∷ ts) =
    let again = zcopy_loop (pos 0) (ticked t z) ts in
    let onward = λ (r : ℤ). zcopy_loop r (received (pos_part r) t z) ts in
    if t.stop
    then (some rc, z)
    else after_read (ticked t z) again onward (tcp_read_sock_zcopy_blocking t.peeks).1

unfoldable pub start_new_connection_z : ℕ → List TurnZ → Option ℤ × Zcopy
start_new_connection_z now turns =
    zcopy_loop (pos 0) (record { meter = meter now; cells = nulls vec_sz; puts = [] }) turns
