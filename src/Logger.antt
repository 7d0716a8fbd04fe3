-- ===== src/Logger.antt =====
-- The stream logger: logger/dpb.h, logger/stats_cb_mgr.h and logger/logger.c. The memory of a buffer is
-- a function from its offsets; what is copied from and to the user, and the registered callbacks, are
-- arguments.
pub mod Memory
pub mod Bounds
pub mod Read
pub mod Requests
pub mod Log
pub mod Refine
pub mod Module
mod Tests
use ktcp_split.Common.{
  ℕ, ◌+◌, ◌-◌, ◌*◌, ◌%◌, Bool, true, false, not, Option, none, some, List, [], ◌∷◌, ◌++◌, ltb, leb,
  ◌==◌, if◌then◌else◌, length, ◌||◌, ◌⊎◌, inl, inr,
}
use ktcp_split.Common.Int.{ℤ, pos, negsuc, neg, ◌+ℤ◌}

abbrev pub page_size : ℕ
page_size = 4096

abbrev pub trvl_buffer_size : ℕ
trvl_buffer_size = page_size - 128

abbrev pub einval : ℕ
einval = 22

abbrev pub efault : ℕ
efault = 14

-- `struct trvl_buffer_mgr`
pub record Mgr : Type 0 where
  pub len : ℕ
  pub buffer : ℕ → ℕ

abbrev pub write_at : (ℕ → ℕ) → ℕ → ℕ → ℕ → ℕ
write_at f n x i = if i == n then x else f i

-- `memcpy(&buffer[off], bytes, ...)`
abbrev pub copy_at : (ℕ → ℕ) → ℕ → List ℕ → ℕ → ℕ
copy_at f off [] = f
copy_at f off (x ∷ xs) = copy_at (write_at f off x) (off + 1) xs

-- The n bytes from an offset on.
abbrev pub slice : (ℕ → ℕ) → ℕ → ℕ → List ℕ
slice f off ℕ.zero = []
slice f off (ℕ.suc n) = f off ∷ slice f (off + 1) n

-- trvlb_init and trvlb_close
abbrev pub trvlb_init : Mgr → Mgr
trvlb_init mgr = record mgr { len = 0 }

-- The length taken, and the buffer: one that is too full for the string starts again.
pub trvlb_log_formated_string : Mgr → List ℕ → ℕ × Mgr
trvlb_log_formated_string mgr buff =
    if ltb trvl_buffer_size (length buff)
    then (0, mgr)
    else (let start = if ltb trvl_buffer_size (length buff + mgr.len) then 0 else mgr.len in
        (length buff, record { len = start + length buff; buffer = copy_at mgr.buffer start buff }))

abbrev pub trvlb_pull_formated_buffer : Mgr → ℕ × (ℕ → ℕ)
trvlb_pull_formated_buffer mgr = (mgr.len, mgr.buffer)

-- A flag that is not 0 consumes the buffer.
abbrev pub trvlb_put_formated_buffer : ℕ → Mgr → Mgr
trvlb_put_formated_buffer flag mgr = if flag == 0 then mgr else record mgr { len = 0 }

-- The offset of the head and the room behind it.
abbrev pub trvlb_get_buff_head : Mgr → ℕ × ℕ
trvlb_get_buff_head mgr = (mgr.len, trvl_buffer_size - mgr.len)

-- The sum is compared as an unsigned number, so that a negative one is too large.
pub trvlb_put_buff_head : ℤ → Mgr → ℤ × Mgr
trvlb_put_buff_head len mgr = elim (pos mgr.len +ℤ len) [
  | pos n ↦ if ltb trvl_buffer_size n then (neg einval, mgr) else (pos 0, record mgr { len = n })
  | negsuc n ↦ (neg einval, mgr)
]

-- `struct dp_logger`: the buffers, the last one first, and their number.
pub record DpLogger : Type 0 where
  pub list : List Mgr
  pub cnt : ℕ

abbrev pub dp_logger_init : DpLogger
dp_logger_init = record { list = []; cnt = 0 }

-- The memory of the new buffer, if there is any: its head and room, and the logger.
pub dp_logger_next_head : Option (ℕ → ℕ) → DpLogger → Option (ℕ × ℕ) × DpLogger
dp_logger_next_head none logger = (none, logger)
dp_logger_next_head (some memory) logger =
    let mgr = trvlb_init (record { len = 0; buffer = memory }) in
    (some (trvlb_get_buff_head mgr), record { list = mgr ∷ logger.list; cnt = logger.cnt + 1 })

-- list_last_entry of a list that is not empty; NULL of the caller when `cnt` is 0.
abbrev pub head_of : List Mgr → Option (ℕ × ℕ)
head_of [] = none
head_of (mgr ∷ rest) = some (trvlb_get_buff_head mgr)

pub dp_logger_get_head : DpLogger → Option (ℕ × ℕ)
dp_logger_get_head logger = if logger.cnt == 0 then none else head_of logger.list

abbrev pub put_last : ℤ → DpLogger → List Mgr → ℤ × DpLogger
put_last len logger [] = (neg einval, logger)
put_last len logger (mgr ∷ rest) =
    let (rc, mgr') = trvlb_put_buff_head len mgr in (rc, record logger { list = mgr' ∷ rest })

pub dp_logger_put_buff_head : ℤ → DpLogger → ℤ × DpLogger
dp_logger_put_buff_head len logger =
    if logger.cnt == 0 then (neg einval, logger) else put_last len logger logger.list

-- `get_stat` of a registered entry: what it writes and returns, for a tailroom.
abbrev pub StatsCb : Type 0
StatsCb = ℕ → List ℕ × ℤ

abbrev pub scbm_register : List StatsCb → StatsCb → List StatsCb
scbm_register scbm entry = scbm ++ (entry ∷ [])

pub scbm_collect_stats : List StatsCb → Mgr → Mgr
scbm_collect_stats [] mgr = mgr
scbm_collect_stats (entry ∷ rest) mgr =
    let (head, tailroom) = trvlb_get_buff_head mgr in
    let (text, size) = entry tailroom in
    scbm_collect_stats rest
      (trvlb_put_buff_head size (record mgr { buffer = copy_at mgr.buffer head text })).1

-- The result, and the statistics buffer, given the copy from the user or the error of it.
pub logger_log_write : ℤ ⊎ List ℕ → ℕ → Mgr → ℤ × Mgr
logger_log_write kbuf size mgr =
    if leb size 1 || leb page_size size then (neg einval, mgr) else elim kbuf [
      | inl error ↦ (error, mgr)
      | inr buff ↦ (pos size, (trvlb_log_formated_string mgr buff).1)
    ]

-- `while (cnt < len)`: the result, what was copied to the user, and the buffer.
pub read_loop : Bool → ℕ → ℕ → ℕ → List ℕ → Mgr → Option (ℤ × List ℕ × Mgr)
read_loop copies ℕ.zero len cnt out mgr = none
read_loop copies (ℕ.suc fuel) len cnt out mgr =
    let (size, buffer) = trvlb_pull_formated_buffer mgr in
    let onward =
      read_loop copies fuel len (cnt + size) (out ++ slice buffer 0 size)
        (trvlb_put_formated_buffer size mgr) in
    if leb len cnt
    then some (pos cnt, out, mgr)
    else if size == 0
    then some (pos cnt, out, mgr)
    else if ltb len (cnt + size)
    then some (pos cnt, out, trvlb_put_formated_buffer 0 mgr)
    else (if copies then onward else some (neg efault, out, trvlb_put_formated_buffer 0 mgr))

-- The second argument tells whether `buf` is not NULL. A read that follows one returns 0: `ppos` is odd
-- then. The loop ends within two turns.
pub stats_log_read : List StatsCb → Bool → Bool → ℕ → ℕ → Mgr → Option (ℤ × List ℕ × Mgr) × ℕ
stats_log_read scbm buf copies len ppos mgr =
    if not buf
    then (some (neg einval, [], mgr), ppos)
    else if ppos % 2 == 1
    then (some (pos 0, [], mgr), ppos + 1)
    else (read_loop copies 2 len 0 [] (scbm_collect_stats scbm mgr), ppos + 1)
