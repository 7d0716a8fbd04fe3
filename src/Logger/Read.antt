-- ===== src/Logger/Read.antt =====
-- A read of the log.
use ktcp_split.Common.{
  ℕ, ◌+◌, ◌%◌, ◌<◌, ◌≤◌, ◌≡◌, refl, ap, Bool, Bool-cases, true, false, not, Option, some, List, [],
  arith, length, ltb, inl, inr, ◌∙◌, ◌==◌, ◌||◌, if◌then◌else◌,
}
use ktcp_split.Common.Int.{ℤ, pos, neg}
use ktcp_split.Logger.{
  Mgr, StatsCb, slice, scbm_collect_stats, read_loop, stats_log_read, efault, einval, copy_at,
  trvl_buffer_size, logger_log_write, trvlb_log_formated_string,
}
use ktcp_split.Logger.Memory.{slice-copy_at}

-- The result of a read at an even position, of the statistics that were collected.
abbrev pub outcome : Bool → ℕ → Mgr → ℤ × List ℕ × Mgr
outcome copies len mgr =
    if (mgr.len == 0) || ltb len mgr.len
    then (pos 0, [], mgr)
    else if copies
    then (pos mgr.len, slice mgr.buffer 0 mgr.len, record mgr { len = 0 })
    else (neg efault, [], mgr)

read_loop-two :
    (copies : Bool) (len : ℕ) (mgr : Mgr)
    → read_loop copies 2 len 0 [] mgr ≡ some (outcome copies len mgr)
unfolding read_loop
read_loop-two copies len mgr = ground arith

-- What a read gives, and the position after it.
abbrev pub read_of : List StatsCb → Bool → Bool → ℕ → ℕ → Mgr → Option (ℤ × List ℕ × Mgr) × ℕ
read_of scbm buf copies len ppos mgr = if not buf then (some (neg einval, [], mgr), ppos) else (
  some (
      if ppos % 2 == 1 then (pos 0, [], mgr) else outcome copies len (scbm_collect_stats scbm mgr)),
  ppos + 1,
)

-- Two turns of the loop are enough, whatever the buffer holds. A read without a buffer of the user
-- fails, does nothing, and leaves the position. Otherwise the position goes on by one, and a read at
-- an even position collects the statistics, copies the whole buffer and empties it, if the buffer is
-- not empty and the reader has room for all of it, and copies nothing and keeps it otherwise; a copy
-- that faults keeps it too. At an odd position a read returns 0 and does nothing more.
pub stats_log_read_lem :
    (scbm : List StatsCb) (buf copies : Bool) (len ppos : ℕ) (mgr : Mgr)
    → stats_log_read scbm buf copies len ppos mgr ≡ read_of scbm buf copies len ppos mgr
unfolding stats_log_read
stats_log_read_lem scbm false copies len ppos mgr = refl
stats_log_read_lem scbm true copies len ppos mgr = elim (Bool-cases (ppos % 2 == 1)) [
  | inl odd ↦ rw odd refl
  | inr even ↦
      rw even (ap (λ r. (r, ppos + 1)) (read_loop-two copies len (scbm_collect_stats scbm mgr)))
]

-- A text of at least two bytes, and of no more than the buffer holds, that is written to an empty
-- log is what the next read copies, if the reader has room for it and no callback is registered;
-- the log is empty again.
pub stats_log_read-logger_log_write :
    (buff : List ℕ) (len : ℕ) (mgr : Mgr)
    → 1 < length buff
    → length buff ≤ trvl_buffer_size
    → length buff ≤ len
    → mgr.len ≡ 0
    → (mgr' : Mgr) × (stats_log_read [] true true len 0
          (logger_log_write (inr buff) (length buff) mgr).1
        ≡ (some (pos (length buff), buff, mgr'), 1))
      × (mgr'.len ≡ 0)
unfolding logger_log_write trvlb_log_formated_string scbm_collect_stats
stats_log_read-logger_log_write buff len mgr h k l e =
    let memory = copy_at mgr.buffer 0 buff in
    let full : Mgr = record { len = length buff; buffer = memory } in
    let written : (logger_log_write (inr buff) (length buff) mgr).1 ≡ full = ground (arith, e) in
    let result : outcome true len full ≡ (pos (length buff), buff, record full { len = 0 }) =
      ground (arith, slice-copy_at mgr.buffer 0 buff) in
    (
      record full { len = 0 },
      rw written (stats_log_read_lem [] true true len 0 full ∙ ap (λ r. (some r, 1)) result),
      refl,
    )
