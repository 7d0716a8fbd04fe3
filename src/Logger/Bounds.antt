-- ===== src/Logger/Bounds.antt =====
-- The bounds of the buffers.
use ktcp_split.Common.{
  ℕ, ◌-◌, ◌<◌, ◌≤◌, ◌≡◌, refl, ap, Option, none, some, List, [], ◌∷◌, arith, length, All, if_elim,
  ◌∙◌, ◌==◌, if◌then◌else◌,
}
use ktcp_split.Common.Int.{ℤ}
use ktcp_split.Logger.{
  Mgr, DpLogger, StatsCb, trvl_buffer_size, trvlb_log_formated_string, trvlb_put_buff_head, copy_at,
  scbm_collect_stats, dp_logger_next_head, dp_logger_put_buff_head, put_last, dp_logger_get_head,
  head_of,
}

abbrev pub IsBounded : Mgr → Type 0
IsBounded mgr = mgr.len ≤ trvl_buffer_size

pub trvlb_put_buff_head-IsBounded :
    (size : ℤ) (mgr : Mgr) → IsBounded mgr → IsBounded (trvlb_put_buff_head size mgr).1
unfolding trvlb_put_buff_head
trvlb_put_buff_head-IsBounded size mgr h = ground arith

-- Whatever the callbacks write and return, the length stays within the buffer.
pub scbm_collect_stats-IsBounded :
    (scbm : List StatsCb) (mgr : Mgr) → IsBounded mgr → IsBounded (scbm_collect_stats scbm mgr)
unfolding scbm_collect_stats
scbm_collect_stats-IsBounded [] mgr h = h
scbm_collect_stats-IsBounded (entry ∷ rest) mgr h =
    scbm_collect_stats-IsBounded rest _ (trvlb_put_buff_head-IsBounded _ _ h)

-- A string that is logged, of at most the size of the buffer, ends at the new length, all of it within
-- the buffer; a longer one changes nothing. The length stays within the buffer.
pub trvlb_log_formated_string_lem :
    (mgr : Mgr) (buff : List ℕ)
    → IsBounded mgr
    → let (n, mgr') = trvlb_log_formated_string mgr buff in
      IsBounded mgr'
      × (length buff ≤ trvl_buffer_size
          → (n ≡ length buff)
            × (length buff ≤ mgr'.len)
            × (mgr'.buffer ≡ copy_at mgr.buffer (mgr'.len - length buff) buff))
      × (trvl_buffer_size < length buff → (n ≡ 0) × (mgr' ≡ mgr))
unfolding trvlb_log_formated_string
trvlb_log_formated_string_lem mgr buff h = ground arith

-- The number of a logger is that of its buffers, and each is within its bound.
abbrev pub IsValid : DpLogger → Type 0
IsValid logger = (logger.cnt ≡ length logger.list) × All IsBounded logger.list

-- A new buffer, or none for want of memory, and a put of any length keep a logger valid; the head
-- of a valid logger is that of its last buffer, and none if it has no buffer.
pub dp_logger-IsValid :
    (memory : Option (ℕ → ℕ)) (len : ℤ) (logger : DpLogger)
    → IsValid logger
    → IsValid (dp_logger_next_head memory logger).1
      × IsValid (dp_logger_put_buff_head len logger).1
      × (dp_logger_get_head logger ≡ head_of logger.list)
unfolding dp_logger_next_head dp_logger_put_buff_head dp_logger_get_head
dp_logger-IsValid memory len logger v = (
  next memory,
  if_elim (λ (r : ℤ × DpLogger). IsValid r.1) (logger.cnt == 0) (λ _. v)
      (λ _. put logger.list v.1 refl),
  head logger.list v.0,
)
  where
    next : (memory' : Option (ℕ → ℕ)) → IsValid (dp_logger_next_head memory' logger).1
    next none = v
    next (some m) = (omega (arith, v.0), (omega arith, v.1))

    put :
        (list : List Mgr)
        → All IsBounded list
        → logger.list ≡ list
        → IsValid (put_last len logger list).1
    put [] a e = v
    put (m ∷ rest) a e =
        (v.0 ∙ ap (λ (l : List Mgr). length l) e, (trvlb_put_buff_head-IsBounded len m a.0, a.1))

    head :
        (list : List Mgr)
        → logger.cnt ≡ length list
        → (if logger.cnt == 0 then none else head_of list) ≡ head_of list
    head [] e = ground (arith, e)
    head (m ∷ rest) e = ground (arith, e)
