-- ===== src/Logger/Requests.antt =====
-- The requests that the two files of the logger serve, one after another: logger/logger.c. A sequence of
-- them runs on the buffer and the registered callbacks.
use ktcp_split.Common.{
  ℕ, Bool, true, false, Option, none, some, List, [], ◌∷◌, if◌then◌else◌, length, inl, inr, ◌>>=◌,
}
use ktcp_split.Common.Text.{codes, scnprintf}
use ktcp_split.Common.Int.{ℤ, pos}
use ktcp_split.Logger.{Mgr, StatsCb, trvlb_init, scbm_register, logger_log_write, stats_log_read}

abbrev pub hello : List ℕ
hello = codes "Hello World\n"

unfoldable pub debug_stats : StatsCb
debug_stats tailroom = scnprintf hello tailroom

-- `dp_logger`, and whether `debug_entry` is in the list of the callbacks.
pub record DpState : Type 0 where
  pub stats : Mgr
  pub cbm : List StatsCb
  pub listed : Bool

-- md_init for a buffer of any contents.
unfoldable pub md_init : (ℕ → ℕ) → DpState
md_init memory = record {
  stats = trvlb_init (record { len = 0; buffer = memory });
  cbm = [];
  listed = false;
}

-- `debug_entry` is one object: list_add_tail wants an entry that is in no list, so a second write is
-- `none`.
unfoldable pub stats_log_write : ℕ → DpState → Option (ℤ × DpState)
stats_log_write size s =
    if s.listed
    then none
    else some (pos size, record s { cbm = scbm_register s.cbm debug_stats; listed = true })

-- A write to the log, of what was copied from the user or with the error of the copy; a write to the
-- statistics; a read of either file, with whether there is a buffer, the success of the copy, the length and the position.
pub data Request : Type 0 where
  write_log : List ℕ → Request
  fault_log : ℤ → ℕ → Request
  write_stats : ℕ → Request
  read : Bool → Bool → ℕ → ℕ → Request

abbrev replied : DpState → ℤ × Mgr → (ℤ × List ℕ) × DpState
replied s (rc, mgr) = ((rc, []), record s { stats = mgr })

-- The result, what is copied to the user, and the state.
unfoldable pub serve : Request → DpState → Option ((ℤ × List ℕ) × DpState)
serve (write_log buff) s = some (replied s (logger_log_write (inr buff) (length buff) s.stats))
serve (fault_log error size) s = some (replied s (logger_log_write (inl error) size s.stats))
serve (write_stats size) s = stats_log_write size s >>= λ (rc, s'). some ((rc, []), s')
serve (read buf copies len ppos) s =
    (stats_log_read s.cbm buf copies len ppos s.stats).0 >>= λ (rc, out, mgr).
    some ((rc, out), record s { stats = mgr })

unfoldable pub serve_all : List Request → DpState → Option (List (ℤ × List ℕ) × DpState)
serve_all [] s = some ([], s)
serve_all (q ∷ rest) s =
    serve q s >>= λ (reply, s'). serve_all rest s' >>= λ (replies, s''). some (reply ∷ replies, s'')
