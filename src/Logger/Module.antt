-- ===== src/Logger/Module.antt =====
-- The start and the end of the logger's module: md_init, md_close, dp_log_init and dp_log_exit of
-- logger/logger.c.
use ktcp_split.Common.{
  ℕ, ◌≡◌, Bool, not, Option, none, some, List, [], ◌∷◌, ◌++◌, ◌==◌, ◌&&◌, if◌then◌else◌, arith,
}
use ktcp_split.Common.Int.{ℤ, pos, neg}
use ktcp_split.Common.Text.{codes}
use ktcp_split.Lifecycle.{
  Call, Fops, proc_mkdir, proc_create, remove_proc_subtree, stats_log_read, stats_log_write,
  logger_log_write,
}
use ktcp_split.Lifecycle.Monitor.{Held, nothing, call, calls}
use ktcp_split.Logger.{einval}
use ktcp_split.Logger.Requests.{DpState, md_init}

abbrev proc_dir : List ℕ
proc_dir = codes "dp_logger"

abbrev logger_log_fops : Fops
logger_log_fops = record { read = stats_log_read; write = some logger_log_write }

abbrev stats_log_fops : Fops
stats_log_fops = record { read = stats_log_read; write = some stats_log_write }

-- The result, the calls, and the buffers if they were not closed again. `rounds` stands for
-- roundup_pow_of_two; the last three tell whether the directory and the files can be made. md_init
-- returns 0, which is then the result of each error path.
unfoldable pub dp_log_init :
    (ℕ → ℕ) → (ℕ → ℕ) → ℕ → Bool → Bool → Bool → ℤ × List Call × Option (ℕ × DpState)
dp_log_init rounds memory bufsize dir stats log =
    let ret = pos 0 in
    let made = proc_mkdir proc_dir in
    let made_stats = proc_create (codes "stats") 438 stats_log_fops in
    let made_log = proc_create (codes "log") 438 logger_log_fops in
    if bufsize == 0
    then (neg einval, [], none)
    else if not dir
    then (ret, [], none)
    else if not stats
    then (ret, made ∷ remove_proc_subtree proc_dir ∷ [], none)
    else if not log
    then (ret, made ∷ made_stats ∷ remove_proc_subtree proc_dir ∷ [], none)
    else (pos 0, made ∷ made_stats ∷ made_log ∷ [], some (rounds bufsize, md_init memory))

unfoldable pub dp_log_exit : List Call
dp_log_exit = remove_proc_subtree proc_dir ∷ []

abbrev pub loaded : Held
loaded = record nothing { files = proc_dir ∷ codes "stats" ∷ codes "log" ∷ [] }

-- Unless the size of the buffer is 0, the start returns 0, also when a file cannot be made. It then holds
-- the directory, both files and the buffers if all were made, and nothing otherwise; after a start
-- that holds nothing the end of the module removes a directory that is not there.
pub dp_log_init_lem :
    (rounds memory : ℕ → ℕ) (bufsize : ℕ) (dir stats log : Bool)
    → let (rc, made, open_) = dp_log_init rounds memory bufsize dir stats log in
      let whole = not (bufsize == 0) && dir && stats && log in
      (rc ≡ (if bufsize == 0 then neg einval else pos 0))
      × (calls made nothing ≡ some (if whole then loaded else nothing))
      × (open_ ≡ (if whole then some (rounds bufsize, md_init memory) else none))
      × (calls (made ++ dp_log_exit) nothing ≡ (if whole then some nothing else none))
unfolding dp_log_init dp_log_exit calls call
dp_log_init_lem rounds memory bufsize dir stats log = ground arith
