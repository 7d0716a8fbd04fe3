-- ===== src/Logger/Log.antt =====
-- The log as its users see it: a text that grows, starts again when a new part finds no room, and is
-- emptied by a read. The requests of logger/logger.c implement it.
use ktcp_split.Common.{
  ℕ, ◌+◌, ◌-◌, ◌%◌, Bool, true, not, Option, none, some, List, [], ◌∷◌, ◌++◌, ltb, leb, ◌==◌, ◌||◌,
  take, if◌then◌else◌, length, ◌>>=◌,
}
use ktcp_split.Common.Int.{ℤ, pos, neg}
use ktcp_split.Logger.{trvl_buffer_size, page_size, einval, efault}
use ktcp_split.Logger.Requests.{Request, write_log, fault_log, write_stats, read, hello}

-- The text, and whether the statistics are written before each read.
pub record Log : Type 0 where
  pub text : List ℕ
  pub listed : Bool

-- A part that finds no room behind the text replaces it, and one that is too long is dropped.
abbrev pub logged : List ℕ → List ℕ → List ℕ
logged buff text =
    if ltb trvl_buffer_size (length buff)
    then text
    else if ltb trvl_buffer_size (length buff + length text)
    then buff
    else text ++ buff

-- The statistics, cut to the room that is left without the NUL byte.
abbrev pub collected : Log → List ℕ
collected l =
    if l.listed then l.text ++ take (trvl_buffer_size - length l.text - 1) hello else l.text

-- What a read answers, and the text after it.
abbrev pub answer : Bool → ℕ → List ℕ → (ℤ × List ℕ) × List ℕ
answer copies len text =
    if (length text == 0) || ltb len (length text)
    then ((pos 0, []), text)
    else if copies
    then ((pos (length text), text), [])
    else ((neg efault, []), text)

abbrev pub with_text : Log → (ℤ × List ℕ) × List ℕ → (ℤ × List ℕ) × Log
with_text l (reply, text) = (reply, record l { text = text })

abbrev pub bad_size : ℕ → Bool
bad_size size = leb size 1 || leb page_size size

-- One request on the log.
abbrev pub ask : Request → Log → Option ((ℤ × List ℕ) × Log)
ask (write_log buff) l = some (
    if bad_size (length buff)
    then ((neg einval, []), l)
    else ((pos (length buff), []), record l { text = logged buff l.text }))
ask (fault_log error size) l = some ((if bad_size size then neg einval else error, []), l)
ask (write_stats size) l =
    if l.listed then none else some ((pos size, []), record l { listed = true })
ask (read buf copies len ppos) l = some (
    if not buf
    then ((neg einval, []), l)
    else if ppos % 2 == 1
    then ((pos 0, []), l)
    else with_text l (answer copies len (collected l)))

abbrev pub ask_all : List Request → Log → Option (List (ℤ × List ℕ) × Log)
ask_all [] l = some ([], l)
ask_all (q ∷ rest) l =
    ask q l >>= λ (reply, l'). ask_all rest l' >>= λ (replies, l''). some (reply ∷ replies, l'')
