-- ===== src/Proc.antt =====
-- The files under /proc/cbn: the write handlers of tcpsplit/proc.c, connections_read, and the table of
-- the servers that proc_read_string of tcpsplit/split.c walks. memdup_user_nul and get_options are the
-- kernel's: the text, or an error, and the numbers read from it are arguments.
pub mod Commands
pub mod Effects
pub mod Show
mod Tests
use ktcp_split.Common.{
  ℕ, ◌+◌, ◌-◌, ◌%◌, Bool, true, false, Option, none, some, List, [], ◌∷◌, ltb, leb, ◌==◌,
  if◌then◌else◌, ◌||◌, ◌&&◌, ◌⊎◌, inl, inr,
}
use ktcp_split.Common.Int.{ℤ, pos, neg}

abbrev pub page_size : ℕ
page_size = 4096

abbrev pub einval : ℕ
einval = 22

abbrev pub proc_csv_num : ℕ
proc_csv_num = 2

abbrev pub ip_len : ℕ
ip_len = 4

-- What a command asks for.
pub data Command : Type 0 where
  add_server_cb : ℤ → ℤ → Command
  del_server_cb : ℤ → Command
  preconn_write_cb : List ℤ → Command
  set_transparent : ℕ → Command

-- `int values[n + 1] = {0}` after get_options: the count, and the numbers, 0 where there is none.
pub record Values : Type 0 where
  pub count : ℕ
  pub numbers : List ℤ

abbrev pub value : ℕ → List ℤ → ℤ
value n [] = pos 0
value ℕ.zero (x ∷ xs) = x
value (ℕ.suc n) (x ∷ xs) = value n xs

-- The test of the size, the copy from the user, and the command of the values.
abbrev pub handled : ℕ → ℤ ⊎ Values → (Values → Option Command) → ℤ × Option Command
handled size kbuf command =
    if leb size 1 || leb page_size size then (neg einval, none) else elim kbuf [
      | inl error ↦ (error, none)
      | inr values ↦ elim (command values) [
        | none ↦ (neg einval, none)
        | some c ↦ (pos size, some c)
      ]
    ]

pub cbn_add_server : ℕ → ℤ ⊎ Values → ℤ × Option Command
cbn_add_server size kbuf = handled size kbuf (λ v.
    if v.count == proc_csv_num
    then some (add_server_cb (value 0 v.numbers) (value 1 v.numbers))
    else none)

pub cbn_del_server : ℕ → ℤ ⊎ Values → ℤ × Option Command
cbn_del_server size kbuf =
    handled size kbuf (λ v. if v.count == 1 then some (del_server_cb (value 0 v.numbers)) else none)

pub preconn_proc_command : ℕ → ℤ ⊎ Values → ℤ × Option Command
preconn_proc_command size kbuf =
    handled size kbuf (λ v. if v.count == ip_len then some (preconn_write_cb v.numbers) else none)

abbrev pub bit_of : ℤ → Option ℕ
bit_of (pos ℕ.zero) = some 0
bit_of (pos (ℕ.suc ℕ.zero)) = some 1
bit_of x = none

pub cbn_transparent_command : ℕ → ℤ ⊎ Values → ℤ × Option Command
cbn_transparent_command size kbuf = handled size kbuf (λ v.
    if v.count == 1
    then elim (bit_of (value 0 v.numbers)) [ none ↦ none | some b ↦ some (set_transparent b) ]
    else none)

-- The result, and the position: its lowest bit changes. `rc` is dump_connections' result.
pub connections_read : Bool → ℕ → ℤ → ℕ → ℤ × ℕ
connections_read buf f_pos rc ppos =
    if buf
    then ((if f_pos == 0 then rc else pos 0), (if ppos % 2 == 0 then ppos + 1 else ppos - 1))
    else (neg einval, ppos)
