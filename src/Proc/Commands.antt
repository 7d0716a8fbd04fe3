-- ===== src/Proc/Commands.antt =====
-- The replies of the write handlers.
use ktcp_split.Common.{ℕ, ◌<◌, ◌≡◌, ◌⊎◌, inl, inr, Option, none, some, List, arith}
use ktcp_split.Common.Int.{ℤ, pos, neg}
use ktcp_split.Proc.{
  Command, set_transparent, Values, value, einval, page_size, handled, cbn_add_server,
  cbn_del_server, preconn_proc_command, cbn_transparent_command,
}

-- A command was given, and the reply is the size of the text, or nothing was done, and the reply is
-- the error of the copy or -EINVAL.
abbrev pub IsReply : ℕ → ℤ ⊎ Values → ℤ × Option Command → Type 0
IsReply size kbuf (rc, none) = (rc ≡ neg einval) ⊎ (kbuf ≡ inl rc)
IsReply size kbuf (rc, some c) = (rc ≡ pos size) × (1 < size) × (size < page_size)

handled-IsReply :
    (size : ℕ) (kbuf : ℤ ⊎ Values) (command : Values → Option Command)
    → IsReply size kbuf (handled size kbuf command)
handled-IsReply size kbuf command = ground arith

-- Each of the four write handlers either gives its command and returns the size of the text, which is
-- more than one byte and less than a page, or it does nothing and returns the error of the copy or
-- -EINVAL.
pub commands-IsReply :
    (size : ℕ) (kbuf : ℤ ⊎ Values)
    → IsReply size kbuf (cbn_add_server size kbuf)
      × IsReply size kbuf (cbn_del_server size kbuf)
      × IsReply size kbuf (preconn_proc_command size kbuf)
      × IsReply size kbuf (cbn_transparent_command size kbuf)
unfolding cbn_add_server cbn_del_server preconn_proc_command cbn_transparent_command
commands-IsReply size kbuf = (
  handled-IsReply size kbuf _,
  handled-IsReply size kbuf _,
  handled-IsReply size kbuf _,
  handled-IsReply size kbuf _,
)

-- A text of one number that is 0 or 1, and of an allowed size, sets the flag to it; another number
-- sets nothing.
pub cbn_transparent_command_lem :
    (size : ℕ) (numbers : List ℤ)
    → 1 < size
    → size < page_size
    → let (rc, done) =
        cbn_transparent_command size (inr (record { count = 1; numbers = numbers })) in
      (value 0 numbers ≡ pos 0 → done ≡ some (set_transparent 0))
      × (value 0 numbers ≡ pos 1 → done ≡ some (set_transparent 1))
      × ((b : ℕ) → done ≡ some (set_transparent b) → value 0 numbers ≡ pos b)
unfolding cbn_transparent_command
cbn_transparent_command_lem size numbers h k =
    (λ e. ground (arith, e), λ e. ground (arith, e), λ b e. ground (arith, e))
