-- ===== src/Proc/Show.antt =====
-- The files of tcpsplit/proc.c that show the flag and the version, and what they show after a command.
use ktcp_split.Common.{ℕ, ◌<◌, ◌≤◌, ◌≡◌, refl, Option, some, List, [], ◌∷◌, ◌++◌, arith, inr, ◌>>=◌}
use ktcp_split.Common.Int.{ℤ, pos}
use ktcp_split.Common.Text.{print_nat, digits, digit}
use ktcp_split.RbTree.{RbOps}
use ktcp_split.Listner.{Entry, rank}
use ktcp_split.ThreadPool.Store.{ElementStore}
use ktcp_split.Proc.{page_size, cbn_transparent_command}
use ktcp_split.Proc.Effects.{Host, perform}
use ktcp_split.Proc.Commands.{cbn_transparent_command_lem}

-- The result and the text. `version` is the string that the build puts in the place of KTCP_VERSION.
unfoldable pub cbn_version_show : List ℕ → ℤ × List ℕ
cbn_version_show version = (pos 0, version ++ (10 ∷ []))

unfoldable pub cbn_transparent_show : ℕ → ℤ × List ℕ
cbn_transparent_show ip_transparent = (pos 0, print_nat ip_transparent ++ (10 ∷ []))

module _ (es : ElementStore) (rb : RbOps Entry rank) (env : es.Store → es.Env)
    (split_server prealloc_connection : ℕ) (cpus : List ℕ) where
  -- A text that sets the flag is written, its command is performed, and the file is read.
  abbrev pub shown_after : ℕ → List ℤ → Host es → Option (ℤ × List ℕ)
  shown_after size numbers h =
      (cbn_transparent_command size (inr (record { count = 1; numbers = numbers }))).1 >>= λ c.
      perform es rb env split_server prealloc_connection cpus c h >>= λ h'.
      some (cbn_transparent_show h'.ip_transparent)

  -- A text of one number, 0 or 1, of more than one byte and less than a page, is written: the file of the
  -- flag then shows this number and a line feed.
  pub cbn_transparent_show-command :
      (b size : ℕ) (h : Host es)
      → b ≤ 1
      → 1 < size
      → size < page_size
      → shown_after size (pos b ∷ []) h ≡ some (pos 0, digit b ∷ 10 ∷ [])
  unfolding cbn_transparent_show perform digits
  cbn_transparent_show-command ℕ.zero size h small k l =
      let (zero_set, _, _) = cbn_transparent_command_lem size (pos 0 ∷ []) k l in
      rw (zero_set refl, perform) refl
  cbn_transparent_show-command (ℕ.suc ℕ.zero) size h small k l =
      let (_, one_set, _) = cbn_transparent_command_lem size (pos 1 ∷ []) k l in
      rw (one_set refl, perform) refl
  cbn_transparent_show-command (ℕ.suc (ℕ.suc b)) size h small k l = absurd (omega (arith, small))
