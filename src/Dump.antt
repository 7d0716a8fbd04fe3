-- ===== src/Dump.antt =====
-- The dump of the pairs to the user: tcpsplit/debug.c. The texts are their lengths; what is copied to the
-- user is the list of the offsets and lengths. `fault` is what copy_to_user returns, the number of
-- bytes that it did not copy.
pub mod Offsets
pub mod Lines
pub mod Contents
mod Tests
use ktcp_split.Common.{ℕ, ◌+◌, ◌^◌, List, [], ◌∷◌, ◌++◌, ltb, ◌==◌, if◌then◌else◌}
use ktcp_split.Common.Words.{u32}

module _ (fault : ℕ → ℕ → ℕ) where
  -- The result, and the copies that were made. The list has the texts of the pairs of a CPU. `loc` is
  -- the bit pattern of a C int, and so is the result.
  pub dump_pending_connections : ℕ → List ℕ → ℕ × List (ℕ × ℕ)
  dump_pending_connections loc [] = (loc, [])
  dump_pending_connections loc (add ∷ pairs) =
      let (end, copies) = dump_pending_connections (u32 (loc + add)) pairs in
      if fault loc add == 0 then (end, (loc, add) ∷ copies) else (fault loc add, [])

  -- `loc += rc` for each CPU, unless the result is negative as an int.
  pub dump_connections_per_tennat : ℕ → List (List ℕ) → ℕ × List (ℕ × ℕ)
  unfolding dump_pending_connections
  dump_connections_per_tennat loc [] = (loc, [])
  dump_connections_per_tennat loc (pairs ∷ cpus) =
      let (rc, copies) = dump_pending_connections loc pairs in
      let (end, more) = dump_connections_per_tennat (u32 (loc + rc)) cpus in
      if ltb rc (2 ^ 31) then (end, copies ++ more) else (rc, copies)

  -- The tenants, each with the length of its title and the pairs by CPU.
  pub dump_tennats : ℕ → List (ℕ × List (List ℕ)) → ℕ × List (ℕ × ℕ)
  dump_tennats width [] = (width, [])
  dump_tennats width ((title, cpus) ∷ tennats) =
      let at = u32 (width + title) in
      let (rc, copies) = dump_connections_per_tennat at cpus in
      let (end, more) = dump_tennats (u32 (at + rc)) tennats in
      if fault width title == 0
      then (if ltb rc (2 ^ 31)
          then (end, ((width, title) ∷ copies) ++ more)
          else (rc, (width, title) ∷ copies))
      else (fault width title, [])

  -- The argument is the length of the first line.
  pub dump_connections : ℕ → List (ℕ × List (List ℕ)) → ℕ × List (ℕ × ℕ)
  unfolding dump_tennats
  dump_connections head tennats =
      let (end, copies) = dump_tennats head tennats in
      if fault 0 head == 0 then (end, (0, head) ∷ copies) else (fault 0 head, [])
