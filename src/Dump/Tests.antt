-- ===== src/Dump/Tests.antt =====
-- A dump of two pairs.
use ktcp_split.Common.{◌+◌, ◌*◌, ◌≤◌, ◌≡◌, true, false, [], ◌∷◌, ◌++◌, map, length, arith}
use ktcp_split.Common.Text.{codes, concat}
use ktcp_split.Logger.{slice}
use ktcp_split.Dump.{dump_pending_connections}
use ktcp_split.Dump.Lines.{Dumped}
use ktcp_split.Dump.Contents.{line, adds, copied, dump_pending_connections_lem}

-- 10.0.0.1:4369 to 10.0.0.2:80, of which only the first socket is there.
abbrev pair : Dumped
pair = record {
  ref_cnt = 1;
  tx = true;
  rx = false;
  printed = codes "ffff8880";
  tuple = record { port_s = 4369; port_d = 20480; addr_s = 16777226; addr_d = 33554442 };
}

dump_pending_connections_lem_example :
    let (end, copies) = dump_pending_connections (λ off add. 0) 5 (adds 1 (pair ∷ pair ∷ [])) in
    (slice (copied 1 (pair ∷ pair ∷ []) copies (λ i. 46)) 0 end
      ≡ slice (λ i. 46) 0 5 ++ concat (map (line 1) (pair ∷ pair ∷ [])))
    × (end ≡ 5 + length (concat (map (line 1) (pair ∷ pair ∷ []))))
    × (end ≤ 5 + 114 * length (pair ∷ pair ∷ []))
dump_pending_connections_lem_example =
    dump_pending_connections_lem 1 5 (λ i. 46) (pair ∷ pair ∷ []) (omega arith) (omega arith)
      (omega arith)
