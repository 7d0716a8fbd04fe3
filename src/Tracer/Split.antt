-- ===== src/Tracer/Split.antt =====
-- trace_only of tcpsplit/cbn_common.h with its macros. The text is in the store whether TRACE_PACKETS is
-- defined or not; only then is it traced.
use ktcp_split.Common.{ℕ, Option, List, [], ◌++◌, ◌==◌, ◌>>=◌}
use ktcp_split.Common.Text.{codes}
use ktcp_split.Common.Words.{swap32}
use ktcp_split.Tracer.{Packet, Transport, print, print_if, print_d, ip_text, tcp_text, udp_text}

abbrev pub dump_iph : Packet → List ℕ
dump_iph p = ip_text (print_d p.mark) p

abbrev pub dump_tcph : Transport → List ℕ
dump_tcph h = tcp_text (print_d (swap32 h.seq)) h

abbrev pub dump_udphdr : Transport → List ℕ
dump_udphdr h = udp_text h

-- The text in the store.
unfoldable pub trace_only : Packet → List ℕ → Option (List ℕ)
trace_only p str = do
  store ← print [] (str ++ codes ":\n")
  store ← print store (dump_iph p)
  store ← print_if (p.protocol == 6) store (dump_tcph p.transport)
  print_if (p.protocol == 17) store (dump_udphdr p.transport)
