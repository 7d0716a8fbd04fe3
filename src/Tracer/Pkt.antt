-- ===== src/Tracer/Pkt.antt =====
-- pkt_tracer/pkt_trace.c, and trace_only and trace_iph of pkt_tracer/cbn_common.h with their macros.
use ktcp_split.Common.{
  ℕ, Bool, false, not, ◌&&◌, ◌||◌, Option, some, none, List, [], ◌∷◌, ◌++◌, ◌==◌, leb,
  if◌then◌else◌, ◌>>=◌,
}
use ktcp_split.Common.Text.{codes, concat, print_nat, print_hex}
use ktcp_split.Common.Words.{swap16, swap32}
use ktcp_split.Hooks.{Verdict, accept}
use ktcp_split.Tracer.{Packet, Transport, print, print_if, ip_text, tcp_text, udp_text}

abbrev pub dump_iph : Packet → List ℕ
dump_iph p = ip_text (codes "0x" ++ print_hex p.mark) p

-- `%u` of the sequence number.
abbrev pub dump_tcph : Transport → List ℕ
dump_tcph h = tcp_text (print_nat (swap32 h.seq)) h

-- `ptr` is the text of `%p` of the packet.
unfoldable pub trace_only : Packet → List ℕ → List ℕ → Option (List ℕ)
trace_only p str ptr = do
  store ← print [] (concat (str ∷ codes ":<" ∷ ptr ∷ codes ">\n" ∷ []))
  store ← print store (dump_iph p)
  store ← print_if (p.protocol == 6) store (dump_tcph p.transport)
  print_if (p.protocol == 17) store (codes "\t\t" ++ udp_text p.transport)

-- The texts are written to the store though nothing prints it.
unfoldable pub trace_iph : Packet → List ℕ → Option Bool
trace_iph p str =
    if (p.protocol == 6) && (p.transport.syn && not p.transport.ack)
    then (do
      store ← print [] (str ++ codes ":\n")
      store ← print store (dump_iph p)
      store ← print store (dump_tcph p.transport)
      some (not (p.mark == 0)))
    else some false

-- `*src` and `*dst`; a UDP header has its ports where TCP's are.
abbrev pub tcp_port : Packet → ℕ × ℕ
tcp_port p = (swap16 p.transport.source, swap16 p.transport.dest)

abbrev pub udp_port : Packet → ℕ × ℕ
udp_port p = (swap16 p.transport.source, swap16 p.transport.dest)

abbrev in_range : ℕ → Bool
in_range n = leb 5000 n && leb n 6000

unfoldable pub get_port : Packet → Bool
get_port p =
    let first = if p.protocol == 6 then tcp_port p else (0, 0) in
    let (src, dst) = if p.protocol == 17 then udp_port p else first in in_range src || in_range dst

-- The verdict, and the text that is traced, if one is.
unfoldable pub cbn_trace_hook : List ℕ → List ℕ → Packet → Option (Verdict × Option (List ℕ))
unfolding trace_only get_port
cbn_trace_hook priv ptr p =
    if not (p.mark == 0) || get_port p
    then (trace_only p priv ptr >>= λ text. some (accept, some text))
    else some (accept, none)
