-- ===== src/Tracer/Tests.antt =====
-- The tracer on a SYN to port 5557.
use ktcp_split.Common.{ℕ, ◌≡◌, ◌≢◌, ◌↔◌, refl, true, false, Option, none, some, List, arith}
use ktcp_split.Common.Text.{codes, digits}
use ktcp_split.Hooks.{Skb, accept}
use ktcp_split.Hooks
use ktcp_split.Tracer.{
  Packet, Transport, iphdr_flag, proto_string, print_ip4, size_line, fragment_line, protocol_line,
  address_lines, ip_text, tcp_text,
}
use ktcp_split.Tracer.Split
use ktcp_split.Tracer.Bounds.{Typed}
use ktcp_split.Tracer.Hook.{Traced, trace_iph-equivalent, cbn_trace_hook_lem}
use ktcp_split.Tracer.Pkt.{trace_iph, cbn_trace_hook}

abbrev header : Transport
header = record {
  source = 16415;
  dest = 46357;
  seq = 0;
  ack_seq = 0;
  window = 255;
  syn = true;
  ack = false;
  fin = false;
}

-- 10.1.4.38 to 10.154.0.21
abbrev packet : Packet
packet = record {
  mark = 2;
  secmark = 0;
  ihl = 5;
  version = 4;
  tos = 0;
  tot_len = 10240;
  id = 256;
  frag_off = 64;
  ttl = 64;
  protocol = 6;
  check = 4660;
  saddr = 637796618;
  daddr = 352360970;
  transport = header;
}

packet-Typed : Typed packet
packet-Typed = omega arith

cbn_trace_hook_lem_example :
    (text : Option (List ℕ)) × (cbn_trace_hook (codes "RX") (codes "00000000deadbeef") packet
      ≡ some (accept, text))
    × ((text ≢ none) ↔ Traced packet)
cbn_trace_hook_lem_example =
    cbn_trace_hook_lem packet (codes "RX") (codes "00000000deadbeef") packet-Typed (omega arith)
      (omega arith)

abbrev skb : Skb
skb = record {
  mark = 2;
  dev_name = codes "eth0";
  ip = record { protocol = 6; saddr = 637796618; daddr = 352360970 };
  tcp = record { source = 16415; dest = 46357; window = 255; syn = true; ack = false };
  put = none;
  inner_protocol = 0;
  inner_ip = record { protocol = 0; saddr = 0; daddr = 0 };
  inner_tcp = record { source = 0; dest = 0; window = 0; syn = false; ack = false };
  inner_put = none;
}

trace_iph-equivalent_example : trace_iph packet (codes "RX") ≡ some (Hooks.trace_iph skb)
trace_iph-equivalent_example =
    trace_iph-equivalent packet skb (codes "RX") packet-Typed (omega arith) refl refl refl refl

text :
    Split.trace_only packet (codes "POST")
    ≡ some (
        codes
          "POST:\n\t\tmark 2 secmark 0\n\t\tihl 5 ver 4 tos 0 total len 40\n\t\tid 00001 frag_off 00000 [DF]\n\t\tttl 64 proto TCP[6] csum 0x1234\n\t\tsaddr 10.1.4.38 \n\t\tdaddr 10.154.0.21 \n\n\t\t8000 => 5557 \t\tSYN  \n\t\tseq 0 ack 0 window 65280\n")
unfolding Split.trace_only ip_text tcp_text size_line fragment_line protocol_line address_lines
    print_ip4 iphdr_flag proto_string digits
text = refl
