-- ===== src/Tracer/Bounds.antt =====
-- How long the texts of a packet are.
use ktcp_split.Common.{ℕ, ◌/◌, ◌%◌, ◌^◌, ◌<◌, ◌≤◌, Bool, true, false, List, [], ◌∷◌, arith, length}
use ktcp_split.Common.Text.{
  codes, print_nat, print_int, length-concat-Within, length-print_nat, length-print_hex,
  length-print_int, length-pad,
}
use ktcp_split.Common.Words.{signed32, swap16, swap32}
use ktcp_split.Tracer.{
  Packet, Transport, iphdr_flag, proto_string, print_05, print_ip4, ip4_parts, size_parts,
  fragment_parts, protocol_parts, address_parts, ip_parts, tcp_parts, udp_parts, size_line,
  fragment_line, protocol_line, address_lines, ip_text, named, tcp_text, udp_text,
}

-- The fields have their C types.
pub record Typed (p : Packet) : Type 0 where
  pub mark : p.mark < 2 ^ 32
  pub secmark : p.secmark < 2 ^ 32
  pub ihl : p.ihl < 2 ^ 4
  pub version : p.version < 2 ^ 4
  pub tos : p.tos < 2 ^ 8
  pub tot_len : p.tot_len < 2 ^ 16
  pub id : p.id < 2 ^ 16
  pub frag_off : p.frag_off < 2 ^ 16
  pub ttl : p.ttl < 2 ^ 8
  pub protocol : p.protocol < 2 ^ 8
  pub check : p.check < 2 ^ 16

swap16-lt : (w : ℕ) → swap16 w < 2 ^ 16
swap16-lt w = omega arith

swap32-lt : (w : ℕ) → swap32 w < 2 ^ 32
swap32-lt w = omega arith

byte : (n : ℕ) → n < 256 → length (print_nat n) ≤ 3
byte n h = length-print_nat 3 n (omega arith) (omega arith)

word : (n : ℕ) → n < 2 ^ 16 → length (print_nat n) ≤ 5
word n h = length-print_nat 5 n (omega arith) (omega arith)

padded : (n : ℕ) → n < 2 ^ 16 → length (print_05 n) ≤ 5
padded n h = omega (arith, length-pad 5 (print_nat n) (word n h))

length-iphdr_flag : (flags : ℕ) → length (iphdr_flag flags) ≤ 2
unfolding iphdr_flag
length-iphdr_flag flags = ground arith

length-proto_string : (protocol : ℕ) → length (proto_string protocol) ≤ 4
unfolding proto_string
length-proto_string protocol = ground arith

pub length-print_ip4 : (a : ℕ) → length (print_ip4 a) ≤ 15
unfolding print_ip4
length-print_ip4 a = length-concat-Within (ip4_parts a) (3 ∷ 1 ∷ 3 ∷ 1 ∷ 3 ∷ 1 ∷ 3 ∷ []) (
    omega (
      arith,
      byte (a % 256) (omega arith),
      byte (a / 256 % 256) (omega arith),
      byte (a / 2 ^ 16 % 256) (omega arith),
      byte (a / 2 ^ 24 % 256) (omega arith),
    ))

length-named : (flag : Bool) (text : List ℕ) → length (named flag text) ≤ length text
length-named true text = omega arith
length-named false text = omega arith

module _ (p : Packet) (t : Typed p) where
  length-size_line : length (size_line p) ≤ 42
  unfolding size_line
  length-size_line = length-concat-Within (size_parts p) (4 ∷ 3 ∷ 5 ∷ 3 ∷ 5 ∷ 3 ∷ 11 ∷ 5 ∷ 3 ∷ []) (
      omega (
        arith,
        byte p.ihl (omega arith),
        byte p.version (omega arith),
        byte p.tos (omega arith),
        word (swap16 p.tot_len) (omega arith),
      ))

  length-fragment_line : length (fragment_line p) ≤ 31
  unfolding fragment_line
  length-fragment_line = length-concat-Within (fragment_parts p) (3 ∷ 5 ∷ 10 ∷ 5 ∷ 2 ∷ 2 ∷ 4 ∷ []) (
      omega (
        arith,
        padded (swap16 p.id) (omega arith),
        padded (swap16 p.frag_off % 2 ^ 13) (omega arith),
        length-iphdr_flag (swap16 p.frag_off),
      ))

  length-protocol_line : length (protocol_line p) ≤ 38
  unfolding protocol_line
  length-protocol_line =
      length-concat-Within (protocol_parts p) (4 ∷ 3 ∷ 7 ∷ 4 ∷ 1 ∷ 3 ∷ 9 ∷ 4 ∷ 3 ∷ []) (
        omega (
          arith,
          byte p.ttl (omega arith),
          length-proto_string p.protocol,
          byte p.protocol (omega arith),
          length-print_hex 4 p.check (omega arith) (omega arith),
        ))

  length-address_lines : length (address_lines p) ≤ 48
  unfolding address_lines
  length-address_lines =
      length-concat-Within (address_parts p) (6 ∷ 15 ∷ 4 ∷ 6 ∷ 15 ∷ 2 ∷ [])
        (omega (arith, length-print_ip4 p.saddr, length-print_ip4 p.daddr))

  pub length-ip_text : (mark : List ℕ) → length mark ≤ 11 → length (ip_text mark p) ≤ 200
  unfolding ip_text
  length-ip_text mark h =
      length-concat-Within (ip_parts mark p) (7 ∷ 11 ∷ 9 ∷ 11 ∷ 3 ∷ 42 ∷ 31 ∷ 38 ∷ 48 ∷ []) (
        omega (
          arith,
          h,
          length-print_int p.secmark t.secmark,
          length-size_line,
          length-fragment_line,
          length-protocol_line,
          length-address_lines,
        ))

module _ (h : Transport) where
  pub length-tcp_text : (seq : List ℕ) → length seq ≤ 11 → length (tcp_text seq h) ≤ 79
  unfolding tcp_text
  length-tcp_text seq k =
      length-concat-Within (tcp_parts seq h)
        (3 ∷ 5 ∷ 4 ∷ 5 ∷ 3 ∷ 3 ∷ 1 ∷ 3 ∷ 1 ∷ 3 ∷ 7 ∷ 11 ∷ 5 ∷ 11 ∷ 8 ∷ 5 ∷ 1 ∷ [])
        (omega (
          arith,
          word (swap16 h.source) (swap16-lt h.source),
          word (swap16 h.dest) (swap16-lt h.dest),
          length-named h.syn (codes "SYN"),
          length-named h.ack (codes "ACK"),
          length-named h.fin (codes "FIN"),
          k,
          length-print_int (swap32 h.ack_seq) (swap32-lt h.ack_seq),
          word (swap16 h.window) (swap16-lt h.window),
        ))

  pub length-udp_text : length (udp_text h) ≤ 23
  unfolding udp_text
  length-udp_text = length-concat-Within (udp_parts h) (6 ∷ 5 ∷ 6 ∷ 5 ∷ 1 ∷ []) (
      omega (
        arith,
        padded (swap16 h.source) (swap16-lt h.source),
        padded (swap16 h.dest) (swap16-lt h.dest),
      ))

  pub length-seq :
      (length (print_nat (swap32 h.seq)) ≤ 11) × (length (print_int (signed32 (swap32 h.seq))) ≤ 11)
  length-seq = (
    omega (arith, length-print_nat 10 (swap32 h.seq) (omega arith) (omega arith)),
    length-print_int (swap32 h.seq) (swap32-lt h.seq),
  )
