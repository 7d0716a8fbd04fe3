-- ===== src/Tracer.antt =====
-- The tracing of packets: pkt_tracer/pkt_trace.c, and the texts of tcpsplit/cbn_common.h and
-- pkt_tracer/cbn_common.h. Tracer.Split has the macros of the first header, Tracer.Pkt those of the
-- second and the hook. A packet is the header fields that are printed, as the machine loads them; a
-- text is the list of its bytes, and `none` is a write past the end of the store.
pub mod Split
pub mod Pkt
pub mod Bounds
pub mod Hook
pub mod Module
pub mod HexDump
mod Tests
use ktcp_split.Common.{
  ℕ, ◌+◌, ◌/◌, ◌%◌, ◌^◌, Bool, Option, some, none, List, [], ◌∷◌, ◌++◌, ◌==◌, if◌then◌else◌,
}
use ktcp_split.Common.Text.{codes, concat, print_nat, print_int, print_hex, pad, sprintf}
use ktcp_split.Common.Words.{signed32, swap16, swap32}

pub record Transport : Type 0 where
  pub source : ℕ
  pub dest : ℕ
  pub seq : ℕ
  pub ack_seq : ℕ
  pub window : ℕ
  pub syn : Bool
  pub ack : Bool
  pub fin : Bool

-- The headers of a packet; a UDP header begins with the ports, as TCP's does.
pub record Packet : Type 0 where
  pub mark : ℕ
  pub secmark : ℕ
  pub ihl : ℕ
  pub version : ℕ
  pub tos : ℕ
  pub tot_len : ℕ
  pub id : ℕ
  pub frag_off : ℕ
  pub ttl : ℕ
  pub protocol : ℕ
  pub check : ℕ
  pub saddr : ℕ
  pub daddr : ℕ
  pub transport : Transport

abbrev pub store_size : ℕ
store_size = 512

-- `flags & BIT(n)`
abbrev bit : ℕ → ℕ → Bool
bit n flags = flags / 2 ^ n % 2 == 1

unfoldable pub iphdr_flag : ℕ → List ℕ
iphdr_flag flags = if bit 14 flags then codes "DF" else (if bit 13 flags then codes "MF" else [])

unfoldable pub proto_string : ℕ → List ℕ
proto_string protocol =
    if protocol == 1
    then codes "ICMP"
    else if protocol == 4
    then codes "IP"
    else if protocol == 6
    then codes "TCP"
    else if protocol == 17
    then codes "UDP"
    else if protocol == 50
    then codes "ESP"
    else if protocol == 51
    then codes "AH"
    else []

-- `%d` of 32 bits.
abbrev pub print_d : ℕ → List ℕ
print_d w = print_int (signed32 w)

-- `%05d` of at most 16 bits.
abbrev pub print_05 : ℕ → List ℕ
print_05 n = pad 5 (print_nat n)

-- The four bytes of an address in memory, as `%pI4n` prints them too.
abbrev pub ip4_parts : ℕ → List (List ℕ)
ip4_parts a =
    print_nat (a % 256)
    ∷ codes "."
    ∷ print_nat (a / 256 % 256)
    ∷ codes "."
    ∷ print_nat (a / 2 ^ 16 % 256)
    ∷ codes "."
    ∷ print_nat (a / 2 ^ 24 % 256)
    ∷ []

unfoldable pub print_ip4 : ℕ → List ℕ
print_ip4 a = concat (ip4_parts a)

-- The lines of dump_iph after the mark.
abbrev pub size_parts : Packet → List (List ℕ)
size_parts p =
    codes "ihl "
    ∷ print_nat p.ihl
    ∷ codes " ver "
    ∷ print_nat p.version
    ∷ codes " tos "
    ∷ print_nat p.tos
    ∷ codes " total len "
    ∷ print_nat (swap16 p.tot_len)
    ∷ codes "\n\t\t"
    ∷ []

unfoldable pub size_line : Packet → List ℕ
size_line p = concat (size_parts p)

abbrev pub fragment_parts : Packet → List (List ℕ)
fragment_parts p =
    codes "id "
    ∷ print_05 (swap16 p.id)
    ∷ codes " frag_off "
    ∷ print_05 (swap16 p.frag_off % 2 ^ 13)
    ∷ codes " ["
    ∷ iphdr_flag (swap16 p.frag_off)
    ∷ codes "]\n\t\t"
    ∷ []

unfoldable pub fragment_line : Packet → List ℕ
fragment_line p = concat (fragment_parts p)

abbrev pub protocol_parts : Packet → List (List ℕ)
protocol_parts p =
    codes "ttl "
    ∷ print_nat p.ttl
    ∷ codes " proto "
    ∷ proto_string p.protocol
    ∷ codes "["
    ∷ print_nat p.protocol
    ∷ codes "] csum 0x"
    ∷ print_hex p.check
    ∷ codes "\n\t\t"
    ∷ []

unfoldable pub protocol_line : Packet → List ℕ
protocol_line p = concat (protocol_parts p)

abbrev pub address_parts : Packet → List (List ℕ)
address_parts p =
    codes "saddr "
    ∷ print_ip4 p.saddr
    ∷ codes " \n\t\t"
    ∷ codes "daddr "
    ∷ print_ip4 p.daddr
    ∷ codes " \n"
    ∷ []

unfoldable pub address_lines : Packet → List ℕ
address_lines p = concat (address_parts p)

-- dump_iph, of the text of the mark.
abbrev pub ip_parts : List ℕ → Packet → List (List ℕ)
ip_parts mark p =
    codes "\t\tmark "
    ∷ mark
    ∷ codes " secmark "
    ∷ print_d p.secmark
    ∷ codes "\n\t\t"
    ∷ size_line p
    ∷ fragment_line p
    ∷ protocol_line p
    ∷ address_lines p
    ∷ []

unfoldable pub ip_text : List ℕ → Packet → List ℕ
ip_text mark p = concat (ip_parts mark p)

abbrev named : Bool → List ℕ → List ℕ
named flag text = if flag then text else []

-- dump_tcph, of the texts of `seq` and `window`.
abbrev pub tcp_parts : List ℕ → Transport → List (List ℕ)
tcp_parts seq h =
    codes "\n\t\t"
    ∷ print_nat (swap16 h.source)
    ∷ codes " => "
    ∷ print_nat (swap16 h.dest)
    ∷ codes " \t\t"
    ∷ named h.syn (codes "SYN")
    ∷ codes " "
    ∷ named h.ack (codes "ACK")
    ∷ codes " "
    ∷ named h.fin (codes "FIN")
    ∷ codes "\n\t\tseq "
    ∷ seq
    ∷ codes " ack "
    ∷ print_d (swap32 h.ack_seq)
    ∷ codes " window "
    ∷ print_nat (swap16 h.window)
    ∷ codes "\n"
    ∷ []

unfoldable pub tcp_text : List ℕ → Transport → List ℕ
tcp_text seq h = concat (tcp_parts seq h)

-- dump_udphdr
abbrev pub udp_parts : Transport → List (List ℕ)
udp_parts h =
    codes "src : "
    ∷ print_05 (swap16 h.source)
    ∷ codes "  dst "
    ∷ print_05 (swap16 h.dest)
    ∷ codes "\n"
    ∷ []

unfoldable pub udp_text : Transport → List ℕ
udp_text h = concat (udp_parts h)

-- `idx += sprintf(&store[idx], ...)`, and under a test.
abbrev pub print : List ℕ → List ℕ → Option (List ℕ)
print store text = sprintf store_size store text

abbrev pub print_if : Bool → List ℕ → List ℕ → Option (List ℕ)
print_if test store text = if test then print store text else some store
