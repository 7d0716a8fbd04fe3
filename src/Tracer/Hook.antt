-- ===== src/Tracer/Hook.antt =====
-- What the hook of the packet tracer does with a packet, and the two versions of trace_iph.
use ktcp_split.Common.{
  ℕ, ◌+◌, ◌<◌, ◌≤◌, ◌≡◌, ◌≢◌, ◌⊎◌, ◌↔◌, refl, sym, ap, ◌∙◌, subst, Bool, true, false, not, ◌&&◌,
  ◌||◌, Option, none, some, List, [], ◌∷◌, ◌++◌, ◌==◌, if◌then◌else◌, ◌>>=◌, arith, length,
  length-append, Bool-cases, inl, inr,
}
use ktcp_split.Common.Text.{codes, concat, length-concat, print_nat, print_hex, length-print_hex}
use ktcp_split.Common.Words.{swap16, swap32}
use ktcp_split.Hooks.{Verdict, accept, Skb}
use ktcp_split.Hooks
use ktcp_split.Tracer.{Packet, print, print_if, udp_text}
use ktcp_split.Tracer.Bounds.{Typed, length-ip_text, length-tcp_text, length-udp_text, length-seq}
use ktcp_split.Tracer.Pkt.{dump_iph, dump_tcph, trace_only, trace_iph, get_port, cbn_trace_hook}

-- A text of at most n bytes was written.
abbrev Fits : ℕ → Option (List ℕ) → Type 0
Fits n o = (s : List ℕ) × (o ≡ some s) × (length s ≤ n)

Fits-bind :
    (n m : ℕ) (o : Option (List ℕ)) (k : List ℕ → Option (List ℕ))
    → Fits n o
    → ((s : List ℕ) → length s ≤ n → Fits m (k s))
    → Fits m (o >>= k)
Fits-bind n m o k (s, e, h) f = subst (λ q. Fits m (q >>= k)) (sym e) (f s h)

Fits-print :
    (n m : ℕ) (store text : List ℕ)
    → length store ≤ n
    → length text ≤ m
    → n + m < 512
    → Fits (n + m) (print store text)
Fits-print n m store text h k small = (
  store ++ text,
  ground (arith, length-append store text),
  omega (arith, length-append store text),
)

Fits-print_if :
    (n m : ℕ) (test : Bool) (store text : List ℕ)
    → length store ≤ n
    → length text ≤ m
    → n + m < 512
    → Fits (n + m) (print_if test store text)
Fits-print_if n m true store text h k small = Fits-print n m store text h k small
Fits-print_if n m false store text h k small = (store, refl, omega arith)

module _ (p : Packet) (t : Typed p) where
  length-dump_iph : length (dump_iph p) ≤ 200
  length-dump_iph =
      length-ip_text p t (codes "0x" ++ print_hex p.mark)
        (omega (arith, length-print_hex 8 p.mark (omega arith) t.mark))

  length-dump_tcph : length (dump_tcph p.transport) ≤ 79
  length-dump_tcph =
      length-tcp_text p.transport (print_nat (swap32 p.transport.seq)) (length-seq p.transport).0

  trace_only-Fits :
      (str ptr : List ℕ) → length str ≤ 100 → length ptr ≤ 16 → Fits 450 (trace_only p str ptr)
  unfolding trace_only
  trace_only-Fits str ptr h k =
      let head = concat (str ∷ codes ":<" ∷ ptr ∷ codes ">\n" ∷ []) in
      let short : length head ≤ 120 =
        omega (arith, length-concat (str ∷ codes ":<" ∷ ptr ∷ codes ">\n" ∷ [])) in
      let udp = codes "\t\t" ++ udp_text p.transport in
      Fits-bind 120 450 (print [] head) _
        (Fits-print 0 120 [] head (omega arith) short (omega arith))
        (λ s1 h1.
          Fits-bind 320 450 (print s1 (dump_iph p)) _
            (Fits-print 120 200 s1 (dump_iph p) h1 length-dump_iph (omega arith))
            (λ s2 h2.
              Fits-bind 400 450 (print_if (p.protocol == 6) s2 (dump_tcph p.transport)) _
                (Fits-print_if 320 80 (p.protocol == 6) s2 (dump_tcph p.transport) h2
                  (omega (arith, length-dump_tcph)) (omega arith))
                (λ s3 h3.
                  Fits-print_if 400 50 (p.protocol == 17) s3 udp h3
                    (omega (arith, length-udp_text p.transport)) (omega arith))))

module _ (p : Packet) (t : Typed p) where
  bind_some :
      (n : ℕ) (b : Bool) (o : Option (List ℕ)) (k : List ℕ → Option Bool)
      → Fits n o
      → ((s : List ℕ) → length s ≤ n → k s ≡ some b)
      → (o >>= k) ≡ some b
  bind_some n b o k (s, e, h) f = ap (λ q. q >>= k) e ∙ f s h

  trace_iph-value :
      (str : List ℕ)
      → length str ≤ 100
      → trace_iph p str
        ≡ some
            (((p.protocol == 6) && (p.transport.syn && not p.transport.ack)) && not (p.mark == 0))
  unfolding trace_iph
  trace_iph-value str h =
      let head = str ++ codes ":\n" in
      let marked = not (p.mark == 0) in
      let written =
        bind_some 102 marked (print [] head) _
          (Fits-print 0 102 [] head (omega arith) (omega (arith, length-append str (codes ":\n")))
            (omega arith))
          (λ s1 h1.
            bind_some 302 marked (print s1 (dump_iph p)) _
              (Fits-print 102 200 s1 (dump_iph p) h1 (length-dump_iph p t) (omega arith))
              (λ s2 h2.
                bind_some 381 marked (print s2 (dump_tcph p.transport)) _
                  (Fits-print 302 79 s2 (dump_tcph p.transport) h2 (length-dump_tcph p t)
                    (omega arith))
                  (λ s3 h3. refl))) in
      elim (Bool-cases ((p.protocol == 6) && (p.transport.syn && not p.transport.ack))) [
        | inl e ↦ rw (e) written
        | inr e ↦ rw (e) refl
      ]

-- A packet with a mark, or one of TCP or UDP with a port from 5000 to 6000.
abbrev InRange : ℕ → Type 0
InRange n = (5000 ≤ n) × (n ≤ 6000)

pub Traced : Packet → Type 0
Traced p =
    (p.mark ≢ 0)
    ⊎ (((p.protocol ≡ 6) ⊎ (p.protocol ≡ 17))
        × (InRange (swap16 p.transport.source) ⊎ InRange (swap16 p.transport.dest)))

get_port-InRange : (p : Packet) → ((not (p.mark == 0) || get_port p) ≡ true) ↔ Traced p
unfolding get_port Traced
get_port-InRange p = ground arith

-- trace_iph of the packet tracer never writes past its store of 512 bytes and gives the value of
-- trace_iph of the splitter, for a packet whose fields have their C types, at a name of at most 100
-- bytes.
pub trace_iph-equivalent :
    (p : Packet) (skb : Skb) (str : List ℕ)
    → Typed p
    → length str ≤ 100
    → skb.mark ≡ p.mark
    → skb.ip.protocol ≡ p.protocol
    → skb.tcp.syn ≡ p.transport.syn
    → skb.tcp.ack ≡ p.transport.ack
    → trace_iph p str ≡ some (Hooks.trace_iph skb)
unfolding trace_iph Hooks.trace_iph
trace_iph-equivalent p skb str t h m i y a = ground (arith, trace_iph-value p t str h, m, i, y, a)

-- The hook of the packet tracer accepts every packet whose fields have their C types, and traces it,
-- within its store, exactly if it has a mark, or is of TCP or UDP with a port from 5000 to 6000, at a
-- name of at most 100 bytes and a printed pointer of at most 16.
pub cbn_trace_hook_lem :
    (p : Packet) (priv ptr : List ℕ)
    → Typed p
    → length priv ≤ 100
    → length ptr ≤ 16
    → (text : Option (List ℕ)) × (cbn_trace_hook priv ptr p ≡ some (accept, text))
      × ((text ≢ none) ↔ Traced p)
unfolding cbn_trace_hook
cbn_trace_hook_lem p priv ptr t h k =
    let (text, e, _) = trace_only-Fits p t priv ptr h k in
    let traced = not (p.mark == 0) || get_port p in
    ((if traced then some text else none), ground (arith, e), ground (arith, get_port-InRange p))
