-- ===== src/Preconn/Octets.antt =====
-- The address that four decimal numbers spell.
use ktcp_split.Common.{
  ℕ, ◌+◌, ◌*◌, ◌^◌, ◌<◌, ◌≡◌, ap, none, some, List, [], ◌∷◌, arith, bit_or, if◌then◌else◌, ◌==◌,
}
use ktcp_split.Common.Int.{ℤ, pos}
use ktcp_split.Common.Words.{u32, swap32}
use ktcp_split.Common.Bits.{or_byte}
use ktcp_split.Preconn.{build_ip, preconn_write_cb, every}

build_ip-step :
    (ip a : ℕ) (octets : List ℤ)
    → ip < 2 ^ 24
    → a < 256
    → build_ip ip (pos a ∷ octets) ≡ build_ip (ip * 256 + a) octets
unfolding build_ip
build_ip-step ip a octets h k =
    let word : u32 (ip * 256) ≡ ip * 256 = omega arith in
    let digit : bit_or (u32 (ip * 256)) a ≡ ip * 256 + a = rw word (or_byte ip a k) in
    ground (arith, ap (λ n. build_ip n octets) digit)

-- Four octets are read as the address with the first octet highest.
pub build_ip_lem :
    (a b c d : ℕ)
    → a < 256
    → b < 256
    → c < 256
    → d < 256
    → build_ip 0 (pos a ∷ pos b ∷ pos c ∷ pos d ∷ []) ≡ a * 2 ^ 24 + b * 2 ^ 16 + c * 2 ^ 8 + d
unfolding build_ip
build_ip_lem a b c d p q r s = omega (
  arith,
  build_ip-step 0 a (pos b ∷ pos c ∷ pos d ∷ []) (omega arith) p,
  build_ip-step (0 * 256 + a) b (pos c ∷ pos d ∷ []) (omega arith) q,
  build_ip-step ((0 * 256 + a) * 256 + b) c (pos d ∷ []) (omega arith) r,
  build_ip-step (((0 * 256 + a) * 256 + b) * 256 + c) d [] (omega arith) s,
)

some_address : (ip : ℕ) (x : ℕ × List ℕ) → 0 < ip → (if ip == 0 then none else some x) ≡ some x
some_address ip x h = ground arith

-- The address in the order of the network has its first octet in the lowest byte. Four octets, not
-- all of them 0, open four connections to that address on each CPU.
pub preconn_write_cb_lem :
    (a b c d : ℕ) (cpus : List ℕ)
    → a < 256
    → b < 256
    → c < 256
    → d < 256
    → 0 < a + b + c + d
    → preconn_write_cb (pos a ∷ pos b ∷ pos c ∷ pos d ∷ []) cpus
      ≡ some (a + b * 2 ^ 8 + c * 2 ^ 16 + d * 2 ^ 24, every cpus)
unfolding preconn_write_cb
preconn_write_cb_lem a b c d cpus p q r s h =
    let ip = build_ip_lem a b c d p q r s in
    let order : swap32 (a * 2 ^ 24 + b * 2 ^ 16 + c * 2 ^ 8 + d)
        ≡ a + b * 2 ^ 8 + c * 2 ^ 16 + d * 2 ^ 24 =
      omega arith in
    rw (ip, order) (some_address (a * 2 ^ 24 + b * 2 ^ 16 + c * 2 ^ 8 + d) _ (omega arith))
