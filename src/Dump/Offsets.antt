-- ===== src/Dump/Offsets.antt =====
-- The offsets of a dump.
use ktcp_split.Common.{ℕ, ◌+◌, ◌%◌, ◌^◌, ◌<◌, ◌≡◌, refl, List, [], ◌∷◌, arith}
use ktcp_split.Dump.{dump_pending_connections}

abbrev pub sum : List ℕ → ℕ
sum [] = 0
sum (x ∷ xs) = x + sum xs

-- The copies lie one after another between two offsets.
abbrev pub Tiles : ℕ → List (ℕ × ℕ) → ℕ → Type 0
Tiles from [] to = from ≡ to
Tiles from ((at, n) ∷ copies) to = (at ≡ from) × Tiles (at + n) copies to

abbrev pub no_fault : ℕ → ℕ → ℕ
no_fault at n = 0

-- If no copy faults and the texts end below 2 ^ 31, the pairs of one CPU are copied one after another from the offset on, and the
-- result is the offset after the last.
pub dump_pending_connections-Tiles :
    (loc : ℕ) (pairs : List ℕ)
    → loc + sum pairs < 2 ^ 31
    → let (end, copies) = dump_pending_connections no_fault loc pairs in
      Tiles loc copies end × (end ≡ loc + sum pairs)
unfolding dump_pending_connections
dump_pending_connections-Tiles loc [] h = (refl, omega arith)
dump_pending_connections-Tiles loc (add ∷ pairs) h =
    let same : (loc + add) % 2 ^ 32 ≡ loc + add = omega (arith, h) in
    let (tiles, e) = dump_pending_connections-Tiles (loc + add) pairs (omega (arith, h)) in
    rw same ((refl, tiles), omega (arith, e))
