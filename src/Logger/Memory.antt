-- ===== src/Logger/Memory.antt =====
-- Copies into the memory of a buffer, and out of it.
use mathlib.Core.List.{append-nil}
use native.Mathlib.Nat.{zero-add, add-zero}
use ktcp_split.Common.{ℕ, ◌+◌, ◌<◌, ◌≡◌, refl, sym, ap, ◌∙◌, List, [], ◌∷◌, ◌++◌, arith, length}
use ktcp_split.Logger.{write_at, copy_at, slice}

copy_at-before : (f : ℕ → ℕ) (off i : ℕ) (xs : List ℕ) → i < off → copy_at f off xs i ≡ f i
copy_at-before f off i [] h = refl
copy_at-before f off i (x ∷ xs) h =
    copy_at-before (write_at f off x) (off + 1) i xs (omega arith) ∙ ground arith

-- What was copied to an offset stands there, whatever was copied behind it.
slice-copy_at_more :
    (f : ℕ → ℕ) (off : ℕ) (xs ys : List ℕ) → slice (copy_at f off (xs ++ ys)) off (length xs) ≡ xs
slice-copy_at_more f off [] ys = refl
slice-copy_at_more f off (x ∷ xs) ys =
    rw
      (
        slice-copy_at_more (write_at f off x) (off + 1) xs ys,
        copy_at-before (write_at f off x) (off + 1) off (xs ++ ys) (omega arith),
      )
      (ground arith)

pub slice-copy_at :
    (f : ℕ → ℕ) (off : ℕ) (xs : List ℕ) → slice (copy_at f off xs) off (length xs) ≡ xs
slice-copy_at f off xs =
    ap (λ l. slice (copy_at f off l) off (length xs)) (sym (append-nil xs))
    ∙ slice-copy_at_more f off xs []

slice_same :
    (f g : ℕ → ℕ) (off n : ℕ) → ((i : ℕ) → i < off + n → f i ≡ g i) → slice f off n ≡ slice g off n
slice_same f g off ℕ.zero h = refl
slice_same f g off (ℕ.suc n) h =
    rw (h off (omega arith), slice_same f g (off + 1) n (λ i l. h i (omega (arith, l)))) refl

slice-append :
    (f : ℕ → ℕ) (off m n : ℕ) → slice f off (m + n) ≡ slice f off m ++ slice f (off + m) n
slice-append f off ℕ.zero n = rw (zero-add, add-zero) refl
slice-append f off (ℕ.suc m) n =
    let more : ℕ.suc m + n ≡ ℕ.suc (m + n) = omega arith in
    let next : off + 1 + m ≡ off + ℕ.suc m = omega arith in
    ap (slice f off) more
    ∙ ap (◌∷◌ (f off))
        (slice-append f (off + 1) m n ∙ ap (λ o. slice f (off + 1) m ++ slice f o n) next)

-- A copy behind the first bytes: those and what was copied.
pub slice-copy_at_behind :
    (f : ℕ → ℕ) (off : ℕ) (xs ys : List ℕ)
    → slice (copy_at f off (xs ++ ys)) 0 (off + length xs) ≡ slice f 0 off ++ xs
slice-copy_at_behind f off xs ys =
    let g = copy_at f off (xs ++ ys) in
    let start : 0 + off ≡ off = omega arith in
    let same : slice g 0 off ≡ slice f 0 off =
      slice_same g f 0 off (λ i h. copy_at-before f off i (xs ++ ys) (omega (arith, h))) in
    slice-append g 0 off (length xs)
    ∙ ap (λ o. slice g 0 off ++ slice g o (length xs)) start
    ∙ rw (same, slice-copy_at_more f off xs ys) refl
