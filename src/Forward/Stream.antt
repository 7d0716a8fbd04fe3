-- ===== src/Forward/Stream.antt =====
-- The bytes and the reference of a direction.
use ktcp_split.Common.{
  ℕ, ◌+◌, ◌≡◌, ◌⊎◌, inl, inr, refl, ap, sym, ◌∙◌, Bool, Bool-cases, true, false, List, [], ◌∷◌,
  ◌++◌, if◌then◌else◌, length, length-append, arith, All,
}
use ktcp_split.Common.Words.{u64}
use ktcp_split.Common.Int.{pos, is_le_zero}
use ktcp_split.Forward.{
  Turn, recv, take, sent, Flow, Progress, blocked, returned, receives, sends, duplex_loop,
  half_duplex, start,
}

-- The send takes all the bytes that were received, or fails.
abbrev pub IsWhole : Turn → Type 0
IsWhole t = (is_le_zero t.send ≡ true) ⊎ (t.send ≡ pos (length t.bytes))

-- The bytes of the turns that the loop goes through, up to its end.
abbrev pub passed : List Turn → List ℕ
passed [] = []
passed (t ∷ ts) =
    let rest = passed ts in
    if is_le_zero (recv t)
    then []
    else if is_le_zero t.send
    then []
    else t.bytes ++ (if t.stop then [] else rest)

-- The bytes of the turn whose send failed, if the loop ends with one.
abbrev pub failed : List Turn → List ℕ
failed [] = []
failed (t ∷ ts) =
    let rest = failed ts in
    if is_le_zero (recv t)
    then []
    else if is_le_zero t.send
    then t.bytes
    else if t.stop
    then []
    else rest

-- What was delivered is the bytes of those turns; the bytes that the last send failed to take are the
-- only others that were received.
abbrev pub IsIntact : List Turn → Flow → Type 0
IsIntact ts f =
    (f.bytes ≡ u64 (length f.received))
    × (f.delivered ≡ passed ts)
    × (f.received ≡ passed ts ++ failed ts)

abbrev pub flow_of : Progress → Flow
flow_of (blocked f) = f
flow_of (returned rc f) = f

-- The references given back: none while it runs and when it is told to stop, one otherwise.
abbrev pub Counts : Progress → Type 0
Counts (blocked f) = f.puts ≡ 0
Counts (returned rc f) = f.puts ≡ (if is_le_zero rc then 1 else 0)

duplex_loop-Counts : (ts : List Turn) (f : Flow) → f.puts ≡ 0 → Counts (duplex_loop ts f)
unfolding duplex_loop
duplex_loop-Counts [] f h = h
duplex_loop-Counts (t ∷ ts) f h = ground (arith, duplex_loop-Counts ts (sends t (receives t f)) h)

-- A direction that was given its pages has given its reference of the pair back once, if it returned
-- a result that is not positive, which is that of a receive or a send; if it returned a positive one,
-- or is still in a receive, it has not given the reference back.
pub half_duplex-Counts : (ts : List Turn) → Counts (half_duplex true ts)
unfolding half_duplex
half_duplex-Counts ts = duplex_loop-Counts ts start refl

take-length : (xs : List ℕ) → take (length xs) xs ≡ xs
take-length [] = refl
take-length (x ∷ xs) = ap (◌∷◌ x) (take-length xs)

append-nil : (xs : List ℕ) → xs ++ [] ≡ xs
append-nil [] = refl
append-nil (x ∷ xs) = ap (◌∷◌ x) (append-nil xs)

append_assoc : (xs ys zs : List ℕ) → (xs ++ ys) ++ zs ≡ xs ++ (ys ++ zs)
append_assoc [] ys zs = refl
append_assoc (x ∷ xs) ys zs = ap (◌∷◌ x) (append_assoc xs ys zs)

-- The flow goes on: the bytes that it delivers, and those that it receives in vain after them.
abbrev Adds : List ℕ → List ℕ → Flow → Flow → Type 0
Adds done lost f f' =
    (f'.bytes ≡ u64 (f.bytes + length (done ++ lost)))
    × (f'.delivered ≡ f.delivered ++ done)
    × (f'.received ≡ f.received ++ (done ++ lost))

stays-Adds : (f : Flow) → f.bytes ≡ u64 f.bytes → Adds [] [] f f
stays-Adds f b = (omega (arith, b), sym (append-nil f.delivered), sym (append-nil f.received))

receives-Adds : (t : Turn) (f : Flow) → Adds [] t.bytes f (receives t f)
receives-Adds t f = (refl, sym (append-nil f.delivered), refl)

sends-Adds :
    (t : Turn) (f f' : Flow) (done lost : List ℕ)
    → t.send ≡ pos (length t.bytes)
    → Adds done lost (sends t (receives t f)) f'
    → Adds (t.bytes ++ done) lost f f'
sends-Adds t f f' done lost w (n, d, r) =
    let joined = append_assoc t.bytes done lost in
    (
      omega (arith, n, length-append t.bytes (done ++ lost), ap length joined),
      d
          ∙ ap (λ u. (f.delivered ++ u) ++ done) (ap (λ z. sent z t.bytes) w ∙ take-length t.bytes)
          ∙ append_assoc f.delivered t.bytes done,
      r ∙ append_assoc f.received t.bytes (done ++ lost) ∙ ap (λ u. f.received ++ u) (sym joined),
    )

duplex_loop-Adds :
    (ts : List Turn) (f : Flow)
    → f.bytes ≡ u64 f.bytes
    → All IsWhole ts
    → Adds (passed ts) (failed ts) f (flow_of (duplex_loop ts f))
unfolding duplex_loop
duplex_loop-Adds [] f b a = stays-Adds f b
duplex_loop-Adds (t ∷ ts) f b (w, a) = elim (Bool-cases (is_le_zero (recv t))) [
  | inl e ↦ rw (e) (stays-Adds f b)
  | inr e ↦ elim (Bool-cases (is_le_zero t.send)) [
    | inl g ↦ rw (e, g) (receives-Adds t f)
    | inr g ↦
        let f1 = sends t (receives t f) in
        let whole : t.send ≡ pos (length t.bytes) = elim w [
          | inl failing ↦ absurd (ground (arith, failing, g))
          | inr same ↦ same
        ] in
        let counted : f1.bytes ≡ u64 f1.bytes = omega arith in
        elim (Bool-cases t.stop) [
          | inl k ↦ rw (e, g, k) (sends-Adds t f f1 [] [] whole (stays-Adds f1 counted))
          | inr k ↦
              rw (e, g, k)
                (sends-Adds t f (flow_of (duplex_loop ts f1)) (passed ts) (failed ts) whole
                  (duplex_loop-Adds ts f1 counted a))
        ]
  ]
]

-- When every send takes all the bytes or fails, a direction that was given its pages has delivered
-- the bytes of the turns that it went through, in order, up to the turn that ended it; what it
-- received is the same, followed by the bytes of that last turn if its send failed; the count is the
-- number of bytes received, modulo 2 ^ 64. Without the pages nothing is received.
pub half_duplex-IsIntact :
    (pages : Bool) (ts : List Turn)
    → All IsWhole ts
    → IsIntact (if pages then ts else []) (flow_of (half_duplex pages ts))
unfolding half_duplex
half_duplex-IsIntact true ts a =
    let (n, d, r) = duplex_loop-Adds ts start refl a in (omega (arith, n, ap length r), d, r)
half_duplex-IsIntact false ts a = (refl, refl, refl)
