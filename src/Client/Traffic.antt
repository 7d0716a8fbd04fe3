-- ===== src/Client/Traffic.antt =====
-- What the sending and the listening threads do.
use ktcp_split.Common.{
  ℕ, zero, suc, ◌+◌, ◌-◌, ◌*◌, ◌^◌, ◌≡◌, refl, subst, Bool, true, false, Option, none, some, List,
  [], ◌∷◌, map, arith, leb, not, ◌&&◌, ◌==◌, if◌then◌else◌,
}
use ktcp_split.Common.Int.{ℤ, is_nonzero, is_le_zero}
use ktcp_split.Client.{page_size}
use ktcp_split.Client.Send.{
  send_loop, sends, Vec, fill_kvec, oops, sending, released, connected, tcp_client,
}
use ktcp_split.Client.Serve.{Thread, Calls, Accept, accept_loop, serve}

-- The sends that succeed.
abbrev pub successes : List ℤ → ℕ
successes [] = 0
successes (rc ∷ rcs) = (if is_le_zero rc then 0 else 1) + successes rcs

send_loop-left : (n : ℕ) (rcs : List ℤ) → (send_loop n rcs).0 ≡ n - successes rcs
unfolding send_loop
send_loop-left zero rcs = omega arith
send_loop-left (suc n) [] = omega arith
send_loop-left (suc n) (rc ∷ rcs) = ground (arith, send_loop-left (suc n) rcs, send_loop-left n rcs)

-- The vectors lie side by side from one address to the other.
abbrev pub Tiles : ℕ → List Vec → ℕ → Type 0
Tiles from [] to = from ≡ to
Tiles from (v ∷ vs) to = (v.base ≡ from) × Tiles (from + v.len) vs to

-- The sixteen vectors of tcp_client lie side by side and fill its 64 pages.
pub fill_kvec-Tiles :
    (base i n : ℕ)
    → Tiles (base + i * (page_size * 4)) (fill_kvec base i n) (base + (i + n) * (page_size * 4))
unfolding fill_kvec
fill_kvec-Tiles base i zero = omega arith
fill_kvec-Tiles base i (suc n) =
    let step : base + suc i * (page_size * 4) ≡ base + i * (page_size * 4) + page_size * 4 =
      omega arith in
    let end : base + (suc i + n) * (page_size * 4) ≡ base + (i + suc n) * (page_size * 4) =
      omega arith in
    (
      refl,
      subst (λ to. Tiles (base + i * (page_size * 4) + page_size * 4) (fill_kvec base (suc i) n) to)
          end
          (subst
            (λ from. Tiles from (fill_kvec base (suc i) n) (base + (suc i + n) * (page_size * 4)))
            step (fill_kvec-Tiles base (suc i) n)),
    )

connected_lem :
    (tx base : ℕ) (w : ℕ × List ℤ)
    → connected tx base w ≡ (if w.0 == 0 then released tx base else sending)
connected_lem tx base (zero, rcs) = refl
connected_lem tx base (suc n, rcs) = ground arith

-- tcp_client with its pages and its socket releases both once when it ends: when the connection fails, or when 2 ^ 19 sends
-- have succeeded; until then it sends. Without the pages or without a socket it ends in an oops.
pub tcp_client_lem :
    (pages : Option ℕ) (create : ℤ) (tx : ℕ) (connect : ℤ) (rcs : List ℤ)
    → tcp_client pages create tx connect rcs ≡ (elim pages [
      | none ↦ oops
      | some base ↦
          if is_nonzero create
          then oops
          else (if is_nonzero connect
              then released tx base
              else (if leb (2 ^ 19) (successes rcs) then released tx base else sending))
    ])
unfolding tcp_client
tcp_client_lem none create tx connect rcs = refl
tcp_client_lem (some base) create tx connect rcs =
    ground (arith, connected_lem tx base (send_loop sends rcs), send_loop-left sends rcs)

-- The sockets that are accepted before the server ends.
abbrev pub accepted : List Accept → List ℕ
accepted [] = []
accepted (a ∷ accepts) =
    let rest = accepted accepts in
    if is_nonzero a.rc then [] else (if a.stop then a.nsock ∷ [] else a.nsock ∷ rest)

abbrev pub is_some : Option ℤ → Bool
is_some none = false
is_some (some rc) = true

module _ (run : ℕ → Thread) (sock : ℕ) where
  accept_loop_lem :
      (accepts : List Accept)
      → let s = accept_loop run sock accepts in
        (s.threads ≡ map run (accepted accepts))
        × (s.released ≡ (if is_some s.rc then some sock else none))
  unfolding accept_loop
  accept_loop_lem [] = (refl, refl)
  accept_loop_lem (a ∷ accepts) = ground (arith, accept_loop_lem accepts)

-- The server of a port releases its socket exactly once if it has opened one and has ended; each
-- socket that it accepts before that is given to one thread, in their order, and none is accepted
-- unless the socket is created, bound and listening.
pub serve_lem :
    (port : ℕ) (run : ℕ → Thread) (c : Calls) (accepts : List Accept)
    → let s = serve port run c accepts in
      let opened = not (is_nonzero c.create) in
      let ready = opened && not (is_nonzero (c.bind port)) && not (is_nonzero c.listen) in
      (s.threads ≡ (if ready then map run (accepted accepts) else []))
      × (s.released ≡ (if opened && is_some s.rc then some c.sock else none))
unfolding serve
serve_lem port run c accepts = ground (arith, accept_loop_lem run c.sock accepts)
