-- ===== src/Pairing/Safety.antt =====
-- The references of a pair, in runs in which no wait ends while the other thread is connecting.
use ktcp_split.Common.{
  ℕ, ◌+◌, ◌≡◌, refl, subst, sym, Bool, true, false, not, ◌&&◌, ◌||◌, Option, none, some, List, [],
  ◌∷◌, ◌++◌, ◌==◌, if◌then◌else◌, ◌>>=◌, arith,
}
use ktcp_split.Pairing.{
  Slot, null, einval, sock, live, Dir, tx_qp, rx_qp, Pair, Phase, phase, outside, connecting,
  waiting, running, finished, failed, System, go, idle, Event, syn, connected, connect_fails,
  accepted, wakes, hangs_up, times_out, event, events, qp_exists, get_qp, put_qp, wait_qp_ready,
  wait_qp_ready_timeout,
}

abbrev holds : Phase → ℕ
holds outside = 0
holds connecting = 0
holds waiting = 1
holds running = 1
holds finished = 0
holds failed = 0

abbrev is_outside : Phase → Bool
is_outside outside = true
is_outside _ = false

abbrev is_finished : Phase → Bool
is_finished finished = true
is_finished _ = false

-- The thread has taken its reference.
abbrev has_joined : Phase → Bool
has_joined outside = false
has_joined connecting = false
has_joined waiting = true
has_joined running = true
has_joined finished = true
has_joined failed = false

-- The phases that occur together.
abbrev legal : Phase → Phase → Bool
legal a connecting = false
legal a failed = false
legal outside running = false
legal connecting running = false
legal failed running = false
legal running outside = false
legal connecting finished = false
legal a b = true

abbrev is_over : Phase → Phase → Bool
is_over a b = (is_finished a || is_finished b) && (holds a + holds b == 0)

and-true : (a b : Bool) → a && b ≡ true → (a ≡ true) × (b ≡ true)
and-true a b h = ground arith

module _ (t r : ℕ) where
  abbrev tx_slot : Phase → Slot
  tx_slot outside = null
  tx_slot connecting = einval
  tx_slot failed = einval
  tx_slot _ = sock t

  abbrev rx_slot : Phase → Slot
  rx_slot outside = null
  rx_slot _ = sock r

  -- The pair as the phases of the two threads determine it.
  abbrev pub pair_of : Phase → Phase → List ℕ → Pair
  pair_of a b shut = record {
    tx = tx_slot a;
    rx = rx_slot b;
    ref_cnt = holds a + holds b;
    listner = true;
    in_tree =
        not (is_outside a && is_outside b)
        && not (is_finished a || is_finished b)
        && not (has_joined a && has_joined b);
    freed = is_over a b;
    released = if is_over a b then live (tx_slot a) ++ live (rx_slot b) else [];
    shut = shut;
    fault = false;
    late_unlock = is_over a b;
    woken = has_joined a && has_joined b;
  }

  abbrev pub state_of : Phase → Phase → List ℕ → System
  state_of a b shut = record { pair = pair_of a b shut; tx_phase = a; rx_phase = b }

  abbrev pub Fits : System → Type 0
  Fits s = (legal s.tx_phase s.rx_phase ≡ true) × (s ≡ state_of s.tx_phase s.rx_phase s.pair.shut)

  abbrev FitsIf : Option System → Type 0
  FitsIf none = Unit
  FitsIf (some s) = Fits s

  -- No wait for the other half ends while that half is in kernel_connect.
  abbrev prompt_event : Event → System → Bool
  prompt_event (times_out rx_qp) s = elim s.tx_phase [ connecting ↦ false | _ ↦ true ]
  prompt_event e s = true

  event_fits :
      (e : Event) (a b : Phase) (sh : List ℕ)
      → legal a b ≡ true
      → prompt_event e (state_of a b sh) ≡ true
      → FitsIf (event t r e (state_of a b sh))
  unfolding event qp_exists get_qp put_qp wait_qp_ready wait_qp_ready_timeout
  event_fits syn a b sh l p = ground arith
  event_fits connected a b sh l p = ground arith
  event_fits connect_fails a b sh l p = ground arith
  event_fits accepted a b sh l p = ground arith
  event_fits (wakes tx_qp) a b sh l p = ground arith
  event_fits (wakes rx_qp) a b sh l p = ground arith
  event_fits (hangs_up tx_qp) a b sh l p = ground arith
  event_fits (hangs_up rx_qp) a b sh l p = ground arith
  event_fits (times_out tx_qp) a b sh l p = ground arith
  event_fits (times_out rx_qp) a b sh l p = ground arith

  abbrev pub prompt : List Event → System → Bool
  prompt [] s = true
  prompt (e ∷ es) s =
      prompt_event e s && elim (event t r e s) [ none ↦ true | some u ↦ prompt es u ]

  Fits-event : (e : Event) (s : System) → Fits s → prompt_event e s ≡ true → FitsIf (event t r e s)
  Fits-event e s (l, q) p =
      let u = state_of s.tx_phase s.rx_phase s.pair.shut in
      subst (λ v. FitsIf (event t r e v)) (sym q)
        (event_fits e s.tx_phase s.rx_phase s.pair.shut l
          (subst (λ v. prompt_event e v ≡ true) q p))

  FitsIf-bind :
      (o : Option System) (next : System → Option System) (test : System → Bool)
      → FitsIf o
      → elim o [ none ↦ true | some u ↦ test u ] ≡ true
      → ((u : System) → Fits u → test u ≡ true → FitsIf (next u))
      → FitsIf (o >>= next)
  FitsIf-bind none next test f q rest = tt
  FitsIf-bind (some u) next test f q rest = rest u f q

  Fits-events :
      (es : List Event) (s : System) → Fits s → prompt es s ≡ true → FitsIf (events t r es s)
  unfolding events
  Fits-events [] s f p = f
  Fits-events (e ∷ es) s f p =
      let both : (prompt_event e s ≡ true)
          × (elim (event t r e s) [ none ↦ true | some u ↦ prompt es u ] ≡ true) =
        and-true (prompt_event e s) _ p in
      FitsIf-bind (event t r e s) (events t r es) (prompt es) (Fits-event e s f both.0) both.1
        (λ u g q. Fits-events es u g q)

  -- No use after the release, but by the put_qp that releases; the references are the threads that wait
  -- or forward; the pair is freed, its sockets released once and out of the tree, when a thread is
  -- through and none holds it.
  abbrev pub IsSafe : System → Type 0
  IsSafe s =
      let p = s.pair in
      (p.fault ≡ false)
      × (p.late_unlock ≡ p.freed)
      × (p.ref_cnt ≡ holds s.tx_phase + holds s.rx_phase)
      × (p.freed ≡ is_over s.tx_phase s.rx_phase)
      × (p.released ≡ (if p.freed then live p.tx ++ live p.rx else []))
      × (p.freed && p.in_tree ≡ false)

  Fits-IsSafe : (a b : Phase) (sh : List ℕ) → legal a b ≡ true → IsSafe (state_of a b sh)
  Fits-IsSafe a b sh l = ground arith

  -- In a run from an idle pair in which no wait ends while the other thread is still connecting,
  -- no operation uses the pair after the one that frees it; that put_qp itself does, just when the
  -- pair is freed: it unlocks the lock in it. The count is the number of threads that wait or
  -- forward; the pair is freed just when a thread has finished and none holds it; the sockets that it
  -- has then are released at that time, once, and none before; and it is out of the tree by then.
  pub events-IsSafe :
      (es : List Event) (s : System)
      → prompt es idle ≡ true
      → events t r es idle ≡ some s
      → IsSafe s
  events-IsSafe es s p q =
      let (l, f) = subst FitsIf q (Fits-events es idle (refl, refl) p) in
      subst IsSafe (sym f) (Fits-IsSafe s.tx_phase s.rx_phase s.pair.shut l)

  Fits-wakes :
      (dir : Dir) (a b : Phase) (sh : List ℕ)
      → legal a b ≡ true
      → has_joined a && has_joined b ≡ true
      → phase dir (state_of a b sh) ≡ waiting
      → ((pair_of a b sh).woken ≡ true)
        × (event t r (wakes dir) (state_of a b sh)
            ≡ some (go dir running (pair_of a b sh) (state_of a b sh)))
  unfolding event
  Fits-wakes tx_qp a b sh l j h = ground arith
  Fits-wakes rx_qp a b sh l j h = ground arith

  -- In a run from an idle pair in which no wait ends while the other thread is still connecting, once
  -- both threads have taken their references, wake_up was called, and a thread that still waits can
  -- wake up and forward, even if the other has finished.
  pub events-wakes :
      (es : List Event) (s : System) (dir : Dir)
      → prompt es idle ≡ true
      → events t r es idle ≡ some s
      → has_joined s.tx_phase && has_joined s.rx_phase ≡ true
      → phase dir s ≡ waiting
      → (s.pair.woken ≡ true) × (event t r (wakes dir) s ≡ some (go dir running s.pair s))
  events-wakes es s dir p q j h =
      let (l, f) = subst FitsIf q (Fits-events es idle (refl, refl) p) in
      let u = state_of s.tx_phase s.rx_phase s.pair.shut in
      subst
        (λ v. (v.pair.woken ≡ true) × (event t r (wakes dir) v ≡ some (go dir running v.pair v)))
        (sym f)
        (Fits-wakes dir s.tx_phase s.rx_phase s.pair.shut l j
          (subst (λ v. phase dir v ≡ waiting) f h))

  late :
      (sh : List ℕ)
      → (u : System) × (events t r
            (times_out rx_qp ∷ connected ∷ [])
            (state_of connecting waiting sh)
          ≡ some u)
        × (u.pair.fault ≡ true)
  unfolding events event get_qp put_qp wait_qp_ready wait_qp_ready_timeout
  late sh = (_, refl, refl)

  -- If, after a run from an idle pair in which no wait ended while the other thread was connecting,
  -- the accepted half waits and the other half is connecting, and the wait then ends by the time-out,
  -- the connection that is established next uses the pair after it was freed.
  pub events-late_connect :
      (es : List Event) (s : System)
      → prompt es idle ≡ true
      → events t r es idle ≡ some s
      → s.tx_phase ≡ connecting
      → s.rx_phase ≡ waiting
      → (u : System) × (events t r (times_out rx_qp ∷ connected ∷ []) s ≡ some u)
        × (u.pair.fault ≡ true)
  events-late_connect es s p q a b =
      let (l, f) = subst FitsIf q (Fits-events es idle (refl, refl) p) in
      rw (f, a, b) (late s.pair.shut)
