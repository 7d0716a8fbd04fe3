-- ===== src/Pairing.antt =====
-- The life of a connection pair, `struct cbn_qp` of tcpsplit/tcp_split.h: get_qp and put_qp of
-- tcpsplit/qp.c, qp_exists and wait_qp_ready of tcpsplit/split.c, and the two threads that share the
-- pair, one for each direction, as events.
pub mod Safety
mod Tests
use ktcp_split.Common.{
  ℕ, ◌+◌, ◌≡◌, Bool, true, false, not, ◌&&◌, ◌||◌, Option, none, some, List, [], ◌∷◌, ◌++◌, ◌==◌,
  if◌then◌else◌, ◌>>=◌,
}
use ktcp_split.Common.Words.{u32, sub32}

-- A `struct socket *`: NULL, ERR_PTR(-EINVAL), or a socket.
pub data Slot : Type 0 where
  null einval : Slot
  sock : ℕ → Slot

abbrev pub is_err_or_null : Slot → Bool
is_err_or_null null = true
is_err_or_null einval = true
is_err_or_null (sock n) = false

-- The socket of a slot, on which sock_release or kernel_sock_shutdown is called.
abbrev pub live : Slot → List ℕ
live null = []
live einval = []
live (sock n) = n ∷ []

pub data Dir : Type 0 where
  tx_qp rx_qp : Dir

-- `dir ^ 1`
abbrev pub other : Dir → Dir
other tx_qp = rx_qp
other rx_qp = tx_qp

-- A pair, whether it is in the tree of its listener, whether it is freed, the sockets released and
-- shut down by it, whether an operation that came after its release used it, whether the put_qp that
-- released it unlocked its lock behind that, and whether wake_up was called on its queue.
pub record Pair : Type 0 where
  pub tx : Slot
  pub rx : Slot
  pub ref_cnt : ℕ
  pub listner : Bool
  pub in_tree : Bool
  pub freed : Bool
  pub released : List ℕ
  pub shut : List ℕ
  pub fault : Bool
  pub late_unlock : Bool
  pub woken : Bool

abbrev pub qp_dir : Dir → Pair → Slot
qp_dir tx_qp p = p.tx
qp_dir rx_qp p = p.rx

abbrev pub set_qp_dir : Dir → Slot → Pair → Pair
set_qp_dir tx_qp s p = record p { tx = s; fault = p.fault || p.freed }
set_qp_dir rx_qp s p = record p { rx = s; fault = p.fault || p.freed }

abbrev pub fin_connected_qp : Pair → Pair
fin_connected_qp p = record p { in_tree = p.in_tree && not p.listner }

unfoldable pub get_qp : Pair → Pair
get_qp p =
    let rc = u32 (p.ref_cnt + 1) in
    let q = record p { ref_cnt = rc; fault = p.fault || p.freed } in
    if rc == 2 then fin_connected_qp q else q

-- The lock of the pair is taken first and given back last, when the pair may be freed.
unfoldable pub put_qp : Pair → Pair
put_qp p =
    let rc = sub32 p.ref_cnt 1 in
    let q = record p { ref_cnt = rc; fault = p.fault || p.freed } in
    let socks = live p.tx ++ live p.rx in
    if rc == 0
    then record q { released = p.released ++ socks; freed = true; late_unlock = true }
    else record q { shut = p.shut ++ socks }

-- The tree's pair, if there is one, and the caller's: the one to go on with, or none.
unfoldable pub qp_exists : Dir → Pair → Option Pair → Option Pair
qp_exists dir pqp none = some (record pqp { in_tree = true })
qp_exists dir pqp (some qp) = elim (qp_dir dir qp) [
  | null ↦ some (set_qp_dir dir (qp_dir dir pqp) qp)
  | einval ↦ none
  | sock n ↦ none
]

-- Both branches of wait_qp_ready take a reference; the one that does not sleep wakes the other thread.
-- The pair, and whether the thread sleeps.
unfoldable pub wait_qp_ready : Dir → Pair → Pair × Bool
wait_qp_ready dir qp =
    if is_err_or_null (qp_dir (other dir) qp)
    then (get_qp qp, true)
    else (record (get_qp qp) { woken = true }, false)

-- wait_event_interruptible_timeout returned 0.
pub wait_qp_ready_timeout : Pair → Pair
wait_qp_ready_timeout qp = put_qp (fin_connected_qp qp)

-- Where a thread is: not begun, in kernel_connect, asleep in wait_qp_ready, in half_duplex, after
-- its put_qp, or out since kernel_connect failed.
pub data Phase : Type 0 where
  outside connecting waiting running finished failed : Phase

pub record System : Type 0 where
  pub pair : Pair
  pub tx_phase : Phase
  pub rx_phase : Phase

abbrev pub phase : Dir → System → Phase
phase tx_qp s = s.tx_phase
phase rx_qp s = s.rx_phase

abbrev pub go : Dir → Phase → Pair → System → System
go tx_qp f p s = record s { pair = p; tx_phase = f }
go rx_qp f p s = record s { pair = p; rx_phase = f }

abbrev pub new_pair : Slot → Slot → Pair
new_pair t r = record {
  tx = t;
  rx = r;
  ref_cnt = 0;
  listner = true;
  in_tree = false;
  freed = false;
  released = [];
  shut = [];
  fault = false;
  late_unlock = false;
  woken = false;
}

abbrev pub idle : System
idle = record { pair = new_pair null null; tx_phase = outside; rx_phase = outside }

-- What add_rb_data finds: the pair while it is in the tree. A thread that comes after the pair has
-- left the tree makes another pair, which is another system.
abbrev pub found : System → Option (Option Pair)
found s =
    if s.pair.in_tree
    then some (some s.pair)
    else elim s.tx_phase [ outside ↦ elim s.rx_phase [ outside ↦ some none | _ ↦ none ] | _ ↦ none ]

pub data Event : Type 0 where
  syn connected connect_fails : Event
  accepted : Event
  wakes hangs_up times_out : Dir → Event

abbrev pub after_wait : Dir → Pair × Bool → System → System
after_wait dir (p, sleeps) s = go dir (if sleeps then waiting else running) p s

module _ (t r : ℕ) where
  -- The events of the two threads; `none` where the event cannot happen. A socket is stored and
  -- wait_qp_ready takes its reference in one event: both threads of a pair run on one CPU there, and
  -- do not sleep in between. A thread that sleeps goes on when it was woken and the other slot has a
  -- socket.
  pub event : Event → System → Option System
  event syn s = elim s.tx_phase [
    | outside ↦ found s >>= λ old.
        qp_exists tx_qp (new_pair einval null) old >>= λ p. some (go tx_qp connecting p s)
    | _ ↦ none
  ]
  event connected s = elim s.tx_phase [
    | connecting ↦
        some (after_wait tx_qp (wait_qp_ready tx_qp (set_qp_dir tx_qp (sock t) s.pair)) s)
    | _ ↦ none
  ]
  event connect_fails s = elim s.tx_phase [
    | connecting ↦ some (go tx_qp failed s.pair s)
    | _ ↦ none
  ]
  event accepted s = elim s.rx_phase [
    | outside ↦ found s >>= λ old. qp_exists rx_qp (new_pair null (sock r)) old >>= λ p.
        some (after_wait rx_qp (wait_qp_ready rx_qp p) s)
    | _ ↦ none
  ]
  event (wakes dir) s = elim (phase dir s) [
    | waiting ↦
        if s.pair.woken && not (is_err_or_null (qp_dir (other dir) s.pair))
        then some (go dir running s.pair s)
        else none
    | _ ↦ none
  ]
  event (hangs_up dir) s = elim (phase dir s) [
    | running ↦ some (go dir finished (put_qp s.pair) s)
    | _ ↦ none
  ]
  event (times_out dir) s = elim (phase dir s) [
    | waiting ↦
        if is_err_or_null (qp_dir (other dir) s.pair)
        then some (go dir finished (wait_qp_ready_timeout s.pair) s)
        else none
    | _ ↦ none
  ]

  pub events : List Event → System → Option System
  events [] s = some s
  events (e ∷ es) s = event e s >>= λ u. events es u
