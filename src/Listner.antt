-- ===== src/Listner.antt =====
-- The tenants' listening servers: tcpsplit/rb_data_tree.h (search_rb_listner, add_rb_listner) and
-- tcpsplit/split.c (register_server_sock, split_server, remove_listner_server, del_server_cb,
-- add_server_cb, proc_read_string), with uint2void and void2uint of tcpsplit/qp.c.
-- A tree entry is the key and the address of a `struct cbn_listner`; the fields that change stand in
-- `info`. The calls of the kernel are arguments: the result of each, in the order of the calls.
pub mod Keys
pub mod Laws
pub mod Starts
pub mod Runs
pub mod Stop
mod Tests
use ktcp_split.Common.{
  ℕ, ◌+◌, ◌*◌, ◌/◌, ◌%◌, ◌^◌, Bool, true, false, Option, none, some, List, [], ◌∷◌, ltb, ◌==◌,
  if◌then◌else◌, ◌||◌, ◌&&◌, ◌>>=◌, bit_or,
}
use ktcp_split.Common.Int.{ℤ, pos, negsuc, is_neg, is_nonzero, neg}
use ktcp_split.Common.Words.{u16, u32, u64, sub32, signed32}
use ktcp_split.RbTree.{Sign, below, same, above, Tree, in_order, search_rb, RbOps, add_rb}

pub record Entry : Type 0 where
  pub key : ℕ
  pub addr : ℕ

abbrev pub rank : Entry → ℕ
rank e = e.key

pub record Info : Type 0 where
  pub port : ℕ
  pub status : ℕ
  pub sock : Option ℕ
  pub raw : Option ℕ

pub record Registry : Type 0 where
  pub tree : Tree Entry
  pub info : ℕ → Info

-- `int32_t result = key - this->key` and its sign.
abbrev pub sign_of_int : ℤ → Sign
sign_of_int (pos n) = if n == 0 then same else above
sign_of_int (negsuc n) = below

unfoldable pub probe_listner : ℕ → Entry → Sign
probe_listner key this = sign_of_int (signed32 (sub32 key this.key))

unfoldable pub search_rb_listner : Tree Entry → ℕ → Option Entry
search_rb_listner root key = search_rb (probe_listner key) root

unfoldable pub add_rb_listner : RbOps Entry rank → Tree Entry → Entry → Option Entry × Tree Entry
add_rb_listner rb root d = add_rb rb (probe_listner d.key) d root

abbrev eexist : ℕ
eexist = 17

abbrev uint_shift : ℕ
uint_shift = 32

-- Two 32-bit numbers in one pointer.
pub uint2void : ℕ → ℕ → ℕ
uint2void a b = bit_or (u64 (a * 2 ^ uint_shift)) b

pub void2uint : ℕ → ℕ × ℕ
void2uint ptr = (u32 (ptr / 2 ^ uint_shift), u32 (u64 (ptr * 2 ^ uint_shift) / 2 ^ uint_shift))

abbrev pub set_info : (ℕ → Info) → ℕ → Info → ℕ → Info
set_info f a v b = if a == b then v else f b

-- What a server asks of the kernel when it starts: the address of its slab object and whether the
-- two per-cpu allocations succeed, then the results of the socket calls.
pub record ServerCalls : Type 0 where
  pub slab : Option ℕ
  pub roots : Bool
  pub lists : Bool
  pub create : ℤ
  pub sock : ℕ
  pub set_mark : ℤ
  pub bind : ℤ
  pub listen : ℤ
  pub probe : Option ℕ

-- What becomes of a start: the server accepts on its socket, or it has ended with its return value
-- and has released a socket or none.
pub data Start : Type 0 where
  accepting : Entry → ℕ → Start
  ended : ℤ → Option ℕ → Start

module _ (rb : RbOps Entry rank) where
  -- The socket that is shut down, and the registry.
  unfoldable pub remove_listner_server : Registry → Entry → Option ℕ × Registry
  remove_listner_server r e = ((r.info e.addr).sock, record r { tree = rb.erase e r.tree })

  -- The key and the socket (still NULL) are set, and the entry is linked.
  abbrev added : Entry → Registry → Entry × Registry
  added e r = (
    e,
    record {
      tree = (add_rb_listner rb r.tree e).1;
      info = set_info r.info e.addr (record (r.info e.addr) { sock = none });
    },
  )

  -- The error paths after the slab allocation free the object and return NULL.
  pub register_server_sock : ServerCalls → ℕ → Registry → Option (Entry × Registry)
  register_server_sock c tid r = do
    addr ← c.slab
    if c.roots && c.lists then some (added (record { key = tid; addr = addr }) r) else none

  -- `error:` with a server: remove it, release the socket, return `rc`.
  abbrev fail : Registry → Entry → ℤ → Option ℕ → Start × Registry
  fail r e rc sock = (ended rc sock, (remove_listner_server r e).1)

  abbrev at_status : Registry → Entry → ℕ → Registry
  at_status r e n = record r {
    info = set_info r.info e.addr (record (r.info e.addr) { status = n });
  }

  -- `server->raw = craete_prec_conn_probe(mark)`; a failure leaves `rc` as it was, 0.
  probe_stage : ServerCalls → Entry → Registry → Start × Registry
  probe_stage c e r =
      let r' = record r {
        info = set_info r.info e.addr (record (r.info e.addr) { raw = c.probe });
      } in
      elim c.probe [
        | none ↦ fail r' e (pos 0) (some c.sock)
        | some raw ↦ (accepting e c.sock, at_status r' e 6)
      ]

  listen_stage : ServerCalls → Entry → Registry → Start × Registry
  unfolding probe_stage
  listen_stage c e r =
      if is_nonzero c.listen
      then fail r e c.listen (some c.sock)
      else probe_stage c e (at_status r e 5)

  bind_stage : ServerCalls → Entry → Registry → Start × Registry
  unfolding listen_stage
  bind_stage c e r =
      if is_nonzero c.bind
      then fail r e c.bind (some c.sock)
      else listen_stage c e (at_status r e 4)

  mark_stage : ServerCalls → Entry → Registry → Start × Registry
  unfolding bind_stage
  mark_stage c e r =
      if is_neg c.set_mark
      then fail r e c.set_mark (some c.sock)
      else bind_stage c e (at_status r e 3)

  abbrev with_sock : ServerCalls → ℕ → Entry → Registry → Registry
  with_sock c port e r = record r {
    info =
        set_info r.info e.addr
          (record (r.info e.addr) { sock = some c.sock; port = u16 port; status = 2 });
  }

  create_stage : ServerCalls → ℕ → Entry → Registry → Start × Registry
  unfolding mark_stage
  create_stage c port e r =
      if is_nonzero c.create then fail r e c.create none else mark_stage c e (with_sock c port e r)

  abbrev registered : ServerCalls → ℕ → Registry → Option (Entry × Registry) → Start × Registry
  registered c port r none = (ended (pos 0) none, r)
  registered c port r (some (e, r')) = create_stage c port e (at_status r' e 1)

  -- `split_server` up to its accept loop. Without memory for the server `rc` is still 0.
  pub split_server_start : ServerCalls → ℕ → Registry → Start × Registry
  unfolding register_server_sock create_stage
  split_server_start c mark_port r =
      let (mark, port) = void2uint mark_port in
      elim (search_rb_listner r.tree mark) [
        | some _ ↦ (ended (neg eexist) none, r)
        | none ↦ registered c port r (register_server_sock c mark r)
      ]

  -- `split_server` after the loop: a failed accept leaves the registry alone, a stop of the thread
  -- removes the server; the socket is released either way.
  unfoldable pub split_server_end : ℤ → Entry → ℕ → Registry → ℤ × Option ℕ × Registry
  unfolding remove_listner_server
  split_server_end rc e sock r =
      if is_nonzero rc
      then (rc, some sock, r)
      else (rc, some sock, (remove_listner_server (at_status r e 6) e).1)

  -- The socket that is shut down, if the server runs and has one.
  pub del_server_cb : ℕ → Registry → Option ℕ × Registry
  unfolding remove_listner_server
  del_server_cb tid r = elim (search_rb_listner r.tree tid) [
    | none ↦ (none, r)
    | some e ↦ remove_listner_server r e
  ]

-- The argument that `add_server_cb` hands to the thread of `split_server`.
pub add_server_cb : ℕ → ℕ → ℕ
add_server_cb tid port = uint2void tid port
