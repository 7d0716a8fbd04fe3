-- ===== src/Accept/PrecServer.antt =====
-- The server for connections that another host opens in advance.
use ktcp_split.Common.{
  ℕ, ◌≡◌, true, false, not, ◌&&◌, none, some, List, [], arith, if◌then◌else◌, Bool-cases, inl, inr,
}
use ktcp_split.Common.Int.{is_neg, is_nonzero}
use ktcp_split.ThreadPool.Store.{ElementStore}
use ktcp_split.ThreadPool.Runs.{IsServed}
use ktcp_split.Accept.{Turn, left, State, released, PrecCalls, PrecEnded, prec_conn_listner_server}
use ktcp_split.Accept.Loop.{loop_end, accept_loop_lem}

-- prec_conn_listner_server in a sound pool whose store finds room does not fault, and leaves a sound
-- pool. It stands in `pre_conn_listner` exactly if its socket was created, bound, marked and
-- listening, and goes on standing there when the loop has ended; the socket is released exactly if it
-- was created and the server has ended.
pub prec_conn_listner_server_lem :
    (es : ElementStore) (env : es.Store → es.Env)
    → ((q : es.Store) → es.IsValid q → es.Fits q (env q))
    → (func : ℕ) (c : PrecCalls) (ts : List Turn) (s : State es)
    → IsServed es (record { given = s.given; called = [] }) s.pool
    → (x : PrecEnded) × (s' : State es) × (prec_conn_listner_server es env func c ts s
        ≡ some (x, s'))
      × IsServed es (record { given = s'.given; called = [] }) s'.pool
      × (x.registered ≡ (
          not (is_nonzero c.create)
          && not (is_nonzero c.bind)
          && not (is_neg c.set_mark)
          && not (is_nonzero c.listen)))
      × (x.freed ≡ (if is_nonzero c.create then none else released es c.sock x.outcome))
unfolding prec_conn_listner_server
prec_conn_listner_server_lem es env fits func c ts s v =
    let o = loop_end ts in
    let (s', same, w, _) = accept_loop_lem es env fits func 0 none [] ts s v in
    elim (Bool-cases (is_nonzero c.create)) [
      | inl h ↦ (
        record { outcome = left c.create; registered = false; freed = none },
        s,
        ground (arith, h),
        v,
        ground (arith, h),
        ground (arith, h),
      )
      | inr h ↦ elim (Bool-cases (is_nonzero c.bind)) [
        | inl i ↦ (
          record { outcome = left c.bind; registered = false; freed = some c.sock },
          s,
          ground (arith, h, i),
          v,
          ground (arith, h, i),
          ground (arith, h, i),
        )
        | inr i ↦ elim (Bool-cases (is_neg c.set_mark)) [
          | inl j ↦ (
            record { outcome = left c.set_mark; registered = false; freed = some c.sock },
            s,
            ground (arith, h, i, j),
            v,
            ground (arith, h, i, j),
            ground (arith, h, i, j),
          )
          | inr j ↦ elim (Bool-cases (is_nonzero c.listen)) [
            | inl k ↦ (
              record { outcome = left c.listen; registered = false; freed = some c.sock },
              s,
              ground (arith, h, i, j, k),
              v,
              ground (arith, h, i, j, k),
              ground (arith, h, i, j, k),
            )
            | inr k ↦ (
              record { outcome = o; registered = true; freed = released es c.sock o },
              s',
              ground (arith, h, i, j, k, same),
              w,
              ground (arith, h, i, j, k),
              ground (arith, h),
            )
          ]
        ]
      ]
    ]
