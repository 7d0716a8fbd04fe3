-- ===== src/Forward.antt =====
-- The forwarding of one direction: half_duplex of tcpsplit/split.c. The calls of the kernel are
-- arguments: the pages, and for each turn of the loop what kernel_recvmsg and kernel_sendmsg return and
-- whether the thread is to stop.
pub mod Stream
mod Tests
use ktcp_split.Common.{
  ℕ, ◌+◌, ◌%◌, ◌^◌, Bool, true, false, Option, none, some, List, [], ◌∷◌, ◌++◌, ltb, ◌==◌,
  if◌then◌else◌, length,
}
use ktcp_split.Common.Words.{u64}
use ktcp_split.Common.Int.{ℤ, pos, neg, is_le_zero}

abbrev pub vec_sz : ℕ
vec_sz = 16

-- One turn: the bytes received, or with none of them the result that is not positive; the result of
-- the send; kthread_should_stop().
pub record Turn : Type 0 where
  pub bytes : List ℕ
  pub error : ℕ
  pub send : ℤ
  pub stop : Bool

-- The result of kernel_recvmsg: the number of bytes, or 0 or an error code.
abbrev pub recv : Turn → ℤ
recv t = if length t.bytes == 0 then neg t.error else pos (length t.bytes)

-- The first n bytes: those that a send of n bytes delivers.
abbrev pub take : ℕ → List ℕ → List ℕ
take ℕ.zero xs = []
take (ℕ.suc n) [] = []
take (ℕ.suc n) (x ∷ xs) = x ∷ take n xs

abbrev pub sent : ℤ → List ℕ → List ℕ
sent (pos n) xs = take n xs
sent (ℤ.negsuc n) xs = []

-- A thread in half_duplex: the count `bytes`, what it received and delivered, the calls of put_qp.
pub record Flow : Type 0 where
  pub bytes : ℕ
  pub received : List ℕ
  pub delivered : List ℕ
  pub puts : ℕ

-- The thread is in kernel_recvmsg, or it has returned `rc`.
pub data Progress : Type 0 where
  blocked : Flow → Progress
  returned : ℤ → Flow → Progress

abbrev pub receives : Turn → Flow → Flow
receives t f = record f { bytes = u64 (f.bytes + length t.bytes); received = f.received ++ t.bytes }

abbrev pub sends : Turn → Flow → Flow
sends t f = record f { delivered = f.delivered ++ sent t.send t.bytes }

abbrev pub puts_qp : Flow → Flow
puts_qp f = record f { puts = f.puts + 1 }

-- `do ... while (!kthread_should_stop())`
unfoldable pub duplex_loop : List Turn → Flow → Progress
duplex_loop [] f = blocked f
duplex_loop (t ∷ ts) f =
    let onward = duplex_loop ts (sends t (receives t f)) in
    if is_le_zero (recv t)
    then returned (recv t) (puts_qp f)
    else if is_le_zero t.send
    then returned t.send (puts_qp (receives t f))
    else (if t.stop then returned t.send (sends t (receives t f)) else onward)

abbrev pub enomem : ℕ
enomem = 12

abbrev pub start : Flow
start = record { bytes = 0; received = []; delivered = []; puts = 0 }

-- The first argument tells whether the sixteen pages were allocated.
unfoldable pub half_duplex : Bool → List Turn → Progress
half_duplex pages turns = if pages then duplex_loop turns start else returned (neg enomem) start
