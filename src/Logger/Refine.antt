-- ===== src/Logger/Refine.antt =====
-- The requests of logger/logger.c implement the log.
use mathlib.Core.List.{append-nil}
use ktcp_split.Common.{
  ℕ, ◌+◌, ◌-◌, ◌%◌, ◌≤◌, ◌≡◌, refl, ap, sym, ◌∙◌, inl, inr, Bool, true, false, Option, none, some,
  List, [], ◌∷◌, ◌++◌, ltb, ◌==◌, ◌||◌, take, if◌then◌else◌, length, length-append, ◌>>=◌, arith,
  subst, Bool-cases,
}
use ktcp_split.Common.Int.{ℤ, pos, neg}
use ktcp_split.Logger.{
  Mgr, slice, copy_at, trvl_buffer_size, scbm_collect_stats, trvlb_put_buff_head,
  trvlb_log_formated_string, logger_log_write, efault,
}
use ktcp_split.Logger.Memory.{slice-copy_at_behind}
use ktcp_split.Logger.Read.{outcome, stats_log_read_lem}
use ktcp_split.Logger.Requests.{
  DpState, Request, write_log, fault_log, write_stats, read, hello, debug_stats, stats_log_write,
  serve, serve_all, md_init,
}
use ktcp_split.Logger.Log.{Log, logged, collected, answer, ask, ask_all, bad_size}

-- A buffer holds a text.
pub record IsText (mgr : Mgr) (text : List ℕ) : Type 0 where
  pub size : mgr.len ≡ length text
  pub bounded : mgr.len ≤ trvl_buffer_size
  pub shown : slice mgr.buffer 0 mgr.len ≡ text

-- A part that is copied behind the text, with bytes that do not count.
copied-IsText :
    (mgr : Mgr) (text xs ys : List ℕ) (len : ℕ)
    → IsText mgr text
    → len ≡ mgr.len + length xs
    → len ≤ trvl_buffer_size
    → IsText (record { len = len; buffer = copy_at mgr.buffer mgr.len (xs ++ ys) }) (text ++ xs)
copied-IsText mgr text xs ys len t e b = record {
  size = omega (arith, e, t.size, length-append text xs);
  bounded = b;
  shown =
      ap (slice (copy_at mgr.buffer mgr.len (xs ++ ys)) 0) e
      ∙ slice-copy_at_behind mgr.buffer mgr.len xs ys
      ∙ ap (λ l. l ++ xs) t.shown;
}

-- A part that is copied behind the text and counts as a whole.
grown-IsText :
    (mgr : Mgr) (text xs : List ℕ)
    → IsText mgr text
    → mgr.len + length xs ≤ trvl_buffer_size
    → IsText
        (record { len = mgr.len + length xs; buffer = copy_at mgr.buffer mgr.len xs })
        (text ++ xs)
grown-IsText mgr text xs t b =
    subst
      (λ l.
        IsText (record { len = mgr.len + length xs; buffer = copy_at mgr.buffer mgr.len l })
          (text ++ xs))
      (append-nil xs) (copied-IsText mgr text xs [] (mgr.len + length xs) t refl b)

logged-IsText :
    (mgr : Mgr) (text buff : List ℕ)
    → IsText mgr text
    → IsText (trvlb_log_formated_string mgr buff).1 (logged buff text)
unfolding trvlb_log_formated_string
logged-IsText mgr text buff t =
    let empty : Mgr = record mgr { len = 0 } in
    let restarted =
      grown-IsText empty [] buff (record { size = refl; bounded = omega arith; shown = refl }) in
    elim (Bool-cases (ltb trvl_buffer_size (length buff))) [
      | inl long ↦ rw long t
      | inr short ↦ rw short (elim (Bool-cases (ltb trvl_buffer_size (length buff + mgr.len))) [
        | inl full ↦
            rw (full, (sym (ap (λ n. ltb trvl_buffer_size (length buff + n)) t.size) ∙ full))
              (restarted (ground (arith, short)))
        | inr room ↦
            rw (room, (sym (ap (λ n. ltb trvl_buffer_size (length buff + n)) t.size) ∙ room))
              (grown-IsText mgr text buff t (ground (arith, room)))
      ])
    ]

put_lem :
    (n : ℕ) (mgr : Mgr)
    → mgr.len + n ≤ trvl_buffer_size
    → (trvlb_put_buff_head (pos n) mgr).1 ≡ record mgr { len = mgr.len + n }
unfolding trvlb_put_buff_head
put_lem n mgr h = ground arith

length-take : (n : ℕ) (xs : List ℕ) → length (take n xs) ≤ n
length-take n [] = omega arith
length-take ℕ.zero (x ∷ xs) = omega arith
length-take (ℕ.suc n) (x ∷ xs) = omega (arith, length-take n xs)

collected-IsText :
    (mgr : Mgr) (text : List ℕ)
    → IsText mgr text
    → IsText
        (scbm_collect_stats (debug_stats ∷ []) mgr)
        (text ++ take (trvl_buffer_size - length text - 1) hello)
unfolding scbm_collect_stats debug_stats
collected-IsText mgr text t = go (trvl_buffer_size - mgr.len) refl
  where
    go :
        (room : ℕ)
        → trvl_buffer_size - mgr.len ≡ room
        → IsText
            (trvlb_put_buff_head
              (debug_stats room).1
              (record mgr { buffer = copy_at mgr.buffer mgr.len (debug_stats room).0 })).1
            (text ++ take (trvl_buffer_size - length text - 1) hello)
    go ℕ.zero e =
        let none_left : trvl_buffer_size - length text - 1 ≡ 0 = omega (arith, t.size, e) in
        let fits : mgr.len + 0 ≤ trvl_buffer_size = omega (arith, t.bounded) in
        rw (put_lem 0 mgr fits, none_left) (copied-IsText mgr text [] [] (mgr.len + 0) t refl fits)
    go (ℕ.suc room) e =
        let xs = take room hello in
        let left : trvl_buffer_size - length text - 1 ≡ room = omega (arith, t.size, e) in
        let fits : mgr.len + length xs ≤ trvl_buffer_size =
          omega (arith, e, length-take room hello) in
        rw
          (
            put_lem (length xs)
                (record mgr { buffer = copy_at mgr.buffer mgr.len (xs ++ (0 ∷ [])) }) fits,
            left,
          )
          (copied-IsText mgr text xs (0 ∷ []) (mgr.len + length xs) t refl fits)

-- The state of the logger holds a log.
pub record Refines (s : DpState) (l : Log) : Type 0 where
  pub held : IsText s.stats l.text
  pub callbacks : s.cbm ≡ (if l.listed then debug_stats ∷ [] else [])
  pub flag : s.listed ≡ l.listed

-- Both fault, or both give the same replies and what they leave is related again.
abbrev pub SameReply : {R : Type 0} → Option (R × DpState) → Option (R × Log) → Type 0
SameReply none none = Unit
SameReply (some (r, s)) (some (r', l)) = (r ≡ r') × Refines s l
SameReply _ _ = ⊥

outcome_lem :
    (copies : Bool) (len : ℕ) (mgr : Mgr) (text : List ℕ)
    → IsText mgr text
    → let (rc, out, mgr') = outcome copies len mgr in
      let (reply, text') = answer copies len text in ((rc, out) ≡ reply) × IsText mgr' text'
outcome_lem copies len mgr text t =
    let kept_back : ℕ → Bool = λ n. (n == 0) || ltb len n in
    elim (Bool-cases (kept_back mgr.len)) [
      | inl kept ↦ rw (kept, sym (ap kept_back t.size) ∙ kept) (refl, t)
      | inr shown ↦ rw (shown, sym (ap kept_back t.size) ∙ shown) (go copies)
    ]
  where
    go :
        (b : Bool)
        → let (rc, out, mgr') : ℤ × List ℕ × Mgr =
            if b
            then (pos mgr.len, slice mgr.buffer 0 mgr.len, record mgr { len = 0 })
            else (neg efault, [], mgr) in
          let (reply, text') : (ℤ × List ℕ) × List ℕ =
            if b then ((pos (length text), text), []) else ((neg efault, []), text) in
          ((rc, out) ≡ reply) × IsText mgr' text'
    go true = (
      λ i. (pos (t.size i), t.shown i),
      record { size = refl; bounded = omega arith; shown = refl },
    )
    go false = (refl, t)

collect_lem :
    (s : DpState) (l : Log) → Refines s l → IsText (scbm_collect_stats s.cbm s.stats) (collected l)
unfolding scbm_collect_stats
collect_lem s l h = rw h.callbacks (go l.listed)
  where
    go :
        (b : Bool)
        → IsText
            (scbm_collect_stats (if b then debug_stats ∷ [] else []) s.stats)
            (if b then l.text ++ take (trvl_buffer_size - length l.text - 1) hello else l.text)
    go true = collected-IsText s.stats l.text h.held
    go false = h.held

serve-ask : (q : Request) (s : DpState) (l : Log) → Refines s l → SameReply (serve q s) (ask q l)
unfolding serve logger_log_write stats_log_write
serve-ask (write_log buff) s l h = elim (Bool-cases (bad_size (length buff))) [
  | inl bad ↦ rw bad (refl, h)
  | inr good ↦ rw good (
    refl,
    record {
      held = logged-IsText s.stats l.text buff h.held;
      callbacks = h.callbacks;
      flag = h.flag;
    },
  )
]
serve-ask (fault_log error size) s l h = elim (Bool-cases (bad_size size)) [
  | inl bad ↦ rw bad (refl, h)
  | inr good ↦ rw good (refl, h)
]
serve-ask (write_stats size) s l h = elim (Bool-cases l.listed) [
  | inl on ↦ rw (h.flag ∙ on, on) tt
  | inr off ↦
      let none_yet : s.cbm ≡ [] = h.callbacks ∙ ap (λ b. if b then debug_stats ∷ [] else []) off in
      rw (h.flag ∙ off, off)
        (
          refl,
          record {
            held = h.held;
            callbacks = ap (λ c. c ++ (debug_stats ∷ [])) none_yet;
            flag = refl;
          },
        )
]
serve-ask (read false copies len ppos) s l h =
    rw (ap (λ r. r.0) (stats_log_read_lem s.cbm false copies len ppos s.stats)) (refl, h)
serve-ask (read true copies len ppos) s l h =
    rw (ap (λ r. r.0) (stats_log_read_lem s.cbm true copies len ppos s.stats))
      (elim (Bool-cases (ppos % 2 == 1)) [
        | inl odd ↦ rw odd (refl, h)
        | inr even ↦
            let (same, held) =
              outcome_lem copies len (scbm_collect_stats s.cbm s.stats) (collected l)
                (collect_lem s l h) in
            rw even (same, record { held = held; callbacks = h.callbacks; flag = h.flag })
      ])

SameReply-bind :
    {R Q : Type 0} (m : Option (R × DpState)) (m' : Option (R × Log))
    (k : R × DpState → Option (Q × DpState)) (k' : R × Log → Option (Q × Log))
    → SameReply m m'
    → ((r : R) (s : DpState) (l : Log) → Refines s l → SameReply (k (r, s)) (k' (r, l)))
    → SameReply (m >>= k) (m' >>= k')
SameReply-bind none none k k' h f = tt
SameReply-bind (some (r, s)) (some (r', l)) k k' h f = rw (sym h.0) (f r s l h.1)
SameReply-bind none (some x) k k' h f = absurd h
SameReply-bind (some x) none k k' h f = absurd h

serve_all-Refines :
    (qs : List Request) (s : DpState) (l : Log)
    → Refines s l
    → SameReply (serve_all qs s) (ask_all qs l)
unfolding serve_all
serve_all-Refines [] s l h = (refl, h)
serve_all-Refines (q ∷ qs) s l h =
    SameReply-bind (serve q s) (ask q l) _ _ (serve-ask q s l h) (λ r s' l' h'.
      SameReply-bind (serve_all qs s') (ask_all qs l') _ _ (serve_all-Refines qs s' l' h')
        (λ rs s'' l'' h''. (refl, h'')))

-- From the initialisation on, whatever the memory of the buffer holds, any sequence of writes to the log
-- and to the statistics and of reads, with faults of the copies and reads without a buffer, gets the results and the texts that the
-- abstract log gives, and leaves a buffer that holds its text. Either goes out of what is defined at
-- the same request, the second write to the statistics.
pub serve_all_lem :
    (memory : ℕ → ℕ) (qs : List Request)
    → SameReply (serve_all qs (md_init memory)) (ask_all qs (record { text = []; listed = false }))
unfolding md_init
serve_all_lem memory qs =
    serve_all-Refines qs (md_init memory) (record { text = []; listed = false })
      (record {
        held = record { size = refl; bounded = omega arith; shown = refl };
        callbacks = refl;
        flag = refl;
      })
