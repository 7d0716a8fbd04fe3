-- ===== src/Logger/Tests.antt =====
-- Runs of the logger.
use ktcp_split.Common.{false, ℕ, ◌≡◌, refl, true, some, List, [], ◌∷◌, ◌++◌}
use ktcp_split.Common.Int.{pos, negsuc}
use ktcp_split.Logger.{Mgr, StatsCb, stats_log_read}
use ktcp_split.Logger.Requests.{Request, write_log, write_stats, read, hello, md_init, serve_all}
use ktcp_split.Logger.Log.{ask_all}
use ktcp_split.Logger.Refine.{SameReply, serve_all_lem}
use ktcp_split.Logger.Read.{read_of, stats_log_read_lem}

abbrev text : List ℕ
text = 72 ∷ 105 ∷ 10 ∷ []

abbrev almost_full : Mgr
almost_full = record { len = 3967; buffer = λ _. 0 }

-- A callback that writes nothing and returns an error.
abbrev failing : StatsCb
failing tailroom = ([], negsuc 4000)

stats_log_read_lem_example :
    stats_log_read (failing ∷ []) true true 4096 2 almost_full
    ≡ read_of (failing ∷ []) true true 4096 2 almost_full
stats_log_read_lem_example = stats_log_read_lem (failing ∷ []) true true 4096 2 almost_full

-- A read has no buffer, a text is logged, the callback is registered, and the text and the statistics are read.
abbrev requests : List Request
requests = read false true 4096 0 ∷ write_log text ∷ write_stats 1 ∷ read true true 4096 0 ∷ []

serve_all_lem_example :
    SameReply
      (serve_all requests (md_init (λ _. 7)))
      (ask_all requests (record { text = []; listed = false }))
serve_all_lem_example = serve_all_lem (λ _. 7) requests

asked :
    ask_all requests (record { text = []; listed = false })
    ≡ some (
      (negsuc 21, []) ∷ (pos 3, []) ∷ (pos 1, []) ∷ (pos 15, text ++ hello) ∷ [],
      record { text = []; listed = true },
    )
asked = refl

-- A write of 3969 bytes reports its size and is dropped.
abbrev zeros : ℕ → List ℕ
zeros ℕ.zero = []
zeros (ℕ.suc n) = 0 ∷ zeros n

dropped :
    ask_all
      (write_log (zeros 3969) ∷ read true true 4096 0 ∷ [])
      (record { text = []; listed = false })
    ≡ some ((pos 3969, []) ∷ (pos 0, []) ∷ [], record { text = []; listed = false })
dropped = refl
