-- ===== src/Forward/Tests.antt =====
-- A stream of two turns that the peer ends.
use ktcp_split.Common.{◌≡◌, refl, true, false, inl, inr, List, [], ◌∷◌}
use ktcp_split.Common.Int.{pos}
use ktcp_split.Forward.{Turn, duplex_loop, half_duplex}
use ktcp_split.Forward.Stream.{IsIntact, flow_of, Counts, half_duplex-IsIntact, half_duplex-Counts}

abbrev turns : List Turn
turns =
    record { bytes = 1 ∷ 2 ∷ []; error = 0; send = pos 2; stop = false }
    ∷ record { bytes = 3 ∷ []; error = 0; send = pos 1; stop = false }
    ∷ record { bytes = []; error = 104; send = pos 0; stop = false }
    ∷ []

forwarded : (flow_of (half_duplex true turns)).delivered ≡ 1 ∷ 2 ∷ 3 ∷ []
unfolding half_duplex duplex_loop
forwarded = refl

half_duplex-Counts_example : Counts (half_duplex true turns)
half_duplex-Counts_example = half_duplex-Counts turns

half_duplex-IsIntact_example : IsIntact turns (flow_of (half_duplex true turns))
half_duplex-IsIntact_example =
    half_duplex-IsIntact true turns (inr refl, (inr refl, (inl refl, tt)))
