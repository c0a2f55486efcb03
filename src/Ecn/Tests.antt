-- ===== src/Ecn/Tests.antt =====
-- Runs of the tracker.
use l4s_poc.Base.{◌≡◌, refl, List, [], ◌∷◌}
use l4s_poc.Ecn.{new_tracker, stats, track}
use l4s_poc.Ecn.Counts.{Packet, track_all, counts, stats-track_all}

-- Two CE marks, one with higher bits set, an ECT(1) and a packet that is not ECT.
abbrev four : List Packet
four =
    record { ecn = 3; seq_num = 1; timestamp = 90 }
    ∷ record { ecn = 7; seq_num = 2; timestamp = 90 }
    ∷ record { ecn = 1; seq_num = 3; timestamp = 180 }
    ∷ record { ecn = 4; seq_num = 4; timestamp = 180 }
    ∷ []

stats-four : stats (track_all four (new_tracker 8)) ≡ (0, 1, 2, 1, 4)
unfolding stats track new_tracker
stats-four = refl

stats-track_all_example : stats (track_all four (new_tracker 8)) ≡ counts four
stats-track_all_example = stats-track_all 8 four
