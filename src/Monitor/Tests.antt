-- ===== src/Monitor/Tests.antt =====
-- A link, in thousandths, that fails and comes back.
use mlvpn_rs.Common.{ℕ, ◌≡◌, refl, none, [], ◌∷◌, List}
use mlvpn_rs.Scheduler.Thousandths.{thousandths}
use mlvpn_rs.Link.Stats
use mlvpn_rs.Link.Stats.{LinkState, up, down, record_rtt, record_miss}
use mlvpn_rs.Monitor.{
  SchedulerConfig, ProbeTracker, record_reply, next_state, changed_stats, come_up,
  update_link_state,
}
use mlvpn_rs.Monitor.Streaks.{
  Event, replied, missed, judged, apply, monitored, Verdict, judged-Verdict,
}
use mlvpn_rs.Monitor.Probes.{used, sent, swept, answered_once}

abbrev cautious : SchedulerConfig
cautious = record { down_threshold = 2; up_threshold = 2 }

abbrev back_then_gone : List (Event ℕ)
back_then_gone =
    missed 5000
    ∷ missed 4000
    ∷ judged 3000
    ∷ replied 3000 20000
    ∷ judged 2000
    ∷ replied 2000 30000
    ∷ []

-- It came up after two replies.
is_up_then : (monitored cautious 1000 200 back_then_gone).state ≡ up
unfolding apply record_rtt record_miss update_link_state next_state Stats.new
is_up_then = refl

-- And it goes down after two failures.
is_down_now : (monitored cautious 1000 200 (judged 5000 ∷ back_then_gone)).state ≡ down
unfolding apply record_rtt record_miss update_link_state next_state changed_stats come_up Stats.new
is_down_now = refl

judged-Verdict_example :
    Verdict 5000 cautious 0 2
      (monitored cautious 1000 200 back_then_gone)
      (monitored cautious 1000 200 (judged 5000 ∷ back_then_gone))
judged-Verdict_example = judged-Verdict cautious 1000 200 back_then_gone 5000

abbrev one_out : ProbeTracker
one_out = record { outstanding = (7, 1000) ∷ []; timeout = 500 }

answered_once_example :
    record_reply 1400 7 (used (swept 1300 ∷ sent 1200 8 ∷ []) (record_reply 1100 7 one_out).0)
    ≡ (used (swept 1300 ∷ sent 1200 8 ∷ []) (record_reply 1100 7 one_out).0, none)
answered_once_example =
    answered_once 1100 1400 7 (swept 1300 ∷ sent 1200 8 ∷ []) one_out (refl, (refl, tt))
