-- ===== src/Scheduler/Tests.antt =====
-- A scheduler whose numbers are thousandths, at work.
use mlvpn_rs.Common.{
  ℕ, suc, ◌≤◌, ◌<◌, ◌≡◌, ◌⊎◌, refl, true, false, Option, none, some, List, [], ◌∷◌, All, arith,
  length, take, max, leb, ok,
}
use mlvpn_rs.Common.Maps.{lookup}
use mlvpn_rs.Scheduler.{
  Scheduler, SchedulerConfig, LinkView, new, best_other, best_up, max_by, max_onto, keep_if,
  beats_by_margin, refresh_from_scores, primary_score, score_of, with_primary_up, advance_candidate,
  set_primary,
}
use mlvpn_rs.Scheduler.Trackers.{congestion_trackers, delivery_trackers}
use mlvpn_rs.Congestion.{CongestionTracker}
use mlvpn_rs.Delivery.{DeliveryTracker, DeliverySample}
use mlvpn_rs.Delivery.Holds.{IsTracker}
use mlvpn_rs.Scheduler.Delivered.{times_of, Reachable-All-IsTracker}
use mlvpn_rs.Scheduler.Thousandths.{thousandths}
use mlvpn_rs.Scheduler.Pick.{LinkScore, is_empty, select, select_fast, refresh, update_delivery}
use mlvpn_rs.Scheduler.Reach.{IsConsistent, Reachable, start, after, refreshed, delivery_seen}
use mlvpn_rs.Scheduler.Available.{Reachable-IsConsistent, select_available, select_fast-select}
use mlvpn_rs.Scheduler.Streak.{Leads, ChoosesPrimary, Held, begun, kept, switch_earned}
use mlvpn_rs.Scheduler.Failover.{IsDown, Among, failover_best}
use mlvpn_rs.Scheduler.Takeover.{refresh_each, takeover_due}

abbrev Bond : Type 0
Bond = Scheduler ℕ (CongestionTracker ℕ) (DeliveryTracker ℕ)

abbrev fast_and_slow : List (LinkView ℕ)
fast_and_slow =
    record { score = 5000; bandwidth_cap_mbps = none }
    ∷ record { score = 2000; bandwidth_cap_mbps = some 8000 }
    ∷ []

abbrev bonded : SchedulerConfig
bonded = record { primary_link_mode = false; follow_peer_primary = false; up_threshold = 3 }

abbrev with_primary : SchedulerConfig
with_primary = record { primary_link_mode = true; follow_peer_primary = false; up_threshold = 3 }

abbrev fresh : Bond
fresh = new

abbrev chosen : Bond
chosen = refresh congestion_trackers delivery_trackers fast_and_slow with_primary none fresh

chosen_reached : Reachable congestion_trackers delivery_trackers 2 chosen
chosen_reached = after start (refreshed fast_and_slow with_primary none refl)

abbrev shared : Bond
shared = refresh congestion_trackers delivery_trackers fast_and_slow bonded none fresh

shared_reached : Reachable congestion_trackers delivery_trackers 2 shared
shared_reached = after start (refreshed fast_and_slow bonded none refl)

abbrev both_links : List (LinkScore ℕ)
both_links =
    record { link_index = 0; consecutive_misses = 4; rtt_ms = none }
    ∷ record { link_index = 1; consecutive_misses = 4; rtt_ms = some 30000 }
    ∷ []

Reachable-IsConsistent_example : IsConsistent 2 chosen
Reachable-IsConsistent_example =
    Reachable-IsConsistent congestion_trackers delivery_trackers chosen_reached

select_available_example :
    (t : Bond) × (r : Option ℕ) × (select congestion_trackers delivery_trackers 0 both_links 1400
        shared
      ≡ ok (t, r))
    × (is_empty both_links ≡ true → r ≡ none)
    × (is_empty both_links ≡ false → (i : ℕ) × (r ≡ some i) × (i < 2))
select_available_example =
    select_available congestion_trackers delivery_trackers 0 1400 both_links shared_reached
      (omega arith, (omega arith, tt))

select_fast-select_example :
    (select_fast congestion_trackers delivery_trackers 0 (length both_links) 1400 shared
      ≡ select congestion_trackers delivery_trackers 0 both_links 1400 shared)
    ⊎ ((select_fast congestion_trackers delivery_trackers 0 (length both_links) 1400 shared
          ≡ ok (shared, none))
        × (shared.primary ≡ none)
        × (is_empty shared.entries ≡ true))
select_fast-select_example =
    select_fast-select congestion_trackers delivery_trackers 0 1400 both_links shared

-- Link 0 is the primary, and link 1 overtakes it.
abbrev overtaken : List (ℕ × ℕ)
overtaken = (0, 2000) ∷ (1, 5000) ∷ []

abbrev on_zero : Bond
on_zero = record fresh { primary = some 0; primary_published = 0 }

overtaken-Leads : Leads 0 1 overtaken
unfolding best_other best_up max_by max_onto keep_if beats_by_margin lookup
overtaken-Leads = record {
  primary_score = 2000;
  other_score = 5000;
  up = refl;
  best = refl;
  ahead = refl;
}

chooses : ChoosesPrimary with_primary
chooses = record { own = refl; on = refl }

takeover_due_example :
    (refresh_each with_primary none (overtaken ∷ overtaken ∷ overtaken ∷ []) on_zero).primary
    ≡ some 1
takeover_due_example =
    takeover_due with_primary 0 1 none (overtaken ∷ overtaken ∷ overtaken ∷ []) on_zero chooses refl
      refl (omega arith) (overtaken-Leads, (overtaken-Leads, (overtaken-Leads, tt)))

abbrev second : Bond
second =
    refresh_from_scores overtaken with_primary none
      (refresh_from_scores overtaken with_primary none on_zero)

second-Held : Held with_primary 0 (overtaken ∷ overtaken ∷ []) second
unfolding refresh_from_scores primary_score score_of with_primary_up advance_candidate set_primary
    best_other best_up max_by max_onto keep_if beats_by_margin lookup
second-Held = kept overtaken none (kept overtaken none (begun refl refl) refl) refl

switched : (refresh_from_scores overtaken with_primary none second).primary ≡ some 1
unfolding refresh_from_scores primary_score score_of with_primary_up advance_candidate set_primary
    best_other best_up max_by max_onto keep_if beats_by_margin lookup
switched = refl

still_up : lookup 0 overtaken ≡ some 2000
unfolding lookup
still_up = refl

switch_earned_example :
    (n : ℕ) × (max 2 with_primary.up_threshold ≤ n)
    × (n ≤ suc (length (overtaken ∷ overtaken ∷ [])))
    × All (Leads 0 1) (take n (overtaken ∷ overtaken ∷ overtaken ∷ []))
switch_earned_example =
    switch_earned overtaken none chooses second-Held still_up switched (omega arith)

abbrev lost : List (ℕ × ℕ)
lost = (1, 5000) ∷ (2, 4000) ∷ []

lost-IsDown : IsDown on_zero.primary lost
unfolding lookup
lost-IsDown = refl

failover_best_example :
    ((lost ≡ []) × ((refresh_from_scores lost with_primary none on_zero).primary ≡ none))
    ⊎ ((i : ℕ) × (score : ℕ) × ((refresh_from_scores lost with_primary none on_zero).primary
          ≡ some i)
        × Among (i, score) lost
        × All (λ u. leb u.1 score ≡ true) lost)
failover_best_example = failover_best with_primary lost none on_zero chooses lost-IsDown

-- Link 0 delivers a fifth of what it is offered.
abbrev throttled : DeliverySample ℕ
throttled = record { offered_mbps = 10000; delivered_mbps = 2000; stamp = 1000 }

abbrev one_throttled : Bond
one_throttled =
    update_delivery congestion_trackers delivery_trackers 1000 (some throttled ∷ none ∷ []) chosen

one_throttled_reached : Reachable congestion_trackers delivery_trackers 2 one_throttled
one_throttled_reached = after chosen_reached (delivery_seen 1000 (some throttled ∷ none ∷ []))

Reachable-All-IsTracker_example :
    All (IsTracker (times_of congestion_trackers one_throttled_reached)) one_throttled.delivery
Reachable-All-IsTracker_example = Reachable-All-IsTracker congestion_trackers one_throttled_reached
