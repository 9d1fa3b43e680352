-- ===== src/Delivery/Tests.antt =====
-- A link that loses most of what it is offered, in thousandths.
use mlvpn_rs.Common.{[], ◌∷◌, ℕ, ◌≡◌, refl, none, some, arith}
use mlvpn_rs.Scheduler.Thousandths.{thousandths}
use mlvpn_rs.Delivery.{
  DeliverySample, DeliveryTracker, default_tracker, hold_down, observe, evaluate_window,
  count_window, cut, cut_factor, end_hold, take_sample, is_fresh, recover, grow, reset_hold,
  elapsed_secs, is_bad, is_loaded, ratio_of, reset, observe_report, is_unusable, mbps_over,
}
use mlvpn_rs.Delivery.Holds.{IsTracker, observe-IsTracker, default-IsTracker}
use mlvpn_rs.Delivery.Restraint.{StaysDown, observe-StaysDown}

abbrev throttled : DeliverySample ℕ
throttled = record { offered_mbps = 10000; delivered_mbps = 2000; stamp = 1000 }

abbrev cut_down : DeliveryTracker ℕ
cut_down = observe 1000 (some throttled) default_tracker

cut_down-phase : cut_down.phase ≡ hold_down
unfolding observe evaluate_window count_window cut cut_factor end_hold take_sample is_fresh recover
    grow reset_hold elapsed_secs is_bad is_loaded ratio_of
cut_down-phase = refl

cut_down_until : cut_down.hold_until ≡ some 6000
unfolding observe evaluate_window count_window cut cut_factor end_hold take_sample is_fresh recover
    grow reset_hold elapsed_secs is_bad is_loaded ratio_of
cut_down_until = refl

cut_down-IsTracker : IsTracker (1000 ∷ []) cut_down
cut_down-IsTracker =
    observe-IsTracker [] 1000 (some throttled) default_tracker (default-IsTracker [])

observe-StaysDown_example : StaysDown 2000 none cut_down (observe 2000 none cut_down)
observe-StaysDown_example =
    observe-StaysDown (1000 ∷ []) 2000 none cut_down 6000 cut_down-IsTracker cut_down-phase
      cut_down_until (omega arith)

-- The first report opens a window, and the second one closes it.
second_report :
    (observe_report {F = ℕ}
      (record { stamp = 2000; peer_rx_bytes = 500; local_tx_bytes = 900 })
      (observe_report (record { stamp = 1000; peer_rx_bytes = 0; local_tx_bytes = 0 }) reset).0).1
    ≡ some (record {
      offered_mbps = mbps_over 1000 900;
      delivered_mbps = mbps_over 1000 500;
      stamp = 2000;
    })
unfolding observe_report is_unusable
second_report = refl
