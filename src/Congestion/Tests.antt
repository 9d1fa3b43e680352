-- ===== src/Congestion/Tests.antt =====
-- src/congestion.rs: a link on which sending fails.
use mlvpn_rs.Common.{ℕ, ◌≡◌, refl, [], ◌∷◌, true, some, arith}
use mlvpn_rs.Scheduler.Thousandths.{thousandths}
use mlvpn_rs.Congestion.{
  CounterSnapshot, CongestionTracker, default_tracker, default_snapshot, update, fold_window,
  next_factor, target_of, delay_target, delay_of, along, between, mean_delta, wrapping_sub,
}
use mlvpn_rs.Congestion.Filter.{Lost, sending_failed, losses_felt, NotAbove, updates, fall_held}

abbrev failing : CounterSnapshot
failing = record default_snapshot { delay_sum_us = 200000; delay_samples = 20; send_failed = 3 }

abbrev started : CongestionTracker ℕ
started = update 0 default_snapshot default_tracker

started_number : thousandths.le started.factor started.factor ≡ true
unfolding update
started_number = refl

started_at : started.last_update ≡ some 0
unfolding update
started_at = refl

started-Lost : Lost {F = ℕ} started.prev failing 250
unfolding update
started-Lost = sending_failed (omega arith)

losses_felt_example : thousandths.le (update 1000 failing started).factor 250 ≡ true
losses_felt_example =
    losses_felt 1000 0 failing started 250 started_at (omega arith) started_number started-Lost

fell : thousandths.lt (update 1000 failing started).factor started.factor ≡ true
unfolding update fold_window next_factor target_of delay_target delay_of along between mean_delta
    wrapping_sub
fell = refl

fall_held_example :
    NotAbove
      (updates ((1900, failing) ∷ (1500, failing) ∷ []) (update 1000 failing started)).factor
      (update 1000 failing started).factor
fall_held_example =
    fall_held 1000 failing started ((1900, failing) ∷ (1500, failing) ∷ []) fell
      ((omega arith, omega arith), ((omega arith, omega arith), tt))
