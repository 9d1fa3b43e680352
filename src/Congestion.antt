-- ===== src/Congestion.antt =====
-- src/congestion.rs: how the queue of a link lowers the factor of its weight, and how it recovers.
pub mod Filter
mod Tests
use mlvpn_rs.Common.{
  ℕ, ◌+◌, ◌-◌, ◌*◌, ◌/◌, ◌%◌, ◌^◌, Bool, true, false, not, Option, none, some, List, [], ◌∷◌, max,
  ltb, ◌==◌, if◌then◌else◌,
}
use mlvpn_rs.Scheduler.Floats.{Float}

-- Durations are in milliseconds.
abbrev pub hold_down : ℕ
hold_down = 1000

abbrev pub min_window : ℕ
min_window = 50

pub record CounterSnapshot : Type 0 where
  pub delay_sum_us : ℕ
  pub delay_samples : ℕ
  pub send_wait_sum_us : ℕ
  pub send_wait_samples : ℕ
  pub queue_full : ℕ
  pub send_failed : ℕ
  pub stall_us : ℕ

abbrev pub default_snapshot : CounterSnapshot
default_snapshot = record {
  delay_sum_us = 0;
  delay_samples = 0;
  send_wait_sum_us = 0;
  send_wait_samples = 0;
  queue_full = 0;
  send_failed = 0;
  stall_us = 0;
}

pub record CongestionTracker (F : Type 0) : Type 0 where
  pub factor : F
  pub last_update : Option ℕ
  pub last_drop : Option ℕ
  pub prev : CounterSnapshot
  pub delay_recent_us : ℕ
  pub send_wait_recent_us : ℕ

-- `a.wrapping_sub(b)` on `u64`.
unfoldable pub wrapping_sub : ℕ → ℕ → ℕ
wrapping_sub a b = (a + 2 ^ 64 - b) % 2 ^ 64

unfoldable pub mean_delta : ℕ → ℕ → ℕ → ℕ → ℕ
mean_delta sum prev_sum n prev_n =
    if wrapping_sub n prev_n == 0 then 0 else wrapping_sub sum prev_sum / wrapping_sub n prev_n

abbrev pub within : Option ℕ → ℕ → ℕ → Bool
within none now d = false
within (some t) now d = ltb (now - t) d

unfoldable pub delay_of : CounterSnapshot → CounterSnapshot → ℕ
delay_of prev cur =
    max (mean_delta cur.delay_sum_us prev.delay_sum_us cur.delay_samples prev.delay_samples)
      cur.stall_us

module _ {F : Type 0} ⦃f64 : Float F⦄ where
  -- `MIN_FACTOR` is 0.1.
  abbrev pub min_factor : F
  min_factor = f64.literal 1 1

  -- The anchors of a delay in microseconds and its factor.
  abbrev pub anchors : List (F × F)
  anchors =
      (f64.literal 1000 0, f64.literal 10 1)
      ∷ (f64.literal 5000 0, f64.literal 8 1)
      ∷ (f64.literal 20000 0, f64.literal 3 1)
      ∷ (f64.literal 60000 0, min_factor)
      ∷ (f64.max_value, min_factor)
      ∷ []

  unfoldable pub between : F → F × F → F × F → F
  between d a b =
      f64.add a.1 (f64.div (f64.mul (f64.sub b.1 a.1) (f64.sub d a.0)) (f64.sub b.0 a.0))

  -- The loop over the pairs of neighbours.
  unfoldable pub along : F → List (F × F) → F
  along d [] = min_factor
  along d (a ∷ []) = min_factor
  along d (a ∷ b ∷ rest) =
      let later = along d (b ∷ rest) in if f64.le d b.0 then between d a b else later

  unfoldable pub delay_target : ℕ → F
  delay_target delay_us =
      if f64.le (f64.of_u64 delay_us) (f64.literal 1000 0)
      then f64.one_value
      else along (f64.of_u64 delay_us) anchors

  -- `RECOVERY_PER_SEC` is 0.15.
  unfoldable pub next_factor : F → F → F → Bool → F
  next_factor current target dt_secs held =
      let goal = f64.clamp target min_factor f64.one_value in
      if f64.lt goal current
      then goal
      else if held
      then current
      else f64.minimum (f64.add current (f64.mul (f64.literal 15 2) dt_secs)) goal

  abbrev pub default_tracker : CongestionTracker F
  default_tracker = record {
    factor = f64.one_value;
    last_update = none;
    last_drop = none;
    prev = default_snapshot;
    delay_recent_us = 0;
    send_wait_recent_us = 0;
  }

  -- `QUEUE_FULL_CAP` is 0.3, `SEND_FAILED_CAP` 0.25.
  unfoldable pub target_of : CounterSnapshot → CounterSnapshot → F
  target_of prev cur =
      let by_delay = delay_target (delay_of prev cur) in
      let by_queue =
        if not (cur.queue_full == prev.queue_full)
        then f64.minimum by_delay (f64.literal 3 1)
        else by_delay in
      if not (cur.send_failed == prev.send_failed)
      then f64.minimum by_queue (f64.literal 25 2)
      else by_queue

  unfoldable pub fold_window : ℕ → ℕ → CounterSnapshot → CongestionTracker F → CongestionTracker F
  fold_window now dt cur t =
      let next =
        next_factor t.factor (target_of t.prev cur) (f64.as_secs dt)
          (within t.last_drop now hold_down) in
      record {
        factor = next;
        last_update = some now;
        last_drop = if f64.lt next t.factor then some now else t.last_drop;
        prev = cur;
        delay_recent_us = delay_of t.prev cur;
        send_wait_recent_us =
            mean_delta cur.send_wait_sum_us t.prev.send_wait_sum_us cur.send_wait_samples
              t.prev.send_wait_samples;
      }

  unfoldable pub update : ℕ → CounterSnapshot → CongestionTracker F → CongestionTracker F
  update now cur t = elim t.last_update [
    | none ↦ record t { prev = cur; last_update = some now }
    | some last ↦ if ltb (now - last) min_window then t else fold_window now (now - last) cur t
  ]
