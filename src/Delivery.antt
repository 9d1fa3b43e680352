-- ===== src/Delivery.antt =====
-- src/delivery.rs: what a link delivers of what it is offered, and the factor of its weight.
pub mod Factor
pub mod Holds
pub mod Restraint
mod Tests
use mlvpn_rs.Common.{
  ℕ, zero, suc, ◌+◌, ◌-◌, ◌*◌, ◌%◌, ◌^◌, Bool, true, false, not, ◌&&◌, ◌||◌, Option, none, some,
  min, ltb, leb, ◌==◌, if◌then◌else◌,
}
use mlvpn_rs.Scheduler.Floats.{Float}

abbrev pub settle_windows : ℕ
settle_windows = 3

-- Durations are in milliseconds.
abbrev pub hold_base : ℕ
hold_base = 5000

abbrev pub hold_max : ℕ
hold_max = 60000

abbrev pub clean_windows_to_grow : ℕ
clean_windows_to_grow = 2

abbrev pub stale_after : ℕ
stale_after = 3000

abbrev pub reset_after : ℕ
reset_after = 60000

abbrev pub min_window : ℕ
min_window = 200

pub data Phase : Type 0 where
  normal : Phase
  hold_down : Phase
  recovering : Phase

abbrev pub is_hold_down : Phase → Bool
is_hold_down hold_down = true
is_hold_down _ = false

abbrev pub is_recovering : Phase → Bool
is_recovering recovering = true
is_recovering _ = false

abbrev pub is_normal : Phase → Bool
is_normal normal = true
is_normal _ = false

pub record DeliverySample (F : Type 0) : Type 0 where
  pub offered_mbps : F
  pub delivered_mbps : F
  pub stamp : ℕ

pub record Report : Type 0 where
  pub stamp : ℕ
  pub peer_rx_bytes : ℕ
  pub local_tx_bytes : ℕ

pub record ReportWindow (F : Type 0) : Type 0 where
  pub prev : Option Report
  pub last : Option (DeliverySample F)

pub record DeliveryTracker (F : Type 0) : Type 0 where
  pub factor : F
  pub phase : Phase
  pub last_stamp : Option ℕ
  pub last_tick : Option ℕ
  pub bad_windows : ℕ
  pub clean_windows : ℕ
  pub settle_left : ℕ
  pub hold_until : Option ℕ
  pub hold : ℕ
  pub healthy_since : Option ℕ

abbrev pub is_stamp : Option ℕ → ℕ → Bool
is_stamp none stamp = false
is_stamp (some last) stamp = last == stamp

abbrev pub reached : Option ℕ → ℕ → Bool
reached none now = true
reached (some until) now = leb until now

abbrev pub since_at_least : Option ℕ → ℕ → ℕ → Bool
since_at_least none now d = false
since_at_least (some t) now d = leb d (now - t)

-- A counter that went back, or reports too close together or too far apart, make no window.
unfoldable pub is_unusable : Report → Report → Bool
is_unusable prev r =
    ltb r.peer_rx_bytes prev.peer_rx_bytes
    || (ltb r.local_tx_bytes prev.local_tx_bytes
        || (ltb (r.stamp - prev.stamp) min_window || ltb stale_after (r.stamp - prev.stamp)))

module _ {F : Type 0} ⦃f64 : Float F⦄ where
  abbrev pub reset : ReportWindow F
  reset = record { prev = none; last = none }

  -- The megabits per second of so many bytes in `dt`.
  unfoldable pub mbps_over : ℕ → ℕ → F
  mbps_over dt bytes =
      f64.div (f64.div (f64.mul (f64.of_u64 bytes) (f64.literal 8 0)) (f64.as_secs dt))
        (f64.literal 1000000 0)

  unfoldable pub observe_report :
      Report → ReportWindow F → ReportWindow F × Option (DeliverySample F)
  observe_report r w = elim w.prev [
    | none ↦ (record w { prev = some r }, none)
    | some prev ↦
        let dt = r.stamp - prev.stamp in
        let sample : DeliverySample F = record {
          offered_mbps = mbps_over dt (r.local_tx_bytes - prev.local_tx_bytes);
          delivered_mbps = mbps_over dt (r.peer_rx_bytes - prev.peer_rx_bytes);
          stamp = r.stamp;
        } in
        if prev.stamp == r.stamp
        then (w, w.last)
        else if is_unusable prev r
        then (record { prev = some r; last = none }, none)
        else (record { prev = some r; last = some sample }, some sample)
  ]

  abbrev pub default_tracker : DeliveryTracker F
  default_tracker = record {
    factor = f64.one_value;
    phase = normal;
    last_stamp = none;
    last_tick = none;
    bad_windows = 0;
    clean_windows = 0;
    settle_left = 0;
    hold_until = none;
    hold = hold_base;
    healthy_since = none;
  }

  -- `MIN_OFFERED_MBPS` is 0.25, `BAD_RATIO` 0.85, `MIN_SHORTFALL_MBPS` 0.1, `SEVERE_RATIO` 0.3,
  -- `CUT_MARGIN` 0.9, `MIN_FACTOR` 0.001 and `RECOVER_PER_SEC` 0.10.
  unfoldable pub is_loaded : DeliverySample F → Bool
  is_loaded x = f64.ge x.offered_mbps (f64.literal 25 2)

  unfoldable pub ratio_of : DeliverySample F → F
  ratio_of x =
      if is_loaded x
      then f64.clamp (f64.div x.delivered_mbps x.offered_mbps) f64.zero_value f64.one_value
      else f64.one_value

  unfoldable pub is_bad : DeliverySample F → Bool
  is_bad x =
      is_loaded x
      && (f64.lt (ratio_of x) (f64.literal 85 2)
          && f64.ge (f64.sub x.offered_mbps x.delivered_mbps) (f64.literal 1 1))

  unfoldable pub cut_factor : F → F → F
  cut_factor factor ratio =
      f64.clamp (f64.mul (f64.mul factor ratio) (f64.literal 9 1)) (f64.literal 1 3) f64.one_value

  unfoldable pub cut : ℕ → F → DeliveryTracker F → DeliveryTracker F
  cut now ratio t =
      let held = if is_recovering t.phase then min (t.hold * 2) hold_max else t.hold in
      record t {
        hold = held;
        factor = cut_factor t.factor ratio;
        phase = hold_down;
        hold_until = some (now + held);
        settle_left = settle_windows;
        bad_windows = 0;
        clean_windows = 0;
        healthy_since = none;
      }

  -- The count of the window, bad or clean.
  unfoldable pub count_window : Bool → DeliveryTracker F → DeliveryTracker F
  count_window bad t =
      if bad
      then record t { bad_windows = (t.bad_windows + 1) % 2 ^ 32; clean_windows = 0 }
      else record t { bad_windows = 0; clean_windows = (t.clean_windows + 1) % 2 ^ 32 }

  unfoldable pub evaluate_window : ℕ → DeliverySample F → DeliveryTracker F → DeliveryTracker F
  evaluate_window now x t =
      let counted = count_window (is_bad x) t in
      if ltb 0 t.settle_left
      then record t { settle_left = t.settle_left - 1 }
      else if is_bad x && (leb 2 counted.bad_windows || f64.lt (ratio_of x) (f64.literal 3 1))
      then cut now (ratio_of x) counted
      else counted

  unfoldable pub end_hold : ℕ → DeliveryTracker F → DeliveryTracker F
  end_hold now t =
      if is_hold_down t.phase && reached t.hold_until now
      then record t { phase = recovering }
      else t

  unfoldable pub is_fresh : ℕ → DeliverySample F → DeliveryTracker F → Bool
  is_fresh now x t = not (is_stamp t.last_stamp x.stamp) && ltb (now - x.stamp) stale_after

  unfoldable pub take_sample : ℕ → Option (DeliverySample F) → DeliveryTracker F → DeliveryTracker F
  take_sample now none t = record t { bad_windows = 0 }
  take_sample now (some x) t =
      if is_fresh now x t then evaluate_window now x (record t { last_stamp = some x.stamp }) else t

  abbrev pub is_idle : Option (DeliverySample F) → Bool
  is_idle none = true
  is_idle (some x) = false

  unfoldable pub grow : ℕ → F → DeliveryTracker F → DeliveryTracker F
  grow now dt t =
      let factor =
        f64.minimum (f64.mul t.factor (f64.add f64.one_value (f64.mul (f64.literal 10 2) dt)))
          f64.one_value in
      if f64.ge factor f64.one_value
      then record t { factor = factor; phase = normal; healthy_since = some now }
      else record t { factor = factor }

  unfoldable pub recover : ℕ → F → Bool → DeliveryTracker F → DeliveryTracker F
  recover now dt idle t =
      if is_recovering t.phase
        && (t.settle_left == 0 && (idle || leb clean_windows_to_grow t.clean_windows))
      then grow now dt t
      else t

  unfoldable pub reset_hold : ℕ → DeliveryTracker F → DeliveryTracker F
  reset_hold now t =
      if is_normal t.phase && since_at_least t.healthy_since now reset_after
      then record t { hold = hold_base }
      else t

  unfoldable pub elapsed_secs : ℕ → Option ℕ → F
  elapsed_secs now none = f64.zero_value
  elapsed_secs now (some t) = f64.as_secs (now - t)

  unfoldable pub observe : ℕ → Option (DeliverySample F) → DeliveryTracker F → DeliveryTracker F
  observe now sample t =
      let dt = elapsed_secs now t.last_tick in
      reset_hold now (
        recover now dt (is_idle sample)
          (take_sample now sample (end_hold now (record t { last_tick = some now }))))
