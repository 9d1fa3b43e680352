-- ===== src/Delivery/Holds.antt =====
-- src/delivery.rs: the bounds that the tracker of a link keeps.
use mlvpn_rs.Common.{
  ℕ, ◌+◌, ◌%◌, ◌^◌, ◌≤◌, ◌-◌, ◌≢◌, false, ==_refl, ◌≡◌, inl, inr, refl, sym, ap, ◌∙◌, List, ◌∷◌,
  Bool, true, ◌&&◌, ◌||◌, Option, none, some, arith, ltb, leb, ◌==◌, Bool-cases,
}
use mlvpn_rs.Scheduler.Floats.{Float}
use mlvpn_rs.Common.Maps.{contains}
use mlvpn_rs.Delivery.Factor.{
  elapsed_secs-nonneg, cut_factor-le, cut_factor-ge, bad_ratio, grown, grown-bounds,
}
use mlvpn_rs.Delivery.{
  settle_windows, hold_base, hold_max, clean_windows_to_grow, reset_after, Phase, normal,
  recovering, hold_down, is_hold_down, is_recovering, is_normal, DeliverySample, DeliveryTracker,
  reached, since_at_least, cut, cut_factor, count_window, evaluate_window, end_hold, is_fresh,
  take_sample, is_idle, grow, recover, reset_hold, elapsed_secs, observe, is_bad, ratio_of,
  default_tracker,
}

-- At most three windows are skipped after a cut, a hold-down lasts from 5 to 60 seconds, fewer than two bad
-- windows stand without a cut, the factor is between 0.001 and 1, and the end of a hold-down is one of the
-- times and the length of the hold-down later.
pub record IsTracker {F : Type 0} ⦃f64 : Float F⦄ (times : List ℕ) (t : DeliveryTracker F)
    : Type 0 where
  pub settles : t.settle_left ≤ settle_windows
  pub hold_long : hold_base ≤ t.hold
  pub hold_short : t.hold ≤ hold_max
  pub few_bad : t.bad_windows ≤ 1
  pub factor_low : f64.le (f64.literal 1 3) t.factor ≡ true
  pub factor_high : f64.le t.factor f64.one_value ≡ true
  pub hold_ends :
      t.phase ≡ hold_down
      → (cut_at : ℕ) × (contains times cut_at ≡ true) × (t.hold_until ≡ some (cut_at + t.hold))

module _ {F : Type 0} ⦃f64 : Float F⦄ where
  -- A tracker that differs in nothing that counts.
  retimed :
      (times later : List ℕ) (t u : DeliveryTracker F)
      → IsTracker times t
      → ((at : ℕ) → contains times at ≡ true → contains later at ≡ true)
      → u.settle_left ≤ t.settle_left
      → u.hold ≡ t.hold
      → u.bad_windows ≤ t.bad_windows
      → u.factor ≡ t.factor
      → (u.phase ≡ hold_down → (t.phase ≡ hold_down) × (u.hold_until ≡ t.hold_until))
      → IsTracker later u
  retimed times later t u c grow s h b f p =
      let settles = c.settles in
      let long = c.hold_long in
      let short = c.hold_short in
      let few = c.few_bad in
      record {
        settles = omega arith;
        hold_long = omega arith;
        hold_short = omega arith;
        few_bad = omega arith;
        factor_low = rw f c.factor_low;
        factor_high = rw f c.factor_high;
        hold_ends = λ down.
            let (was_down, ends) = p down in
            let (cut_at, known, e) = c.hold_ends was_down in
            (cut_at, grow cut_at known, ends ∙ e ∙ ap (λ d. some (cut_at + d)) (sym h));
      }

  cut-IsTracker :
      (times : List ℕ) (now : ℕ) (x : DeliverySample F) (t : DeliveryTracker F)
      → is_bad x ≡ true
      → contains times now ≡ true
      → hold_base ≤ t.hold
      → t.hold ≤ hold_max
      → f64.le (f64.literal 1 3) t.factor ≡ true
      → f64.le t.factor f64.one_value ≡ true
      → IsTracker times (cut now (ratio_of x) t)
  unfolding cut
  cut-IsTracker times now x t is known long short low high =
      let (r0, r1) = bad_ratio x is in
      let less = cut_factor-le t.factor (ratio_of x) low high r0 r1 in
      record {
        settles = omega arith;
        hold_long = ground arith;
        hold_short = ground arith;
        few_bad = omega arith;
        factor_low = cut_factor-ge t.factor (ratio_of x) less;
        factor_high =
            f64.le_trans (cut_factor t.factor (ratio_of x)) t.factor f64.one_value less high;
        hold_ends = λ e. (now, known, refl);
      }

  evaluate_window-IsTracker :
      (times : List ℕ) (now : ℕ) (x : DeliverySample F) (t : DeliveryTracker F)
      → contains times now ≡ true
      → IsTracker times t
      → IsTracker times (evaluate_window now x t)
  unfolding evaluate_window count_window
  evaluate_window-IsTracker times now x t known c =
      let few = c.few_bad in
      elim (Bool-cases (ltb 0 t.settle_left)) [
        | inl settling ↦
            rw (evaluate_window, settling)
              (retimed times times t (record t { settle_left = t.settle_left - 1 }) c (λ at h. h)
                (omega arith) refl (omega arith) refl (λ down. (down, refl)))
        | inr settled ↦
            rw (evaluate_window, settled)
              (elim (Bool-cases (is_bad x)) [
                | inr clean ↦ rw clean (
                    retimed times times t (count_window false t) c (λ at h. h) (omega arith) refl
                      (omega arith) refl (λ down. (down, refl)))
                | inl bad ↦
                    rw bad
                      (elim (Bool-cases (
                        leb 2 ((t.bad_windows + 1) % 2 ^ 32)
                        || f64.lt (ratio_of x) (f64.literal 3 1))) [
                          | inl severe ↦ rw severe (
                              cut-IsTracker times now x (count_window true t) bad known c.hold_long
                                c.hold_short c.factor_low c.factor_high)
                          | inr mild ↦ rw mild (record {
                            settles = c.settles;
                            hold_long = c.hold_long;
                            hold_short = c.hold_short;
                            few_bad = ground arith;
                            factor_low = c.factor_low;
                            factor_high = c.factor_high;
                            hold_ends = c.hold_ends;
                          })
                        ])
              ])
      ]

  end_hold-IsTracker :
      (times : List ℕ) (now : ℕ) (t : DeliveryTracker F)
      → IsTracker times t
      → IsTracker times (end_hold now t)
  unfolding end_hold
  end_hold-IsTracker times now t c =
      elim (Bool-cases (is_hold_down t.phase && reached t.hold_until now)) [
        | inl over ↦
            rw (end_hold, over)
              (retimed times times t (record t { phase = recovering }) c (λ at h. h) (omega arith)
                refl (omega arith) refl (λ e. cc))
        | inr on ↦ rw (end_hold, on) c
      ]

  take_sample-IsTracker :
      (times : List ℕ) (now : ℕ) (sample : Option (DeliverySample F)) (t : DeliveryTracker F)
      → contains times now ≡ true
      → IsTracker times t
      → IsTracker times (take_sample now sample t)
  unfolding take_sample
  take_sample-IsTracker times now none t known c =
      retimed times times t (record t { bad_windows = 0 }) c (λ at h. h) (omega arith) refl
        (omega arith) refl (λ down. (down, refl))
  take_sample-IsTracker times now (some x) t known c = elim (Bool-cases (is_fresh now x t)) [
    | inl fresh ↦
        let stamped = record t { last_stamp = some x.stamp } in
        rw (take_sample, fresh)
          (evaluate_window-IsTracker times now x stamped known (
            retimed times times t stamped c (λ at h. h) (omega arith) refl (omega arith) refl
              (λ down. (down, refl))))
    | inr old ↦ rw (take_sample, old) c
  ]

  recover-IsTracker :
      (times : List ℕ) (now : ℕ) (dt : F) (idle : Bool) (t : DeliveryTracker F)
      → f64.le f64.zero_value dt ≡ true
      → IsTracker times t
      → IsTracker times (recover now dt idle t)
  unfolding recover grow grown
  recover-IsTracker times now dt idle t later c =
      let bounds = grown-bounds t.factor dt c.factor_low c.factor_high later in
      elim (Bool-cases (
        is_recovering t.phase
        && (t.settle_left == 0 && (idle || leb clean_windows_to_grow t.clean_windows)))) [
          | inr stays ↦ rw (recover, stays) c
          | inl grows ↦
              rw (recover, grows)
                (elim (Bool-cases (f64.ge (grown t.factor dt) f64.one_value)) [
                  | inl full ↦ rw full (record {
                    settles = c.settles;
                    hold_long = c.hold_long;
                    hold_short = c.hold_short;
                    few_bad = c.few_bad;
                    factor_low = bounds.0;
                    factor_high = bounds.1;
                    hold_ends = λ e. cc;
                  })
                  | inr part ↦ rw part (record {
                    settles = c.settles;
                    hold_long = c.hold_long;
                    hold_short = c.hold_short;
                    few_bad = c.few_bad;
                    factor_low = bounds.0;
                    factor_high = bounds.1;
                    hold_ends = c.hold_ends;
                  })
                ])
        ]

  reset_hold-IsTracker :
      (times : List ℕ) (now : ℕ) (t : DeliveryTracker F)
      → IsTracker times t
      → IsTracker times (reset_hold now t)
  unfolding reset_hold
  reset_hold-IsTracker times now t c =
      elim (Bool-cases (is_normal t.phase && since_at_least t.healthy_since now reset_after)) [
        | inl healthy ↦
            rw (reset_hold, healthy)
              (record {
                settles = c.settles;
                hold_long = omega arith;
                hold_short = omega arith;
                few_bad = c.few_bad;
                factor_low = c.factor_low;
                factor_high = c.factor_high;
                hold_ends = λ down. absurd (normal-ne-hold_down t.phase (ground arith) down);
              })
        | inr not_yet ↦ rw (reset_hold, not_yet) c
      ]
    where
      normal-ne-hold_down : (p : Phase) → is_normal p ≡ true → p ≢ hold_down
      normal-ne-hold_down normal h e = cc
      normal-ne-hold_down hold_down h e = cc
      normal-ne-hold_down recovering h e = cc

  pub later-IsTracker :
      (times : List ℕ) (now : ℕ) (t : DeliveryTracker F)
      → IsTracker times t
      → IsTracker (now ∷ times) t
  unfolding contains
  later-IsTracker times now t c =
      retimed times (now ∷ times) t t c (λ at h. ground arith) (omega arith) refl (omega arith) refl
        (λ down. (down, refl))

  pub observe-IsTracker :
      (times : List ℕ) (now : ℕ) (sample : Option (DeliverySample F)) (t : DeliveryTracker F)
      → IsTracker times t
      → IsTracker (now ∷ times) (observe now sample t)
  unfolding observe contains
  observe-IsTracker times now sample t c =
      let known : contains (now ∷ times) now ≡ true = rw (==_refl now) refl in
      let ticked = record t { last_tick = some now } in
      let seen = take_sample now sample (end_hold now ticked) in
      let dt : F = elapsed_secs now t.last_tick in
      let ready : IsTracker (now ∷ times) ticked =
        retimed (now ∷ times) (now ∷ times) t ticked (later-IsTracker times now t c) (λ at h. h)
          (omega arith) refl (omega arith) refl (λ down. (down, refl)) in
      reset_hold-IsTracker (now ∷ times) now (recover now dt (is_idle sample) seen) (
        recover-IsTracker (now ∷ times) now dt (is_idle sample) seen
          (elapsed_secs-nonneg F now t.last_tick)
          (take_sample-IsTracker (now ∷ times) now sample (end_hold now ticked) known
            (end_hold-IsTracker (now ∷ times) now ticked ready)))

  pub default-IsTracker : (times : List ℕ) → IsTracker {F = F} times default_tracker
  default-IsTracker times = record {
    settles = omega arith;
    hold_long = omega arith;
    hold_short = omega arith;
    few_bad = omega arith;
    factor_low = f64.thousandth_le_one;
    factor_high = f64.le_self_right (f64.literal 1 3) f64.one_value f64.thousandth_le_one;
    hold_ends = λ e. cc;
  }
