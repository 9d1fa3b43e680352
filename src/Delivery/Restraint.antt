-- ===== src/Delivery/Restraint.antt =====
-- src/delivery.rs: a tracker in its hold-down does not recover before its end.
use mlvpn_rs.Common.{
  true, ℕ, ◌+◌, ◌%◌, ◌^◌, ◌<◌, List, arith, ◌≡◌, inl, inr, refl, sym, subst, ap, ◌∙◌, Bool, false,
  ◌&&◌, ◌||◌, Option, none, some, ltb, leb, lt→leb, Bool-cases,
}
use mlvpn_rs.Scheduler.Floats.{Float}
use mlvpn_rs.Delivery.Holds.{IsTracker}
use mlvpn_rs.Delivery.Factor.{bad_ratio, cut_factor-le}
use mlvpn_rs.Delivery.{
  hold_down, is_hold_down, DeliverySample, DeliveryTracker, reached, cut, count_window,
  evaluate_window, end_hold, is_fresh, take_sample, is_idle, recover, reset_hold, elapsed_secs,
  observe, is_bad, ratio_of,
}

module _ {F : Type 0} ⦃f64 : Float F⦄ where
  -- What may become of a tracker in its hold-down: it stays in it, with its factor and its end, or a fresh
  -- sample of a bad window cuts the factor again, which does not raise it, and the hold-down starts anew.
  pub data StaysDown (now : ℕ) (sample : Option (DeliverySample F)) (t : DeliveryTracker F)
      (u : DeliveryTracker F) : Type 0 where
    unchanged :
        u.phase ≡ hold_down
        → u.factor ≡ t.factor
        → u.hold_until ≡ t.hold_until
        → StaysDown now sample t u
    cut_again :
        (x : DeliverySample F)
        → sample ≡ some x
        → is_fresh now x t ≡ true
        → t.settle_left ≡ 0
        → is_bad x ≡ true
        → u.phase ≡ hold_down
        → f64.le u.factor t.factor ≡ true
        → u.hold_until ≡ some (now + t.hold)
        → StaysDown now sample t u

  StaysDown-phase :
      {now : ℕ} {sample : Option (DeliverySample F)} {t u : DeliveryTracker F}
      → StaysDown now sample t u
      → u.phase ≡ hold_down
  StaysDown-phase (unchanged p f e) = p
  StaysDown-phase (cut_again x is fresh settled bad p f e) = p

  module _ (now : ℕ) (t : DeliveryTracker F) (down : t.phase ≡ hold_down)
      (low : f64.le (f64.literal 1 3) t.factor ≡ true)
      (high : f64.le t.factor f64.one_value ≡ true) where
    evaluate_window-StaysDown :
        (x : DeliverySample F)
        → is_fresh now x t ≡ true
        → StaysDown now (some x) t (evaluate_window now x (record t { last_stamp = some x.stamp }))
    unfolding evaluate_window count_window cut
    evaluate_window-StaysDown x fresh = elim (Bool-cases (ltb 0 t.settle_left)) [
      | inl settling ↦ rw (evaluate_window, settling) (unchanged down refl refl)
      | inr settled ↦
          rw (evaluate_window, settled)
            (elim (Bool-cases (is_bad x)) [
              | inr clean ↦ rw clean (unchanged down refl refl)
              | inl bad ↦
                  let (r0, r1) = bad_ratio x bad in
                  rw bad
                    (elim (Bool-cases (
                      leb 2 ((t.bad_windows + 1) % 2 ^ 32)
                      || f64.lt (ratio_of x) (f64.literal 3 1))) [
                        | inl severe ↦ rw severe (
                            cut_again x refl fresh (ground arith) bad refl
                              (cut_factor-le t.factor (ratio_of x) low high r0 r1) (rw down refl))
                        | inr mild ↦ rw mild (unchanged down refl refl)
                      ])
            ])
    ]

    take_sample-StaysDown :
        (sample : Option (DeliverySample F)) → StaysDown now sample t (take_sample now sample t)
    unfolding take_sample
    take_sample-StaysDown none = unchanged down refl refl
    take_sample-StaysDown (some x) = elim (Bool-cases (is_fresh now x t)) [
      | inl fresh ↦ rw (take_sample, fresh) (evaluate_window-StaysDown x fresh)
      | inr old ↦ rw (take_sample, old) (unchanged down refl refl)
    ]

  idle_steps :
      (now : ℕ) (dt : F) (idle : Bool) (t : DeliveryTracker F)
      → t.phase ≡ hold_down
      → reset_hold now (recover now dt idle t) ≡ t
  unfolding reset_hold recover
  idle_steps now dt idle t down = simp (reset_hold, recover, down) refl

  -- Before the end of its hold-down a tracker that keeps its bounds does not recover, whatever is observed:
  -- it stays in the hold-down with the factor as it is, but for a fresh sample of a bad window after the
  -- ones that are skipped, which may lower the factor and never raises it, and starts the hold-down anew.
  pub observe-StaysDown :
      (times : List ℕ) (now : ℕ) (sample : Option (DeliverySample F)) (t : DeliveryTracker F)
      (until : ℕ)
      → IsTracker times t
      → t.phase ≡ hold_down
      → t.hold_until ≡ some until
      → now < until
      → StaysDown now sample t (observe now sample t)
  unfolding observe end_hold is_fresh
  observe-StaysDown times now sample t until c down ends early =
      let ticked = record t { last_tick = some now } in
      let dt : F = elapsed_secs now t.last_tick in
      let on : end_hold now ticked ≡ ticked =
        let waits : (is_hold_down t.phase && reached t.hold_until now) ≡ false =
          rw (down, ends) (lt→leb until now early) in
        rw (end_hold, waits) refl in
      let seen = take_sample-StaysDown now ticked down c.factor_low c.factor_high sample in
      let same =
        idle_steps now dt (is_idle sample) (take_sample now sample ticked) (StaysDown-phase seen) in
      let whole =
        ap (λ e. reset_hold now (recover now dt (is_idle sample) (take_sample now sample e))) on
        ∙ same in
      subst (StaysDown now sample t) (sym whole) (elim seen [
        | unchanged p f e ↦ unchanged p f e
        | cut_again x is fresh settled bad p f e ↦ cut_again x is fresh settled bad p f e
      ])
