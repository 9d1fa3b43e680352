-- ===== src/Delivery/Factor.antt =====
-- src/delivery.rs: the factor of a link through a cut and through the recovery.
use mlvpn_rs.Common.{ℕ, ◌-◌, ◌≡◌, refl, sym, subst, true, Option, none, some, arith}
use mlvpn_rs.Scheduler.Floats.{Float}
use mlvpn_rs.Delivery.{DeliverySample, cut_factor, is_loaded, elapsed_secs, is_bad, ratio_of}

pub elapsed_secs-nonneg :
    (F : Type 0) ⦃f64 : Float F⦄ (now : ℕ) (last : Option ℕ)
    → f64.le f64.zero_value (elapsed_secs {F = F} now last) ≡ true
unfolding elapsed_secs
elapsed_secs-nonneg F ⦃f64⦄ now none =
    f64.le_self_left f64.zero_value (f64.literal 1 3)
      (f64.lt_le f64.zero_value (f64.literal 1 3) f64.zero_lt_thousandth)
elapsed_secs-nonneg F ⦃f64⦄ now (some t) = f64.as_secs_nonneg (now - t)

module _ {F : Type 0} ⦃f64 : Float F⦄ where
  factor_positive :
      (factor : F) → f64.le (f64.literal 1 3) factor ≡ true → f64.lt f64.zero_value factor ≡ true
  factor_positive factor low =
      f64.lt_of_lt_le f64.zero_value (f64.literal 1 3) factor f64.zero_lt_thousandth low

  -- A cut never raises the factor, and leaves it at 0.001 at least.
  pub cut_factor-le :
      (factor ratio : F)
      → f64.le (f64.literal 1 3) factor ≡ true
      → f64.le factor f64.one_value ≡ true
      → f64.le f64.zero_value ratio ≡ true
      → f64.le ratio f64.one_value ≡ true
      → f64.le (cut_factor factor ratio) factor ≡ true
  unfolding cut_factor
  cut_factor-le factor ratio low high r0 r1 =
      let pos = factor_positive factor low in
      let part = f64.mul factor ratio in
      let part_le = f64.mul_le factor ratio (f64.lt_le f64.zero_value factor pos) high r0 r1 in
      let part_low = f64.mul_nonneg factor ratio pos high r0 in
      let part_high = f64.le_trans part factor f64.one_value part_le high in
      let less =
        f64.mul_le part (f64.literal 9 1) part_low part_high f64.zero_le_margin f64.margin_le_one in
      f64.clamp_le (f64.mul part (f64.literal 9 1)) (f64.literal 1 3) f64.one_value factor
        (f64.le_trans (f64.mul part (f64.literal 9 1)) part factor less part_le) low

  pub cut_factor-ge :
      (factor ratio : F)
      → f64.le (cut_factor factor ratio) factor ≡ true
      → f64.le (f64.literal 1 3) (cut_factor factor ratio) ≡ true
  unfolding cut_factor
  cut_factor-ge factor ratio below =
      f64.clamp_ge (f64.mul (f64.mul factor ratio) (f64.literal 9 1)) (f64.literal 1 3)
        f64.one_value f64.thousandth_le_one
        (f64.le_self_left (cut_factor factor ratio) factor below)

  -- The ratio of a bad window is between 0 and 1.
  pub bad_ratio :
      (x : DeliverySample F)
      → is_bad x ≡ true
      → (f64.le f64.zero_value (ratio_of x) ≡ true) × (f64.le (ratio_of x) f64.one_value ≡ true)
  unfolding is_bad ratio_of
  bad_ratio x bad =
      let loaded : is_loaded x ≡ true = ground arith in
      let under : f64.lt (ratio_of x) (f64.literal 85 2) ≡ true = ground arith in
      let below = f64.lt_le (ratio_of x) (f64.literal 85 2) under in
      let clamped : ratio_of x
          ≡ f64.clamp (f64.div x.delivered_mbps x.offered_mbps) f64.zero_value f64.one_value =
        rw (ratio_of, loaded) refl in
      (
        subst (λ r. f64.le f64.zero_value r ≡ true) (sym clamped)
            (f64.clamp_ge (f64.div x.delivered_mbps x.offered_mbps) f64.zero_value f64.one_value
              (f64.le_trans f64.zero_value (f64.literal 1 3) f64.one_value
                (f64.lt_le f64.zero_value (f64.literal 1 3) f64.zero_lt_thousandth)
                f64.thousandth_le_one)
              (subst (λ r. f64.le r r ≡ true) clamped
                (f64.le_self_left (ratio_of x) (f64.literal 85 2) below))),
        f64.le_trans (ratio_of x) (f64.literal 85 2) f64.one_value below f64.bad_le_one,
      )

  -- The factor grows by a tenth for each second, to 1 at most.
  unfoldable pub grown : F → F → F
  grown factor dt =
      f64.minimum (f64.mul factor (f64.add f64.one_value (f64.mul (f64.literal 10 2) dt)))
        f64.one_value

  pub grown-bounds :
      (factor dt : F)
      → f64.le (f64.literal 1 3) factor ≡ true
      → f64.le factor f64.one_value ≡ true
      → f64.le f64.zero_value dt ≡ true
      → (f64.le (f64.literal 1 3) (grown factor dt) ≡ true)
        × (f64.le (grown factor dt) f64.one_value ≡ true)
  unfolding grown
  grown-bounds factor dt low high later =
      let rate = f64.mul (f64.literal 10 2) dt in
      let times = f64.add f64.one_value rate in
      let pos = factor_positive factor low in
      let rate_low =
        f64.mul_nonneg (f64.literal 10 2) dt f64.zero_lt_growth f64.growth_le_one later in
      let more = f64.mul_ge factor times pos high (f64.one_add rate rate_low) in
      (
        f64.minimum_ge (f64.mul factor times) f64.one_value (f64.literal 1 3)
            (f64.le_trans (f64.literal 1 3) factor (f64.mul factor times) low more)
            f64.thousandth_le_one,
        f64.minimum_le_right (f64.mul factor times) f64.one_value f64.one_value
            (f64.le_self_right factor f64.one_value high),
      )
