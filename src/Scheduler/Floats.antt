-- ===== src/Scheduler/Floats.antt =====
-- What the scheduler and its trackers use of `f64`, and the scheduler of the trackers that it holds a list
-- of, as interfaces: operations, and laws that floating-point numbers have, NaN and rounding included.
use mlvpn_rs.Common.{ℕ, ◌≡◌, ◌⊎◌, Bool, true, false}

pub record Float (F : Type 0) : Type 0 where
  pub zero_value : F
  pub one_value : F
  pub max_value : F
  -- The literal of the digits `n` with `k` of them behind the point.
  pub literal : ℕ → ℕ → F
  pub add : F → F → F
  pub sub : F → F → F
  pub mul : F → F → F
  pub div : F → F → F
  pub gt : F → F → Bool
  pub ge : F → F → Bool
  pub lt : F → F → Bool
  pub le : F → F → Bool
  pub minimum : F → F → F
  pub abs : F → F
  pub maximum : F → F → F
  pub clamp : F → F → F → F
  -- `n as f64`, and a duration in milliseconds as seconds.
  pub of_u64 : ℕ → F
  pub as_secs : ℕ → F
  -- `x as u64`, and `x as i64` counted from the least `i64`.
  pub as_u64 : F → ℕ
  pub as_i64 : F → ℕ
  -- `x.round() as u32`
  pub round_u32 : F → ℕ
  -- `a.total_cmp(b)` is not `Greater`.
  pub total_le : F → F → Bool
  -- No number is below itself.
  pub lt_irrefl : (a : F) → lt a a ≡ false
  pub lt_trans : (a b c : F) → lt a b ≡ true → lt b c ≡ true → lt a c ≡ true
  pub lt_le : (a b : F) → lt a b ≡ true → le a b ≡ true
  pub lt_of_lt_le : (a b c : F) → lt a b ≡ true → le b c ≡ true → lt a c ≡ true
  pub le_trans : (a b c : F) → le a b ≡ true → le b c ≡ true → le a c ≡ true
  -- What compares is a number, and only NaN is not at most itself.
  pub le_self_left : (a b : F) → le a b ≡ true → le a a ≡ true
  pub le_self_right : (a b : F) → le a b ≡ true → le b b ≡ true
  pub not_lt_le : (a b : F) → le a a ≡ true → le b b ≡ true → lt a b ≡ false → le b a ≡ true
  -- `a.min(b)`, of which one may be NaN, and `x.clamp(low, high)`, which is NaN only for NaN.
  pub minimum_le_left : (a b c : F) → le a c ≡ true → le (minimum a b) c ≡ true
  pub minimum_le_right : (a b c : F) → le b c ≡ true → le (minimum a b) c ≡ true
  pub minimum_ge : (a b c : F) → le c a ≡ true → le c b ≡ true → le c (minimum a b) ≡ true
  pub clamp_le :
      (x low high c : F) → le x c ≡ true → le low c ≡ true → le (clamp x low high) c ≡ true
  pub clamp_ge :
      (x low high : F)
      → le low high ≡ true
      → le (clamp x low high) (clamp x low high) ≡ true
      → le low (clamp x low high) ≡ true
  -- Rounding keeps the order of what is rounded.
  pub mul_le :
      (a x : F)
      → le zero_value a ≡ true
      → le a one_value ≡ true
      → le zero_value x ≡ true
      → le x one_value ≡ true
      → le (mul a x) a ≡ true
  pub mul_ge :
      (a x : F)
      → lt zero_value a ≡ true
      → le a one_value ≡ true
      → le one_value x ≡ true
      → le a (mul a x) ≡ true
  pub mul_nonneg :
      (a x : F)
      → lt zero_value a ≡ true
      → le a one_value ≡ true
      → le zero_value x ≡ true
      → le zero_value (mul a x) ≡ true
  pub one_add : (x : F) → le zero_value x ≡ true → le one_value (add one_value x) ≡ true
  pub as_secs_nonneg : (d : ℕ) → le zero_value (as_secs d) ≡ true
  -- The order of the literals that the code has.
  pub zero_lt_thousandth : lt zero_value (literal 1 3) ≡ true
  pub thousandth_le_one : le (literal 1 3) one_value ≡ true
  pub zero_lt_growth : lt zero_value (literal 10 2) ≡ true
  pub growth_le_one : le (literal 10 2) one_value ≡ true
  pub zero_le_margin : le zero_value (literal 9 1) ≡ true
  pub margin_le_one : le (literal 9 1) one_value ≡ true
  pub bad_le_one : le (literal 85 2) one_value ≡ true
  pub tenth_le_queue_cap : le (literal 1 1) (literal 3 1) ≡ true
  pub tenth_le_failed_cap : le (literal 1 1) (literal 25 2) ≡ true
  pub total_le_total : (a b : F) → (total_le a b ≡ true) ⊎ (total_le b a ≡ true)
  pub total_le_trans : (a b c : F) → total_le a b ≡ true → total_le b c ≡ true → total_le a c ≡ true

-- A tracker of a link, fed with samples at given times.
pub record Tracker (F T Sample : Type 0) : Type 0 where
  pub default : T
  pub factor : T → F
  pub observe : ℕ → Sample → T → T
