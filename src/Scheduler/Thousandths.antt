-- ===== src/Scheduler/Thousandths.antt =====
-- Numbers in thousandths, a type with the operations and laws of Scheduler/Floats, for the tests.
use mlvpn_rs.Common.{
  ℕ, ◌+◌, ◌-◌, ◌*◌, ◌/◌, ◌^◌, ◌≡◌, refl, ◌≤◌, ◌⊎◌, inl, inr, true, false, arith, min, max, ltb, leb,
  leb→le, le→leb, Bool-cases,
}
use mlvpn_rs.Scheduler.Floats.{Float}

pub leb_total : (a b : ℕ) → (leb a b ≡ true) ⊎ (leb b a ≡ true)
leb_total a b = elim (Bool-cases (leb a b)) [
  | inl below ↦ inl below
  | inr above ↦ inr (ground arith)
]

pub leb_trans : (a b c : ℕ) → leb a b ≡ true → leb b c ≡ true → leb a c ≡ true
leb_trans a b c h k = let ab = leb→le a b h in let bc = leb→le b c k in le→leb a c (omega arith)

pub ltb_irrefl : (a : ℕ) → ltb a a ≡ false
ltb_irrefl a = ground arith

-- A product with a factor of at most one, or of at least one.
div_le : (p a : ℕ) → p ≤ a * 1000 → p / 1000 ≤ a
div_le p a h = omega arith

le_div : (p a : ℕ) → a * 1000 ≤ p → a ≤ p / 1000
le_div p a h = omega arith

pub times_le : (a x : ℕ) → leb x 1000 ≡ true → leb (a * x / 1000) a ≡ true
times_le a x h =
    let small = leb→le x 1000 h in
    let product : a * x ≤ a * 1000 = grind arith in
    le→leb (a * x / 1000) a (div_le (a * x) a product)

pub times_ge : (a x : ℕ) → leb 1000 x ≡ true → leb a (a * x / 1000) ≡ true
times_ge a x h =
    let large = leb→le 1000 x h in
    let product : a * 1000 ≤ a * x = grind arith in
    le→leb a (a * x / 1000) (le_div (a * x) a product)

pub ltb_trans : (a b c : ℕ) → ltb a b ≡ true → ltb b c ≡ true → ltb a c ≡ true
ltb_trans a b c h k = ground arith

pub ltb-leb : (a b : ℕ) → ltb a b ≡ true → leb a b ≡ true
ltb-leb a b h = ground arith

pub ltb-leb_trans : (a b c : ℕ) → ltb a b ≡ true → leb b c ≡ true → ltb a c ≡ true
ltb-leb_trans a b c h k = ground arith

pub leb_self_left : (a b : ℕ) → leb a b ≡ true → leb a a ≡ true
leb_self_left a b h = ground arith

pub leb_self_right : (a b : ℕ) → leb a b ≡ true → leb b b ≡ true
leb_self_right a b h = ground arith

pub not_ltb-leb : (a b : ℕ) → leb a a ≡ true → leb b b ≡ true → ltb a b ≡ false → leb b a ≡ true
not_ltb-leb a b h k n = ground arith

pub min-leb_left : (a b c : ℕ) → leb a c ≡ true → leb (min a b) c ≡ true
min-leb_left a b c h = ground arith

pub min-leb_right : (a b c : ℕ) → leb b c ≡ true → leb (min a b) c ≡ true
min-leb_right a b c h = ground arith

pub leb-min : (a b c : ℕ) → leb c a ≡ true → leb c b ≡ true → leb c (min a b) ≡ true
leb-min a b c h k = ground arith

pub clamp_leb :
    (x low high c : ℕ) → leb x c ≡ true → leb low c ≡ true → leb (min high (max low x)) c ≡ true
clamp_leb x low high c h k = ground arith

pub leb_clamp :
    (x low high : ℕ)
    → leb low high ≡ true
    → leb (min high (max low x)) (min high (max low x)) ≡ true
    → leb low (min high (max low x)) ≡ true
leb_clamp x low high h k = ground arith

pub leb_one_add : (x : ℕ) → leb 0 x ≡ true → leb 1000 (1000 + x) ≡ true
leb_one_add x h = ground arith

instance abbrev pub thousandths : Float ℕ
thousandths = record {
  zero_value = 0;
  one_value = 1000;
  max_value = 10 ^ 12;
  literal = λ n k. n * 1000 / 10 ^ k;
  add = λ a b. a + b;
  sub = λ a b. a - b;
  mul = λ a b. a * b / 1000;
  div = λ a b. a * 1000 / b;
  gt = λ a b. ltb b a;
  ge = λ a b. leb b a;
  lt = ltb;
  le = leb;
  minimum = min;
  abs = λ a. a;
  of_u64 = λ n. n * 1000;
  as_secs = λ ms. ms;
  maximum = max;
  clamp = λ a low high. min high (max low a);
  as_u64 = λ a. a / 1000;
  as_i64 = λ a. a / 1000;
  round_u32 = λ a. (a + 500) / 1000;
  total_le = leb;
  lt_irrefl = ltb_irrefl;
  lt_trans = ltb_trans;
  lt_le = ltb-leb;
  lt_of_lt_le = ltb-leb_trans;
  le_trans = leb_trans;
  le_self_left = leb_self_left;
  le_self_right = leb_self_right;
  not_lt_le = not_ltb-leb;
  minimum_le_left = min-leb_left;
  minimum_le_right = min-leb_right;
  minimum_ge = leb-min;
  clamp_le = clamp_leb;
  clamp_ge = leb_clamp;
  mul_le = λ a x ha a1 hx x1. times_le a x x1;
  mul_ge = λ a x ha a1 x1. times_ge a x x1;
  mul_nonneg = λ a x ha a1 hx. le→leb 0 (a * x / 1000) (omega arith);
  one_add = leb_one_add;
  as_secs_nonneg = λ d. le→leb 0 d (omega arith);
  zero_lt_thousandth = refl;
  thousandth_le_one = refl;
  zero_lt_growth = refl;
  growth_le_one = refl;
  zero_le_margin = refl;
  margin_le_one = refl;
  bad_le_one = refl;
  tenth_le_queue_cap = refl;
  tenth_le_failed_cap = refl;
  total_le_total = leb_total;
  total_le_trans = leb_trans;
}
