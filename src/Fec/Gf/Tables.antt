-- ===== src/Fec/Gf/Tables.antt =====
-- What the tables hold, checked entry by entry.
use mlvpn_rs.Common.{
  ℕ, zero, suc, ◌+◌, ◌-◌, ◌<◌, ◌≡◌, refl, Bool, true, List, ◌==◌, ◌&&◌, ltb, get_or, arith, ==→eq,
  ltb→lt, subst,
}
use mlvpn_rs.Common.Xor.{bit_xor}
use mlvpn_rs.Fec.Gf.{next_power, build_tables, exp_at, log_at}

all_below : ℕ → (ℕ → Bool) → Bool
all_below zero p = true
all_below (suc n) p = p n && all_below n p

all_below→ : (n : ℕ) (p : ℕ → Bool) (i : ℕ) → all_below n p ≡ true → i < n → p i ≡ true
unfolding all_below
all_below→ zero p i h lt = absurd (omega arith)
all_below→ (suc n) p i h lt = ground (arith, all_below→ n p i)

-- The checks, on any pair of tables.
powers_step : List ℕ → Bool
powers_step exp = all_below 511 (λ i. get_or exp (i + 1) 0 == next_power (get_or exp i 0))

log_of_exp : List ℕ × List ℕ → Bool
log_of_exp t = all_below 255 (λ i. get_or t.1 (get_or t.0 i 0) 0 == i)

exp_of_log : List ℕ × List ℕ → Bool
exp_of_log t =
    all_below 255
      (λ a. (get_or t.0 (get_or t.1 (a + 1) 0) 0 == (a + 1)) && ltb (get_or t.1 (a + 1) 0) 255)

exp_range : List ℕ → Bool
exp_range exp = all_below 512 (λ i. ltb 0 (get_or exp i 0) && ltb (get_or exp i 0) 256)

powers_step_table : powers_step build_tables.0 ≡ true
unfolding powers_step all_below next_power build_tables
powers_step_table = refl

log_of_exp_table : log_of_exp build_tables ≡ true
unfolding log_of_exp all_below build_tables
log_of_exp_table = refl

exp_of_log_table : exp_of_log build_tables ≡ true
unfolding exp_of_log all_below build_tables
exp_of_log_table = refl

exp_range_table : exp_range build_tables.0 ≡ true
unfolding exp_range all_below build_tables
exp_range_table = refl

linear_table :
    all_below 256
      (λ a. all_below 256 (λ b. next_power (bit_xor a b) == bit_xor (next_power a) (next_power b)))
    ≡ true
unfolding all_below next_power
linear_table = refl

wraps : List ℕ → Bool
wraps exp = all_below 255 (λ i. get_or exp (i + 255) 0 == get_or exp i 0)

wraps_table : wraps build_tables.0 ≡ true
unfolding wraps all_below build_tables
wraps_table = refl

next_power_range : all_below 256 (λ a. ltb (next_power a) 256) ≡ true
unfolding all_below next_power
next_power_range = refl

-- Each entry of `exp` is the one before it times the generator.
pub exp_at-suc : (i : ℕ) → i < 511 → exp_at (i + 1) ≡ next_power (exp_at i)
unfolding exp_at powers_step
exp_at-suc i h =
    ==→eq (exp_at (i + 1)) (next_power (exp_at i)) (all_below→ 511 _ i powers_step_table h)

pub exp_at-zero : exp_at 0 ≡ 1
unfolding exp_at build_tables
exp_at-zero = refl

pub log_at-exp_at : (i : ℕ) → i < 255 → log_at (exp_at i) ≡ i
unfolding exp_at log_at log_of_exp
log_at-exp_at i h = ==→eq (log_at (exp_at i)) i (all_below→ 255 _ i log_of_exp_table h)

both : (a b : Bool) → (a && b) ≡ true → (a ≡ true) × (b ≡ true)
both a b h = ground arith

pub exp_at-range : (i : ℕ) → i < 512 → (0 < exp_at i) × (exp_at i < 256)
unfolding exp_at exp_range
exp_at-range i h =
    let (lo, hi) =
      both _ _ (all_below→ 512 (λ i. ltb 0 (exp_at i) && ltb (exp_at i) 256) i exp_range_table h) in
    (ltb→lt 0 (exp_at i) lo, ltb→lt (exp_at i) 256 hi)

exp_at-log_at_suc : (a : ℕ) → a < 255 → (exp_at (log_at (a + 1)) ≡ a + 1) × (log_at (a + 1) < 255)
unfolding exp_at log_at exp_of_log
exp_at-log_at_suc a h =
    let (e, l) = both _ _ (
      all_below→ 255 (λ a. (exp_at (log_at (a + 1)) == (a + 1)) && ltb (log_at (a + 1)) 255) a
        exp_of_log_table h) in
    (==→eq (exp_at (log_at (a + 1))) (a + 1) e, ltb→lt (log_at (a + 1)) 255 l)

pub exp_at-log_at : (a : ℕ) → 0 < a → a < 256 → (exp_at (log_at a) ≡ a) × (log_at a < 255)
exp_at-log_at a pos h =
    let e : a - 1 + 1 ≡ a = omega arith in
    subst (λ a. (exp_at (log_at a) ≡ a) × (log_at a < 255)) e
      (exp_at-log_at_suc (a - 1) (omega arith))

pub exp_at-wrap : (i : ℕ) → i < 255 → exp_at (i + 255) ≡ exp_at i
unfolding exp_at wraps
exp_at-wrap i h = ==→eq (exp_at (i + 255)) (exp_at i) (all_below→ 255 _ i wraps_table h)

pub next_power-lt : (a : ℕ) → a < 256 → next_power a < 256
next_power-lt a h = ltb→lt (next_power a) 256 (all_below→ 256 _ a next_power_range h)

-- Multiplication by the generator is additive.
pub next_power-bit_xor :
    (a b : ℕ) → a < 256 → b < 256 → next_power (bit_xor a b) ≡ bit_xor (next_power a) (next_power b)
next_power-bit_xor a b ha hb =
    ==→eq (next_power (bit_xor a b)) (bit_xor (next_power a) (next_power b))
      (all_below→ 256 _ b (all_below→ 256 _ a linear_table ha) hb)
