-- ===== src/Common/Xor.antt =====
-- Laws of `^` on unsigned integers of any width, from the recursion on binary digits that the native
-- operation stands for.
use Prim.Native.Nat.{ℕ, zero, suc, ◌+◌, ◌*◌, ◌/◌, ◌%◌, ◌^◌, ◌≤◌, ◌<◌, digits, differ}
use Prim.Native.Nat.{bit_xor-bitwise}
use mathlib.Core.Path.{◌≡◌, refl, sym, ◌∙◌, ap}
use native.Mathlib.Nat.{pow-suc}
use native.Mathlib.Omega.{arith}
pub use Prim.Native.Nat.{bit_xor}

abbrev xor_digits : ℕ → ℕ → ℕ → ℕ
xor_digits n a b = digits (λ b. b) differ n a b

-- Any fuel from the left operand on gives the same digits.
xor_digits_fuel : (n m a b : ℕ) → a ≤ n → a ≤ m → xor_digits n a b ≡ xor_digits m a b
xor_digits_fuel zero zero a b p q = refl
xor_digits_fuel zero (suc m) zero b p q = refl
xor_digits_fuel zero (suc m) (suc a) b p q = absurd (omega arith)
xor_digits_fuel (suc n) zero zero b p q = refl
xor_digits_fuel (suc n) zero (suc a) b p q = absurd (omega arith)
xor_digits_fuel (suc n) (suc m) zero b p q = refl
xor_digits_fuel (suc n) (suc m) (suc a) b p q =
    rw (xor_digits_fuel n m (suc a / 2) (b / 2) (omega arith) (omega arith))

differ_parity : (x y : ℕ) → x < 2 → y < 2 → differ x y ≡ (x + y) % 2
differ_parity zero zero p q = refl
differ_parity zero (suc zero) p q = refl
differ_parity zero (suc (suc y)) p q = absurd (omega arith)
differ_parity (suc zero) zero p q = refl
differ_parity (suc zero) (suc zero) p q = refl
differ_parity (suc zero) (suc (suc y)) p q = absurd (omega arith)
differ_parity (suc (suc x)) y p q = absurd (omega arith)

pub zero-bit_xor : (b : ℕ) → bit_xor 0 b ≡ b
zero-bit_xor b = bit_xor-bitwise 0 b

-- The lowest digit and the rest.
pub bit_xor_step : (a b : ℕ) → bit_xor a b ≡ bit_xor (a / 2) (b / 2) * 2 + (a + b) % 2
bit_xor_step zero b = omega (arith, zero-bit_xor b, zero-bit_xor (b / 2))
bit_xor_step (suc a) b = omega (
  arith,
  bit_xor-bitwise (suc a) b,
  bit_xor-bitwise (suc a / 2) (b / 2),
  xor_digits_fuel a (suc a / 2) (suc a / 2) (b / 2) (omega arith) (omega arith),
  differ_parity (suc a % 2) (b % 2) (omega arith) (omega arith),
)

-- The laws go from the halves to the numbers; all are 0 in the end.
comm_of_halves :
    (a b : ℕ) → bit_xor (a / 2) (b / 2) ≡ bit_xor (b / 2) (a / 2) → bit_xor a b ≡ bit_xor b a
comm_of_halves a b h = omega (arith, bit_xor_step a b, bit_xor_step b a)

bit_xor_comm_below : (n a b : ℕ) → a + b ≤ n → bit_xor a b ≡ bit_xor b a
bit_xor_comm_below zero a b h =
    let ea : a ≡ 0 = omega arith in let eb : b ≡ 0 = omega arith in rw (ea, eb) refl
bit_xor_comm_below (suc n) zero zero h = refl
bit_xor_comm_below (suc n) zero (suc b) h =
    comm_of_halves zero (suc b) (bit_xor_comm_below n (zero / 2) (suc b / 2) (omega arith))
bit_xor_comm_below (suc n) (suc a) b h =
    comm_of_halves (suc a) b (bit_xor_comm_below n (suc a / 2) (b / 2) (omega arith))

pub bit_xor_comm : (a b : ℕ) → bit_xor a b ≡ bit_xor b a
bit_xor_comm a b = bit_xor_comm_below (a + b) a b (omega arith)

pub bit_xor-zero : (a : ℕ) → bit_xor a 0 ≡ a
bit_xor-zero a = bit_xor_comm a 0 ∙ zero-bit_xor a

half-bit_xor : (a b : ℕ) → bit_xor a b / 2 ≡ bit_xor (a / 2) (b / 2)
half-bit_xor a b = omega (arith, bit_xor_step a b)

parity-bit_xor : (a b : ℕ) → bit_xor a b % 2 ≡ (a + b) % 2
parity-bit_xor a b = omega (arith, bit_xor_step a b)

assoc_of_halves :
    (a b c : ℕ)
    → bit_xor (bit_xor (a / 2) (b / 2)) (c / 2) ≡ bit_xor (a / 2) (bit_xor (b / 2) (c / 2))
    → bit_xor (bit_xor a b) c ≡ bit_xor a (bit_xor b c)
assoc_of_halves a b c h = omega (
  arith,
  bit_xor_step (bit_xor a b) c,
  bit_xor_step a (bit_xor b c),
  ap (λ (t : ℕ). bit_xor t (c / 2)) (half-bit_xor a b),
  ap (λ (t : ℕ). bit_xor (a / 2) t) (half-bit_xor b c),
  parity-bit_xor a b,
  parity-bit_xor b c,
)

bit_xor_assoc_below :
    (n a b c : ℕ) → a + b + c ≤ n → bit_xor (bit_xor a b) c ≡ bit_xor a (bit_xor b c)
bit_xor_assoc_below n zero b c h = rw (zero-bit_xor b, zero-bit_xor (bit_xor b c)) refl
bit_xor_assoc_below zero (suc a) b c h = absurd (omega arith)
bit_xor_assoc_below (suc n) (suc a) b c h =
    assoc_of_halves (suc a) b c (bit_xor_assoc_below n (suc a / 2) (b / 2) (c / 2) (omega arith))

pub bit_xor_assoc : (a b c : ℕ) → bit_xor (bit_xor a b) c ≡ bit_xor a (bit_xor b c)
bit_xor_assoc a b c = bit_xor_assoc_below (a + b + c) a b c (omega arith)

bit_xor_self_below : (n a : ℕ) → a ≤ n → bit_xor a a ≡ 0
bit_xor_self_below n zero h = refl
bit_xor_self_below zero (suc a) h = absurd (omega arith)
bit_xor_self_below (suc n) (suc a) h =
    omega (arith, bit_xor_step (suc a) (suc a), bit_xor_self_below n (suc a / 2) (omega arith))

pub bit_xor_self : (a : ℕ) → bit_xor a a ≡ 0
bit_xor_self a = bit_xor_self_below a a (omega arith)

-- What is added twice is gone.
pub bit_xor_cancel : (a b : ℕ) → bit_xor a (bit_xor a b) ≡ b
bit_xor_cancel a b = sym (bit_xor_assoc a a b) ∙ rw (bit_xor_self a) (zero-bit_xor b)

pub eq_of_bit_xor-zero : (a b : ℕ) → bit_xor a b ≡ 0 → a ≡ b
eq_of_bit_xor-zero a b h = sym (bit_xor-zero a) ∙ sym (ap (bit_xor a) h) ∙ bit_xor_cancel a b

-- The result fits the width of the operands.
pub bit_xor-lt : (k a b : ℕ) → a < 2 ^ k → b < 2 ^ k → bit_xor a b < 2 ^ k
bit_xor-lt zero a b p q =
    let ea : a ≡ 0 = omega arith in let eb : b ≡ 0 = omega arith in rw (ea, eb) (omega arith)
bit_xor-lt (suc k) a b p q = omega (
  arith,
  pow-suc 2 k,
  bit_xor_step a b,
  bit_xor-lt k (a / 2) (b / 2) (omega (arith, pow-suc 2 k)) (omega (arith, pow-suc 2 k)),
)

-- Sums in which one part changes places with another.
pub bit_xor_left_comm : (a b c : ℕ) → bit_xor a (bit_xor b c) ≡ bit_xor b (bit_xor a c)
bit_xor_left_comm a b c =
    sym (bit_xor_assoc a b c) ∙ ap (λ t. bit_xor t c) (bit_xor_comm a b) ∙ bit_xor_assoc b a c
