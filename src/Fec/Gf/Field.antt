-- ===== src/Fec/Gf/Field.antt =====
-- The laws of the field, and that the table of products holds them.
use mlvpn_rs.Common.{
  ℕ, zero, suc, ◌+◌, ◌-◌, ◌%◌, ◌<◌, ◌≡◌, refl, sym, ap, ◌∙◌, arith, ne→==, ◌⊎◌, inl, inr,
}
use native.Mathlib.Decide.{dec_lt}
use mlvpn_rs.Common.Xor.{bit_xor, bit_xor-zero, bit_xor-lt}
use mlvpn_rs.Fec.Gf.{next_power, exp_at, log_at, mul_slow, mul, pow2, inv}
use mlvpn_rs.Fec.Gf.Tables.{
  exp_at-suc, exp_at-zero, log_at-exp_at, exp_at-range, exp_at-log_at, exp_at-wrap, next_power-lt,
  next_power-bit_xor,
}

-- `b` times the `i`-th power of the generator.
times : ℕ → ℕ → ℕ
times zero b = b
times (suc i) b = next_power (times i b)

times-lt : (i b : ℕ) → b < 256 → times i b < 256
unfolding times
times-lt zero b h = h
times-lt (suc i) b h = next_power-lt (times i b) (times-lt i b h)

times-bit_xor :
    (i a b : ℕ) → a < 256 → b < 256 → times i (bit_xor a b) ≡ bit_xor (times i a) (times i b)
unfolding times
times-bit_xor zero a b ha hb = refl
times-bit_xor (suc i) a b ha hb =
    rw (times-bit_xor i a b ha hb)
      (next_power-bit_xor (times i a) (times i b) (times-lt i a ha) (times-lt i b hb))

times-add : (i j b : ℕ) → times i (times j b) ≡ times (i + j) b
unfolding times
times-add zero j b = ap (λ k. times k b) (omega arith)
times-add (suc i) j b =
    ap next_power (times-add i j b)
    ∙ ap (λ k. times k b) (let e : suc (i + j) ≡ suc i + j = omega arith in e)

exp_at-add : (i j : ℕ) → i + j < 512 → exp_at (i + j) ≡ times i (exp_at j)
unfolding times
exp_at-add zero j h = ap exp_at (omega arith)
exp_at-add (suc i) j h =
    let e : suc i + j ≡ i + j + 1 = omega arith in
    ap exp_at e ∙ exp_at-suc (i + j) (omega arith) ∙ ap next_power (exp_at-add i j (omega arith))

times-zero : (i : ℕ) → times i 0 ≡ 0
unfolding times
times-zero zero = refl
times-zero (suc i) = ap next_power (times-zero i) ∙ unfold next_power in refl

times_round : (b : ℕ) → b < 256 → times 255 b ≡ b
times_round b h = elim (dec_lt 0 b) [
  | yes pos ↦
      let (e, l) = exp_at-log_at b pos h in
      ap (times 255) (sym e)
      ∙ sym (exp_at-add 255 (log_at b) (omega arith))
      ∙ ap exp_at (let c : 255 + log_at b ≡ log_at b + 255 = omega arith in c)
      ∙ exp_at-wrap (log_at b) l
      ∙ e
  | no none ↦ let z : b ≡ 0 = omega arith in rw z (times-zero 255)
]

pub zero-mul : (b : ℕ) → mul 0 b ≡ 0
unfolding mul mul_slow
zero-mul b = refl

pub mul-zero : (a : ℕ) → mul a 0 ≡ 0
unfolding mul mul_slow
mul-zero a = ground arith

mul_exp : (a b : ℕ) → 0 < a → 0 < b → mul a b ≡ exp_at (log_at a + log_at b)
unfolding mul mul_slow
mul_exp a b ha hb = rw (ne→== a 0 (omega arith), ne→== b 0 (omega arith))

-- The product of a non-zero element is a power of the generator applied to the other factor.
mul-times : (a b : ℕ) → 0 < a → a < 256 → b < 256 → mul a b ≡ times (log_at a) b
mul-times a b pos ha hb = elim (dec_lt 0 b) [
  | yes hpos ↦
      let (e, l) = exp_at-log_at b hpos hb in
      let (_, k) = exp_at-log_at a pos ha in
      mul_exp a b pos hpos
      ∙ exp_at-add (log_at a) (log_at b) (omega arith)
      ∙ ap (times (log_at a)) e
  | no none ↦ let z : b ≡ 0 = omega arith in rw z (mul-zero a ∙ sym (times-zero (log_at a)))
]

pub mul-lt : (a b : ℕ) → a < 256 → b < 256 → mul a b < 256
mul-lt a b ha hb = elim (dec_lt 0 a) [
  | yes pos ↦ rw (mul-times a b pos ha hb) (times-lt (log_at a) b hb)
  | no none ↦ let z : a ≡ 0 = omega arith in rw (z, zero-mul b) (omega arith)
]

pub mul_comm : (a b : ℕ) → mul a b ≡ mul b a
unfolding mul mul_slow
mul_comm a b =
    let e : log_at a + log_at b ≡ log_at b + log_at a = omega arith in ground (arith, ap exp_at e)

pub one-mul : (b : ℕ) → b < 256 → mul 1 b ≡ b
unfolding times
one-mul b h =
    mul-times 1 b (omega arith) (omega arith) h
    ∙ ap (λ k. times k b) (ap log_at (sym exp_at-zero) ∙ log_at-exp_at 0 (omega arith))

-- Multiplication distributes over addition, which is `^`.
pub mul-bit_xor :
    (a b c : ℕ) → a < 256 → b < 256 → c < 256 → mul a (bit_xor b c) ≡ bit_xor (mul a b) (mul a c)
mul-bit_xor a b c ha hb hc = elim (dec_lt 0 a) [
  | yes pos ↦
      mul-times a (bit_xor b c) pos ha (bit_xor-lt 8 b c hb hc)
      ∙ times-bit_xor (log_at a) b c hb hc
      ∙ sym (
          ap (λ x. bit_xor x (mul a c)) (mul-times a b pos ha hb)
          ∙ ap (bit_xor (times (log_at a) b)) (mul-times a c pos ha hc))
  | no none ↦
      let z : a ≡ 0 = omega arith in
      rw (z, zero-mul (bit_xor b c), zero-mul b, zero-mul c) (sym (bit_xor-zero 0))
]

-- The power that a product of powers is.
log_at-mul :
    (a b : ℕ)
    → 0 < a
    → a < 256
    → 0 < b
    → b < 256
    → (log_at (mul a b) ≡ log_at a + log_at b) ⊎ (log_at (mul a b) + 255 ≡ log_at a + log_at b)
log_at-mul a b pa ha pb hb =
    let (_, la) = exp_at-log_at a pa ha in
    let (_, lb) = exp_at-log_at b pb hb in
    let i = log_at a + log_at b in
    elim (dec_lt i 255) [
      | yes small ↦ inl (ap log_at (mul_exp a b pa pb) ∙ log_at-exp_at i small)
      | no large ↦
          let e : i ≡ i - 255 + 255 = omega arith in
          let l =
            ap log_at (mul_exp a b pa pb ∙ ap exp_at e ∙ exp_at-wrap (i - 255) (omega arith))
            ∙ log_at-exp_at (i - 255) (omega arith) in
          inr (omega (arith, l))
    ]

mul-pos : (a b : ℕ) → 0 < a → a < 256 → 0 < b → b < 256 → 0 < mul a b
mul-pos a b pa ha pb hb =
    let (_, la) = exp_at-log_at a pa ha in
    let (_, lb) = exp_at-log_at b pb hb in
    rw (mul_exp a b pa pb) (exp_at-range (log_at a + log_at b) (omega arith)).0

times-mul :
    (a b c : ℕ)
    → 0 < a
    → a < 256
    → 0 < b
    → b < 256
    → c < 256
    → times (log_at (mul a b)) c ≡ times (log_at a + log_at b) c
times-mul a b c pa ha pb hb hc = elim (log_at-mul a b pa ha pb hb) [
  | inl e ↦ ap (λ k. times k c) e
  | inr e ↦
      ap (times (log_at (mul a b))) (sym (times_round c hc))
      ∙ times-add (log_at (mul a b)) 255 c
      ∙ ap (λ k. times k c) e
]

mul_assoc_pos :
    (a b c : ℕ) → 0 < a → a < 256 → 0 < b → b < 256 → c < 256 → mul (mul a b) c ≡ mul a (mul b c)
mul_assoc_pos a b c pa ha pb hb hc =
    mul-times (mul a b) c (mul-pos a b pa ha pb hb) (mul-lt a b ha hb) hc
    ∙ times-mul a b c pa ha pb hb hc
    ∙ sym (times-add (log_at a) (log_at b) c)
    ∙ ap (times (log_at a)) (sym (mul-times b c pb hb hc))
    ∙ sym (mul-times a (mul b c) pa ha (mul-lt b c hb hc))

-- Multiplication of field elements is associative.
pub mul_assoc : (a b c : ℕ) → a < 256 → b < 256 → c < 256 → mul (mul a b) c ≡ mul a (mul b c)
mul_assoc a b c ha hb hc = elim (dec_lt 0 a) [
  | no none ↦ let z : a ≡ 0 = omega arith in rw (z, zero-mul b, zero-mul c, zero-mul (mul b c)) refl
  | yes pa ↦ elim (dec_lt 0 b) [
    | no none ↦ let z : b ≡ 0 = omega arith in rw (z, mul-zero a, zero-mul c, mul-zero a) refl
    | yes pb ↦ mul_assoc_pos a b c pa ha pb hb hc
  ]
]

pub inv-lt : (a : ℕ) → inv a < 256
unfolding inv
inv-lt a = (exp_at-range (255 - log_at a) (omega arith)).1

-- `inv` is the inverse of every non-zero element.
pub mul-inv : (a : ℕ) → 0 < a → a < 256 → mul (inv a) a ≡ 1
unfolding inv
mul-inv a pos h =
    let (e, l) = exp_at-log_at a pos h in
    mul_comm (exp_at (255 - log_at a)) a
    ∙ mul-times a (exp_at (255 - log_at a)) pos h (exp_at-range (255 - log_at a) (omega arith)).1
    ∙ sym (exp_at-add (log_at a) (255 - log_at a) (omega arith))
    ∙ ap exp_at (let s : log_at a + (255 - log_at a) ≡ 0 + 255 = omega arith in s)
    ∙ exp_at-wrap 0 (omega arith)
    ∙ exp_at-zero

pub pow2-range : (i : ℕ) → (0 < pow2 i) × (pow2 i < 256)
unfolding pow2
pow2-range i = exp_at-range (i % 255) (omega arith)

-- The coefficients of two positions in a group differ.
pub pow2-injective : (i j : ℕ) → i < 255 → j < 255 → pow2 i ≡ pow2 j → i ≡ j
unfolding pow2
pow2-injective i j hi hj e =
    let si : i % 255 ≡ i = omega arith in
    let sj : j % 255 ≡ j = omega arith in
    sym (log_at-exp_at i hi)
    ∙ ap log_at (ap exp_at (sym si) ∙ e ∙ ap exp_at sj)
    ∙ log_at-exp_at j hj
