-- ===== src/Fec/Recovery/Evaluate/Missing.antt =====
-- The sum over the missing members alone, and its value for one and for two of them.
use mlvpn_rs.Common.{
  ℕ, suc, ◌+◌, ◌-◌, ◌≤◌, ◌<◌, ◌≡◌, refl, ap, ap₂, ◌∙◌, List, [], ◌∷◌, arith, length, get_or,
  if◌then◌else◌, ==_refl, ne→==,
}
use native.Mathlib.Decide.{ℕ_discrete}
use mlvpn_rs.Common.Maps.{contains}
use mlvpn_rs.Common.Bytes.{byte_at}
use mlvpn_rs.Common.Xor.{
  bit_xor, bit_xor-zero, bit_xor_assoc, bit_xor_left_comm, bit_xor_cancel, bit_xor_comm,
}

unfoldable pub miss_sum : (ℕ → ℕ → ℕ) → List ℕ → ℕ → List (List ℕ) → ℕ → ℕ
miss_sum c miss i [] j = 0
miss_sum c miss i (m ∷ ms) j =
    let rest = miss_sum c miss (i + 1) ms j in
    if contains miss i then bit_xor (c i (byte_at m j)) rest else rest

module _ (c : ℕ → ℕ → ℕ) (j : ℕ) where
  miss_sum_past : (a i : ℕ) (ms : List (List ℕ)) → a < i → miss_sum c (a ∷ []) i ms j ≡ 0
  unfolding miss_sum contains
  miss_sum_past a i [] h = refl
  miss_sum_past a i (m ∷ ms) h =
      rw (ne→== a i (omega arith)) (miss_sum_past a (i + 1) ms (omega arith))

  miss_sum_pair_past :
      (a b i : ℕ) (ms : List (List ℕ))
      → a < i
      → miss_sum c (a ∷ b ∷ []) i ms j ≡ miss_sum c (b ∷ []) i ms j
  unfolding miss_sum contains
  miss_sum_pair_past a b i [] h = refl
  miss_sum_pair_past a b i (m ∷ ms) h =
      rw (ne→== a i (omega arith), miss_sum_pair_past a b (i + 1) ms (omega arith))

  -- One missing member contributes alone.
  miss_sum_one :
      (a i : ℕ) (ms : List (List ℕ))
      → i ≤ a
      → a < i + length ms
      → miss_sum c (a ∷ []) i ms j ≡ c a (byte_at (get_or ms (a - i) []) j)
  unfolding miss_sum contains
  miss_sum_one a i [] lo hi = absurd (omega arith)
  miss_sum_one a i (m ∷ ms) lo hi = elim (ℕ_discrete a i) [
    | yes here ↦
        let z : a - i ≡ 0 = omega arith in
        rw (z, ← here, ==_refl a, miss_sum_past a (a + 1) ms (omega arith))
          (bit_xor-zero (c a (byte_at m j)))
    | no later ↦
        let s : a - i ≡ suc (a - (i + 1)) = omega arith in
        rw (ne→== a i later, s) (miss_sum_one a (i + 1) ms (omega arith) (omega arith))
  ]

  miss_sum_two :
      (a b i : ℕ) (ms : List (List ℕ))
      → i ≤ a
      → a < b
      → b < i + length ms
      → miss_sum c (a ∷ b ∷ []) i ms j
        ≡ bit_xor (c a (byte_at (get_or ms (a - i) []) j)) (c b (byte_at (get_or ms (b - i) []) j))
  unfolding miss_sum contains
  miss_sum_two a b i [] lo lt hi = absurd (omega arith)
  miss_sum_two a b i (m ∷ ms) lo lt hi = elim (ℕ_discrete a i) [
    | yes here ↦
        let z : a - i ≡ 0 = omega arith in
        let s : b - i ≡ suc (b - (i + 1)) = omega arith in
        rw (z, s, ← here, ==_refl a, miss_sum_pair_past a b (a + 1) ms (omega arith))
          (ap (bit_xor (c a (byte_at m j))) (miss_sum_one b (a + 1) ms (omega arith) (omega arith)))
    | no later ↦
        let s : a - i ≡ suc (a - (i + 1)) = omega arith in
        let t : b - i ≡ suc (b - (i + 1)) = omega arith in
        rw (ne→== a i later, ne→== b i (omega arith), s, t)
          (miss_sum_two a b (i + 1) ms (omega arith) lt (omega arith))
  ]

-- The same from the first member on.
module _ (c : ℕ → ℕ → ℕ) (j : ℕ) (ms : List (List ℕ)) where
  pub miss_sum_single :
      (a : ℕ) → a < length ms → miss_sum c (a ∷ []) 0 ms j ≡ c a (byte_at (get_or ms a []) j)
  miss_sum_single a h =
      miss_sum_one c j a 0 ms (omega arith) (omega arith)
      ∙ ap (λ k. c a (byte_at (get_or ms k []) j)) (omega arith)

  pub miss_sum_pair :
      (a b : ℕ)
      → a < b
      → b < length ms
      → miss_sum c (a ∷ b ∷ []) 0 ms j
        ≡ bit_xor (c a (byte_at (get_or ms a []) j)) (c b (byte_at (get_or ms b []) j))
  miss_sum_pair a b lt h =
      let ea : a - 0 ≡ a = omega arith in
      let eb : b - 0 ≡ b = omega arith in
      miss_sum_two c j a b 0 ms (omega arith) lt (omega arith)
      ∙ ap₂ (λ k l. bit_xor (c a (byte_at (get_or ms k []) j)) (c b (byte_at (get_or ms l []) j)))
          ea eb

-- The two ways in which a member moves from the share to the sums, by the laws of `^`.
pub move_known :
    (x c s t m : ℕ) → bit_xor x s ≡ bit_xor (bit_xor t c) m → bit_xor x (bit_xor c s) ≡ bit_xor t m
move_known x c s t m h =
    bit_xor_left_comm x c s
    ∙ ap (bit_xor c) (h ∙ ap (λ y. bit_xor y m) (bit_xor_comm t c) ∙ bit_xor_assoc c t m)
    ∙ bit_xor_cancel c (bit_xor t m)

pub move_missing :
    (x c s t m : ℕ) → bit_xor x s ≡ bit_xor t m → bit_xor x (bit_xor c s) ≡ bit_xor t (bit_xor c m)
move_missing x c s t m h = bit_xor_left_comm x c s ∙ ap (bit_xor c) h ∙ bit_xor_left_comm c t m
