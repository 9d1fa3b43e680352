-- ===== src/Fec/Sender/Columns.antt =====
-- `grow` and `xor_into`, column by column.
use mlvpn_rs.Common.{
  ℕ, zero, suc, ◌-◌, ◌≤◌, ◌≡◌, refl, sym, ap, inl, inr, List, [], ◌∷◌, ◌++◌, max, arith, length,
  length-append, length-replicate, ltb, replicate, Bool-cases, tests,
}
use mlvpn_rs.Common.Bytes.{byte_at}
use mlvpn_rs.Common.Xor.{bit_xor, bit_xor-zero}
use mlvpn_rs.Fec.Sender.{grow, xor_into}

byte_at-zeros : (n j : ℕ) → byte_at (replicate n 0) j ≡ 0
byte_at-zeros zero j = refl
byte_at-zeros (suc n) zero = refl
byte_at-zeros (suc n) (suc j) = byte_at-zeros n j

byte_at-append_zeros : (xs : List ℕ) (n j : ℕ) → byte_at (xs ++ replicate n 0) j ≡ byte_at xs j
byte_at-append_zeros [] n j = byte_at-zeros n j
byte_at-append_zeros (x ∷ xs) n zero = refl
byte_at-append_zeros (x ∷ xs) n (suc j) = byte_at-append_zeros xs n j

pub byte_at-grow : (xs : List ℕ) (n j : ℕ) → byte_at (grow xs n) j ≡ byte_at xs j
unfolding grow
byte_at-grow xs n j = elim (Bool-cases (ltb (length xs) n)) [
  | inl more ↦ rw more (byte_at-append_zeros xs (n - length xs) j)
  | inr enough ↦ rw enough refl
]

pub length-grow : (xs : List ℕ) (n : ℕ) → length (grow xs n) ≡ max (length xs) n
unfolding grow
length-grow xs n = elim (Bool-cases (ltb (length xs) n)) [
  | inl more ↦ rw more (
      omega (
        tests,
        more,
        length-append xs (replicate (n - length xs) 0),
        length-replicate (n - length xs) (let z : ℕ = 0 in z),
      ))
  | inr enough ↦ rw enough (omega (tests, enough))
]

pub length-xor_into : (dst src : List ℕ) → length (xor_into dst src) ≡ length dst
unfolding xor_into
length-xor_into [] src = refl
length-xor_into (d ∷ dst) [] = refl
length-xor_into (d ∷ dst) (s ∷ src) = ap suc (length-xor_into dst src)

pub byte_at-xor_into :
    (dst src : List ℕ) (j : ℕ)
    → length src ≤ length dst
    → byte_at (xor_into dst src) j ≡ bit_xor (byte_at dst j) (byte_at src j)
unfolding xor_into
byte_at-xor_into [] [] j h = sym (bit_xor-zero 0)
byte_at-xor_into [] (s ∷ src) j h = absurd (omega arith)
byte_at-xor_into (d ∷ dst) [] j h = sym (bit_xor-zero (byte_at (d ∷ dst) j))
byte_at-xor_into (d ∷ dst) (s ∷ src) zero h = refl
byte_at-xor_into (d ∷ dst) (s ∷ src) (suc j) h = byte_at-xor_into dst src j (omega arith)
