-- ===== src/Fec/Gf/Slices.antt =====
-- The byte slices of `mul_acc` and `scale`, column by column.
use mlvpn_rs.Common.{ℕ, suc, zero, ◌≤◌, ◌<◌, ◌≡◌, refl, sym, ap, ◌∙◌, List, [], ◌∷◌, length, arith}
use mlvpn_rs.Common.Bytes.{AreBytes, byte_at}
use mlvpn_rs.Common.Xor.{bit_xor, bit_xor-zero}
use mlvpn_rs.Fec.Gf.{mul_acc, acc_row, scale, mul}
use mlvpn_rs.Fec.Gf.Field.{mul-zero}
use mlvpn_rs.Fec.Gf.Products.{mul_table-mul}

length-acc_row : (coef : ℕ) (dst src : List ℕ) → length (acc_row coef dst src) ≡ length dst
unfolding acc_row
length-acc_row coef [] src = refl
length-acc_row coef (d ∷ dst) [] = refl
length-acc_row coef (d ∷ dst) (s ∷ src) = ap suc (length-acc_row coef dst src)

byte_at-acc_row :
    (coef : ℕ) (dst src : List ℕ) (j : ℕ)
    → coef < 256
    → AreBytes src
    → length src ≤ length dst
    → byte_at (acc_row coef dst src) j ≡ bit_xor (byte_at dst j) (mul coef (byte_at src j))
unfolding acc_row
byte_at-acc_row coef [] [] j c b h = sym (ap (bit_xor 0) (mul-zero coef) ∙ bit_xor-zero 0)
byte_at-acc_row coef [] (s ∷ src) j c b h = absurd (omega arith)
byte_at-acc_row coef (d ∷ dst) [] j c b h =
    sym (ap (bit_xor (byte_at (d ∷ dst) j)) (mul-zero coef) ∙ bit_xor-zero (byte_at (d ∷ dst) j))
byte_at-acc_row coef (d ∷ dst) (s ∷ src) zero c b h = ap (bit_xor d) (mul_table-mul coef s c b.0)
byte_at-acc_row coef (d ∷ dst) (s ∷ src) (suc j) c b h =
    byte_at-acc_row coef dst src j c b.1 (omega arith)

module _ (dst src : List ℕ) (coef : ℕ) (pos : 0 < coef) where
  mul_acc_row : mul_acc dst src coef ≡ acc_row coef dst src
  unfolding mul_acc
  mul_acc_row = ground arith

  pub length-mul_acc : length (mul_acc dst src coef) ≡ length dst
  length-mul_acc = ap length mul_acc_row ∙ length-acc_row coef dst src

  pub byte_at-mul_acc :
      (j : ℕ)
      → coef < 256
      → AreBytes src
      → length src ≤ length dst
      → byte_at (mul_acc dst src coef) j ≡ bit_xor (byte_at dst j) (mul coef (byte_at src j))
  byte_at-mul_acc j c b h =
      ap (λ xs. byte_at xs j) mul_acc_row ∙ byte_at-acc_row coef dst src j c b h

pub byte_at-scale :
    (dst : List ℕ) (coef j : ℕ)
    → coef < 256
    → AreBytes dst
    → byte_at (scale dst coef) j ≡ mul coef (byte_at dst j)
unfolding scale
byte_at-scale [] coef j c h = sym (mul-zero coef)
byte_at-scale (d ∷ dst) coef zero c h = mul_table-mul coef d c h.0
byte_at-scale (d ∷ dst) coef (suc j) c h = byte_at-scale dst coef j c h.1

pub length-scale : (dst : List ℕ) (coef : ℕ) → length (scale dst coef) ≡ length dst
unfolding scale
length-scale [] coef = refl
length-scale (d ∷ dst) coef = ap suc (length-scale dst coef)
