-- ===== src/Fec/Recovery/Evaluate/Solve.antt =====
-- One or two missing members are the solution of what the shares leave.
use mlvpn_rs.Common.{
  ℕ, suc, ◌≤◌, ◌<◌, ◌≡◌, refl, sym, ap, ◌∙◌, List, [], ◌∷◌, arith, length, get_or, take, ext_get_or,
  get_or-take_lt, get_or_beyond, length-take, ap₂,
}
use native.Mathlib.Decide.{dec_lt}
use mlvpn_rs.Common.Bytes.{AreBytes, byte_at, byte_at-lt}
use mlvpn_rs.Common.Xor.{
  bit_xor, bit_xor_assoc, bit_xor_cancel, bit_xor_comm, bit_xor_left_comm, bit_xor-lt,
  eq_of_bit_xor-zero,
}
use mlvpn_rs.Fec.Gf.{mul, mul_acc, pow2, scale, inv}
use mlvpn_rs.Fec.Gf.Field.{
  mul-lt, mul_comm, one-mul, mul-bit_xor, mul_assoc, mul-inv, inv-lt, pow2-range, pow2-injective,
}
use mlvpn_rs.Fec.Gf.Slices.{length-mul_acc, byte_at-mul_acc, byte_at-scale, length-scale}
use mlvpn_rs.Fec.Sender.{xor_into}
use mlvpn_rs.Fec.Sender.Columns.{length-xor_into, byte_at-xor_into}
use mlvpn_rs.Fec.Sums.{plain, weighted}
use mlvpn_rs.Fec.Recovery.Evaluate.{solve_two}

-- `x` is `m` with zeros behind it.
pub Pads : List ℕ → List ℕ → Type 0
Pads m x = (length m ≤ length x) × ((j : ℕ) → byte_at x j ≡ byte_at m j)

pub take-Pads : (m x : List ℕ) → Pads m x → take (length m) x ≡ m
unfolding Pads
take-Pads m x (h, e) = ext_get_or 0 (take (length m) x) m size column
  where
    size : length (take (length m) x) ≡ length m
    size = omega (arith, length-take (length m) x, h)

    column : (i : ℕ) → get_or (take (length m) x) i 0 ≡ get_or m i 0
    column i = elim (dec_lt i (length m)) [
      | yes lt ↦ get_or-take_lt 0 (length m) x i lt ∙ e i
      | no ge ↦
          get_or_beyond 0 (take (length m) x) i (omega (arith, size))
          ∙ sym (get_or_beyond 0 m i (omega arith))
    ]

AreBytes-of_columns : (xs : List ℕ) → ((j : ℕ) → byte_at xs j < 256) → AreBytes xs
AreBytes-of_columns [] h = tt
AreBytes-of_columns (x ∷ xs) h = (h 0, AreBytes-of_columns xs (λ j. h (suc j)))

-- Division by a coefficient.
unscale : (g x : ℕ) → 0 < g → g < 256 → x < 256 → mul (inv g) (mul g x) ≡ x
unscale g x pos hg hx =
    sym (mul_assoc (inv g) g x (inv-lt g) hg hx)
    ∙ ap (λ y. mul y x) (mul-inv g pos hg)
    ∙ one-mul x hx

scale-Pads :
    (g : ℕ) (m x : List ℕ)
    → 0 < g
    → g < 256
    → AreBytes m
    → length m ≤ length x
    → ((j : ℕ) → byte_at x j ≡ mul g (byte_at m j))
    → Pads m (scale x (inv g))
unfolding Pads
scale-Pads g m x pos hg b h e =
    let bytes =
      AreBytes-of_columns x (λ j. rw (e j) (mul-lt g (byte_at m j) hg (byte_at-lt m j b))) in
    (
      omega (arith, length-scale x (inv g)),
      λ j.
          byte_at-scale x (inv g) j (inv-lt g) bytes
          ∙ ap (mul (inv g)) (e j)
          ∙ unscale g (byte_at m j) pos hg (byte_at-lt m j b),
    )

-- One missing member, from the P share.
pub plain-Pads :
    (a : ℕ) (m x : List ℕ)
    → length m ≤ length x
    → ((j : ℕ) → byte_at x j ≡ plain a (byte_at m j))
    → Pads m x
unfolding Pads
plain-Pads a m x h e = (h, e)

-- One missing member, from the Q share.
pub weighted-Pads :
    (a : ℕ) (m x : List ℕ)
    → AreBytes m
    → length m ≤ length x
    → ((j : ℕ) → byte_at x j ≡ weighted a (byte_at m j))
    → Pads m (scale x (inv (pow2 a)))
weighted-Pads a m x b h e = let (pos, lt) = pow2-range a in scale-Pads (pow2 a) m x pos lt b h e

-- `(ga·A + gb·B) + ga·(A + B)` is `(ga + gb)·B`.
eliminate :
    (ga gb x y : ℕ)
    → ga < 256
    → gb < 256
    → x < 256
    → y < 256
    → bit_xor (bit_xor (mul ga x) (mul gb y)) (mul ga (bit_xor x y)) ≡ mul (bit_xor ga gb) y
eliminate ga gb x y ha hb hx hy =
    ap (bit_xor (bit_xor (mul ga x) (mul gb y))) (mul-bit_xor ga x y ha hx hy)
    ∙ bit_xor_assoc (mul ga x) (mul gb y) (bit_xor (mul ga x) (mul ga y))
    ∙ ap (bit_xor (mul ga x)) (bit_xor_left_comm (mul gb y) (mul ga x) (mul ga y))
    ∙ bit_xor_cancel (mul ga x) (bit_xor (mul gb y) (mul ga y))
    ∙ bit_xor_comm (mul gb y) (mul ga y)
    ∙ ap₂ bit_xor (mul_comm ga y) (mul_comm gb y)
    ∙ sym (mul-bit_xor y ga gb hy ha hb)
    ∙ mul_comm y (bit_xor ga gb)

coefficients_differ : (i j : ℕ) → i < j → j < 255 → 0 < bit_xor (pow2 i) (pow2 j)
coefficients_differ i j lt hj = elim (dec_lt 0 (bit_xor (pow2 i) (pow2 j))) [
  | yes pos ↦ pos
  | no zero_sum ↦
      let z : bit_xor (pow2 i) (pow2 j) ≡ 0 = omega arith in
      let same = pow2-injective i j (omega arith) hj (eq_of_bit_xor-zero (pow2 i) (pow2 j) z) in
      absurd (omega arith)
]

module _ (i j : ℕ) (m n pp qp : List ℕ) (lt : i < j) (hj : j < 255) (bm : AreBytes m)
    (bn : AreBytes n) (same : length pp ≡ length qp) (fit_m : length m ≤ length pp)
    (fit_n : length n ≤ length pp)
    (p_column : (k : ℕ) → byte_at pp k ≡ bit_xor (plain i (byte_at m k)) (plain j (byte_at n k)))
    (q_column : (k : ℕ)
      → byte_at qp k ≡ bit_xor (weighted i (byte_at m k)) (weighted j (byte_at n k))) where
  pp-AreBytes : AreBytes pp
  pp-AreBytes = AreBytes-of_columns pp (λ k.
      rw (p_column k)
        (bit_xor-lt 8 (byte_at m k) (byte_at n k) (byte_at-lt m k bm) (byte_at-lt n k bn)))

  difference :
      (k : ℕ) → byte_at (mul_acc qp pp (pow2 i)) k ≡ mul (bit_xor (pow2 i) (pow2 j)) (byte_at n k)
  difference k =
      byte_at-mul_acc qp pp (pow2 i) (pow2-range i).0 k (pow2-range i).1 pp-AreBytes (omega arith)
      ∙ ap₂ (λ x y. bit_xor x (mul (pow2 i) y)) (q_column k) (p_column k)
      ∙ eliminate (pow2 i) (pow2 j) (byte_at m k) (byte_at n k) (pow2-range i).1 (pow2-range j).1
          (byte_at-lt m k bm) (byte_at-lt n k bn)

  second : Pads n (scale (mul_acc qp pp (pow2 i)) (inv (bit_xor (pow2 i) (pow2 j))))
  second =
      scale-Pads (bit_xor (pow2 i) (pow2 j)) n (mul_acc qp pp (pow2 i))
        (coefficients_differ i j lt hj)
        (bit_xor-lt 8 (pow2 i) (pow2 j) (pow2-range i).1 (pow2-range j).1) bn
        (omega (arith, length-mul_acc qp pp (pow2 i) (pow2-range i).0)) difference

  -- Two missing members, from both shares.
  pub solve_two-Pads :
      (x : List ℕ) × (y : List ℕ) × (solve_two i j pp qp ≡ (i, x) ∷ (j, y) ∷ [])
      × Pads m x
      × Pads n y
  unfolding solve_two Pads
  solve_two-Pads =
      let db = scale (mul_acc qp pp (pow2 i)) (inv (bit_xor (pow2 i) (pow2 j))) in
      let wide : length db ≡ length pp =
        length-scale (mul_acc qp pp (pow2 i)) (inv (bit_xor (pow2 i) (pow2 j)))
        ∙ length-mul_acc qp pp (pow2 i) (pow2-range i).0
        ∙ sym same in
      (
        xor_into pp db,
        db,
        refl,
        (
          omega (arith, length-xor_into pp db),
          λ k.
              byte_at-xor_into pp db k (omega (arith, wide))
              ∙ ap₂ bit_xor (p_column k ∙ bit_xor_comm (byte_at m k) (byte_at n k)) (second.1 k)
              ∙ bit_xor_comm (bit_xor (byte_at n k) (byte_at m k)) (byte_at n k)
              ∙ bit_xor_cancel (byte_at n k) (byte_at m k),
        ),
        second,
      )
