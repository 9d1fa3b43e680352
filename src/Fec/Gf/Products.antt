-- ===== src/Fec/Gf/Products.antt =====
-- The table of all products holds the products.
use mlvpn_rs.Common.{
  ℕ, zero, suc, ◌+◌, ◌*◌, ◌≤◌, ◌<◌, ◌≡◌, ◌⊎◌, inl, inr, refl, sym, ap, ap₂, ◌∙◌, List, length,
  arith, get_or, get_or-set_here, get_or-set_there, get_or-zeros, set, length-set, replicate,
  length-replicate,
}
use native.Mathlib.Decide.{dec_lt}
use mlvpn_rs.Fec.Gf.{mul_slow, mul, fill_row, fill_rows, mul_entries, mul_table}
use mlvpn_rs.Fec.Gf.Field.{mul-zero, zero-mul}

-- A row changes its own entries only, and all of them.
fill_row-keeps :
    (n c x : ℕ) (t : List ℕ) (k : ℕ)
    → (k < c * 256 + x) ⊎ (c * 256 + x + n ≤ k)
    → get_or (fill_row n c x t) k 0 ≡ get_or t k 0
unfolding fill_row
fill_row-keeps zero c x t k h = refl
fill_row-keeps (suc n) c x t k h =
    fill_row-keeps n c (x + 1) (set t (c * 256 + x) (mul_slow c x)) k
      (elim h [ inl below ↦ inl (omega arith) | inr above ↦ inr (omega arith) ])
    ∙ get_or-set_there t (c * 256 + x) k (mul_slow c x) (omega arith)

length-fill_row : (n c x : ℕ) (t : List ℕ) → length (fill_row n c x t) ≡ length t
unfolding fill_row
length-fill_row zero c x t = refl
length-fill_row (suc n) c x t =
    length-fill_row n c (x + 1) (set t (c * 256 + x) (mul_slow c x))
    ∙ length-set t (c * 256 + x) (mul_slow c x)

fill_row-fills :
    (n c x : ℕ) (t : List ℕ) (j : ℕ)
    → j < n
    → c * 256 + x + n ≤ length t
    → get_or (fill_row n c x t) (c * 256 + x + j) 0 ≡ mul_slow c (x + j)
unfolding fill_row
fill_row-fills zero c x t j h l = absurd (omega arith)
fill_row-fills (suc n) c x t zero h l =
    let here : c * 256 + x + 0 ≡ c * 256 + x = omega arith in
    let same : x ≡ x + 0 = omega arith in
    let t' = set t (c * 256 + x) (mul_slow c x) in
    fill_row-keeps n c (x + 1) t' (c * 256 + x + 0) (inl (omega arith))
    ∙ ap (λ k. get_or t' k 0) here
    ∙ get_or-set_here t (c * 256 + x) (mul_slow c x) (omega arith)
    ∙ ap (mul_slow c) same
fill_row-fills (suc n) c x t (suc j) h l =
    let there : c * 256 + x + suc j ≡ c * 256 + (x + 1) + j = omega arith in
    let same : x + 1 + j ≡ x + suc j = omega arith in
    let t' = set t (c * 256 + x) (mul_slow c x) in
    ap (λ k. get_or (fill_row n c (x + 1) t') k 0) there
    ∙ fill_row-fills n c (x + 1) t' j (omega arith)
        (omega (arith, length-set t (c * 256 + x) (mul_slow c x)))
    ∙ ap (mul_slow c) same

-- What is above the rows, and the column 0, is left alone.
fill_rows-above :
    (n c : ℕ) (t : List ℕ) (k : ℕ) → k < c * 256 + 1 → get_or (fill_rows n c t) k 0 ≡ get_or t k 0
unfolding fill_rows
fill_rows-above zero c t k h = refl
fill_rows-above (suc n) c t k h =
    fill_rows-above n (c + 1) (fill_row 255 c 1 t) k (omega arith)
    ∙ fill_row-keeps 255 c 1 t k (inl h)

fill_rows_column :
    (n c : ℕ) (t : List ℕ) (b : ℕ) → get_or (fill_rows n c t) (b * 256) 0 ≡ get_or t (b * 256) 0
unfolding fill_rows
fill_rows_column zero c t b = refl
fill_rows_column (suc n) c t b =
    fill_rows_column n (c + 1) (fill_row 255 c 1 t) b
    ∙ fill_row-keeps 255 c 1 t (b * 256)
        (elim (dec_lt c b) [ yes later ↦ inr (omega arith) | no earlier ↦ inl (omega arith) ])

fill_rows-fills :
    (n c : ℕ) (t : List ℕ) (i j : ℕ)
    → i < n
    → j < 255
    → (c + n) * 256 ≤ length t
    → get_or (fill_rows n c t) ((c + i) * 256 + 1 + j) 0 ≡ mul_slow (c + i) (1 + j)
unfolding fill_rows
fill_rows-fills zero c t i j hi hj l = absurd (omega arith)
fill_rows-fills (suc n) c t zero j hi hj l =
    let here : (c + 0) * 256 + 1 + j ≡ c * 256 + 1 + j = omega arith in
    let same : c ≡ c + 0 = omega arith in
    fill_rows-above n (c + 1) (fill_row 255 c 1 t) ((c + 0) * 256 + 1 + j) (omega arith)
    ∙ ap (λ k. get_or (fill_row 255 c 1 t) k 0) here
    ∙ fill_row-fills 255 c 1 t j hj (omega arith)
    ∙ ap (λ b. mul_slow b (1 + j)) same
fill_rows-fills (suc n) c t (suc i) j hi hj l =
    let there : (c + suc i) * 256 + 1 + j ≡ (c + 1 + i) * 256 + 1 + j = omega arith in
    let same : c + 1 + i ≡ c + suc i = omega arith in
    ap (λ k. get_or (fill_rows n (c + 1) (fill_row 255 c 1 t)) k 0) there
    ∙ fill_rows-fills n (c + 1) (fill_row 255 c 1 t) i j (omega arith) hj
        (omega (arith, length-fill_row 255 c 1 t))
    ∙ ap (λ b. mul_slow b (1 + j)) same

-- The entry at row `c` and column `x` is the product of `c` and `x`.
pub mul_table-mul : (c x : ℕ) → c < 256 → x < 256 → mul_table (c * 256 + x) ≡ mul c x
unfolding mul_table mul_entries
mul_table-mul c zero hc hx =
    let here : c * 256 + 0 ≡ c * 256 = omega arith in
    ap (λ k. get_or (fill_rows 255 1 (replicate (256 * 256) 0)) k 0) here
    ∙ fill_rows_column 255 1 (replicate (256 * 256) 0) c
    ∙ get_or-zeros (256 * 256) (c * 256)
    ∙ sym (mul-zero c)
mul_table-mul zero (suc x) hc hx =
    fill_rows-above 255 1 (replicate (256 * 256) 0) (0 * 256 + suc x) (omega arith)
    ∙ get_or-zeros (256 * 256) (0 * 256 + suc x)
    ∙ sym (zero-mul (suc x))
mul_table-mul (suc c) (suc x) hc hx =
    let there : suc c * 256 + suc x ≡ (1 + c) * 256 + 1 + x = omega arith in
    let row : 1 + c ≡ suc c = omega arith in
    let column : 1 + x ≡ suc x = omega arith in
    ap (λ k. get_or (fill_rows 255 1 (replicate (256 * 256) 0)) k 0) there
    ∙ fill_rows-fills 255 1 (replicate (256 * 256) 0) c x (omega arith) (omega arith)
        (omega (arith, length-replicate {A = ℕ} (256 * 256) 0))
    ∙ ap₂ mul_slow row column
    ∙ (unfold mul in refl)
