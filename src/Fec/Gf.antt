-- ===== src/Fec/Gf.antt =====
-- src/fec.rs, module `gf`: arithmetic of the field with 256 elements by logarithm tables, and its use
-- on byte slices. A slice is the list of its bytes; `dst[i]` past the end is never written.
pub mod Tables
pub mod Field
pub mod Products
pub mod Slices
use Prim.Native.Nat.{bit_and}
use mlvpn_rs.Common.{
  ℕ, zero, suc, ◌+◌, ◌-◌, ◌*◌, ◌/◌, ◌%◌, ◌^◌, List, [], ◌∷◌, not, ◌||◌, ◌&&◌, ltb, ◌==◌,
  if◌then◌else◌, get_or, set, replicate, map,
}
use mlvpn_rs.Common.Xor.{bit_xor}

-- `x <<= 1; if x & 0x100 != 0 { x ^= 0x11d; }` on a `u16`.
pub next_power : ℕ → ℕ
next_power x = let y = x * 2 % 2 ^ 16 in if not (bit_and y 0x100 == 0) then bit_xor y 0x11d else y

-- The first loop of `build_tables`, with `n` rounds left.
fill : ℕ → ℕ → ℕ → List ℕ → List ℕ → List ℕ × List ℕ
fill zero i x exp log = (exp, log)
fill (suc n) i x exp log = fill n (i + 1) (next_power x) (set exp i (x % 256)) (set log x (i % 256))

-- The second loop: `exp[j] = exp[j - 255]`.
double_up : ℕ → ℕ → List ℕ → List ℕ
double_up zero j exp = exp
double_up (suc n) j exp = double_up n (j + 1) (set exp j (get_or exp (j - 255) 0))

build_tables : List ℕ × List ℕ
unfolding fill double_up next_power
build_tables =
    let (exp, log) = fill 255 0 1 (replicate 512 0) (replicate 256 0) in
    (double_up (512 - 255) 255 exp, log)

-- `TABLES.0[i]` and `TABLES.1[a as usize]`
pub exp_at : ℕ → ℕ
exp_at i = get_or build_tables.0 i 0

pub log_at : ℕ → ℕ
log_at a = get_or build_tables.1 a 0

pub mul_slow : ℕ → ℕ → ℕ
mul_slow a b = if a == 0 || b == 0 then 0 else exp_at (log_at a + log_at b)

pub mul : ℕ → ℕ → ℕ
mul a b = mul_slow a b

pub pow2 : ℕ → ℕ
pow2 i = exp_at (i % 255)

pub inv : ℕ → ℕ
inv a = exp_at (255 - log_at a)

-- The inner loop of `mul_table`, with `n` rounds left: `t[c * 256 + x] = mul_slow(c, x)`.
pub fill_row : ℕ → ℕ → ℕ → List ℕ → List ℕ
fill_row zero c x t = t
fill_row (suc n) c x t = fill_row n c (x + 1) (set t (c * 256 + x) (mul_slow c x))

-- The outer loop.
pub fill_rows : ℕ → ℕ → List ℕ → List ℕ
fill_rows zero c t = t
fill_rows (suc n) c t = fill_rows n (c + 1) (fill_row 255 c 1 t)

-- The table of 64 KiB, and the entry at `k` of it.
pub mul_entries : List ℕ
mul_entries = fill_rows 255 1 (replicate (256 * 256) 0)

pub mul_table : ℕ → ℕ
mul_table k = get_or mul_entries k 0

-- `for (d, &s) in dst.iter_mut().zip(src) { *d ^= row[s as usize]; }`
pub acc_row : ℕ → List ℕ → List ℕ → List ℕ
acc_row coef [] src = []
acc_row coef (d ∷ dst) [] = d ∷ dst
acc_row coef (d ∷ dst) (s ∷ src) = bit_xor d (mul_table (coef * 256 + s)) ∷ acc_row coef dst src

pub mul_acc : List ℕ → List ℕ → ℕ → List ℕ
mul_acc dst src coef = if coef == 0 then dst else acc_row coef dst src

pub scale : List ℕ → ℕ → List ℕ
scale dst coef = map (λ d. mul_table (coef * 256 + d)) dst
