-- ===== src/Common/Bytes.antt =====
-- Bytes, and Rust's `to_be_bytes` and `from_be_bytes` at every width. A byte slice is a list of
-- numbers below 256.
use Prim.Native.Nat.{ℕ, zero, suc, ◌+◌, ◌*◌, ◌/◌, ◌%◌, ◌^◌, ◌≤◌, ◌<◌}
use mathlib.Core.Path.{◌≡◌, refl, ap}
use mathlib.Core.List.{List, [], ◌∷◌, ◌++◌}
use native.Mathlib.Nat.{pow-suc, mul-le-mul_right}
use mathlib.Core.Bool.{Bool, true, ◌&&◌}
use mathlib.Core.Logic.{inl, inr}
use mlvpn_rs.Common.Tests.{ltb, ltb→lt, Bool-cases}
use native.Mathlib.Omega.{arith}
use mlvpn_rs.Common.Lists.{length, length-append, get_or, All, All-append}

abbrev pub IsByte : ℕ → Type 0
IsByte b = b < 256

abbrev pub AreBytes : List ℕ → Type 0
AreBytes = All IsByte

-- The `k` low bytes of `v`, highest first.
unfoldable pub be_bytes : ℕ → ℕ → List ℕ
be_bytes zero v = []
be_bytes (suc k) v = be_bytes k (v / 256) ++ ((v % 256) ∷ [])

from_be_onto : ℕ → List ℕ → ℕ
from_be_onto acc [] = acc
from_be_onto acc (b ∷ bs) = from_be_onto (acc * 256 + b) bs

unfoldable pub from_be : List ℕ → ℕ
unfolding from_be_onto
from_be bs = from_be_onto 0 bs

from_be_onto_snoc :
    (acc : ℕ) (bs : List ℕ) (b : ℕ)
    → from_be_onto acc (bs ++ (b ∷ [])) ≡ from_be_onto acc bs * 256 + b
unfolding from_be_onto
from_be_onto_snoc acc [] b = refl
from_be_onto_snoc acc (c ∷ bs) b = from_be_onto_snoc (acc * 256 + c) bs b

pub length-be_bytes : (k v : ℕ) → length (be_bytes k v) ≡ k
unfolding be_bytes
length-be_bytes zero v = refl
length-be_bytes (suc k) v =
    omega
      (arith, length-append (be_bytes k (v / 256)) ((v % 256) ∷ []), length-be_bytes k (v / 256))

pub be_bytes-AreBytes : (k v : ℕ) → AreBytes (be_bytes k v)
unfolding be_bytes
be_bytes-AreBytes zero v = tt
be_bytes-AreBytes (suc k) v =
    All-append IsByte (be_bytes k (v / 256)) ((v % 256) ∷ []) (be_bytes-AreBytes k (v / 256))
      (omega arith)

-- A number of `k` bytes survives the wire.
pub from_be-be_bytes : (k v : ℕ) → v < 256 ^ k → from_be (be_bytes k v) ≡ v
unfolding be_bytes from_be
from_be-be_bytes zero v h = omega arith
from_be-be_bytes (suc k) v h = omega (
  arith,
  from_be_onto_snoc 0 (be_bytes k (v / 256)) (v % 256),
  from_be-be_bytes k (v / 256) (omega (arith, pow-suc 256 k)),
)

lt_of_front :
    (acc b k : ℕ) {n : ℕ}
    → n < (acc * 256 + b + 1) * 256 ^ k
    → b < 256
    → n < (acc + 1) * 256 ^ suc k
lt_of_front acc b k h byte =
    let front : acc * 256 + b + 1 ≤ (acc + 1) * 256 = omega arith in
    omega (arith, mul-le-mul_right (256 ^ k) front, ap (λ (t : ℕ). (acc + 1) * t) (pow-suc 256 k))

from_be_onto-lt :
    (acc k : ℕ) (bs : List ℕ)
    → AreBytes bs
    → length bs ≡ k
    → from_be_onto acc bs < (acc + 1) * 256 ^ k
unfolding from_be_onto
from_be_onto-lt acc zero [] h e = omega arith
from_be_onto-lt acc zero (b ∷ bs) h e = absurd (omega arith)
from_be_onto-lt acc (suc k) [] h e = absurd (omega arith)
from_be_onto-lt acc (suc k) (b ∷ bs) h e =
    lt_of_front acc b k (from_be_onto-lt (acc * 256 + b) k bs h.1 (omega arith)) h.0

pub from_be-lt : (k : ℕ) (bs : List ℕ) → AreBytes bs → length bs ≡ k → from_be bs < 256 ^ k
unfolding from_be
from_be-lt k bs h e = omega (arith, from_be_onto-lt 0 k bs h e)

from_be_onto-injective :
    (acc acc' : ℕ) (xs ys : List ℕ)
    → AreBytes xs
    → AreBytes ys
    → length xs ≡ length ys
    → from_be_onto acc xs ≡ from_be_onto acc' ys
    → (acc ≡ acc') × (xs ≡ ys)
unfolding from_be_onto
from_be_onto-injective acc acc' [] [] hx hy l e = (e, refl)
from_be_onto-injective acc acc' [] (y ∷ ys) hx hy l e = absurd (omega arith)
from_be_onto-injective acc acc' (x ∷ xs) [] hx hy l e = absurd (omega arith)
from_be_onto-injective acc acc' (x ∷ xs) (y ∷ ys) hx hy l e =
    let (heads, tails) =
      from_be_onto-injective (acc * 256 + x) (acc' * 256 + y) xs ys hx.1 hy.1 (omega arith) e in
    let same : x ≡ y = omega arith in (omega arith, cc)

-- Bytes survive being read as a number and written back.
pub be_bytes-from_be :
    (k : ℕ) (bs : List ℕ) → AreBytes bs → length bs ≡ k → be_bytes k (from_be bs) ≡ bs
unfolding from_be
be_bytes-from_be k bs h e =
    (from_be_onto-injective 0 0 (be_bytes k (from_be bs)) bs (be_bytes-AreBytes k _) h
      (omega (arith, length-be_bytes k (from_be bs)))
      (from_be-be_bytes k (from_be bs) (from_be-lt k bs h e))).1

-- The byte at a position, 0 behind the end.
abbrev pub byte_at : List ℕ → ℕ → ℕ
byte_at xs j = get_or xs j 0

pub byte_at-lt : (xs : List ℕ) (j : ℕ) → AreBytes xs → byte_at xs j < 256
byte_at-lt [] j h = omega arith
byte_at-lt (x ∷ xs) zero h = h.0
byte_at-lt (x ∷ xs) (suc j) h = byte_at-lt xs j h.1

-- A test for a list that is written out.
abbrev pub all_bytes : List ℕ → Bool
all_bytes [] = true
all_bytes (b ∷ bs) = ltb b 256 && all_bytes bs

pub all_bytes-AreBytes : (bs : List ℕ) → all_bytes bs ≡ true → AreBytes bs
all_bytes-AreBytes [] h = tt
all_bytes-AreBytes (b ∷ bs) h = elim (Bool-cases (ltb b 256)) [
  | inl below ↦ (ltb→lt b 256 below, all_bytes-AreBytes bs (rw below at h))
  | inr above ↦ absurd (ground arith)
]
