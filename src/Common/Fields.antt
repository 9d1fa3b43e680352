-- ===== src/Common/Fields.antt =====
-- A buffer that is laid out as consecutive fields, and what a slice at a field's offset reads.
use Prim.Native.Nat.{ℕ, zero, suc, ◌+◌, ◌-◌, ◌<◌}
use mathlib.Core.Path.{◌≡◌, refl, sym, ◌∙◌, ap}
use mathlib.Core.List.{List, [], ◌∷◌, ◌++◌, append_assoc}
use native.Mathlib.Omega.{arith}
use mlvpn_rs.Common.Lists.{length, length-append, take, take-append, drop-append, get_or}
use mlvpn_rs.Common.Outcome.{ok, slice, slice_lem, index, index_lem}

-- The fields one after the other, and then the rest.
abbrev pub concat : List (List ℕ) → List ℕ → List ℕ
concat [] rest = rest
concat (f ∷ fs) rest = f ++ concat fs rest

-- Where field `k` begins.
abbrev pub offset : List (List ℕ) → ℕ → ℕ
offset [] k = 0
offset (f ∷ fs) zero = 0
offset (f ∷ fs) (suc k) = length f + offset fs k

-- What stands before field `k`, the field, and what stands behind it.
split-concat :
    (fs : List (List ℕ)) (rest : List ℕ) (k : ℕ)
    → k < length fs
    → (front : List ℕ) × (tail : List ℕ) × (concat fs rest ≡ front ++ (get_or fs k [] ++ tail))
      × (length front ≡ offset fs k)
split-concat [] rest k h = absurd (omega arith)
split-concat (f ∷ fs) rest zero h = ([], concat fs rest, refl, refl)
split-concat (f ∷ fs) rest (suc k) h =
    let (front, tail, e, l) = split-concat fs rest k (omega arith) in
    (
      f ++ front,
      tail,
      ap (◌++◌ f) e ∙ sym (append_assoc f front (get_or fs k [] ++ tail)),
      omega (arith, length-append f front),
    )

pub slice_middle :
    (front f tail : List ℕ) (i j : ℕ)
    → length front ≡ i
    → i + length f ≡ j
    → slice (front ++ (f ++ tail)) i j ≡ ok f
slice_middle front f tail i j li lj =
    slice_lem (front ++ (f ++ tail)) i j (omega arith)
      (omega (arith, length-append front (f ++ tail), length-append f tail))
    ∙ ap ok (
        ap (take (j - i)) (drop-append i front (f ++ tail) li)
        ∙ take-append (j - i) f tail (omega arith))

-- A slice from a field's offset to its end reads the field.
pub slice_field :
    (fs : List (List ℕ)) (rest : List ℕ) (k i j : ℕ)
    → k < length fs
    → offset fs k ≡ i
    → i + length (get_or fs k []) ≡ j
    → slice (concat fs rest) i j ≡ ok (get_or fs k [])
slice_field fs rest k i j h ei ej =
    let (front, tail, e, l) = split-concat fs rest k h in
    ap (λ buf. slice buf i j) e ∙ slice_middle front (get_or fs k []) tail i j (l ∙ ei) ej

get_or_front :
    (front : List ℕ) (b : ℕ) (tail : List ℕ) → get_or (front ++ (b ∷ tail)) (length front) 0 ≡ b
get_or_front [] b tail = refl
get_or_front (x ∷ front) b tail = get_or_front front b tail

index_middle :
    (front : List ℕ) (b : ℕ) (tail : List ℕ) (i : ℕ)
    → length front ≡ i
    → index (front ++ (b ∷ tail)) i ≡ ok b
index_middle front b tail i l =
    index_lem (front ++ (b ∷ tail)) i (omega (arith, length-append front (b ∷ tail)))
    ∙ rw (← l) (ap ok (get_or_front front b tail))

-- A field of one byte is read by its index.
pub index_field :
    (fs : List (List ℕ)) (rest : List ℕ) (k i b : ℕ)
    → k < length fs
    → offset fs k ≡ i
    → get_or fs k [] ≡ b ∷ []
    → index (concat fs rest) i ≡ ok b
index_field fs rest k i b h ei eb =
    let (front, tail, e, l) = split-concat fs rest k h in
    ap (λ buf. index buf i) (e ∙ ap (λ f. front ++ (f ++ tail)) eb)
    ∙ index_middle front b tail i (l ∙ ei)

-- How long the buffer is.
pub length-concat :
    (fs : List (List ℕ)) (rest : List ℕ)
    → length (concat fs rest) ≡ offset fs (length fs) + length rest
length-concat [] rest = omega arith
length-concat (f ∷ fs) rest = omega (arith, length-append f (concat fs rest), length-concat fs rest)
