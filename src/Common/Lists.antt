-- ===== src/Common/Lists.antt =====
-- Lists measured and indexed by native numbers, under the library's names.
use Prim.Native.Nat.{ℕ, zero, suc, ◌+◌, ◌-◌, ◌≤◌, ◌<◌, min}
use mathlib.Core.Path.{◌≡◌, refl, ap, ap₂, ◌∙◌}
use mathlib.Core.Logic.{◌≢◌}
use mathlib.Core.List.{List, [], ◌∷◌, ◌++◌, map}
use mathlib.Core.Option.{Option, none, some}
use native.Mathlib.Omega.{arith}

module _ {ℓ} {A : Type ℓ} where
  abbrev pub length : List A → ℕ
  length [] = 0
  length (x ∷ xs) = suc (length xs)

  abbrev pub get_elem? : List A → ℕ → Option A
  get_elem? [] i = none
  get_elem? (x ∷ xs) zero = some x
  get_elem? (x ∷ xs) (suc i) = get_elem? xs i

  abbrev pub get_or : List A → ℕ → A → A
  get_or [] i d = d
  get_or (x ∷ xs) zero d = x
  get_or (x ∷ xs) (suc i) d = get_or xs i d

  -- A write out of bounds changes nothing.
  abbrev pub set : List A → ℕ → A → List A
  set [] i v = []
  set (x ∷ xs) zero v = v ∷ xs
  set (x ∷ xs) (suc i) v = x ∷ set xs i v

  abbrev pub take : ℕ → List A → List A
  take zero xs = []
  take (suc n) [] = []
  take (suc n) (x ∷ xs) = x ∷ take n xs

  abbrev pub drop : ℕ → List A → List A
  drop zero xs = xs
  drop (suc n) [] = []
  drop (suc n) (x ∷ xs) = drop n xs

  abbrev pub replicate : ℕ → A → List A
  replicate zero a = []
  replicate (suc n) a = a ∷ replicate n a

  abbrev pub All {κ} : (A → Type κ) → List A → Type κ
  All P [] = Unit {κ}
  All P (x ∷ xs) = P x × All P xs

  pub length-append : (xs ys : List A) → length (xs ++ ys) ≡ length xs + length ys
  length-append [] ys = omega arith
  length-append (x ∷ xs) ys = omega (arith, length-append xs ys)

  pub length-take : (n : ℕ) (xs : List A) → length (take n xs) ≡ min n (length xs)
  length-take zero xs = omega arith
  length-take (suc n) [] = omega arith
  length-take (suc n) (x ∷ xs) = omega (arith, length-take n xs)

  pub length-drop : (n : ℕ) (xs : List A) → length (drop n xs) ≡ length xs - n
  length-drop zero xs = omega arith
  length-drop (suc n) [] = omega arith
  length-drop (suc n) (x ∷ xs) = omega (arith, length-drop n xs)

  pub length-replicate : (n : ℕ) (a : A) → length (replicate n a) ≡ n
  length-replicate zero a = refl
  length-replicate (suc n) a = ap suc (length-replicate n a)

  pub length-set : (xs : List A) (i : ℕ) (v : A) → length (set xs i v) ≡ length xs
  length-set [] i v = refl
  length-set (x ∷ xs) zero v = refl
  length-set (x ∷ xs) (suc i) v = ap suc (length-set xs i v)

  -- A prefix of known length is what `take` returns, and `drop` returns the rest.
  pub take-append : (n : ℕ) (xs ys : List A) → length xs ≡ n → take n (xs ++ ys) ≡ xs
  take-append zero [] ys h = refl
  take-append zero (x ∷ xs) ys h = absurd (omega arith)
  take-append (suc n) [] ys h = absurd (omega arith)
  take-append (suc n) (x ∷ xs) ys h = ap (◌∷◌ x) (take-append n xs ys (omega arith))

  pub drop-append : (n : ℕ) (xs ys : List A) → length xs ≡ n → drop n (xs ++ ys) ≡ ys
  drop-append zero [] ys h = refl
  drop-append zero (x ∷ xs) ys h = absurd (omega arith)
  drop-append (suc n) [] ys h = absurd (omega arith)
  drop-append (suc n) (x ∷ xs) ys h = drop-append n xs ys (omega arith)

  -- A longer prefix goes on in the second list.
  pub take_past :
      (n : ℕ) (xs ys : List A) → length xs ≤ n → take n (xs ++ ys) ≡ xs ++ take (n - length xs) ys
  take_past n [] ys h = ap (λ k. take k ys) (omega arith)
  take_past zero (x ∷ xs) ys h = absurd (omega arith)
  take_past (suc n) (x ∷ xs) ys h =
      ap (◌∷◌ x) (take_past n xs ys (omega arith) ∙ ap (λ k. xs ++ take k ys) (omega arith))

  pub take_within : (n : ℕ) (xs ys : List A) → n ≤ length xs → take n (xs ++ ys) ≡ take n xs
  take_within zero xs ys h = refl
  take_within (suc n) [] ys h = absurd (omega arith)
  take_within (suc n) (x ∷ xs) ys h = ap (◌∷◌ x) (take_within n xs ys (omega arith))

  pub take-append-drop : (n : ℕ) (xs : List A) → take n xs ++ drop n xs ≡ xs
  take-append-drop zero xs = refl
  take-append-drop (suc n) [] = refl
  take-append-drop (suc n) (x ∷ xs) = ap (◌∷◌ x) (take-append-drop n xs)

  pub take_all : (n : ℕ) (xs : List A) → length xs ≤ n → take n xs ≡ xs
  take_all zero [] h = refl
  take_all zero (x ∷ xs) h = absurd (omega arith)
  take_all (suc n) [] h = refl
  take_all (suc n) (x ∷ xs) h = ap (◌∷◌ x) (take_all n xs (omega arith))

  -- Two lists of one length that agree at every index are equal.
  pub ext_get_or :
      (d : A) (xs ys : List A)
      → length xs ≡ length ys
      → ((i : ℕ) → get_or xs i d ≡ get_or ys i d)
      → xs ≡ ys
  ext_get_or d [] [] h p = refl
  ext_get_or d [] (y ∷ ys) h p = absurd (omega arith)
  ext_get_or d (x ∷ xs) [] h p = absurd (omega arith)
  ext_get_or d (x ∷ xs) (y ∷ ys) h p =
      ap₂ (λ a b. a ∷ b) (p 0) (ext_get_or d xs ys (omega arith) (λ i. p (suc i)))

  pub get_or_beyond : (d : A) (xs : List A) (i : ℕ) → length xs ≤ i → get_or xs i d ≡ d
  get_or_beyond d [] i h = refl
  get_or_beyond d (x ∷ xs) zero h = absurd (omega arith)
  get_or_beyond d (x ∷ xs) (suc i) h = get_or_beyond d xs i (omega arith)

  pub get_or-take_lt :
      (d : A) (n : ℕ) (xs : List A) (i : ℕ) → i < n → get_or (take n xs) i d ≡ get_or xs i d
  get_or-take_lt d zero xs i h = absurd (omega arith)
  get_or-take_lt d (suc n) [] i h = refl
  get_or-take_lt d (suc n) (x ∷ xs) zero h = refl
  get_or-take_lt d (suc n) (x ∷ xs) (suc i) h = get_or-take_lt d n xs i (omega arith)

  pub get_elem?-lt :
      (d : A) (xs : List A) (i : ℕ) → i < length xs → get_elem? xs i ≡ some (get_or xs i d)
  get_elem?-lt d [] i h = absurd (omega arith)
  get_elem?-lt d (x ∷ xs) zero h = refl
  get_elem?-lt d (x ∷ xs) (suc i) h = get_elem?-lt d xs i (omega arith)

  pub All-append {κ} : (P : A → Type κ) (xs ys : List A) → All P xs → All P ys → All P (xs ++ ys)
  All-append P [] ys hx hy = hy
  All-append P (x ∷ xs) ys hx hy = (hx.0, All-append P xs ys hx.1 hy)

  pub All-take {κ} : (P : A → Type κ) (n : ℕ) (xs : List A) → All P xs → All P (take n xs)
  All-take P zero xs h = tt
  All-take P (suc n) [] h = tt
  All-take P (suc n) (x ∷ xs) h = (h.0, All-take P n xs h.1)

  pub All-drop {κ} : (P : A → Type κ) (n : ℕ) (xs : List A) → All P xs → All P (drop n xs)
  All-drop P zero xs h = h
  All-drop P (suc n) [] h = tt
  All-drop P (suc n) (x ∷ xs) h = All-drop P n xs h.1

pub length-map {ℓ κ} :
    {A : Type ℓ} {B : Type κ} (f : A → B) (xs : List A) → length (map f xs) ≡ length xs
length-map f [] = refl
length-map f (x ∷ xs) = ap suc (length-map f xs)

pub get_or-set_here : (xs : List ℕ) (i v : ℕ) → i < length xs → get_or (set xs i v) i 0 ≡ v
get_or-set_here [] i v h = absurd (omega arith)
get_or-set_here (x ∷ xs) zero v h = refl
get_or-set_here (x ∷ xs) (suc i) v h = get_or-set_here xs i v (omega arith)

pub get_or-set_there : (xs : List ℕ) (i k v : ℕ) → i ≢ k → get_or (set xs i v) k 0 ≡ get_or xs k 0
get_or-set_there [] i k v h = refl
get_or-set_there (x ∷ xs) zero zero v h = absurd (h refl)
get_or-set_there (x ∷ xs) zero (suc k) v h = refl
get_or-set_there (x ∷ xs) (suc i) zero v h = refl
get_or-set_there (x ∷ xs) (suc i) (suc k) v h = get_or-set_there xs i k v (λ e. h (ap suc e))

pub get_or-zeros : (n k : ℕ) → get_or {A = ℕ} (replicate n 0) k 0 ≡ 0
get_or-zeros zero k = refl
get_or-zeros (suc n) zero = refl
get_or-zeros (suc n) (suc k) = get_or-zeros n k
