-- ===== src/Scheduler/Order.antt =====
-- What `max_by`, `min_by` and `filter` keep of a list, and the indices that stand in a list of links.
use mlvpn_rs.Common.{
  ℕ, ◌≡◌, ◌⊎◌, inl, inr, refl, sym, subst, Bool, true, some, List, [], ◌∷◌, map, All, arith,
  Bool-cases, ◌==◌, ==_refl, ==→eq,
}
use mlvpn_rs.Common.Maps.{lookup, contains}
use mlvpn_rs.Scheduler.{max_onto, max_by, min_onto, keep_if}

module _ {ℓ} {A : Type ℓ} where
  pub All-weaken {κ₁ κ₂} :
      {P : A → Type κ₁} {Q : A → Type κ₂} (xs : List A)
      → ((a : A) → P a → Q a)
      → All P xs
      → All Q xs
  All-weaken [] w h = tt
  All-weaken (x ∷ xs) w h = (w x h.0, All-weaken xs w h.1)

  pub max_onto-All {κ} :
      (P : A → Type κ) (le : A → A → Bool) (x : A) (xs : List A)
      → P x
      → All P xs
      → P (max_onto le x xs)
  unfolding max_onto
  max_onto-All P le x [] hx h = hx
  max_onto-All P le x (y ∷ ys) hx h = elim (Bool-cases (le x y)) [
    | inl up ↦ rw up (max_onto-All P le y ys h.0 h.1)
    | inr stay ↦ rw stay (max_onto-All P le x ys hx h.1)
  ]

  pub max_by-All {κ} :
      (P : A → Type κ) (le : A → A → Bool) (xs : List A) {m : A}
      → All P xs
      → max_by le xs ≡ some m
      → P m
  unfolding max_by
  max_by-All P le [] {m = m} h e = cc
  max_by-All P le (x ∷ xs) {m = m} h e =
      let same : max_onto le x xs ≡ m = ground arith in rw (← same) (max_onto-All P le x xs h.0 h.1)

  pub max_by-some :
      (le : A → A → Bool) (x : A) (xs : List A) → (m : A) × (max_by le (x ∷ xs) ≡ some m)
  unfolding max_by
  max_by-some le x xs = (max_onto le x xs, refl)

  pub min_onto-All {κ} :
      (P : A → Type κ) (le : A → A → Bool) (x : A) (xs : List A)
      → P x
      → All P xs
      → P (min_onto le x xs)
  unfolding min_onto
  min_onto-All P le x [] hx h = hx
  min_onto-All P le x (y ∷ ys) hx h = elim (Bool-cases (le x y)) [
    | inl stay ↦ rw stay (min_onto-All P le x ys hx h.1)
    | inr down ↦ rw down (min_onto-All P le y ys h.0 h.1)
  ]

  pub keep_if-All {κ} :
      (P : A → Type κ) (p : A → Bool) (xs : List A) → All P xs → All P (keep_if p xs)
  unfolding keep_if
  keep_if-All P p [] h = tt
  keep_if-All P p (x ∷ xs) h = elim (Bool-cases (p x)) [
    | inl kept ↦ rw kept (h.0, keep_if-All P p xs h.1)
    | inr left ↦ rw left (keep_if-All P p xs h.1)
  ]

  -- The greatest element is one, for a total and transitive test.
  module _ (le : A → A → Bool) (total : (a b : A) → (le a b ≡ true) ⊎ (le b a ≡ true))
      (trans : (a b c : A) → le a b ≡ true → le b c ≡ true → le a c ≡ true) where
    abbrev Above : A → List A → A → Type 0
    Above x xs m = (le x m ≡ true) × All (λ y. le y m ≡ true) xs

    max_onto-Bounds : (x : A) (xs : List A) → Above x xs (max_onto le x xs)
    unfolding max_onto
    max_onto-Bounds x [] = (elim (total x x) [ inl e ↦ e | inr e ↦ e ], tt)
    max_onto-Bounds x (y ∷ ys) = elim (Bool-cases (le x y)) [
      | inl up ↦
          let (first, rest) = max_onto-Bounds y ys in
          let same : max_onto le x (y ∷ ys) ≡ max_onto le y ys = rw (max_onto, up) refl in
          subst (Above x (y ∷ ys)) (sym same) (trans x y (max_onto le y ys) up first, (first, rest))
      | inr stay ↦
          let (first, rest) = max_onto-Bounds x ys in
          let down : le y x ≡ true = elim (total x y) [ inl e ↦ cc | inr e ↦ e ] in
          let same : max_onto le x (y ∷ ys) ≡ max_onto le x ys = rw (max_onto, stay) refl in
          subst (Above x (y ∷ ys)) (sym same)
            (first, (trans y x (max_onto le x ys) down first, rest))
    ]

    pub max_by-Bounds : (xs : List A) {m : A} → max_by le xs ≡ some m → All (λ y. le y m ≡ true) xs
    unfolding max_by
    max_by-Bounds [] {m = m} e = tt
    max_by-Bounds (x ∷ xs) {m = m} e =
        let same : max_onto le x xs ≡ m = ground arith in
        let all = subst (Above x xs) same (max_onto-Bounds x xs) in (all.0, all.1)

-- The indices of a list of scores.
abbrev pub indices {ℓ} : {V : Type ℓ} → List (ℕ × V) → List ℕ
indices xs = map (λ u. u.0) xs

-- `i` is among the indices.
abbrev pub Has : List ℕ → ℕ → Type 0
Has is i = contains is i ≡ true

pub Has-cons : (j : ℕ) (is : List ℕ) (i : ℕ) → Has is i → Has (j ∷ is) i
unfolding contains
Has-cons j is i h = ground arith

pub All-Has {ℓ} : {V : Type ℓ} (us : List (ℕ × V)) → All (λ u. Has (indices us) u.0) us
unfolding contains
All-Has [] = tt
All-Has (u ∷ us) = (
  ground (arith, ==_refl u.0),
  All-weaken us (λ v h. Has-cons u.0 (indices us) v.0 h) (All-Has us),
)

pub lookup-Has {ℓ} :
    {V : Type ℓ} (i : ℕ) (us : List (ℕ × V)) {v : V} → lookup i us ≡ some v → Has (indices us) i
unfolding lookup contains
lookup-Has i [] e = cc
lookup-Has i ((j, w) ∷ us) e = elim (Bool-cases (j == i)) [
  | inl here ↦ rw here refl
  | inr on ↦ let there = lookup-Has i us (rw on at e) in ground arith
]

pub Has-All {κ} : (P : ℕ → Type κ) (is : List ℕ) (i : ℕ) → All P is → Has is i → P i
unfolding contains
Has-All P [] i h e = cc
Has-All P (j ∷ is) i h e = elim (Bool-cases (j == i)) [
  | inl here ↦ let same = ==→eq j i here in rw (← same) h.0
  | inr on ↦ Has-All P is i h.1 (rw on at e)
]
