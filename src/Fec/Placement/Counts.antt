-- ===== src/Fec/Placement/Counts.antt =====
-- How many members the links carried, and the best of these counts.
use mlvpn_rs.Common.{
  ℕ, suc, ◌+◌, ◌≤◌, ◌<◌, ◌≡◌, refl, sym, ap, ◌∙◌, ◌≢◌, ◌⊎◌, inl, inr, true, List, [], ◌∷◌, arith,
  max, min, length, ltb, ◌==◌, if◌then◌else◌, get_or, get_or-set_here, get_or-set_there, set,
  length-set, none, some, Bool-cases, Option-cases, subst, ==_refl, ne→==, ltb→lt, ltb→le,
}
use native.Mathlib.Decide.{ℕ_discrete}
use mlvpn_rs.Common.Maps.{contains}
use mlvpn_rs.Fec.Placement.{count_members, best_of}

-- How many members a link carried.
pub carried : ℕ → List ℕ → ℕ
carried k [] = 0
carried k (l ∷ links) = if l == k then suc (carried k links) else carried k links

pub get_or-count_members :
    (counts links : List ℕ) (k : ℕ)
    → k < length counts
    → get_or (count_members counts links) k 0 ≡ get_or counts k 0 + carried k links
unfolding count_members carried
get_or-count_members counts [] k h = omega arith
get_or-count_members counts (l ∷ links) k h = elim (Bool-cases (ltb l (length counts))) [
  | inr out ↦
      let le = ltb→le l (length counts) out in
      rw (out, ne→== l k (omega arith)) (get_or-count_members counts links k h)
  | inl inside ↦
      let lt = ltb→lt l (length counts) inside in
      let size = length-set counts l (get_or counts l 0 + 1) in
      let ih =
        get_or-count_members (set counts l (get_or counts l 0 + 1)) links k (omega (arith, size)) in
      elim (ℕ_discrete l k) [
        | yes e ↦
            let here = subst (λ j. (l == j) ≡ true) e (==_refl l) in
            let more =
              subst (λ j. get_or (set counts l (get_or counts l 0 + 1)) j 0 ≡ get_or counts j 0 + 1)
                e (get_or-set_here counts l (get_or counts l 0 + 1) lt) in
            rw (inside, here) (omega (arith, ih, more))
        | no n ↦
            rw (inside, ne→== l k n)
              (ih
                ∙ ap (λ c. c + carried k links)
                    (get_or-set_there counts l k (get_or counts l 0 + 1) n))
      ]
]

best_of_first :
    (pick : ℕ → ℕ → ℕ) (counts is : List ℕ) (i : ℕ)
    → best_of pick counts is ≡ none
    → best_of pick counts (i ∷ is) ≡ some (get_or counts i 0)
unfolding best_of
best_of_first pick counts is i z = rw (best_of, z) refl

best_of_later :
    (pick : ℕ → ℕ → ℕ) (counts is : List ℕ) (i b : ℕ)
    → best_of pick counts is ≡ some b
    → best_of pick counts (i ∷ is) ≡ some (pick (get_or counts i 0) b)
unfolding best_of
best_of_later pick counts is i b z = rw (best_of, z) refl

-- Without candidates there is no best one.
best_of-none : (pick : ℕ → ℕ → ℕ) (counts is : List ℕ) → best_of pick counts is ≡ none → is ≡ []
unfolding best_of
best_of-none pick counts [] e = refl
best_of-none pick counts (i ∷ is) e = elim (Option-cases (best_of pick counts is)) [
  | inl z ↦ absurd (none-ne-some (get_or counts i 0) (sym e ∙ best_of_first pick counts is i z))
  | inr (b, z) ↦
      absurd
        (none-ne-some (pick (get_or counts i 0) b) (sym e ∙ best_of_later pick counts is i b z))
]
  where
    none-ne-some : (b : ℕ) → none ≢ some b
    none-ne-some b h = ground arith

best_of-cons :
    (pick : ℕ → ℕ → ℕ) (counts is : List ℕ) (i best k : ℕ)
    → best_of pick counts (i ∷ is) ≡ some best
    → contains (i ∷ is) k ≡ true
    → ((k ≡ i) × ((best ≡ get_or counts i 0) ⊎ ((b : ℕ) × (best ≡ pick (get_or counts i 0) b))))
      ⊎ ((contains is k ≡ true)
          × ((b : ℕ) × (best_of pick counts is ≡ some b) × (best ≡ pick (get_or counts i 0) b)))
best_of-cons pick counts is i best k e h = elim (Option-cases (best_of pick counts is)) [
  | inl z ↦ elim (head_or_later is i k h) [
    | inl same ↦ inl (
      same,
      inl (some_injective best (get_or counts i 0) (sym e ∙ best_of_first pick counts is i z)),
    )
    | inr there ↦ absurd (nothing is k (best_of-none pick counts is z) there)
  ]
  | inr (b, z) ↦
      let m =
        some_injective best (pick (get_or counts i 0) b)
          (sym e ∙ best_of_later pick counts is i b z) in
      elim (head_or_later is i k h) [
        | inl same ↦ inl (same, inr (b, m))
        | inr there ↦ inr (there, (b, z, m))
      ]
]
  where
    some_injective : (x y : ℕ) → some x ≡ some y → x ≡ y
    some_injective x y q = ap (λ o. elim o [ none ↦ x | some n ↦ n ]) q

    head_or_later :
        (is : List ℕ) (i k : ℕ) → contains (i ∷ is) k ≡ true → (k ≡ i) ⊎ (contains is k ≡ true)
    head_or_later is i k h = unfold contains in ground arith

    nothing : (is : List ℕ) (k : ℕ) → is ≡ [] → contains is k ≢ true
    nothing is k z = rw z (unfold contains in λ q. ground arith)

pub best_of-max :
    (counts is : List ℕ) (best k : ℕ)
    → best_of max counts is ≡ some best
    → contains is k ≡ true
    → get_or counts k 0 ≤ best
best_of-max counts [] best k e h = unfold contains in absurd (ground arith)
best_of-max counts (i ∷ is) best k e h = elim (best_of-cons max counts is i best k e h) [
  | inl (same, inl z) ↦ rw same (omega arith)
  | inl (same, inr (b, z)) ↦ rw same (omega arith)
  | inr (there, (b, z, m)) ↦ omega (arith, best_of-max counts is b k z there, m)
]

pub best_of-min :
    (counts is : List ℕ) (best k : ℕ)
    → best_of min counts is ≡ some best
    → contains is k ≡ true
    → best ≤ get_or counts k 0
best_of-min counts [] best k e h = unfold contains in absurd (ground arith)
best_of-min counts (i ∷ is) best k e h = elim (best_of-cons min counts is i best k e h) [
  | inl (same, inl z) ↦ rw same (omega arith)
  | inl (same, inr (b, z)) ↦ rw same (omega arith)
  | inr (there, (b, z, m)) ↦ omega (arith, best_of-min counts is b k z there, m)
]
