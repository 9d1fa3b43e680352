-- ===== src/Fec/Placement/Beats.antt =====
-- What distinguishes the link that is chosen.
use mlvpn_rs.Common.{
  ℕ, zero, suc, ◌+◌, ◌-◌, ◌≤◌, ◌<◌, ◌≡◌, refl, sym, ap, ◌∙◌, ◌≢◌, inl, inr, Bool, true, false, ◌||◌,
  List, [], ◌∷◌, arith, max, min, length, ◌==◌, get_or, get_or-zeros, replicate, length-replicate,
  none, some, Bool-cases, Option-cases, subst, ==_refl, ne→==, ==→ne,
}
use native.Mathlib.Decide.{ℕ_discrete}
use mlvpn_rs.Common.Maps.{contains}
use mlvpn_rs.Fec.Placement.{
  FecParityPlacement, by_scheduler, dominant, diverse, count_members, candidates, best_of, hits,
  only_hit, choose_by_count, choose_parity_link,
}
use mlvpn_rs.Fec.Placement.Counts.{carried, get_or-count_members, best_of-max, best_of-min}

-- What distinguishes the chosen link from another one, by the members that they carried.
pub Beats : FecParityPlacement → ℕ → ℕ → Type 0
Beats by_scheduler a b = ⊥
Beats dominant a b = b < a
Beats diverse a b = a < b

-- How many members the chosen link carried: some, for dominant placement, and by the scheduler's placement
-- none is chosen.
pub Merits : FecParityPlacement → ℕ → Type 0
Merits by_scheduler a = ⊥
Merits dominant a = 0 < a
Merits diverse a = 0 ≤ a

contains-hits :
    (counts is : List ℕ) (best k : ℕ)
    → contains is k ≡ true
    → get_or counts k 0 ≡ best
    → contains (hits counts best is) k ≡ true
unfolding hits contains
contains-hits counts [] best k h e = h
contains-hits counts (i ∷ is) best k h e = ground (arith, contains-hits counts is best k, e)

hits-contains :
    (counts is : List ℕ) (best k : ℕ)
    → contains (hits counts best is) k ≡ true
    → (contains is k ≡ true) × (get_or counts k 0 ≡ best)
unfolding hits contains
hits-contains counts [] best k h = absurd (ground arith)
hits-contains counts (i ∷ is) best k h = ground (arith, hits-contains counts is best k)

later_usable :
    (i k : ℕ) (u : Bool) (us : List Bool)
    → (i + 1 ≤ k) × (get_or us (k - (i + 1)) false ≡ true)
    → (i ≤ k) × (get_or (u ∷ us) (k - i) false ≡ true)
later_usable i k u us (le, e) =
    let s : k - i ≡ suc (k - (i + 1)) = omega arith in (omega arith, rw s e)

contains-candidates :
    (i k : ℕ) (us : List Bool)
    → contains (candidates i us) k ≡ true
    → (i ≤ k) × (get_or us (k - i) false ≡ true)
unfolding candidates contains
contains-candidates i k [] h = absurd (ground arith)
contains-candidates i k (false ∷ us) h =
    later_usable i k false us (contains-candidates (i + 1) k us h)
contains-candidates i k (true ∷ us) h = elim (ℕ_discrete i k) [
  | yes e ↦ let z : k - i ≡ 0 = omega arith in (omega arith, rw z refl)
  | no n ↦
      let there : contains (candidates (i + 1) us) k ≡ true =
        ap (λ b. b || contains (candidates (i + 1) us) k) (sym (ne→== i k n)) ∙ h in
      later_usable i k true us (contains-candidates (i + 1) k us there)
]

candidates-contains :
    (i k : ℕ) (us : List Bool)
    → i ≤ k
    → get_or us (k - i) false ≡ true
    → contains (candidates i us) k ≡ true
unfolding candidates contains
candidates-contains i k [] le e = absurd (ground arith)
candidates-contains i k (u ∷ us) le e = elim (ℕ_discrete i k) [
  | yes same ↦
      let z : k - i ≡ 0 = omega arith in
      let here = subst (λ j. (i == j) ≡ true) same (==_refl i) in
      let on : u ≡ true = rw z at e in rw (on, here) refl
  | no other ↦
      let s : k - i ≡ suc (k - (i + 1)) = omega arith in
      let rest : get_or us (k - (i + 1)) false ≡ true = rw s at e in
      let ih = candidates-contains (i + 1) k us (omega arith) rest in
      elim (Bool-cases u) [ inl on ↦ rw (on, ne→== i k other) ih | inr off ↦ rw off ih ]
]

only_hit-eq : (is : List ℕ) (i : ℕ) → only_hit is ≡ some i → is ≡ i ∷ []
unfolding only_hit
only_hit-eq [] i e = absurd (ground arith)
only_hit-eq (j ∷ []) i e = ap (λ o. elim o [ none ↦ j ∷ [] | some x ↦ x ∷ [] ]) e
only_hit-eq (j ∷ l ∷ is) i e = absurd (ground arith)

-- The chosen link is a candidate with the best count, and the only one.
only_hit-best :
    (counts links : List ℕ) (best i : ℕ)
    → only_hit (hits counts best links) ≡ some i
    → (contains links i ≡ true)
      × (get_or counts i 0 ≡ best)
      × ((k : ℕ) → contains links k ≡ true → k ≢ i → get_or counts k 0 ≢ best)
only_hit-best counts links best i e =
    let h = only_hit-eq (hits counts best links) i e in
    let here : contains (hits counts best links) i ≡ true =
      ap (λ l. contains l i) h ∙ (unfold contains in rw (==_refl i) refl) in
    let (c, b) = hits-contains counts links best i here in
    (
      c,
      b,
      λ k ck n eq.
          n (member k (sym (ap (λ l. contains l k) h) ∙ contains-hits counts links best k ck eq)),
    )
  where
    member : (k : ℕ) → contains (i ∷ []) k ≡ true → k ≡ i
    member k m = unfold contains in ground arith

-- What the choice by counts guarantees.
choose_by_count-Beats :
    (placement : FecParityPlacement) (counts links : List ℕ) (i : ℕ)
    → choose_by_count placement counts links ≡ some i
    → (contains links i ≡ true)
      × Merits placement (get_or counts i 0)
      × ((k : ℕ)
          → contains links k ≡ true
          → k ≢ i
          → Beats placement (get_or counts i 0) (get_or counts k 0))
unfolding choose_by_count Beats Merits
choose_by_count-Beats by_scheduler counts links i e = absurd (ground arith)
choose_by_count-Beats dominant counts links i e = elim (Option-cases (best_of max counts links)) [
  | inl z ↦ absurd (none-ne-some i (rw (choose_by_count, z) at e))
  | inr (best, z) ↦ elim (Bool-cases (best == 0)) [
    | inl none_carried ↦ absurd (none-ne-some i (rw (choose_by_count, z, none_carried) at e))
    | inr more ↦
        let (c, b, others) =
          only_hit-best counts links best i (rw (choose_by_count, z, more) at e) in
        (
          c,
          omega (arith, ==→ne best 0 more),
          λ k ck n.
              let le = best_of-max counts links best k z ck in
              let ne = others k ck n in omega arith,
        )
  ]
]
  where
    none-ne-some : (b : ℕ) → none ≢ some b
    none-ne-some b h = ground arith
choose_by_count-Beats diverse counts links i e = elim (Option-cases (best_of min counts links)) [
  | inl z ↦ absurd (none-ne-some i (rw (choose_by_count, z) at e))
  | inr (best, z) ↦
      let (c, b, others) = only_hit-best counts links best i (rw (choose_by_count, z) at e) in
      (
        c,
        omega arith,
        λ k ck n.
            let le = best_of-min counts links best k z ck in let ne = others k ck n in omega arith,
      )
]
  where
    none-ne-some : (b : ℕ) → none ≢ some b
    none-ne-some b h = ground arith

usable-lt : (us : List Bool) (k : ℕ) → get_or us k false ≡ true → k < length us
usable-lt [] k e = absurd (ground arith)
usable-lt (u ∷ us) zero e = omega arith
usable-lt (u ∷ us) (suc k) e = omega (arith, usable-lt us k e)

-- If a link is chosen for the parity of a group, it is usable, and of all usable links it carried
-- strictly the most members, and at least one, for dominant placement, or strictly the fewest, for
-- diverse placement; with the scheduler's placement none is chosen.
pub choose_parity_link-Beats :
    (placement : FecParityPlacement) (member_links : List ℕ) (usable : List Bool) (i : ℕ)
    → choose_parity_link placement member_links usable ≡ some i
    → (get_or usable i false ≡ true)
      × Merits placement (carried i member_links)
      × ((k : ℕ)
          → get_or usable k false ≡ true
          → k ≢ i
          → Beats placement (carried i member_links) (carried k member_links))
unfolding choose_parity_link
choose_parity_link-Beats placement member_links usable i e =
    let counts = count_members (replicate (length usable) 0) member_links in
    let (c, merits, others) = choose_by_count-Beats placement counts (candidates 0 usable) i e in
    let on = usable_at i c in
    (
      on,
      subst (Merits placement) (counted i on) merits,
      λ k uk n.
          subst (λ a. Beats placement a (carried k member_links)) (counted i on)
            (subst (Beats placement (get_or counts i 0)) (counted k uk)
              (others k (candidates-contains 0 k usable (omega arith) (usable_from k uk)) n)),
    )
  where
    usable_at : (k : ℕ) → contains (candidates 0 usable) k ≡ true → get_or usable k false ≡ true
    usable_at k c =
        let z : k - 0 ≡ k = omega arith in
        sym (ap (λ j. get_or usable j false) z) ∙ (contains-candidates 0 k usable c).1

    usable_from : (k : ℕ) → get_or usable k false ≡ true → get_or usable (k - 0) false ≡ true
    usable_from k u = let z : k - 0 ≡ k = omega arith in ap (λ j. get_or usable j false) z ∙ u

    counted :
        (k : ℕ)
        → get_or usable k false ≡ true
        → get_or (count_members (replicate (length usable) 0) member_links) k 0
          ≡ carried k member_links
    counted k u =
        get_or-count_members (replicate (length usable) 0) member_links k (
          omega
            (arith, usable-lt usable k u, length-replicate (length usable) (let z : ℕ = 0 in z)))
        ∙ omega (arith, get_or-zeros (length usable) k)
