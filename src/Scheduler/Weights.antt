-- ===== src/Scheduler/Weights.antt =====
-- src/scheduler.rs, what the operations on the weights keep: which links have entries, and that a pick
-- among entries finds one.
use mlvpn_rs.Common.{
  ℕ, zero, suc, ◌+◌, ◌≤◌, ◌<◌, ◌≡◌, inl, inr, refl, sym, subst, ap, ◌∙◌, some, List, [], ◌∷◌, map,
  length-map, All, arith, Bool-cases, Option-cases, ==_refl, length, set, get_elem?, ok,
}
use mlvpn_rs.Common.Maps.{lookup, insert, contains}
use mlvpn_rs.Scheduler.{SwrrEntry, RateLimitState, LinkView}
use mlvpn_rs.Scheduler.Floats.{Float}
use mlvpn_rs.Scheduler.Pick.{
  range_from, scan_caps, under_cap, limit_or_new, weight_of, current_of, total_weight, add_weight,
  advance_weights, sub_weight, index_at, pick_among, swrr_pick, up_indices,
}
use mlvpn_rs.Scheduler.Order.{Has, max_by-All, max_by-some, All-weaken}

-- The links that have an entry.
abbrev pub indexes : {F : Type 0} → List (SwrrEntry F) → List ℕ
indexes es = map (λ e. e.link_index) es

indexes-set :
    {F : Type 0} (es : List (SwrrEntry F)) (pos : ℕ) {e : SwrrEntry F} (w : F)
    → get_elem? es pos ≡ some e
    → indexes (set es pos (record e { current_weight = w })) ≡ indexes es
indexes-set [] pos w h = refl
indexes-set (x ∷ es) zero {e = e} w h =
    let same : x ≡ e = ground arith in ap (λ i. i ∷ indexes es) (ap (λ y. y.link_index) (sym same))
indexes-set (x ∷ es) (suc pos) w h = ap (◌∷◌ x.link_index) (indexes-set es pos w h)

get_elem?-Has :
    {F : Type 0} (es : List (SwrrEntry F)) (pos : ℕ) {e : SwrrEntry F}
    → get_elem? es pos ≡ some e
    → Has (indexes es) e.link_index
unfolding contains
get_elem?-Has [] pos h = cc
get_elem?-Has (x ∷ es) zero {e = e} h =
    let same : x ≡ e = ground arith in rw (same, ==_refl e.link_index) refl
get_elem?-Has (x ∷ es) (suc pos) {e = e} h = let there = get_elem?-Has es pos h in ground arith

get_elem?-within :
    {F : Type 0} (es : List (SwrrEntry F)) (pos : ℕ)
    → pos < length es
    → (e : SwrrEntry F) × (get_elem? es pos ≡ some e)
get_elem?-within [] pos h = absurd (omega arith)
get_elem?-within (x ∷ es) zero h = (x, refl)
get_elem?-within (x ∷ es) (suc pos) h = get_elem?-within es pos (omega arith)

pub below_weaken : (n m : ℕ) (xs : List ℕ) → n ≤ m → All (λ p. p < n) xs → All (λ p. p < m) xs
below_weaken n m [] h a = tt
below_weaken n m (x ∷ xs) h a = let first = a.0 in (omega arith, below_weaken n m xs h a.1)

range_from-All : (pos n : ℕ) → All (λ p. p < pos + n) (range_from pos n)
unfolding range_from
range_from-All pos zero = tt
range_from-All pos (suc n) = (
  omega arith,
  below_weaken (suc pos + n) (pos + suc n) (range_from (suc pos) n) (omega arith)
      (range_from-All (suc pos) n),
)

module _ {F : Type 0} ⦃f64 : Float F⦄ where
  indexes-add_weight :
      (pos : ℕ) (w : F) (es : List (SwrrEntry F)) → indexes (add_weight pos w es) ≡ indexes es
  unfolding add_weight
  indexes-add_weight pos w es = elim (Option-cases (get_elem? es pos)) [
    | inl out ↦ rw (add_weight, out) refl
    | inr (e, there) ↦
        rw (add_weight, there) (indexes-set es pos (f64.add e.current_weight w) there)
  ]

  indexes-sub_weight :
      (pos : ℕ) (w : F) (es : List (SwrrEntry F)) → indexes (sub_weight pos w es) ≡ indexes es
  unfolding sub_weight
  indexes-sub_weight pos w es = elim (Option-cases (get_elem? es pos)) [
    | inl out ↦ rw (sub_weight, out) refl
    | inr (e, there) ↦
        rw (sub_weight, there) (indexes-set es pos (f64.sub e.current_weight w) there)
  ]

  indexes-advance_weights :
      (eligible : List ℕ) (es : List (SwrrEntry F))
      → indexes (advance_weights eligible es) ≡ indexes es
  unfolding advance_weights
  indexes-advance_weights [] es = refl
  indexes-advance_weights (pos ∷ rest) es =
      indexes-advance_weights rest (add_weight pos (weight_of (get_elem? es pos)) es)
      ∙ indexes-add_weight pos (weight_of (get_elem? es pos)) es

  -- A pick among positions of entries succeeds, changes only weights, and returns the index of an entry.
  pub pick_among-Has :
      (pos : ℕ) (rest : List ℕ) (es : List (SwrrEntry F))
      → All (λ p. p < length es) (pos ∷ rest)
      → (next : List (SwrrEntry F)) × (idx : ℕ) × (pick_among (pos ∷ rest) es ≡ ok (next, idx))
        × (indexes next ≡ indexes es)
        × Has (indexes es) idx
  unfolding pick_among index_at
  pick_among-Has pos rest es inside =
      let advanced = advance_weights (pos ∷ rest) es in
      let le = λ (a b : ℕ).
        f64.total_le (current_of (get_elem? advanced a)) (current_of (get_elem? advanced b)) in
      let (winner, best) = max_by-some le pos rest in
      let at = max_by-All (λ p. p < length es) le (pos ∷ rest) inside best in
      let same_indexes = indexes-advance_weights (pos ∷ rest) es in
      let same_length : length advanced ≡ length es =
        sym (length-map (λ e. e.link_index) advanced)
        ∙ ap length same_indexes
        ∙ length-map (λ e. e.link_index) es in
      let (e, there) = get_elem?-within advanced winner (omega arith) in
      let total = total_weight es f64.zero_value (pos ∷ rest) in
      let picked : pick_among (pos ∷ rest) es
          ≡ ok (sub_weight winner total advanced, e.link_index) =
        rw (pick_among, best, index_at, there) refl in
      (
        sub_weight winner total advanced,
        e.link_index,
        picked,
        indexes-sub_weight winner total advanced ∙ same_indexes,
        subst (λ is. Has is e.link_index) same_indexes (get_elem?-Has advanced winner there),
      )

  pub swrr_pick-Has :
      (e : SwrrEntry F) (es : List (SwrrEntry F))
      → (next : List (SwrrEntry F)) × (idx : ℕ) × (swrr_pick (e ∷ es) ≡ ok (next, idx))
        × (indexes next ≡ indexes (e ∷ es))
        × Has (indexes (e ∷ es)) idx
  unfolding swrr_pick range_from
  swrr_pick-Has e es = pick_among-Has 0 (range_from 1 (length es)) (e ∷ es) (
    omega arith,
    below_weaken (1 + length es) (suc (length es)) (range_from 1 (length es)) (omega arith)
        (range_from-All 1 (length es)),
  )

  pub scan_caps-All :
      (now len pos : ℕ) (es : List (SwrrEntry F)) (limits : List (ℕ × RateLimitState))
      → All (λ p. p < pos + length es) (scan_caps now len pos es limits).0
  unfolding scan_caps
  scan_caps-All now len pos [] limits = tt
  scan_caps-All now len pos (e ∷ es) limits = elim (Option-cases e.bandwidth_cap_mbps) [
    | inl free ↦ rw free (
      omega arith,
      below_weaken (suc pos + length es) (pos + suc (length es))
          (scan_caps now len (suc pos) es limits).0 (omega arith)
          (scan_caps-All now len (suc pos) es limits),
    )
    | inr (cap_mbps, capped) ↦
        let after =
          insert e.link_index
            (under_cap now cap_mbps len (limit_or_new now (lookup e.link_index limits))).0 limits in
        let rest =
          below_weaken (suc pos + length es) (pos + suc (length es))
            (scan_caps now len (suc pos) es after).0 (omega arith)
            (scan_caps-All now len (suc pos) es after) in
        rw capped
          (elim (Bool-cases
            (under_cap now cap_mbps len (limit_or_new now (lookup e.link_index limits))).1) [
              | inl under ↦ rw under (omega arith, rest)
              | inr over ↦ rw over rest
            ])
  ]

  pub up_indices-All :
      (i : ℕ) (links : List (LinkView F)) → All (λ u. u.0 < i + length links) (up_indices i links)
  unfolding up_indices
  up_indices-All i [] = tt
  up_indices-All i (l ∷ ls) =
      let rest =
        All-weaken {P = λ u. u.0 < suc i + length ls} {Q = λ u. u.0 < i + suc (length ls)}
          (up_indices (suc i) ls) (λ u h. omega arith) (up_indices-All (suc i) ls) in
      elim (Bool-cases (f64.gt l.score f64.zero_value)) [
        | inl up ↦ rw up (omega arith, rest)
        | inr down ↦ rw down rest
      ]
