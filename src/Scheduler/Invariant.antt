-- ===== src/Scheduler/Invariant.antt =====
-- What every operation of the scheduler keeps: the published primary is the primary, which is a link that
-- is up, and the links that are up are links of the tunnel.
use mlvpn_rs.Common.{
  ℕ, ◌+◌, ◌≡◌, inl, inr, refl, subst, true, not, Option, none, some, List, [], ◌∷◌, arith,
  Bool-cases, Option-cases, ◌==◌, leb,
}
use mlvpn_rs.Common.Maps.{contains}
use mlvpn_rs.Scheduler.{
  Scheduler, SchedulerConfig, Scores, set_primary, primary_or_none, keep_if, any, best_up,
  best_other, index_of_best, is_same, advance_candidate, with_primary_up, peer_choice,
  primary_score, score_of, refresh_from_scores, beats_by_margin,
}
use mlvpn_rs.Scheduler.Floats.{Float}
use mlvpn_rs.Scheduler.Order.{indices, Has, All-Has, lookup-Has, max_by-All, keep_if-All}

-- The primary that is published is the primary, and one of `is`.
pub record IsChosen {F C D : Type 0} (is : List ℕ) (s : Scheduler F C D) : Type 0 where
  pub published : s.primary_published ≡ primary_or_none s.primary
  pub primary_up : (i : ℕ) → s.primary ≡ some i → Has is i

any-Has :
    {F : Type 0} (idx : ℕ) (us : Scores F) → any (λ u. u.0 == idx) us ≡ true → Has (indices us) idx
unfolding any contains
any-Has idx [] h = cc
any-Has idx (u ∷ us) h = elim (Bool-cases (u.0 == idx)) [
  | inl here ↦ rw here refl
  | inr on ↦ let there = any-Has idx us (rw on at h) in ground arith
]

peer_choice-Has :
    {F : Type 0} (peer : Option ℕ) (ups : Scores F) (i : ℕ)
    → peer_choice peer ups ≡ some i
    → Has (indices ups) i
unfolding peer_choice
peer_choice-Has none ups i e = cc
peer_choice-Has (some idx) ups i e = elim (Bool-cases (any (λ u. u.0 == idx) ups)) [
  | inl up ↦
      let same : idx ≡ i = ground arith in subst (Has (indices ups)) same (any-Has idx ups up)
  | inr down ↦ ground arith
]

primary_score-Has :
    {F : Type 0} (p : Option ℕ) (ups : Scores F) {score : F}
    → primary_score p ups ≡ some score
    → (i : ℕ) → p ≡ some i
    → Has (indices ups) i
unfolding primary_score score_of
primary_score-Has none ups e i p_i = cc
primary_score-Has (some idx) ups e i p_i =
    let same : idx ≡ i = ground arith in subst (Has (indices ups)) same (lookup-Has idx ups e)

module _ {F : Type 0} ⦃f64 : Float F⦄ where
  best_up-Has :
      (ups : Scores F) (i : ℕ) → index_of_best (best_up ups) ≡ some i → Has (indices ups) i
  unfolding best_up
  best_up-Has ups i e = elim (Option-cases (best_up ups)) [
    | inl empty ↦ ground arith
    | inr (best, found) ↦
        let there =
          max_by-All (λ u. Has (indices ups) u.0) (λ a b. f64.total_le a.1 b.1) ups (All-Has ups)
            found in
        let same : best.0 ≡ i = ground arith in subst (Has (indices ups)) same there
  ]

  best_other-Has :
      (p : Option ℕ) (ups : Scores F) {best : ℕ × F}
      → best_other p ups ≡ some best
      → Has (indices ups) best.0
  unfolding best_other best_up
  best_other-Has p ups e =
      let kept = keep_if (λ u. not (is_same u.0 p)) ups in
      max_by-All (λ u. Has (indices ups) u.0) (λ a b. f64.total_le a.1 b.1) kept
        (keep_if-All (λ u. Has (indices ups) u.0) (λ u. not (is_same u.0 p)) ups (All-Has ups)) e

module _ {F C D : Type 0} ⦃f64 : Float F⦄ where
  set_primary-IsChosen :
      (is : List ℕ) (p : Option ℕ) (s : Scheduler F C D)
      → ((i : ℕ) → p ≡ some i → Has is i)
      → IsChosen is (record (set_primary p s) { candidate = none })
  unfolding set_primary
  set_primary-IsChosen is p s h = record { published = refl; primary_up = h }

  advance_candidate-IsChosen :
      (is : List ℕ) (threshold other : ℕ) (s : Scheduler F C D)
      → IsChosen is s
      → Has is other
      → IsChosen is (advance_candidate threshold other s)
  unfolding advance_candidate set_primary
  advance_candidate-IsChosen is threshold other s c h = elim (Option-cases s.candidate) [
    | inl fresh ↦ rw fresh (record { published = c.published; primary_up = c.primary_up })
    | inr ((idx, count), there) ↦ rw there (elim (Bool-cases (idx == other)) [
      | inr changed ↦ rw changed (record { published = c.published; primary_up = c.primary_up })
      | inl same ↦ rw same (elim (Bool-cases (leb threshold (count + 1))) [
        | inl reached ↦ rw reached (record {
          published = refl;
          primary_up = λ i e. let o : other ≡ i = ground arith in subst (Has is) o h;
        })
        | inr short ↦ rw short (record { published = c.published; primary_up = c.primary_up })
      ])
    ])
  ]

  with_primary_up-IsChosen :
      (threshold : ℕ) (ups : Scores F) (score : F) (s : Scheduler F C D)
      → IsChosen (indices ups) s
      → IsChosen (indices ups) (with_primary_up threshold ups score s)
  unfolding with_primary_up
  with_primary_up-IsChosen threshold ups score s c =
      elim (Option-cases (best_other s.primary ups)) [
        | inl alone ↦
            rw (with_primary_up, alone)
              (record { published = c.published; primary_up = c.primary_up })
        | inr ((other, other_score), found) ↦
            rw (with_primary_up, found)
              (elim (Bool-cases (beats_by_margin other_score score)) [
                | inl ahead ↦ rw ahead (
                    advance_candidate-IsChosen (indices ups) threshold other s c
                      (best_other-Has s.primary ups found))
                | inr behind ↦
                    rw behind (record { published = c.published; primary_up = c.primary_up })
              ])
      ]

  pub refresh_from_scores-IsChosen :
      (ups : Scores F) (cfg : SchedulerConfig) (peer : Option ℕ) (s : Scheduler F C D)
      → s.primary_published ≡ primary_or_none s.primary
      → IsChosen (indices ups) (refresh_from_scores ups cfg peer s)
  unfolding refresh_from_scores
  refresh_from_scores-IsChosen ups cfg peer s published =
      elim (Bool-cases cfg.follow_peer_primary) [
        | inl follow ↦
            rw follow (
              set_primary-IsChosen (indices ups) (peer_choice peer ups) s
                (peer_choice-Has peer ups))
        | inr own ↦ rw own (elim (Bool-cases cfg.primary_link_mode) [
          | inr bonded ↦ rw bonded (set_primary-IsChosen (indices ups) none s (λ i e. cc))
          | inl on ↦ rw on (elim (Option-cases (primary_score s.primary ups)) [
            | inl down ↦ rw down (
                set_primary-IsChosen (indices ups) (index_of_best (best_up ups)) s
                  (best_up-Has ups))
            | inr (score, up) ↦
                let c : IsChosen (indices ups) s = record {
                  published = published;
                  primary_up = primary_score-Has s.primary ups up;
                } in
                rw up (with_primary_up-IsChosen cfg.up_threshold ups score s c)
          ])
        ])
      ]
