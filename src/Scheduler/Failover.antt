-- ===== src/Scheduler/Failover.antt =====
-- src/scheduler.rs, `refresh_from_scores` where the primary is not up: the best link takes over at once.
use mlvpn_rs.Common.{
  ℕ, ◌≡◌, inl, inr, refl, ap, ◌∙◌, true, Option, none, some, [], ◌∷◌, All, Option-cases, ◌⊎◌,
}
use mlvpn_rs.Common.Maps.{lookup}
use mlvpn_rs.Scheduler.{
  Scheduler, SchedulerConfig, Scores, set_primary, index_of_best, best_up, max_by, primary_score,
  score_of, refresh_from_scores,
}
use mlvpn_rs.Scheduler.Floats.{Float}
use mlvpn_rs.Scheduler.Order.{max_by-Bounds, max_by-All, max_by-some, All-weaken}
use mlvpn_rs.Scheduler.Streak.{ChoosesPrimary}

-- The primary, if there is one, is not up.
abbrev pub IsDown : {F : Type 0} → Option ℕ → Scores F → Type 0
IsDown none ups = Unit {0}
IsDown (some p) ups = lookup p ups ≡ none

-- A link and its score stand in the list.
abbrev pub Among : {F : Type 0} → ℕ × F → Scores F → Type 0
Among v [] = ⊥
Among v (u ∷ us) = (u ≡ v) ⊎ Among v us

All-Among : {F : Type 0} (us : Scores F) → All (λ u. Among u us) us
All-Among [] = tt
All-Among (u ∷ us) = (inl refl, All-weaken us (λ v there. inr there) (All-Among us))

module _ {F C D : Type 0} ⦃f64 : Float F⦄ where
  refresh-IsDown :
      (cfg : SchedulerConfig) (ups : Scores F) (peer : Option ℕ) (s : Scheduler F C D)
      → ChoosesPrimary cfg
      → IsDown s.primary ups
      → (refresh_from_scores ups cfg peer s).primary ≡ index_of_best (best_up ups)
  unfolding refresh_from_scores primary_score score_of set_primary
  refresh-IsDown cfg ups peer s mode down = elim (Option-cases s.primary) [
    | inl off ↦ simp (refresh_from_scores, mode.own, mode.on, off) refl
    | inr (p, on) ↦
        let gone : lookup p ups ≡ none = rw on at down in
        simp (refresh_from_scores, mode.own, mode.on, on, gone) refl
  ]

  -- When the scheduler chooses the primary by itself and has none, or the primary is not up, a refresh
  -- makes a link the primary at once that is up and that no link that is up exceeds in score, and leaves
  -- the tunnel without a primary exactly if no link is up.
  pub failover_best :
      (cfg : SchedulerConfig) (ups : Scores F) (peer : Option ℕ) (s : Scheduler F C D)
      → ChoosesPrimary cfg
      → IsDown s.primary ups
      → ((ups ≡ []) × ((refresh_from_scores ups cfg peer s).primary ≡ none))
        ⊎ ((i : ℕ) × (score : F) × ((refresh_from_scores ups cfg peer s).primary ≡ some i)
            × Among (i, score) ups
            × All (λ u. f64.total_le u.1 score ≡ true) ups)
  unfolding best_up max_by
  failover_best cfg [] peer s mode down = inl (refl, refresh-IsDown cfg [] peer s mode down)
  failover_best cfg (u ∷ us) peer s mode down =
      let le = λ (a b : ℕ × F). f64.total_le a.1 b.1 in
      let ((i, score), found) = max_by-some le u us in
      inr (
        i,
        score,
        refresh-IsDown cfg (u ∷ us) peer s mode down ∙ ap index_of_best found,
        max_by-All (λ v. Among v (u ∷ us)) le (u ∷ us) (All-Among (u ∷ us)) found,
        max_by-Bounds le (λ a b. f64.total_le_total a.1 b.1)
            (λ a b c. f64.total_le_trans a.1 b.1 c.1) (u ∷ us) found,
      )
