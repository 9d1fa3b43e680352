-- ===== src/Scheduler/Takeover.antt =====
-- src/scheduler.rs, `refresh_from_scores`: a link that stays ahead becomes the primary.
use mlvpn_rs.Common.{
  ℕ, ◌+◌, ◌≤◌, ◌<◌, ◌≡◌, refl, ap, ◌∙◌, Option, none, some, List, [], ◌∷◌, All, arith, ==_refl,
  length, max, le→leb, lt→leb,
}
use mlvpn_rs.Scheduler.{
  Scheduler, SchedulerConfig, Scores, set_primary, best_other, advance_candidate, with_primary_up,
  beats_by_margin, refresh_from_scores,
}
use mlvpn_rs.Scheduler.Floats.{Float}
use mlvpn_rs.Scheduler.Streak.{Leads, ChoosesPrimary, refresh_up}

module _ {F C D : Type 0} ⦃f64 : Float F⦄ where
  -- One refresh after the other.
  abbrev pub refresh_each :
      SchedulerConfig → Option ℕ → List (Scores F) → Scheduler F C D → Scheduler F C D
  refresh_each cfg peer [] s = s
  refresh_each cfg peer (ups ∷ later) s =
      refresh_each cfg peer later (refresh_from_scores ups cfg peer s)

  refresh-Leads :
      (cfg : SchedulerConfig) (p q : ℕ) (ups : Scores F) (peer : Option ℕ) (s : Scheduler F C D)
      → ChoosesPrimary cfg
      → s.primary ≡ some p
      → Leads p q ups
      → refresh_from_scores ups cfg peer s ≡ advance_candidate cfg.up_threshold q s
  unfolding with_primary_up beats_by_margin
  refresh-Leads cfg p q ups peer s mode on l =
      let best : best_other s.primary ups ≡ some (q, l.other_score) =
        ap (λ o. best_other o ups) on ∙ l.best in
      refresh_up cfg p ups peer l.primary_score s mode on l.up
      ∙ simp (with_primary_up, best, beats_by_margin, l.ahead) refl

  advance_again :
      (threshold q count : ℕ) (s : Scheduler F C D)
      → s.candidate ≡ some (q, count)
      → (threshold ≤ count + 1 → (advance_candidate threshold q s).primary ≡ some q)
        × (count + 1 < threshold
            → ((advance_candidate threshold q s).primary ≡ s.primary)
              × ((advance_candidate threshold q s).candidate ≡ some (q, count + 1)))
  unfolding advance_candidate set_primary
  advance_again threshold q count s there =
      rw (advance_candidate, there, ==_refl q)
        (
          λ h. rw (le→leb threshold (count + 1) h) refl,
          λ h. rw (lt→leb threshold (count + 1) h) (refl, refl),
        )

  advance_first :
      (threshold q : ℕ) (s : Scheduler F C D)
      → s.candidate ≡ none
      → ((advance_candidate threshold q s).primary ≡ s.primary)
        × ((advance_candidate threshold q s).candidate ≡ some (q, 1))
  unfolding advance_candidate
  advance_first threshold q s fresh = rw (advance_candidate, fresh) (refl, refl)

  takeover_from :
      (cfg : SchedulerConfig) (p q count : ℕ) (peer : Option ℕ) (tables : List (Scores F))
      (s : Scheduler F C D)
      → ChoosesPrimary cfg
      → s.primary ≡ some p
      → s.candidate ≡ some (q, count)
      → 0 < count
      → 0 < length tables
      → count + length tables ≡ max 2 cfg.up_threshold
      → All (Leads p q) tables
      → (refresh_each cfg peer tables s).primary ≡ some q
  takeover_from cfg p q count peer [] s mode on there counted some_table sum led =
      absurd (omega arith)
  takeover_from cfg p q count peer (ups ∷ []) s mode on there counted some_table sum led =
      let step = refresh-Leads cfg p q ups peer s mode on led.0 in
      ap (λ t. t.primary) step ∙ (advance_again cfg.up_threshold q count s there).0 (omega arith)
  takeover_from cfg p q count peer (ups ∷ next ∷ later) s mode on there counted some_table sum led =
      let step = refresh-Leads cfg p q ups peer s mode on led.0 in
      let (same, counts) = (advance_again cfg.up_threshold q count s there).1 (omega arith) in
      takeover_from cfg p q (count + 1) peer (next ∷ later) (refresh_from_scores ups cfg peer s)
        mode (ap (λ t. t.primary) step ∙ same ∙ on) (ap (λ t. t.candidate) step ∙ counts)
        (omega arith) (omega arith) (omega arith) led.1

  -- When the scheduler chooses the primary by itself and has no candidate yet, a link that is the best other
  -- one and ahead of the primary by more than a fifth in every of the next refreshes is the primary
  -- after `up_threshold` of them, or after two if that is less.
  pub takeover_due :
      (cfg : SchedulerConfig) (p q : ℕ) (peer : Option ℕ) (tables : List (Scores F))
      (s : Scheduler F C D)
      → ChoosesPrimary cfg
      → s.primary ≡ some p
      → s.candidate ≡ none
      → length tables ≡ max 2 cfg.up_threshold
      → All (Leads p q) tables
      → (refresh_each cfg peer tables s).primary ≡ some q
  takeover_due cfg p q peer [] s mode on fresh due led = absurd (omega arith)
  takeover_due cfg p q peer (ups ∷ later) s mode on fresh due led =
      let step = refresh-Leads cfg p q ups peer s mode on led.0 in
      let (same, counts) = advance_first cfg.up_threshold q s fresh in
      takeover_from cfg p q 1 peer later (refresh_from_scores ups cfg peer s) mode
        (ap (λ t. t.primary) step ∙ same ∙ on) (ap (λ t. t.candidate) step ∙ counts) (omega arith)
        (omega arith) (omega arith) led.1
