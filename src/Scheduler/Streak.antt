-- ===== src/Scheduler/Streak.antt =====
-- src/scheduler.rs, `refresh_from_scores`: how long a link has to be ahead before it becomes the primary.
use mlvpn_rs.Common.{
  ℕ, suc, ◌+◌, ◌≤◌, ◌<◌, ◌≡◌, ◌≢◌, inl, inr, refl, sym, subst, ap, ◌∙◌, true, false, Option, none,
  some, List, [], ◌∷◌, All, arith, Bool-cases, Option-cases, ◌==◌, ==→eq, length, take, max, leb,
  leb→le,
}
use mlvpn_rs.Common.Maps.{lookup}
use mlvpn_rs.Scheduler.{
  Scheduler, SchedulerConfig, Scores, set_primary, best_other, advance_candidate, with_primary_up,
  primary_score, score_of, refresh_from_scores, beats_by_margin,
}
use mlvpn_rs.Scheduler.Floats.{Float}

-- Among the links that are up, `q` is the best but for `p`, and ahead of `p` by more than a fifth of its score.
pub record Leads {F : Type 0} ⦃f64 : Float F⦄ (p q : ℕ) (ups : Scores F) : Type 0 where
  pub primary_score : F
  pub other_score : F
  pub up : lookup p ups ≡ some primary_score
  pub best : best_other (some p) ups ≡ some (q, other_score)
  pub ahead :
      f64.gt other_score (f64.mul primary_score (f64.add f64.one_value (f64.literal 2 1))) ≡ true

-- The mode in which the scheduler chooses a primary by itself.
pub record ChoosesPrimary (cfg : SchedulerConfig) : Type 0 where
  pub own : cfg.follow_peer_primary ≡ false
  pub on : cfg.primary_link_mode ≡ true

module _ {F : Type 0} ⦃f64 : Float F⦄ where
  -- The candidate has led for as long as it is counted.
  abbrev Backed : ℕ → List (Scores F) → Option (ℕ × ℕ) → Type 0
  Backed p history none = Unit {0}
  Backed p history (some (q, count)) =
      (0 < count) × (count ≤ length history) × All (Leads p q) (take count history)

module _ {F C D : Type 0} ⦃f64 : Float F⦄ where
  -- The refreshes, latest first, since the link `p` became the primary, while it stayed the primary.
  pub data Held (cfg : SchedulerConfig) (p : ℕ) : List (Scores F) → Scheduler F C D → Type 0 where
    begun : {s : Scheduler F C D} → s.primary ≡ some p → s.candidate ≡ none → Held cfg p [] s
    kept :
        {history : List (Scores F)} {s : Scheduler F C D} (ups : Scores F) (peer : Option ℕ)
        → Held cfg p history s
        → (refresh_from_scores ups cfg peer s).primary ≡ some p
        → Held cfg p (ups ∷ history) (refresh_from_scores ups cfg peer s)

  -- What a refresh does while the primary `p` is up.
  data Refreshed (p : ℕ) (threshold : ℕ) (history : List (Scores F))
      : Scheduler F C D → Type 0 where
    stays :
        {t : Scheduler F C D}
        → t.primary ≡ some p
        → Backed p history t.candidate
        → Refreshed p threshold history t
    switches :
        {t : Scheduler F C D} (q count : ℕ)
        → t.primary ≡ some q
        → t.candidate ≡ none
        → max 2 threshold ≤ count
        → count ≤ length history
        → All (Leads p q) (take count history)
        → Refreshed p threshold history t

  advance_candidate-Refreshed :
      (p q threshold : ℕ) (ups : Scores F) (history : List (Scores F)) (s : Scheduler F C D)
      → s.primary ≡ some p
      → Backed p history s.candidate
      → Leads p q ups
      → Refreshed p threshold (ups ∷ history) (advance_candidate threshold q s)
  unfolding advance_candidate set_primary
  advance_candidate-Refreshed p q threshold ups history s on backed leads =
      elim (Option-cases s.candidate) [
        | inl fresh ↦
            rw (advance_candidate, fresh) (stays on (omega arith, omega arith, (leads, tt)))
        | inr ((idx, count), there) ↦
            let (counted, short, led) = subst (Backed p history) there backed in
            rw (advance_candidate, there)
              (elim (Bool-cases (idx == q)) [
                | inr changed ↦ rw changed (stays on (omega arith, omega arith, (leads, tt)))
                | inl same ↦
                    let q_same = ==→eq idx q same in
                    let next : count + 1 ≡ suc count = omega arith in
                    let longer : All (Leads p q) (take (suc count) (ups ∷ history)) =
                      (leads, subst (λ i. All (Leads p i) (take count history)) q_same led) in
                    rw same (elim (Bool-cases (leb threshold (count + 1))) [
                      | inl reached ↦
                          let enough = leb→le threshold (count + 1) reached in
                          rw reached
                            (switches q (suc count) refl refl (omega arith) (omega arith) longer)
                      | inr not_yet ↦
                          rw (not_yet, next)
                            (stays on (
                              omega arith,
                              omega arith,
                              (subst (λ i. Leads p i ups) (sym q_same) leads, led),
                            ))
                    ])
              ])
      ]

  with_primary_up-Refreshed :
      (p threshold : ℕ) (ups : Scores F) (score : F) (history : List (Scores F))
      (s : Scheduler F C D)
      → s.primary ≡ some p
      → lookup p ups ≡ some score
      → Backed p history s.candidate
      → Refreshed p threshold (ups ∷ history) (with_primary_up threshold ups score s)
  unfolding with_primary_up beats_by_margin
  with_primary_up-Refreshed p threshold ups score history s on up backed =
      elim (Option-cases (best_other s.primary ups)) [
        | inl alone ↦ rw (with_primary_up, alone) (stays on tt)
        | inr ((q, other_score), found) ↦
            rw (with_primary_up, found)
              (elim (Bool-cases (beats_by_margin other_score score)) [
                | inr behind ↦ rw behind (stays on tt)
                | inl ahead ↦
                    let best : best_other (some p) ups ≡ some (q, other_score) =
                      ap (λ o. best_other o ups) (sym on) ∙ found in
                    rw ahead (
                      advance_candidate-Refreshed p q threshold ups history s on backed (record {
                        primary_score = score;
                        other_score = other_score;
                        up = up;
                        best = best;
                        ahead = ahead;
                      }))
              ])
      ]

  -- A refresh while the primary is up.
  pub refresh_up :
      (cfg : SchedulerConfig) (p : ℕ) (ups : Scores F) (peer : Option ℕ) (score : F)
      (s : Scheduler F C D)
      → ChoosesPrimary cfg
      → s.primary ≡ some p
      → lookup p ups ≡ some score
      → refresh_from_scores ups cfg peer s ≡ with_primary_up cfg.up_threshold ups score s
  unfolding refresh_from_scores primary_score score_of
  refresh_up cfg p ups peer score s mode on up =
      simp (refresh_from_scores, mode.own, mode.on, on, up) refl

  refresh_down :
      (cfg : SchedulerConfig) (p : ℕ) (ups : Scores F) (peer : Option ℕ) (s : Scheduler F C D)
      → ChoosesPrimary cfg
      → s.primary ≡ some p
      → lookup p ups ≡ none
      → (refresh_from_scores ups cfg peer s).candidate ≡ none
  unfolding refresh_from_scores primary_score score_of
  refresh_down cfg p ups peer s mode on down =
      simp (refresh_from_scores, mode.own, mode.on, on, down) refl

  Held-primary :
      {cfg : SchedulerConfig} {p : ℕ} {history : List (Scores F)} {s : Scheduler F C D}
      → Held cfg p history s
      → s.primary ≡ some p
  Held-primary (begun on fresh) = on
  Held-primary (kept ups peer h on) = on

  Backed-none :
      (p : ℕ) (history : List (Scores F)) (t : Scheduler F C D)
      → t.candidate ≡ none
      → Backed p history t.candidate
  Backed-none p history t e = subst (Backed p history) (sym e) tt

  Refreshed-Backed :
      {p threshold : ℕ} {history : List (Scores F)} {t : Scheduler F C D}
      → Refreshed p threshold history t
      → Backed p history t.candidate
  Refreshed-Backed (stays on backed) = backed
  Refreshed-Backed {p = p} {history = history} {t = t}
        (switches q count on fresh enough short led) =
      Backed-none p history t fresh

  Held-Backed :
      {cfg : SchedulerConfig} {p : ℕ} {history : List (Scores F)} {s : Scheduler F C D}
      → ChoosesPrimary cfg
      → Held cfg p history s
      → Backed p history s.candidate
  Held-Backed {p = p} mode (begun {s = s} on fresh) = Backed-none p [] s fresh
  Held-Backed {cfg = cfg} {p = p} mode (kept {history = history} {s = s} ups peer h on) =
      elim (Option-cases (lookup p ups)) [
        | inl down ↦
            Backed-none p (ups ∷ history) (refresh_from_scores ups cfg peer s)
              (refresh_down cfg p ups peer s mode (Held-primary h) down)
        | inr (score, up) ↦ Refreshed-Backed (
            subst (Refreshed p cfg.up_threshold (ups ∷ history))
              (sym (refresh_up cfg p ups peer score s mode (Held-primary h) up))
              (with_primary_up-Refreshed p cfg.up_threshold ups score history s (Held-primary h) up
                (Held-Backed mode h)))
      ]

  switched_to :
      {p q threshold : ℕ} {history : List (Scores F)} {t : Scheduler F C D}
      → Refreshed p threshold history t
      → t.primary ≡ some q
      → q ≢ p
      → (n : ℕ) × (max 2 threshold ≤ n) × (n ≤ length history) × All (Leads p q) (take n history)
  switched_to {p = p} {q = q} (stays on backed) e other_link =
      absurd (other_link (ground (arith, on, e)))
  switched_to {p = p} {q = q} {history = history} (switches i count on fresh enough short led) e
        other_link =
      let same : i ≡ q = ground (arith, on, e) in
      (count, enough, short, subst (λ i. All (Leads p i) (take count history)) same led)

  -- When the scheduler chooses the primary by itself and replaces one that is still up, the new primary has
  -- been the best other link and ahead of the old one by more than a fifth in as many refreshes in a
  -- row, this one and those directly before it, as `up_threshold` says, and in two at least.
  pub switch_earned :
      {cfg : SchedulerConfig} {p q : ℕ} {history : List (Scores F)} {s : Scheduler F C D}
      (ups : Scores F) (peer : Option ℕ) {score : F}
      → ChoosesPrimary cfg
      → Held cfg p history s
      → lookup p ups ≡ some score
      → (refresh_from_scores ups cfg peer s).primary ≡ some q
      → q ≢ p
      → (n : ℕ) × (max 2 cfg.up_threshold ≤ n)
        × (n ≤ suc (length history))
        × All (Leads p q) (take n (ups ∷ history))
  switch_earned {cfg = cfg} {p = p} {q = q} {history = history} {s = s} ups peer {score = score}
        mode held up e other_link =
      switched_to
        (subst (Refreshed p cfg.up_threshold (ups ∷ history))
          (sym (refresh_up cfg p ups peer score s mode (Held-primary held) up))
          (with_primary_up-Refreshed p cfg.up_threshold ups score history s (Held-primary held) up
            (Held-Backed mode held)))
        e other_link
