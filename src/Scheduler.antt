-- ===== src/Scheduler.antt =====
-- src/scheduler.rs: the state of the scheduler, and the choice of the primary link.
pub mod Floats
pub mod Pick
pub mod Order
pub mod Weights
pub mod Invariant
pub mod Reach
pub mod Available
pub mod Streak
pub mod Takeover
pub mod Failover
pub mod Thousandths
pub mod Trackers
pub mod Delivered
mod Tests
use mlvpn_rs.Common.{
  ℕ, zero, suc, ◌+◌, ◌-◌, ◌*◌, ◌%◌, ◌^◌, ◌≡◌, Bool, true, false, not, ◌&&◌, ◌||◌, Option, none,
  some, List, [], ◌∷◌, ◌++◌, map, length, get_elem?, max, ltb, leb, ◌==◌, if◌then◌else◌, replicate,
}
use mlvpn_rs.Common.Maps.{lookup}
use mlvpn_rs.Scheduler.Floats.{Float, Tracker}

pub record SwrrEntry (F : Type 0) : Type 0 where
  pub link_index : ℕ
  pub base_weight : F
  pub effective_weight : F
  pub current_weight : F
  pub bandwidth_cap_mbps : Option F

-- An `Instant` and a `Duration` count milliseconds.
pub record RateLimitState : Type 0 where
  pub window_start : ℕ
  pub bytes_in_window : ℕ

abbrev pub queue_full_penalty : ℕ
queue_full_penalty = 200

abbrev pub send_failed_penalty : ℕ
send_failed_penalty = 500

abbrev pub no_primary : ℕ
no_primary = 2 ^ 64 - 1

-- The trackers of congestion are `C`, those of delivery `D`.
pub record Scheduler (F C D : Type 0) : Type 0 where
  pub entries : List (SwrrEntry F)
  pub rate_limits : List (ℕ × RateLimitState)
  pub penalized : List (ℕ × ℕ)
  pub congestion : List C
  pub delivery : List D
  pub primary : Option ℕ
  pub primary_published : ℕ
  pub candidate : Option (ℕ × ℕ)

pub record SchedulerConfig : Type 0 where
  pub primary_link_mode : Bool
  pub follow_peer_primary : Bool
  pub up_threshold : ℕ

-- Of a link, its score and its cap.
pub record LinkView (F : Type 0) : Type 0 where
  pub score : F
  pub bandwidth_cap_mbps : Option F

module _ {ℓ} {A : Type ℓ} where
  -- `max_by`, which keeps the last of several greatest elements, by the test that the first argument is
  -- not greater; `min_by` keeps the first of several least ones.
  unfoldable pub max_onto : (A → A → Bool) → A → List A → A
  max_onto le best [] = best
  max_onto le best (x ∷ xs) = max_onto le (if le best x then x else best) xs

  unfoldable pub max_by : (A → A → Bool) → List A → Option A
  max_by le [] = none
  max_by le (x ∷ xs) = some (max_onto le x xs)

  unfoldable pub min_onto : (A → A → Bool) → A → List A → A
  min_onto le best [] = best
  min_onto le best (x ∷ xs) = min_onto le (if le best x then best else x) xs

  unfoldable pub min_by : (A → A → Bool) → List A → Option A
  min_by le [] = none
  min_by le (x ∷ xs) = some (min_onto le x xs)

  unfoldable pub keep_if : (A → Bool) → List A → List A
  keep_if p [] = []
  keep_if p (x ∷ xs) = if p x then x ∷ keep_if p xs else keep_if p xs

  unfoldable pub any : (A → Bool) → List A → Bool
  any p [] = false
  any p (x ∷ xs) = p x || any p xs

abbrev pub primary_or_none : Option ℕ → ℕ
primary_or_none none = no_primary
primary_or_none (some idx) = idx

unfoldable pub extend_penalty : ℕ → ℕ → List (ℕ × ℕ) → List (ℕ × ℕ)
extend_penalty idx until [] = (idx, until) ∷ []
extend_penalty idx until ((i, was) ∷ rest) =
    if i == idx then (i, max was until) ∷ rest else (i, was) ∷ extend_penalty idx until rest

abbrev pub is_same : ℕ → Option ℕ → Bool
is_same idx none = false
is_same idx (some other) = idx == other

module _ {F C D : Type 0} where
  abbrev pub new : Scheduler F C D
  new = record {
    entries = [];
    rate_limits = [];
    penalized = [];
    congestion = [];
    delivery = [];
    primary = none;
    primary_published = no_primary;
    candidate = none;
  }

  unfoldable pub set_primary : Option ℕ → Scheduler F C D → Scheduler F C D
  set_primary primary s = record s {
    primary = primary;
    primary_published = primary_or_none primary;
  }

  -- `PrimaryFlag::is_set` of the published primary.
  unfoldable pub is_set : Scheduler F C D → Bool
  is_set s = not (s.primary_published == no_primary)

  unfoldable pub penalize : ℕ → ℕ → ℕ → Scheduler F C D → Scheduler F C D
  penalize now idx dur s = record s { penalized = extend_penalty idx (now + dur) s.penalized }

  unfoldable pub note_queue_full : ℕ → ℕ → Scheduler F C D → Scheduler F C D
  note_queue_full now idx s = penalize now idx queue_full_penalty s

  unfoldable pub note_send_failed : ℕ → ℕ → Scheduler F C D → Scheduler F C D
  note_send_failed now idx s = penalize now idx send_failed_penalty s

-- The scores of the links that are up, with their indices.
abbrev pub Scores : Type 0 → Type 0
Scores F = List (ℕ × F)

module _ {F : Type 0} where
  unfoldable pub score_of : ℕ → Scores F → Option F
  score_of idx ups = lookup idx ups

  abbrev pub index_of_best : Option (ℕ × F) → Option ℕ
  index_of_best none = none
  index_of_best (some best) = some best.0

  -- The peer's choice, if that link is up here.
  unfoldable pub peer_choice : Option ℕ → Scores F → Option ℕ
  peer_choice none ups = none
  peer_choice (some idx) ups = if any (λ u. u.0 == idx) ups then some idx else none

  unfoldable pub primary_score : Option ℕ → Scores F → Option F
  primary_score none ups = none
  primary_score (some idx) ups = score_of idx ups

module _ {F : Type 0} ⦃f64 : Float F⦄ where
  -- `PRIMARY_SWITCH_MARGIN` is 0.2.
  unfoldable pub beats_by_margin : F → F → Bool
  beats_by_margin other primary =
      f64.gt other (f64.mul primary (f64.add f64.one_value (f64.literal 2 1)))

  unfoldable pub best_up : Scores F → Option (ℕ × F)
  best_up ups = max_by (λ a b. f64.total_le a.1 b.1) ups

  unfoldable pub best_other : Option ℕ → Scores F → Option (ℕ × F)
  best_other primary ups = best_up (keep_if (λ u. not (is_same u.0 primary)) ups)

module _ {F C D : Type 0} ⦃f64 : Float F⦄ where
  -- The candidate was the best other one the time before as well.
  unfoldable pub advance_candidate : ℕ → ℕ → Scheduler F C D → Scheduler F C D
  advance_candidate up_threshold other s = elim s.candidate [
    | none ↦ record s { candidate = some (other, 1) }
    | some (idx, count) ↦
        if not (idx == other)
        then record s { candidate = some (other, 1) }
        else if leb up_threshold (count + 1)
        then record (set_primary (some other) s) { candidate = none }
        else record s { candidate = some (idx, count + 1) }
  ]

  unfoldable pub with_primary_up : ℕ → Scores F → F → Scheduler F C D → Scheduler F C D
  with_primary_up up_threshold ups primary_score s = elim (best_other s.primary ups) [
    | none ↦ record s { candidate = none }
    | some (other, other_score) ↦
        let advanced = advance_candidate up_threshold other s in
        if beats_by_margin other_score primary_score
        then advanced
        else record s { candidate = none }
  ]

  unfoldable pub refresh_from_scores :
      Scores F → SchedulerConfig → Option ℕ → Scheduler F C D → Scheduler F C D
  refresh_from_scores ups cfg peer s =
      if cfg.follow_peer_primary
      then record (set_primary (peer_choice peer ups) s) { candidate = none }
      else if not cfg.primary_link_mode
      then record (set_primary none s) { candidate = none }
      else elim (primary_score s.primary ups) [
        | none ↦ record (set_primary (index_of_best (best_up ups)) s) { candidate = none }
        | some score ↦ with_primary_up cfg.up_threshold ups score s
      ]
