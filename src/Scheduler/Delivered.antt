-- ===== src/Scheduler/Delivered.antt =====
-- src/scheduler.rs, src/delivery.rs: the delivery trackers that the scheduler holds.
use mlvpn_rs.Common.{
  ℕ, ◌+◌, ◌≡◌, inl, inr, refl, sym, subst, Option, List, [], ◌∷◌, All, Bool-cases, Option-cases,
  ◌==◌, leb,
}
use mlvpn_rs.Scheduler.{
  Scheduler, SchedulerConfig, Scores, set_primary, best_other, advance_candidate, with_primary_up,
  primary_score, refresh_from_scores, beats_by_margin, penalize, note_queue_full, note_send_failed,
}
use mlvpn_rs.Scheduler.Floats.{Float, Tracker}
use mlvpn_rs.Scheduler.Pick.{
  LinkScore, observe_all, refresh, update_congestion, update_delivery, up_indices,
}
use mlvpn_rs.Scheduler.Reach.{
  Reachable, start, after, Step, refreshed, queue_full, send_failed, congestion_seen, delivery_seen,
  selected, selected_fast, Choice, no_links, by_primary, least_bad, by_weight, select-Choice,
  select_fast_cases,
}
use mlvpn_rs.Scheduler.Trackers.{delivery_trackers}
use mlvpn_rs.Delivery.{DeliveryTracker}
use mlvpn_rs.Delivery.Holds.{IsTracker, default-IsTracker, observe-IsTracker, later-IsTracker}

module _ {F C D : Type 0} ⦃f64 : Float F⦄ where
  advance_candidate-delivery :
      (threshold other : ℕ) (s : Scheduler F C D)
      → (advance_candidate threshold other s).delivery ≡ s.delivery
  unfolding advance_candidate set_primary
  advance_candidate-delivery threshold other s = elim (Option-cases s.candidate) [
    | inl fresh ↦ rw fresh refl
    | inr ((idx, count), there) ↦ rw there (elim (Bool-cases (idx == other)) [
      | inr changed ↦ rw changed refl
      | inl same ↦ rw same (elim (Bool-cases (leb threshold (count + 1))) [
        | inl reached ↦ rw reached refl
        | inr short ↦ rw short refl
      ])
    ])
  ]

  with_primary_up-delivery :
      (threshold : ℕ) (ups : Scores F) (score : F) (s : Scheduler F C D)
      → (with_primary_up threshold ups score s).delivery ≡ s.delivery
  unfolding with_primary_up
  with_primary_up-delivery threshold ups score s = elim (Option-cases (best_other s.primary ups)) [
    | inl alone ↦ rw (with_primary_up, alone) refl
    | inr ((other, other_score), found) ↦
        rw (with_primary_up, found)
          (elim (Bool-cases (beats_by_margin other_score score)) [
            | inl ahead ↦ rw ahead (advance_candidate-delivery threshold other s)
            | inr behind ↦ rw behind refl
          ])
  ]

  refresh_from_scores-delivery :
      (ups : Scores F) (cfg : SchedulerConfig) (peer : Option ℕ) (s : Scheduler F C D)
      → (refresh_from_scores ups cfg peer s).delivery ≡ s.delivery
  unfolding refresh_from_scores set_primary
  refresh_from_scores-delivery ups cfg peer s = elim (Bool-cases cfg.follow_peer_primary) [
    | inl follow ↦ rw follow refl
    | inr own ↦ rw own (elim (Bool-cases cfg.primary_link_mode) [
      | inr bonded ↦ rw bonded refl
      | inl on ↦ rw on (elim (Option-cases (primary_score s.primary ups)) [
        | inl down ↦ rw down refl
        | inr (score, up) ↦ rw up (with_primary_up-delivery cfg.up_threshold ups score s)
      ])
    ])
  ]

-- After an observation of each tracker, the ones that are not observed included.
observe_all-All :
    {F T Sample : Type 0} (tr : Tracker F T Sample) (P Q : T → Type 0) (now : ℕ)
    → P tr.default
    → ((x : Sample) (t : T) → P t → Q (tr.observe now x t))
    → ((t : T) → P t → Q t)
    → (xs : List Sample) (ts : List T) → All P ts
    → All Q (observe_all tr now xs ts)
unfolding observe_all
observe_all-All tr P Q now zeroth next weaken [] [] h = tt
observe_all-All tr P Q now zeroth next weaken [] (t ∷ ts) h =
    (weaken t h.0, observe_all-All tr P Q now zeroth next weaken [] ts h.1)
observe_all-All tr P Q now zeroth next weaken (x ∷ xs) [] h =
    (next x tr.default zeroth, observe_all-All tr P Q now zeroth next weaken xs [] tt)
observe_all-All tr P Q now zeroth next weaken (x ∷ xs) (t ∷ ts) h =
    (next x t h.0, observe_all-All tr P Q now zeroth next weaken xs ts h.1)

module _ {F C CS : Type 0} ⦃f64 : Float F⦄ (cong : Tracker F C CS) where
  Choice-delivery :
      {s t : Scheduler F C (DeliveryTracker F)} {links : List (LinkScore F)} {r : Option ℕ}
      → Choice cong delivery_trackers s links t r
      → t.delivery ≡ s.delivery
  Choice-delivery (no_links e) = refl
  Choice-delivery (by_primary l i e) = refl
  Choice-delivery (least_bad e) = refl
  Choice-delivery (by_weight l p) = p.same_delivery

  -- The times at which deliveries were observed, the one of this step included.
  abbrev pub seen_at :
      {n : ℕ} {s t : Scheduler F C (DeliveryTracker F)}
      → Step cong delivery_trackers n s t
      → List ℕ
      → List ℕ
  seen_at (refreshed links cfg peer l) times = times
  seen_at (queue_full now idx) times = times
  seen_at (send_failed now idx) times = times
  seen_at (congestion_seen now xs) times = times
  seen_at (delivery_seen now xs) times = now ∷ times
  seen_at (selected now frame_len links r e) times = times
  seen_at (selected_fast now frame_len r e) times = times

  abbrev pub times_of :
      {n : ℕ} {s : Scheduler F C (DeliveryTracker F)}
      → Reachable cong delivery_trackers n s
      → List ℕ
  times_of start = []
  times_of (after r step) = seen_at step (times_of r)

  Step-trackers :
      {n : ℕ} {s t : Scheduler F C (DeliveryTracker F)} (times : List ℕ)
      (step : Step cong delivery_trackers n s t)
      → All (IsTracker times) s.delivery
      → All (IsTracker (seen_at step times)) t.delivery
  unfolding refresh note_queue_full note_send_failed penalize update_congestion update_delivery
  Step-trackers {s = s} times (refreshed links cfg peer l) h =
      subst (All (IsTracker times))
        (sym (refresh_from_scores-delivery (up_indices 0 links) cfg peer s)) h
  Step-trackers times (queue_full now idx) h = h
  Step-trackers times (send_failed now idx) h = h
  Step-trackers times (congestion_seen now xs) h = h
  Step-trackers {s = s} times (delivery_seen now xs) h =
      observe_all-All delivery_trackers (IsTracker times) (IsTracker (now ∷ times)) now
        (default-IsTracker times) (observe-IsTracker times now) (later-IsTracker times now) xs
        s.delivery h
  Step-trackers {s = s} {t = t} times (selected now frame_len links r e) h =
      let (t', r', e', how) = select-Choice cong delivery_trackers now frame_len links s in
      let same : t' ≡ t = cc in
      subst (λ t. All (IsTracker times) t.delivery) same
        (subst (All (IsTracker times)) (sym (Choice-delivery how)) h)
  Step-trackers {n = n} {s = s} {t = t} times (selected_fast now frame_len r e) h =
      let (t', r', e', how) = select_fast_cases cong delivery_trackers now frame_len n s in
      let same : t' ≡ t = cc in
      subst (λ t. All (IsTracker times) t.delivery) same
        (elim how [
          | inl unchanged ↦ rw unchanged h
          | inr (idx, p) ↦ subst (All (IsTracker times)) (sym p.same_delivery) h
        ])

  -- In every reachable state of the scheduler each link's delivery tracker skips at most three windows, has
  -- at most one bad window that it has not acted on, and a factor between 0.001 and 1; and in a hold-down
  -- its end is the time of one of the observations that were made and 5 to 60 seconds more.
  pub Reachable-All-IsTracker :
      {n : ℕ} {s : Scheduler F C (DeliveryTracker F)} (r : Reachable cong delivery_trackers n s)
      → All (IsTracker (times_of r)) s.delivery
  Reachable-All-IsTracker start = tt
  Reachable-All-IsTracker (after r step) =
      Step-trackers (times_of r) step (Reachable-All-IsTracker r)
