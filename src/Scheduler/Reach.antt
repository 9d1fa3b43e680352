-- ===== src/Scheduler/Reach.antt =====
-- src/scheduler.rs: the states that the scheduler reaches, and the choice of a link in them.
use mlvpn_rs.Common.{
  ℕ, ◌+◌, ◌<◌, ◌≡◌, ◌⊎◌, inl, inr, refl, sym, subst, ap, ◌∙◌, true, false, Option, none, some, List,
  [], ◌∷◌, All, arith, Bool-cases, Option-cases, if◌then◌else◌, ◌==◌, length, ok,
}
use mlvpn_rs.Scheduler.{
  SwrrEntry, Scheduler, SchedulerConfig, LinkView, Scores, new, keep_if, min_by,
  refresh_from_scores, penalize, note_queue_full, note_send_failed, primary_or_none,
}
use mlvpn_rs.Scheduler.Floats.{Float, Tracker}
use mlvpn_rs.Scheduler.Pick.{
  LinkScore, scan_caps, pick_among, swrr_pick, up_indices, rescale, entries_of, steer, unless_empty,
  is_refuge, is_empty, live_penalties, record_in, swrr_pick_under_cap, select, select_fast,
  less_bad, link_index_of, update_congestion, update_delivery, observe_all, refresh,
}
use mlvpn_rs.Scheduler.Order.{indices, Has, keep_if-All}
use mlvpn_rs.Scheduler.Weights.{
  indexes, pick_among-Has, swrr_pick-Has, scan_caps-All, up_indices-All, below_weaken,
}
use mlvpn_rs.Scheduler.Invariant.{IsChosen, refresh_from_scores-IsChosen}

-- Of `n` links: the published primary is the primary, which has an entry, and entries are for links.
pub record IsConsistent {F C D : Type 0} (n : ℕ) (s : Scheduler F C D) : Type 0 where
  pub chosen : IsChosen (indexes s.entries) s
  pub in_range : All (λ i. i < n) (indexes s.entries)

unless_empty-All :
    (P : ℕ → Type 0) (xs ys : List ℕ) → All P xs → All P ys → All P (unless_empty xs ys)
unless_empty-All P [] ys hx hy = hy
unless_empty-All P (x ∷ xs) ys hx hy = hx

up_indices_below :
    (n : ℕ) {F : Type 0} (ups : Scores F) → All (λ u. u.0 < n) ups → All (λ i. i < n) (indices ups)
up_indices_below n [] h = tt
up_indices_below n (u ∷ us) h = (h.0, up_indices_below n us h.1)

module _ {F C D CS DS : Type 0} ⦃f64 : Float F⦄ (cong : Tracker F C CS)
    (deliv : Tracker F D DS) where
  indexes-rescale :
      (s : Scheduler F C D) (es : List (SwrrEntry F))
      → indexes (rescale cong deliv s es) ≡ indexes es
  unfolding rescale
  indexes-rescale s [] = refl
  indexes-rescale s (e ∷ es) = ap (◌∷◌ e.link_index) (indexes-rescale s es)

  indexes-entries_of :
      (s : Scheduler F C D) (links : List (LinkView F)) (ups : Scores F)
      → indexes (entries_of cong deliv s links ups) ≡ indices ups
  unfolding entries_of
  indexes-entries_of s links [] = refl
  indexes-entries_of s links ((i, w) ∷ ups) = ap (◌∷◌ i) (indexes-entries_of s links ups)

  steer-All :
      (P : ℕ → Type 0) (s : Scheduler F C D) (eligible : List ℕ)
      → All P eligible
      → All P (steer cong deliv s eligible)
  unfolding steer
  steer-All P s eligible h = elim (Bool-cases (is_empty s.penalized)) [
    | inl none_penalized ↦ rw none_penalized h
    | inr some_penalized ↦ rw some_penalized (
        unless_empty-All P (keep_if (is_refuge cong deliv s) eligible) eligible
          (keep_if-All P (is_refuge cong deliv s) eligible h) h)
  ]

  -- What a pick changes and what not.
  pub record IsPicked (s t : Scheduler F C D) (idx : ℕ) : Type 0 where
    pub same_indexes : indexes t.entries ≡ indexes s.entries
    pub same_primary : t.primary ≡ s.primary
    pub same_published : t.primary_published ≡ s.primary_published
    pub same_delivery : t.delivery ≡ s.delivery
    pub has_entry : Has (indexes s.entries) idx

  pick_of :
      (eligible : List ℕ) (es : List (SwrrEntry F))
      → is_empty es ≡ false
      → All (λ p. p < length es) eligible
      → (next : List (SwrrEntry F)) × (idx : ℕ) × ((if is_empty eligible
            then swrr_pick es
            else pick_among eligible es)
          ≡ ok (next, idx))
        × (indexes next ≡ indexes es)
        × Has (indexes es) idx
  pick_of eligible [] some_entry inside = cc
  pick_of [] (e ∷ es) some_entry inside = swrr_pick-Has e es
  pick_of (pos ∷ rest) (e ∷ es) some_entry inside = pick_among-Has pos rest (e ∷ es) inside

  -- With an entry at hand a link is picked.
  swrr_pick_under_cap-IsPicked :
      (now frame_len : ℕ) (s : Scheduler F C D)
      → is_empty s.entries ≡ false
      → (t : Scheduler F C D) × (idx : ℕ) × (swrr_pick_under_cap cong deliv now frame_len s
          ≡ ok (t, idx))
        × IsPicked s t idx
  unfolding swrr_pick_under_cap
  swrr_pick_under_cap-IsPicked now frame_len s some_entry =
      let under = (scan_caps now frame_len 0 s.entries s.rate_limits).0 in
      let limits = (scan_caps now frame_len 0 s.entries s.rate_limits).1 in
      let live = record s { rate_limits = limits; penalized = live_penalties now s.penalized } in
      let inside =
        below_weaken (0 + length s.entries) (length s.entries) under (omega arith)
          (scan_caps-All now frame_len 0 s.entries s.rate_limits) in
      let (next, idx, picked, same, has) =
        pick_of (steer cong deliv live under) s.entries some_entry
          (steer-All (λ p. p < length s.entries) live under inside) in
      rw picked (
        record live { entries = next; rate_limits = record_in idx frame_len limits },
        idx,
        refl,
        record {
          same_indexes = same;
          same_primary = refl;
          same_published = refl;
          same_delivery = refl;
          has_entry = has;
        },
      )

  IsPicked-IsConsistent :
      {n : ℕ} {s t : Scheduler F C D} {idx : ℕ}
      → IsPicked s t idx
      → IsConsistent n s
      → IsConsistent n t
  IsPicked-IsConsistent {n = n} {s = s} {t = t} p c = record {
    chosen = record {
      published = p.same_published ∙ c.chosen.published ∙ ap primary_or_none (sym p.same_primary);
      primary_up = λ i e.
          subst (λ is. Has is i) (sym p.same_indexes)
            (c.chosen.primary_up i (sym p.same_primary ∙ e));
    };
    in_range = subst (All (λ i. i < n)) (sym p.same_indexes) c.in_range;
  }

  -- A step of the scheduler of a tunnel with `n` links.
  pub data Step (n : ℕ) : Scheduler F C D → Scheduler F C D → Type 0 where
    refreshed :
        {s : Scheduler F C D} (links : List (LinkView F)) (cfg : SchedulerConfig) (peer : Option ℕ)
        → length links ≡ n
        → Step n s (refresh cong deliv links cfg peer s)
    queue_full : {s : Scheduler F C D} (now idx : ℕ) → Step n s (note_queue_full now idx s)
    send_failed : {s : Scheduler F C D} (now idx : ℕ) → Step n s (note_send_failed now idx s)
    congestion_seen :
        {s : Scheduler F C D} (now : ℕ) (xs : List CS)
        → Step n s (update_congestion cong deliv now xs s)
    delivery_seen :
        {s : Scheduler F C D} (now : ℕ) (xs : List DS)
        → Step n s (update_delivery cong deliv now xs s)
    selected :
        {s t : Scheduler F C D} (now frame_len : ℕ) (links : List (LinkScore F)) (r : Option ℕ)
        → select cong deliv now links frame_len s ≡ ok (t, r)
        → Step n s t
    selected_fast :
        {s t : Scheduler F C D} (now frame_len : ℕ) (r : Option ℕ)
        → select_fast cong deliv now n frame_len s ≡ ok (t, r)
        → Step n s t

  pub data Reachable (n : ℕ) : Scheduler F C D → Type 0 where
    start : Reachable n new
    after : {s t : Scheduler F C D} → Reachable n s → Step n s t → Reachable n t

  -- How a link is chosen, and the state after it.
  pub data Choice (s : Scheduler F C D) (links : List (LinkScore F))
      : Scheduler F C D → Option ℕ → Type 0 where
    no_links : is_empty links ≡ true → Choice s links s none
    by_primary : is_empty links ≡ false → (i : ℕ) → s.primary ≡ some i → Choice s links s (some i)
    least_bad : is_empty links ≡ false → Choice s links s (link_index_of (min_by less_bad links))
    by_weight :
        {t : Scheduler F C D} {idx : ℕ}
        → is_empty links ≡ false
        → IsPicked s t idx
        → Choice s links t (some idx)

  pub select-Choice :
      (now frame_len : ℕ) (links : List (LinkScore F)) (s : Scheduler F C D)
      → (t : Scheduler F C D) × (r : Option ℕ) × (select cong deliv now links frame_len s
          ≡ ok (t, r))
        × Choice s links t r
  unfolding select
  select-Choice now frame_len links s = elim (Bool-cases (is_empty links)) [
    | inl empty ↦ (s, none, rw empty refl, no_links empty)
    | inr some_link ↦ elim (Option-cases s.primary) [
      | inr (i, on) ↦ (s, some i, simp (some_link, on) refl, by_primary some_link i on)
      | inl off ↦ elim (Bool-cases (is_empty s.entries)) [
        | inl down ↦ (
          s,
          link_index_of (min_by less_bad links),
          simp (some_link, off, down) refl,
          least_bad some_link,
        )
        | inr some_entry ↦
            let (t, idx, e, p) = swrr_pick_under_cap-IsPicked now frame_len s some_entry in
            (t, some idx, simp (some_link, off, some_entry, e) refl, by_weight some_link p)
      ]
    ]
  ]

  Choice-IsConsistent :
      {n : ℕ} {s t : Scheduler F C D} {links : List (LinkScore F)} {r : Option ℕ}
      → Choice s links t r
      → IsConsistent n s
      → IsConsistent n t
  Choice-IsConsistent (no_links e) c = c
  Choice-IsConsistent (by_primary l i e) c = c
  Choice-IsConsistent (least_bad e) c = c
  Choice-IsConsistent (by_weight l p) c = IsPicked-IsConsistent p c

  -- The fast choice is the choice, wherever it makes one.
  pub select_fast_cases :
      (now frame_len n : ℕ) (s : Scheduler F C D)
      → (t : Scheduler F C D) × (r : Option ℕ) × (select_fast cong deliv now n frame_len s
          ≡ ok (t, r))
        × ((t ≡ s) ⊎ ((idx : ℕ) × IsPicked s t idx))
  unfolding select_fast
  select_fast_cases now frame_len n s = elim (Bool-cases (n == 0)) [
    | inl empty ↦ (s, none, rw empty refl, inl refl)
    | inr some_link ↦ elim (Option-cases s.primary) [
      | inr (i, on) ↦ (s, some i, simp (some_link, on) refl, inl refl)
      | inl off ↦ elim (Bool-cases (is_empty s.entries)) [
        | inl down ↦ (s, none, simp (some_link, off, down) refl, inl refl)
        | inr some_entry ↦
            let (t, idx, e, p) = swrr_pick_under_cap-IsPicked now frame_len s some_entry in
            (t, some idx, simp (some_link, off, some_entry, e) refl, inr (idx, p))
      ]
    ]
  ]

  pub start-IsConsistent : (n : ℕ) → IsConsistent n (new {F = F} {C = C} {D = D})
  start-IsConsistent n = record {
    chosen = record { published = refl; primary_up = λ i e. cc };
    in_range = tt;
  }

  pub Step-IsConsistent :
      {n : ℕ} {s t : Scheduler F C D} → Step n s t → IsConsistent n s → IsConsistent n t
  unfolding refresh note_queue_full note_send_failed penalize update_congestion update_delivery
  Step-IsConsistent {n = n} {s = s} (refreshed links cfg peer l) c =
      let ups = up_indices 0 links in
      let after_scores = refresh_from_scores ups cfg peer s in
      let same = indexes-entries_of after_scores links ups in
      let chosen = refresh_from_scores-IsChosen ups cfg peer s c.chosen.published in
      record {
        chosen = record {
          published = chosen.published;
          primary_up = λ i e. subst (λ is. Has is i) (sym same) (chosen.primary_up i e);
        };
        in_range = subst (All (λ i. i < n)) (sym same) (
            up_indices_below n ups
              (subst (λ m. All (λ u. u.0 < m) ups) (omega arith ∙ l) (up_indices-All 0 links)));
      }
  Step-IsConsistent (queue_full now idx) c = record {
    chosen = record { published = c.chosen.published; primary_up = c.chosen.primary_up };
    in_range = c.in_range;
  }
  Step-IsConsistent (send_failed now idx) c = record {
    chosen = record { published = c.chosen.published; primary_up = c.chosen.primary_up };
    in_range = c.in_range;
  }
  Step-IsConsistent {n = n} {s = s} (congestion_seen now xs) c =
      let seen = record s { congestion = observe_all cong now xs s.congestion } in
      let same = indexes-rescale seen s.entries in
      record {
        chosen = record {
          published = c.chosen.published;
          primary_up = λ i e. subst (λ is. Has is i) (sym same) (c.chosen.primary_up i e);
        };
        in_range = subst (All (λ i. i < n)) (sym same) c.in_range;
      }
  Step-IsConsistent {n = n} {s = s} (delivery_seen now xs) c =
      let seen = record s { delivery = observe_all deliv now xs s.delivery } in
      let same = indexes-rescale seen s.entries in
      record {
        chosen = record {
          published = c.chosen.published;
          primary_up = λ i e. subst (λ is. Has is i) (sym same) (c.chosen.primary_up i e);
        };
        in_range = subst (All (λ i. i < n)) (sym same) c.in_range;
      }
  Step-IsConsistent {n = n} {s = s} {t = t} (selected now frame_len links r e) c =
      let (t', r', e', how) = select-Choice now frame_len links s in
      let same : t' ≡ t = cc in subst (IsConsistent n) same (Choice-IsConsistent how c)
  Step-IsConsistent {n = n} {s = s} {t = t} (selected_fast now frame_len r e) c =
      let (t', r', e', how) = select_fast_cases now frame_len n s in
      let same : t' ≡ t = cc in
      subst (IsConsistent n) same
        (elim how [ inl unchanged ↦ rw unchanged c | inr (idx, p) ↦ IsPicked-IsConsistent p c ])
