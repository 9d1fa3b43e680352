-- ===== src/Congestion/Filter.antt =====
-- src/congestion.rs: the factor falls at once when packets are lost, and rises only some time after it fell.
use mlvpn_rs.Common.{
  ne→==, ◌==◌, not, ◌≢◌, ◌⊎◌, ◌<◌, ◌+◌, List, [], ◌∷◌, All, sym, ◌∙◌, ltb→lt, lt→ltb, Option,
  if◌then◌else◌, none, ℕ, ◌-◌, ◌≤◌, ◌≡◌, arith, refl, true, false, some, ltb, Bool-cases,
  Option-cases, inl, inr,
}
use mlvpn_rs.Scheduler.Floats.{Float}
use mlvpn_rs.Congestion.{
  delay_target, delay_of, hold_down, min_window, CounterSnapshot, CongestionTracker, within,
  min_factor, next_factor, target_of, fold_window, update,
}

module _ {F : Type 0} ⦃f64 : Float F⦄ where
  -- The factor that the counters call for.
  abbrev pub goal_of : CongestionTracker F → CounterSnapshot → F
  goal_of t cur = f64.clamp (target_of t.prev cur) min_factor f64.one_value

  -- How an update moves the factor, and when.
  data Moves (now : ℕ) (cur : CounterSnapshot) (t u : CongestionTracker F) : Type 0 where
    stays :
        u.factor ≡ t.factor
        → u.last_drop ≡ t.last_drop
        → (t.last_update ≡ none)
          ⊎ ((last : ℕ) × (t.last_update ≡ some last) × (now - last < min_window))
          ⊎ ((f64.lt (goal_of t cur) t.factor ≡ false) × (within t.last_drop now hold_down ≡ true))
        → Moves now cur t u
    falls :
        u.factor ≡ goal_of t cur
        → f64.lt u.factor t.factor ≡ true
        → u.last_drop ≡ some now
        → Moves now cur t u
    recovers :
        (last : ℕ)
        → t.last_update ≡ some last
        → min_window ≤ now - last
        → f64.lt (goal_of t cur) t.factor ≡ false
        → within t.last_drop now hold_down ≡ false
        → u.factor
          ≡ f64.minimum
              (f64.add t.factor (f64.mul (f64.literal 15 2) (f64.as_secs (now - last))))
              (goal_of t cur)
        → u.last_drop ≡ (if f64.lt u.factor t.factor then some now else t.last_drop)
        → Moves now cur t u

  update-Moves :
      (now : ℕ) (cur : CounterSnapshot) (t : CongestionTracker F)
      → Moves now cur t (update now cur t)
  unfolding update fold_window next_factor
  update-Moves now cur t = elim (Option-cases t.last_update) [
    | inl first ↦ simp (update, first) (stays refl refl (inl first))
    | inr (last, seen) ↦
        simp (update, seen)
          (elim (Bool-cases (ltb (now - last) min_window)) [
            | inl short ↦
                rw short
                  (stays refl refl (inr (inl (last, seen, ltb→lt (now - last) min_window short))))
            | inr long ↦ rw long (elim (Bool-cases (f64.lt (goal_of t cur) t.factor)) [
              | inl below ↦ rw (below, below) (falls refl below refl)
              | inr above ↦ rw above (elim (Bool-cases (within t.last_drop now hold_down)) [
                | inl held ↦
                    rw (held, f64.lt_irrefl t.factor) (stays refl refl (inr (inr (above, held))))
                | inr free ↦ rw free (recovers last seen (ground arith) above free refl refl)
              ])
            ])
          ])
  ]

  -- What was lost on the way to the wire, and the factor that a link has at most when it lost that.
  pub data Lost (prev cur : CounterSnapshot) : F → Type 0 where
    queue_overflowed : cur.queue_full ≢ prev.queue_full → Lost prev cur (f64.literal 3 1)
    sending_failed : cur.send_failed ≢ prev.send_failed → Lost prev cur (f64.literal 25 2)

  tenth_le :
      {prev cur : CounterSnapshot} {cap : F} → Lost prev cur cap → f64.le min_factor cap ≡ true
  tenth_le (queue_overflowed h) = f64.tenth_le_queue_cap
  tenth_le (sending_failed h) = f64.tenth_le_failed_cap

  cap_self : {prev cur : CounterSnapshot} {cap : F} → Lost prev cur cap → f64.le cap cap ≡ true
  cap_self (queue_overflowed h) =
      f64.le_self_right (f64.literal 1 1) (f64.literal 3 1) f64.tenth_le_queue_cap
  cap_self (sending_failed h) =
      f64.le_self_right (f64.literal 1 1) (f64.literal 25 2) f64.tenth_le_failed_cap

  target_of-le :
      (prev cur : CounterSnapshot) (cap : F)
      → Lost prev cur cap
      → f64.le (target_of prev cur) cap ≡ true
  unfolding target_of
  target_of-le prev cur cap (queue_overflowed h) =
      let queued = f64.minimum (delay_target (delay_of prev cur)) (f64.literal 3 1) in
      let capped =
        f64.minimum_le_right (delay_target (delay_of prev cur)) (f64.literal 3 1) (f64.literal 3 1)
          (cap_self {prev = prev} {cur = cur} (queue_overflowed h)) in
      rw (target_of, ne→== cur.queue_full prev.queue_full h)
        (elim (Bool-cases (cur.send_failed == prev.send_failed)) [
          | inl sent ↦ rw sent capped
          | inr failed ↦
              rw failed (f64.minimum_le_left queued (f64.literal 25 2) (f64.literal 3 1) capped)
        ])
  target_of-le prev cur cap (sending_failed h) =
      let delayed = delay_target (delay_of prev cur) in
      let capped = cap_self {prev = prev} {cur = cur} (sending_failed h) in
      rw (target_of, ne→== cur.send_failed prev.send_failed h)
        (f64.minimum_le_right
          (if not (cur.queue_full == prev.queue_full)
            then f64.minimum delayed (f64.literal 3 1)
            else delayed)
          (f64.literal 25 2) (f64.literal 25 2) capped)

  goal_of-le :
      (t : CongestionTracker F) (cur : CounterSnapshot) (cap : F)
      → Lost t.prev cur cap
      → f64.le (goal_of t cur) cap ≡ true
  goal_of-le t cur cap lost =
      f64.clamp_le (target_of t.prev cur) min_factor f64.one_value cap
        (target_of-le t.prev cur cap lost) (tenth_le {prev = t.prev} {cur = cur} lost)

  -- Over a window of 50 milliseconds at least, in which the queue of the link was full, the factor goes down
  -- to 0.3 at most, and to 0.25 if sending failed, whatever it was before and whatever else was counted.
  pub losses_felt :
      (now last : ℕ) (cur : CounterSnapshot) (t : CongestionTracker F) (cap : F)
      → t.last_update ≡ some last
      → min_window ≤ now - last
      → f64.le t.factor t.factor ≡ true
      → Lost t.prev cur cap
      → f64.le (update now cur t).factor cap ≡ true
  losses_felt now last cur t cap seen long number lost =
      let capped = goal_of-le t cur cap lost in
      let goal_number = f64.le_self_left (goal_of t cur) cap capped in
      elim (update-Moves now cur t) [
        | stays f d why ↦ rw f (elim why [
          | inl first ↦ absurd (some-ne-none last (sym seen ∙ first))
          | inr (inl (last', seen', short)) ↦
              absurd (too_short last' (some_same last last' (sym seen ∙ seen')) short)
          | inr (inr (above, held)) ↦
              f64.le_trans t.factor (goal_of t cur) cap
                (f64.not_lt_le (goal_of t cur) t.factor goal_number number above) capped
        ])
        | falls f below d ↦ rw f capped
        | recovers last' s l above free f d ↦ rw f (
            f64.minimum_le_right
              (f64.add t.factor (f64.mul (f64.literal 15 2) (f64.as_secs (now - last'))))
              (goal_of t cur) cap capped)
      ]
    where
      some-ne-none : (a : ℕ) → some a ≢ none
      some-ne-none a e = cc

      some_same : (a b : ℕ) → some a ≡ some b → a ≡ b
      some_same a b e = cc

      too_short : (last' : ℕ) → last ≡ last' → ¬ (now - last' < min_window)
      too_short last' same short = omega arith

  -- The tracker after these updates, latest first.
  abbrev pub updates : List (ℕ × CounterSnapshot) → CongestionTracker F → CongestionTracker F
  updates [] t = t
  updates ((now, cur) ∷ earlier) t = update now cur (updates earlier t)

  -- The one factor is the other one or below it.
  abbrev pub NotAbove : F → F → Type 0
  NotAbove a b = (a ≡ b) ⊎ (f64.lt a b ≡ true)

  below_again : (a b c : F) → f64.lt a b ≡ true → NotAbove b c → f64.lt a c ≡ true
  below_again a b c lower (inl same) = rw (← same) lower
  below_again a b c lower (inr under) = f64.lt_trans a b c lower under

  -- A factor that fell since a time.
  record Held (since : ℕ) (limit : F) (t : CongestionTracker F) : Type 0 where
    not_above : NotAbove t.factor limit
    dropped : (at : ℕ) × (t.last_drop ≡ some at) × (since ≤ at)

  update-Held :
      (since now : ℕ) (limit : F) (cur : CounterSnapshot) (t : CongestionTracker F)
      → since ≤ now
      → now < since + hold_down
      → Held since limit t
      → Held since limit (update now cur t)
  update-Held since now limit cur t later soon h = elim (update-Moves now cur t) [
    | stays f d why ↦ record { not_above = rw f h.not_above; dropped = rw d h.dropped }
    | falls f below d ↦ record {
      not_above = inr (below_again (update now cur t).factor t.factor limit below h.not_above);
      dropped = (now, d, later);
    }
    | recovers last s l above free f d ↦
        let (at, drop, since_at) = h.dropped in absurd (still t.last_drop at drop since_at free)
  ]
    where
      still :
          (drop : Option ℕ) (at : ℕ)
          → drop ≡ some at
          → since ≤ at
          → ¬ (within drop now hold_down ≡ false)
      still drop at e after free =
          let held : ltb (now - at) hold_down ≡ true = lt→ltb (now - at) hold_down (omega arith) in
          let free' : within (some at) now hold_down ≡ false = rw e at free in cc

  updates-Held :
      (since : ℕ) (limit : F) (us : List (ℕ × CounterSnapshot)) (t : CongestionTracker F)
      → All (λ u. (since ≤ u.0) × (u.0 < since + hold_down)) us
      → Held since limit t
      → Held since limit (updates us t)
  updates-Held since limit [] t times h = h
  updates-Held since limit ((now, cur) ∷ us) t times h =
      update-Held since now limit cur (updates us t) times.0.0 times.0.1
        (updates-Held since limit us t times.1 h)

  fell-last_drop :
      (now : ℕ) (cur : CounterSnapshot) (t : CongestionTracker F)
      → f64.lt (update now cur t).factor t.factor ≡ true
      → (update now cur t).last_drop ≡ some now
  fell-last_drop now cur t fell = elim (update-Moves now cur t) [
    | stays f d why ↦ absurd (not_below (rw f at fell))
    | falls f below d ↦ d
    | recovers last s l above free f d ↦ d ∙ rw fell refl
  ]
    where
      not_below : ¬ (f64.lt t.factor t.factor ≡ true)
      not_below e = let no = f64.lt_irrefl t.factor in cc

  -- When an update lowers the factor, no update within the next second raises it above that again, however
  -- many there are and whatever they count.
  pub fall_held :
      (now : ℕ) (cur : CounterSnapshot) (t : CongestionTracker F) (us : List (ℕ × CounterSnapshot))
      → f64.lt (update now cur t).factor t.factor ≡ true
      → All (λ u. (now ≤ u.0) × (u.0 < now + hold_down)) us
      → NotAbove (updates us (update now cur t)).factor (update now cur t).factor
  fall_held now cur t us fell times =
      let fresh : Held now (update now cur t).factor (update now cur t) = record {
        not_above = inl refl;
        dropped = (now, fell-last_drop now cur t fell, omega arith);
      } in
      let held = updates-Held now (update now cur t).factor us (update now cur t) times fresh in
      held.not_above
