-- ===== src/Monitor/Streaks.antt =====
-- src/monitor.rs: a link goes down or up exactly after enough probes in a row failed or came back.
use mlvpn_rs.Common.{
  ℕ, ◌+◌, ◌-◌, ◌%◌, ◌^◌, ◌≤◌, ◌<◌, ◌≡◌, refl, ◌∙◌, Bool, true, false, none, List, [], ◌∷◌, arith,
  leb, leb→le, Bool-cases, inl, inr,
}
use mlvpn_rs.Scheduler.Floats.{Float}
use mlvpn_rs.Link.Windows.{record_down}
use mlvpn_rs.Link.Stats
use mlvpn_rs.Link.Stats.{
  LinkState, probing, up, down, LinkStats, record_rtt, record_miss, record_tx_many, record_rx,
  set_alpha,
}
use mlvpn_rs.Monitor.{
  SchedulerConfig, Link, opened, next_state, changed_stats, gone_down, come_up, is_same_state,
  update_link_state,
}

-- What happens to a link.
pub data Event (F : Type 0) : Type 0 where
  replied : ℕ → F → Event F
  missed : ℕ → Event F
  judged : ℕ → Event F
  sent : ℕ → ℕ → ℕ → Event F
  received : ℕ → ℕ → Event F
  tuned : F → Event F

-- The outcomes of the probes among the events.
abbrev pub outcomes : {F : Type 0} → List (Event F) → List Bool
outcomes [] = []
outcomes (replied now rtt ∷ es) = true ∷ outcomes es
outcomes (missed now ∷ es) = false ∷ outcomes es
outcomes (judged now ∷ es) = outcomes es
outcomes (sent now bytes packets ∷ es) = outcomes es
outcomes (received now bytes ∷ es) = outcomes es
outcomes (tuned alpha ∷ es) = outcomes es

-- How many of the latest probes came back, or failed, in a row.
abbrev pub hits_in_row : List Bool → ℕ
hits_in_row [] = 0
hits_in_row (true ∷ os) = 1 + hits_in_row os
hits_in_row (false ∷ os) = 0

abbrev pub misses_in_row : List Bool → ℕ
misses_in_row [] = 0
misses_in_row (true ∷ os) = 0
misses_in_row (false ∷ os) = 1 + misses_in_row os

abbrev pub is_up : LinkState → Bool
is_up up = true
is_up _ = false

-- What a judgement does to a link, after so many probes in a row came back and so many failed.
pub data Verdict {F : Type 0} (now : ℕ) (cfg : SchedulerConfig) (hits misses : ℕ) (l u : Link F)
    : Type 0 where
  stays_up :
      l.state ≡ up → misses % 2 ^ 32 < cfg.down_threshold → u ≡ l → Verdict now cfg hits misses l u
  stays_off :
      is_up l.state ≡ false
      → hits % 2 ^ 32 < cfg.up_threshold
      → u ≡ l
      → Verdict now cfg hits misses l u
  goes_down :
      l.state ≡ up
      → cfg.down_threshold ≤ misses
      → u ≡ record {
        state = down;
        state_since = now;
        stats = record l.stats { down_transitions = record_down now l.stats.down_transitions };
      }
      → Verdict now cfg hits misses l u
  comes_up :
      is_up l.state ≡ false
      → cfg.up_threshold ≤ hits
      → u ≡ record {
        state = up;
        state_since = now;
        stats = record l.stats {
          confirmed_ceiling_mbps = none;
          last_ramp_at = none;
          consecutive_verify_misses = 0;
          probe_window = record { samples = []; epoch = none };
        };
      }
      → Verdict now cfg hits misses l u

changed_stats-misses :
    {F : Type 0} (now : ℕ) (a b : LinkState) (s : LinkStats F)
    → ((changed_stats now a b s).consecutive_misses ≡ s.consecutive_misses)
      × ((changed_stats now a b s).consecutive_hits ≡ s.consecutive_hits)
unfolding changed_stats gone_down come_up
changed_stats-misses now up up s = (refl, refl)
changed_stats-misses now up down s = (refl, refl)
changed_stats-misses now up probing s = (refl, refl)
changed_stats-misses now down up s = (refl, refl)
changed_stats-misses now down down s = (refl, refl)
changed_stats-misses now down probing s = (refl, refl)
changed_stats-misses now probing up s = (refl, refl)
changed_stats-misses now probing down s = (refl, refl)
changed_stats-misses now probing probing s = (refl, refl)

module _ {F : Type 0} ⦃f64 : Float F⦄ where
  unfoldable pub apply : SchedulerConfig → Event F → Link F → Link F
  apply cfg (replied now rtt) l = record l { stats = record_rtt now rtt l.stats }
  apply cfg (missed now) l = record l { stats = record_miss now l.stats }
  apply cfg (judged now) l = update_link_state now cfg l
  apply cfg (sent now bytes packets) l = record l {
    stats = record_tx_many now bytes packets l.stats;
  }
  apply cfg (received now bytes) l = record l { stats = record_rx now bytes l.stats }
  apply cfg (tuned alpha) l = record l { stats = set_alpha alpha l.stats }

  -- A link after these events, latest first.
  abbrev pub monitored : SchedulerConfig → ℕ → F → List (Event F) → Link F
  monitored cfg start alpha [] = opened start (Stats.new start alpha)
  monitored cfg start alpha (e ∷ es) = apply cfg e (monitored cfg start alpha es)

  -- The counters are the lengths of the rows, modulo the size of their type.
  record Counts (os : List Bool) (s : LinkStats F) : Type 0 where
    hits : s.consecutive_hits ≡ hits_in_row os % 2 ^ 32
    misses : s.consecutive_misses ≡ misses_in_row os % 2 ^ 32

  apply-Counts :
      (cfg : SchedulerConfig) (e : Event F) (es : List (Event F)) (l : Link F)
      → Counts (outcomes es) l.stats
      → Counts (outcomes (e ∷ es)) (apply cfg e l).stats
  unfolding apply record_rtt record_miss update_link_state record_tx_many record_rx set_alpha
  apply-Counts cfg (replied now rtt) es l c =
      let h = c.hits in record { hits = omega arith; misses = omega arith }
  apply-Counts cfg (missed now) es l c =
      let h = c.misses in record { hits = omega arith; misses = omega arith }
  apply-Counts cfg (judged now) es l c =
      elim (Bool-cases (is_same_state l.state (next_state cfg l.state l.stats))) [
        | inl same ↦ rw (update_link_state, same) c
        | inr other ↦
            let kept = changed_stats-misses now l.state (next_state cfg l.state l.stats) l.stats in
            rw (update_link_state, other)
              (record { hits = kept.1 ∙ c.hits; misses = kept.0 ∙ c.misses })
      ]
  apply-Counts cfg (sent now bytes packets) es l c =
      elim (Bool-cases
        (f64.ge (f64.as_secs (now - l.stats.last_tx_throughput_sample)) f64.one_value)) [
          | inl long ↦ rw long (record { hits = c.hits; misses = c.misses })
          | inr short ↦ rw short (record { hits = c.hits; misses = c.misses })
        ]
  apply-Counts cfg (received now bytes) es l c =
      elim (Bool-cases
        (f64.ge (f64.as_secs (now - l.stats.last_rx_throughput_sample)) f64.one_value)) [
          | inl long ↦ rw long (record { hits = c.hits; misses = c.misses })
          | inr short ↦ rw short (record { hits = c.hits; misses = c.misses })
        ]
  apply-Counts cfg (tuned alpha) es l c = record { hits = c.hits; misses = c.misses }

  monitored-Counts :
      (cfg : SchedulerConfig) (start : ℕ) (alpha : F) (es : List (Event F))
      → Counts (outcomes es) (monitored cfg start alpha es).stats
  unfolding Stats.new
  monitored-Counts cfg start alpha [] = record { hits = refl; misses = refl }
  monitored-Counts cfg start alpha (e ∷ es) =
      apply-Counts cfg e es (monitored cfg start alpha es) (monitored-Counts cfg start alpha es)

  update_link_state-Verdict :
      (now : ℕ) (cfg : SchedulerConfig) (hits misses since : ℕ) (state : LinkState)
      (s : LinkStats F)
      → s.consecutive_hits ≡ hits % 2 ^ 32
      → s.consecutive_misses ≡ misses % 2 ^ 32
      → Verdict now cfg hits misses
          (record { state = state; state_since = since; stats = s })
          (update_link_state now cfg (record { state = state; state_since = since; stats = s }))
  unfolding update_link_state next_state changed_stats gone_down come_up
  update_link_state-Verdict now cfg hits misses since up s h m =
      elim (Bool-cases (leb cfg.down_threshold s.consecutive_misses)) [
        | inl due ↦
            let le = leb→le cfg.down_threshold s.consecutive_misses due in
            rw due (goes_down refl (omega arith) refl)
        | inr fine ↦ rw fine (stays_up refl (ground arith) refl)
      ]
  update_link_state-Verdict now cfg hits misses since down s h m =
      elim (Bool-cases (leb cfg.up_threshold s.consecutive_hits)) [
        | inl due ↦
            let le = leb→le cfg.up_threshold s.consecutive_hits due in
            rw due (comes_up refl (omega arith) refl)
        | inr wait ↦ rw wait (stays_off refl (ground arith) refl)
      ]
  update_link_state-Verdict now cfg hits misses since probing s h m =
      elim (Bool-cases (leb cfg.up_threshold s.consecutive_hits)) [
        | inl due ↦
            let le = leb→le cfg.up_threshold s.consecutive_hits due in
            rw due (comes_up refl (omega arith) refl)
        | inr wait ↦ rw wait (stays_off refl (ground arith) refl)
      ]

  -- After any events of a link, a judgement takes it down exactly if it is up and as many of the latest
  -- probes failed in a row as the threshold says, and notes the time, and brings it up exactly if it is not
  -- and as many came back, and then drops the cached ceiling, its time, the misses against it and the
  -- window of probes; all else stays, and the link is as it was in every other case. (The rows are counted
  -- modulo 2^32.)
  pub judged-Verdict :
      (cfg : SchedulerConfig) (start : ℕ) (alpha : F) (es : List (Event F)) (now : ℕ)
      → Verdict now cfg
          (hits_in_row (outcomes es))
          (misses_in_row (outcomes es))
          (monitored cfg start alpha es)
          (monitored cfg start alpha (judged now ∷ es))
  unfolding apply
  judged-Verdict cfg start alpha es now =
      let l = monitored cfg start alpha es in
      let c = monitored-Counts cfg start alpha es in
      update_link_state-Verdict now cfg (hits_in_row (outcomes es)) (misses_in_row (outcomes es))
        l.state_since l.state l.stats c.hits c.misses
