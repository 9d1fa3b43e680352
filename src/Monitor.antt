-- ===== src/Monitor.antt =====
-- src/monitor.rs: the probes that are out, and when a link goes up or down.
pub mod Streaks
pub mod Probes
mod Tests
use mlvpn_rs.Common.{
  ℕ, ◌-◌, Bool, true, false, Option, none, some, List, [], ◌∷◌, length, ltb, leb, if◌then◌else◌,
}
use mlvpn_rs.Common.Maps.{lookup, insert, remove}
use mlvpn_rs.Link.Stats.{LinkState, probing, up, down, LinkStats}
use mlvpn_rs.Link.Windows.{record_down, clear}

pub record ProbeTracker : Type 0 where
  pub outstanding : List (ℕ × ℕ)
  pub timeout : ℕ

unfoldable pub record_sent : ℕ → ℕ → ProbeTracker → ProbeTracker
record_sent now seq t = record t { outstanding = insert seq now t.outstanding }

-- The time since the probe was sent, if it is out.
unfoldable pub record_reply : ℕ → ℕ → ProbeTracker → ProbeTracker × Option ℕ
record_reply now seq t = elim (lookup seq t.outstanding) [
  | none ↦ (t, none)
  | some sent_at ↦ (record t { outstanding = remove seq t.outstanding }, some (now - sent_at))
]

unfoldable pub retain_recent : ℕ → ℕ → List (ℕ × ℕ) → List (ℕ × ℕ)
retain_recent now timeout [] = []
retain_recent now timeout ((seq, sent_at) ∷ rest) =
    let kept = retain_recent now timeout rest in
    if ltb (now - sent_at) timeout then (seq, sent_at) ∷ kept else kept

unfoldable pub sweep_timeouts : ℕ → ProbeTracker → ProbeTracker × ℕ
sweep_timeouts now t =
    let kept = retain_recent now t.timeout t.outstanding in
    (record t { outstanding = kept }, length t.outstanding - length kept)

pub record SchedulerConfig : Type 0 where
  pub down_threshold : ℕ
  pub up_threshold : ℕ

-- What `update_link_state` reads and writes of a `Link`.
pub record Link (F : Type 0) : Type 0 where
  pub state : LinkState
  pub state_since : ℕ
  pub stats : LinkStats F

-- A link as it is opened.
abbrev pub opened : {F : Type 0} → ℕ → LinkStats F → Link F
opened now stats = record { state = probing; state_since = now; stats = stats }

abbrev pub is_same_state : LinkState → LinkState → Bool
is_same_state up up = true
is_same_state down down = true
is_same_state probing probing = true
is_same_state _ _ = false

module _ {F : Type 0} where
  unfoldable pub next_state : SchedulerConfig → LinkState → LinkStats F → LinkState
  next_state cfg up s = if leb cfg.down_threshold s.consecutive_misses then down else up
  next_state cfg down s = if leb cfg.up_threshold s.consecutive_hits then up else down
  next_state cfg probing s = if leb cfg.up_threshold s.consecutive_hits then up else probing

  unfoldable pub gone_down : ℕ → LinkStats F → LinkStats F
  gone_down now s = record s { down_transitions = record_down now s.down_transitions }

  unfoldable pub come_up : LinkStats F → LinkStats F
  come_up s = record s {
    confirmed_ceiling_mbps = none;
    last_ramp_at = none;
    consecutive_verify_misses = 0;
    probe_window = clear;
  }

  -- The statistics after a change of the state.
  unfoldable pub changed_stats : ℕ → LinkState → LinkState → LinkStats F → LinkStats F
  changed_stats now up down s = gone_down now s
  changed_stats now down up s = come_up s
  changed_stats now probing up s = come_up s
  changed_stats now _ _ s = s

  unfoldable pub update_link_state : ℕ → SchedulerConfig → Link F → Link F
  update_link_state now cfg l =
      let next = next_state cfg l.state l.stats in
      if is_same_state l.state next then l else record {
        state = next;
        state_since = now;
        stats = changed_stats now l.state next l.stats;
      }
