-- ===== src/Scheduler/Pick.antt =====
-- src/scheduler.rs: the weights of the links, and the choice of the link for a packet.
use mlvpn_rs.Common.{
  ℕ, zero, suc, ◌+◌, ◌-◌, ◌%◌, ◌^◌, Bool, true, false, not, ◌&&◌, ◌||◌, Option, none, some, List,
  [], ◌∷◌, length, get_elem?, set, ltb, leb, ◌==◌, if◌then◌else◌, Result, ok, err, panic, ◌>>=◌,
}
use mlvpn_rs.Common.Maps.{lookup, insert}
use mlvpn_rs.Scheduler.{
  SwrrEntry, RateLimitState, Scheduler, SchedulerConfig, LinkView, Scores, max_by, min_by, keep_if,
  any, refresh_from_scores,
}
use mlvpn_rs.Scheduler.Floats.{Float, Tracker}

-- What `select` reads of a `LinkScore` where no link is up.
pub record LinkScore (F : Type 0) : Type 0 where
  pub link_index : ℕ
  pub consecutive_misses : ℕ
  pub rtt_ms : Option F

abbrev pub new_rate_limit : ℕ → RateLimitState
new_rate_limit now = record { window_start = now; bytes_in_window = 0 }

abbrev pub limit_or_new : ℕ → Option RateLimitState → RateLimitState
limit_or_new now none = new_rate_limit now
limit_or_new now (some state) = state

-- The window is a second; a new one begins before the test.
unfoldable pub roll_window : ℕ → RateLimitState → RateLimitState
roll_window now r = if leb 1000 (now - r.window_start) then new_rate_limit now else r

unfoldable pub record_bytes : ℕ → RateLimitState → RateLimitState
record_bytes bytes r = record r { bytes_in_window = (r.bytes_in_window + bytes) % 2 ^ 64 }

-- `rate_limits.get_mut(&idx)`, and `record` on what it finds.
unfoldable pub record_in : ℕ → ℕ → List (ℕ × RateLimitState) → List (ℕ × RateLimitState)
record_in idx bytes limits = elim (lookup idx limits) [
  | none ↦ limits
  | some state ↦ insert idx (record_bytes bytes state) limits
]

-- `0..n`
unfoldable pub range_from : ℕ → ℕ → List ℕ
range_from pos zero = []
range_from pos (suc n) = pos ∷ range_from (suc pos) n

unfoldable pub is_penalized : List (ℕ × ℕ) → ℕ → Bool
is_penalized penalized idx = any (λ p. p.0 == idx) penalized

-- `for (i, sample) in samples`: the trackers that are missing are created first.
unfoldable pub observe_all :
    {F T Sample : Type 0} → Tracker F T Sample → ℕ → List Sample → List T → List T
observe_all tr now [] ts = ts
observe_all tr now (x ∷ xs) [] = tr.observe now x tr.default ∷ observe_all tr now xs []
observe_all tr now (x ∷ xs) (t ∷ ts) = tr.observe now x t ∷ observe_all tr now xs ts

-- The penalties that have not lapsed.
unfoldable pub live_penalties : ℕ → List (ℕ × ℕ) → List (ℕ × ℕ)
live_penalties now penalized = keep_if (λ p. ltb now p.1) penalized

abbrev pub unless_empty : List ℕ → List ℕ → List ℕ
unless_empty [] eligible = eligible
unless_empty (pos ∷ rest) eligible = pos ∷ rest

abbrev pub is_empty {ℓ} : {A : Type ℓ} → List A → Bool
is_empty [] = true
is_empty (x ∷ xs) = false

module _ {F : Type 0} ⦃f64 : Float F⦄ where
  unfoldable pub budget_bytes : F → ℕ
  budget_bytes cap_mbps =
      f64.as_u64 (f64.div (f64.mul cap_mbps (f64.literal 1000000 0)) (f64.literal 8 0))

  -- `RateLimitState::under_cap`
  unfoldable pub under_cap : ℕ → F → ℕ → RateLimitState → RateLimitState × Bool
  under_cap now cap_mbps additional r =
      let rolled = roll_window now r in
      (rolled, leb ((rolled.bytes_in_window + additional) % 2 ^ 64) (budget_bytes cap_mbps))

  -- Which entries, from `pos` on, are under their caps.
  unfoldable pub scan_caps :
      ℕ
      → ℕ
      → ℕ
      → List (SwrrEntry F)
      → List (ℕ × RateLimitState)
      → List ℕ × List (ℕ × RateLimitState)
  scan_caps now len pos [] limits = ([], limits)
  scan_caps now len pos (e ∷ es) limits = elim e.bandwidth_cap_mbps [
    | none ↦ (let (rest, last) = scan_caps now len (suc pos) es limits in (pos ∷ rest, last))
    | some cap_mbps ↦
        (let (state, under) =
            under_cap now cap_mbps len (limit_or_new now (lookup e.link_index limits)) in
          let (rest, last) = scan_caps now len (suc pos) es (insert e.link_index state limits) in
          (if under then pos ∷ rest else rest, last))
  ]

  abbrev pub weight_of : Option (SwrrEntry F) → F
  weight_of none = f64.zero_value
  weight_of (some e) = e.effective_weight

  abbrev pub current_of : Option (SwrrEntry F) → F
  current_of none = f64.zero_value
  current_of (some e) = e.current_weight

  -- The positions that are summed and compared are positions of entries.
  unfoldable pub total_weight : List (SwrrEntry F) → F → List ℕ → F
  total_weight entries sum [] = sum
  total_weight entries sum (pos ∷ rest) =
      total_weight entries (f64.add sum (weight_of (get_elem? entries pos))) rest

  unfoldable pub add_weight : ℕ → F → List (SwrrEntry F) → List (SwrrEntry F)
  add_weight pos w entries = elim (get_elem? entries pos) [
    | none ↦ entries
    | some e ↦ set entries pos (record e { current_weight = f64.add e.current_weight w })
  ]

  unfoldable pub advance_weights : List ℕ → List (SwrrEntry F) → List (SwrrEntry F)
  advance_weights [] entries = entries
  advance_weights (pos ∷ rest) entries =
      advance_weights rest (add_weight pos (weight_of (get_elem? entries pos)) entries)

  unfoldable pub sub_weight : ℕ → F → List (SwrrEntry F) → List (SwrrEntry F)
  sub_weight pos w entries = elim (get_elem? entries pos) [
    | none ↦ entries
    | some e ↦ set entries pos (record e { current_weight = f64.sub e.current_weight w })
  ]

  unfoldable pub index_at : List (SwrrEntry F) → ℕ → Result ℕ
  index_at entries pos = elim (get_elem? entries pos) [
    | none ↦ err panic
    | some e ↦ ok e.link_index
  ]

  -- A round of the smooth weighted round robin among the given positions; without any, `expect` panics.
  unfoldable pub pick_among : List ℕ → List (SwrrEntry F) → Result (List (SwrrEntry F) × ℕ)
  pick_among eligible entries =
      let total = total_weight entries f64.zero_value eligible in
      let advanced = advance_weights eligible entries in
      elim (max_by
        (λ a b.
          f64.total_le (current_of (get_elem? advanced a)) (current_of (get_elem? advanced b)))
        eligible) [
          | none ↦ err panic
          | some winner ↦
              index_at advanced winner >>= λ idx. ok (sub_weight winner total advanced, idx)
        ]

  unfoldable pub swrr_pick : List (SwrrEntry F) → Result (List (SwrrEntry F) × ℕ)
  swrr_pick entries = pick_among (range_from 0 (length entries)) entries

  -- The key of the link that looks least bad: its misses, then its round trip.
  abbrev pub rtt_or_max : Option F → F
  rtt_or_max none = f64.max_value
  rtt_or_max (some rtt) = rtt

  unfoldable pub less_bad : LinkScore F → LinkScore F → Bool
  less_bad a b =
      ltb a.consecutive_misses b.consecutive_misses
      || a.consecutive_misses == b.consecutive_misses
        && leb (f64.as_i64 (rtt_or_max a.rtt_ms)) (f64.as_i64 (rtt_or_max b.rtt_ms))

  abbrev pub link_index_of : Option (LinkScore F) → Option ℕ
  link_index_of none = none
  link_index_of (some l) = some l.link_index

  -- The links whose score is positive, numbered from `i` on.
  unfoldable pub up_indices : ℕ → List (LinkView F) → Scores F
  up_indices i [] = []
  up_indices i (l ∷ ls) =
      let rest = up_indices (suc i) ls in
      if f64.gt l.score f64.zero_value then (i, l.score) ∷ rest else rest

  abbrev pub cap_of : Option (LinkView F) → Option F
  cap_of none = none
  cap_of (some l) = l.bandwidth_cap_mbps

module _ {F C D CS DS : Type 0} ⦃f64 : Float F⦄ (cong : Tracker F C CS)
    (deliv : Tracker F D DS) where
  unfoldable pub congestion_factor : Scheduler F C D → ℕ → F
  congestion_factor s idx = elim (get_elem? s.congestion idx) [
    | none ↦ f64.one_value
    | some t ↦ cong.factor t
  ]

  unfoldable pub best_factor : F → List D → F
  best_factor best [] = best
  best_factor best (d ∷ ds) = best_factor (f64.maximum best (deliv.factor d)) ds

  -- `delivery::MIN_FACTOR` is 0.001.
  unfoldable pub delivery_factor : Scheduler F C D → ℕ → F
  delivery_factor s idx = elim (get_elem? s.delivery idx) [
    | none ↦ f64.one_value
    | some t ↦
        let best = best_factor f64.zero_value s.delivery in
        if f64.ge f64.zero_value best
        then f64.one_value
        else f64.clamp (f64.div (deliv.factor t) best) (f64.literal 1 3) f64.one_value
  ]

  unfoldable pub link_factor : Scheduler F C D → ℕ → F
  link_factor s idx = f64.mul (congestion_factor s idx) (delivery_factor s idx)

  unfoldable pub rescale : Scheduler F C D → List (SwrrEntry F) → List (SwrrEntry F)
  rescale s [] = []
  rescale s (e ∷ es) =
      record e { effective_weight = f64.mul e.base_weight (link_factor s e.link_index) }
      ∷ rescale s es

  unfoldable pub update_delivery : ℕ → List DS → Scheduler F C D → Scheduler F C D
  update_delivery now samples s =
      let observed = record s { delivery = observe_all deliv now samples s.delivery } in
      record observed { entries = rescale observed observed.entries }

  unfoldable pub update_congestion : ℕ → List CS → Scheduler F C D → Scheduler F C D
  update_congestion now snapshots s =
      let observed = record s { congestion = observe_all cong now snapshots s.congestion } in
      record observed { entries = rescale observed observed.entries }

  unfoldable pub entries_of : Scheduler F C D → List (LinkView F) → Scores F → List (SwrrEntry F)
  entries_of s links [] = []
  entries_of s links ((i, w) ∷ rest) =
      record {
        link_index = i;
        base_weight = w;
        effective_weight = f64.mul w (link_factor s i);
        current_weight = f64.zero_value;
        bandwidth_cap_mbps = cap_of (get_elem? links i);
      }
      ∷ entries_of s links rest

  unfoldable pub refresh :
      List (LinkView F) → SchedulerConfig → Option ℕ → Scheduler F C D → Scheduler F C D
  refresh links cfg peer s =
      let ups = up_indices 0 links in
      let chosen = refresh_from_scores ups cfg peer s in
      record chosen { entries = entries_of chosen links ups }

  -- `PENALTY_FALLBACK_MIN_DELIVERY` is 0.5.
  unfoldable pub is_refuge : Scheduler F C D → ℕ → Bool
  is_refuge s pos = elim (get_elem? s.entries pos) [
    | none ↦ false
    | some e ↦
        not (is_penalized s.penalized e.link_index)
        && f64.ge (delivery_factor s e.link_index) (f64.literal 5 1)
  ]

  unfoldable pub steer : Scheduler F C D → List ℕ → List ℕ
  steer s eligible =
      if is_empty s.penalized
      then eligible
      else unless_empty (keep_if (is_refuge s) eligible) eligible

  unfoldable pub swrr_pick_under_cap : ℕ → ℕ → Scheduler F C D → Result (Scheduler F C D × ℕ)
  swrr_pick_under_cap now frame_len s =
      let (under, limits) = scan_caps now frame_len 0 s.entries s.rate_limits in
      let live = record s { rate_limits = limits; penalized = live_penalties now s.penalized } in
      let eligible = steer live under in
      (if is_empty eligible then swrr_pick live.entries else pick_among eligible live.entries)
      >>= λ picked. ok (
        record live { entries = picked.0; rate_limits = record_in picked.1 frame_len limits },
        picked.1,
      )

  -- The state and the link of the next packet.
  unfoldable pub select_fast : ℕ → ℕ → ℕ → Scheduler F C D → Result (Scheduler F C D × Option ℕ)
  select_fast now link_count frame_len s =
      if link_count == 0 then ok (s, none) else elim s.primary [
        | some idx ↦ ok (s, some idx)
        | none ↦
            if is_empty s.entries
            then ok (s, none)
            else swrr_pick_under_cap now frame_len s >>= λ picked. ok (picked.0, some picked.1)
      ]

  unfoldable pub select :
      ℕ → List (LinkScore F) → ℕ → Scheduler F C D → Result (Scheduler F C D × Option ℕ)
  select now links frame_len s = if is_empty links then ok (s, none) else elim s.primary [
    | some idx ↦ ok (s, some idx)
    | none ↦
        if is_empty s.entries
        then ok (s, link_index_of (min_by less_bad links))
        else swrr_pick_under_cap now frame_len s >>= λ picked. ok (picked.0, some picked.1)
  ]
