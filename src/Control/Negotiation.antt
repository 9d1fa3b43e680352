-- ===== src/Control/Negotiation.antt =====
-- src/control.rs, what the tunnel's MTU is after detection, reservation and negotiation.
use mlvpn_rs.Common.{
  ℕ, zero, suc, ◌+◌, ◌%◌, ◌^◌, ◌≤◌, ◌<◌, ◌≡◌, inl, inr, refl, sym, ap, ◌∙◌, Bool, true, false,
  Option, none, some, List, [], ◌∷◌, arith, Bool-cases, Option-cases, get_elem?, replicate, max,
  min, leb, leb→le, ◌==◌, ==_refl, ne→==, ==→eq,
}
use mlvpn_rs.Control.{mtu_floor_for, negotiate_tunnel_mtu, negotiate_tunnel_mtu_agrees}
use mlvpn_rs.Control.Mtu.{
  TunnelConfig, min_detected, detected_value, safe_mtu, pre_fec, mtu_or_fallback,
  effective_tunnel_mtu, outer_overhead, mtu_resize_needed, ResizeFailureLatch, default_latch,
  record_failure, record_success, MtuMonitor, mtu_tick,
}

-- Link `i` counts: it is the primary one, or there is no primary.
abbrev pub Counts : Option ℕ → ℕ → Type 0
Counts none i = Unit {0}
Counts (some idx) i = idx ≡ i

min_detected-le :
    (detected : List (Option ℕ)) (i d : ℕ)
    → get_elem? detected i ≡ some (some d)
    → (m : ℕ) × (min_detected detected ≡ some m) × (m ≤ d)
unfolding min_detected
min_detected-le [] i d h = ground arith
min_detected-le (none ∷ rest) zero d h = ground arith
min_detected-le (some e ∷ rest) zero d h = elim (Option-cases (min_detected rest)) [
  | inl nothing ↦ rw nothing (e, refl, ground arith)
  | inr (m, there) ↦ rw there (min e m, refl, ground arith)
]
min_detected-le (none ∷ rest) (suc i) d h = min_detected-le rest i d h
min_detected-le (some e ∷ rest) (suc i) d h =
    let (m, there, le) = min_detected-le rest i d h in rw there (min e m, refl, omega arith)

detected_value-le :
    (primary : Option ℕ) (detected : List (Option ℕ)) (i d : ℕ)
    → Counts primary i
    → get_elem? detected i ≡ some (some d)
    → (m : ℕ) × (detected_value primary detected ≡ some m) × (m ≤ d)
unfolding detected_value
detected_value-le none detected i d c h = min_detected-le detected i d h
detected_value-le (some idx) detected i d c h = rw (c, detected_value, h) (d, refl, omega arith)

pre_fec_lem :
    (mtu : Option ℕ) (safe floor : ℕ)
    → (pre_fec mtu safe floor ≤ max safe floor)
      × ((ceiling : ℕ) → mtu ≡ some ceiling → pre_fec mtu safe floor ≤ max ceiling floor)
unfolding pre_fec
pre_fec_lem none safe floor = (omega arith, λ ceiling e. cc)
pre_fec_lem (some c) safe floor = elim (Bool-cases (leb c safe)) [
  | inl below ↦ let h = leb→le c safe below in rw below (omega arith, λ ceiling e. ground arith)
  | inr above ↦ let h : safe < c = ground arith in rw above (omega arith, λ ceiling e. ground arith)
]

mtu_or_fallback-le :
    (mtu : Option ℕ) (ceiling : ℕ) → mtu ≡ some ceiling → mtu_or_fallback mtu ≤ ceiling
mtu_or_fallback-le none ceiling e = cc
mtu_or_fallback-le (some c) ceiling e = ground arith

-- The MTU is never below the floor of the address families, nor above a configured ceiling but where the
-- floor is. Above the floor, a packet of that size, with the reservation for parity and all headers
-- around it, fits the MTU of every link that counts and whose MTU is known.
pub effective_tunnel_mtu_fits :
    (cfg : TunnelConfig) (detected : List (Option ℕ)) (reservation : ℕ) (primary : Option ℕ)
    → let floor = mtu_floor_for cfg.has_address6 in
      let mtu = effective_tunnel_mtu cfg detected reservation primary in
      (floor ≤ mtu)
      × ((ceiling : ℕ) → cfg.mtu ≡ some ceiling → mtu ≤ max ceiling floor)
      × ((i d : ℕ)
          → Counts primary i
          → get_elem? detected i ≡ some (some d)
          → floor < mtu
          → mtu + reservation + outer_overhead ≤ d)
unfolding effective_tunnel_mtu
effective_tunnel_mtu_fits cfg detected reservation primary =
    let floor = mtu_floor_for cfg.has_address6 in
    elim (Option-cases (detected_value primary detected)) [
      | inl nothing ↦
          rw (effective_tunnel_mtu, nothing)
            (
              omega arith,
              λ ceiling e. omega (arith, mtu_or_fallback-le cfg.mtu ceiling e),
              λ i d counts h above.
                  let (m, there, le) = detected_value-le primary detected i d counts h in cc,
            )
      | inr (least, found) ↦
          let (safe, capped) = pre_fec_lem cfg.mtu (safe_mtu least) floor in
          rw (effective_tunnel_mtu, found)
            (
              omega arith,
              λ ceiling e. omega (arith, capped ceiling e),
              λ i d counts h above.
                  let (m, there, le) = detected_value-le primary detected i d counts h in
                  let same : m ≡ least = ground arith in omega arith,
            )
    ]

-- What a round does: it notes the own capability, and the tunnel's MTU becomes what the kernel accepted
-- of the negotiated value.
mtu_tick_lem :
    (cfg : TunnelConfig) (reservation : ℕ) (detected : List (Option ℕ)) (primary peer : Option ℕ)
    (set_mtu : ℕ → Bool) (s : MtuMonitor)
    → let local = effective_tunnel_mtu cfg detected reservation primary in
      let target = negotiate_tunnel_mtu local peer (mtu_floor_for cfg.has_address6) in
      let next = (mtu_tick cfg reservation detected primary peer set_mtu s).0 in
      (next.local_capability_mtu ≡ local) × (set_mtu target ≡ true → next.live_mtu ≡ target)
unfolding mtu_tick mtu_resize_needed
mtu_tick_lem cfg reservation detected primary peer set_mtu s =
    let local = effective_tunnel_mtu cfg detected reservation primary in
    let target = negotiate_tunnel_mtu local peer (mtu_floor_for cfg.has_address6) in
    elim (Bool-cases (s.live_mtu == target)) [
      | inl same ↦ rw same (refl, λ e. ==→eq s.live_mtu target same)
      | inr apart ↦ rw apart (elim (Bool-cases (set_mtu target)) [
        | inl accepted ↦ rw accepted (refl, λ e. refl)
        | inr refused ↦ rw refused (refl, λ e. cc)
      ])
    ]

floor_positive : (has_address6 : Bool) → 0 < mtu_floor_for has_address6
unfolding mtu_floor_for
floor_positive true = omega arith
floor_positive false = omega arith

-- Two peers of the same address families that advertise their capabilities to each other, and whose
-- kernels accept the MTU that they are asked for, have the same MTU after a round each, whatever it was
-- before: not below the floor, nor above what either side's links carry unless the floor is.
pub mtu_tick_agrees :
    (a b : TunnelConfig) (reservation_a reservation_b : ℕ) (detected_a detected_b : List (Option ℕ))
    (primary_a primary_b : Option ℕ) (set_a set_b : ℕ → Bool) (s t : MtuMonitor)
    → a.has_address6 ≡ b.has_address6
    → ((mtu : ℕ) → set_a mtu ≡ true)
    → ((mtu : ℕ) → set_b mtu ≡ true)
    → let from_a = effective_tunnel_mtu a detected_a reservation_a primary_a in
      let from_b = effective_tunnel_mtu b detected_b reservation_b primary_b in
      let next_a = (mtu_tick a reservation_a detected_a primary_a (some from_b) set_a s).0 in
      let next_b = (mtu_tick b reservation_b detected_b primary_b (some from_a) set_b t).0 in
      (next_a.live_mtu ≡ next_b.live_mtu)
      × (mtu_floor_for a.has_address6 ≤ next_a.live_mtu)
      × (next_a.live_mtu ≤ next_a.local_capability_mtu)
      × (next_b.live_mtu ≤ next_b.local_capability_mtu)
mtu_tick_agrees a b reservation_a reservation_b detected_a detected_b primary_a primary_b set_a
      set_b s t same ok_a ok_b =
    let from_a = effective_tunnel_mtu a detected_a reservation_a primary_a in
    let from_b = effective_tunnel_mtu b detected_b reservation_b primary_b in
    let floor_a = (effective_tunnel_mtu_fits a detected_a reservation_a primary_a).0 in
    let floor_b = (effective_tunnel_mtu_fits b detected_b reservation_b primary_b).0 in
    let (cap_a, live_a) = mtu_tick_lem a reservation_a detected_a primary_a (some from_b) set_a s in
    let (cap_b, live_b) = mtu_tick_lem b reservation_b detected_b primary_b (some from_a) set_b t in
    let positive : 0 < mtu_floor_for a.has_address6 = floor_positive a.has_address6 in
    let floors : mtu_floor_for b.has_address6 ≡ mtu_floor_for a.has_address6 =
      ap mtu_floor_for (sym same) in
    let target_b = ap (negotiate_tunnel_mtu from_b (some from_a)) floors in
    let (agree, over, below_a, below_b) =
      negotiate_tunnel_mtu_agrees from_a from_b a.has_address6 (omega arith) (omega arith) in
    let is_a = live_a (ok_a _) in
    let is_b = live_b (ok_b _) in
    (is_a ∙ agree ∙ sym target_b ∙ sym is_b, omega arith, omega arith, omega arith)

-- The rounds in which the kernel refuses the same MTU.
abbrev pub failures_at : ℕ → ℕ → ResizeFailureLatch → ResizeFailureLatch × List Bool
failures_at zero mtu latch = (latch, [])
failures_at (suc n) mtu latch =
    let (next, warned) = record_failure latch mtu in
    let (last, rest) = failures_at n mtu next in (last, warned ∷ rest)

failures_quiet :
    (n mtu streak : ℕ)
    → 0 < streak
    → streak + n < 2 ^ 32
    → failures_at n mtu (record { streak = streak; last_failed_mtu = some mtu })
      ≡ (record { streak = streak + n; last_failed_mtu = some mtu }, replicate n false)
unfolding record_failure
failures_quiet zero mtu streak h l =
    let nothing : streak + 0 ≡ streak = omega arith in rw nothing refl
failures_quiet (suc n) mtu streak h l =
    let one : (streak + 1) % 2 ^ 32 ≡ streak + 1 = omega arith in
    let counted : (streak == 0) ≡ false = ne→== streak 0 (omega arith) in
    let sum : streak + 1 + n ≡ streak + suc n = omega arith in
    rw
      (
        one,
        counted,
        ==_refl mtu,
        failures_quiet n mtu (streak + 1) (omega arith) (omega arith),
        sum,
      )
      refl

-- After a success the first refusal of an MTU is logged and the following ones at the same MTU are not,
-- as many as fit the counter; the next success reports how many were left out.
pub failures_logged_once :
    (latch : ResizeFailureLatch) (n mtu : ℕ)
    → suc n < 2 ^ 32
    → let (last, warned) = failures_at (suc n) mtu (record_success latch).0 in
      (warned ≡ true ∷ replicate n false) × (record_success last ≡ (default_latch, some n))
unfolding record_failure record_success
failures_logged_once latch n mtu h =
    let one : (0 + 1) % 2 ^ 32 ≡ 1 = omega arith in
    let sum : 1 + n ≡ suc n = omega arith in
    rw (failures_quiet n mtu 1 (omega arith) (omega arith), sum) (refl, ground arith)
