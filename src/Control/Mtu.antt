-- ===== src/Control/Mtu.antt =====
-- src/control.rs: effective_tunnel_mtu, ResizeFailureLatch, and a round of mtu_monitor_loop.
use mlvpn_rs.Common.{
  ℕ, ◌+◌, ◌-◌, ◌%◌, ◌^◌, Bool, false, not, ◌||◌, Option, none, some, List, [], ◌∷◌, get_elem?, max,
  min, ltb, leb, ◌==◌, if◌then◌else◌,
}
use mlvpn_rs.Protocol.Header.{header_len}
use mlvpn_rs.Control.{mtu_floor_for, negotiate_tunnel_mtu}

abbrev pub fallback_mtu_when_nothing_detected : ℕ
fallback_mtu_when_nothing_detected = 1400

-- src/wireguard.rs
abbrev pub wg_overhead_bytes : ℕ
wg_overhead_bytes = 32

abbrev pub fake_ipv4_header_len : ℕ
fake_ipv4_header_len = 20

abbrev pub outer_overhead : ℕ
outer_overhead = header_len + wg_overhead_bytes + fake_ipv4_header_len + 48

-- The part of the configuration that is read here.
pub record TunnelConfig : Type 0 where
  pub mtu : Option ℕ
  pub has_address6 : Bool

-- The least of the values that are known.
unfoldable pub min_detected : List (Option ℕ) → Option ℕ
min_detected [] = none
min_detected (none ∷ rest) = min_detected rest
min_detected (some d ∷ rest) = elim (min_detected rest) [ none ↦ some d | some e ↦ some (min d e) ]

unfoldable pub detected_value : Option ℕ → List (Option ℕ) → Option ℕ
detected_value none detected = min_detected detected
detected_value (some idx) detected = elim (get_elem? detected idx) [
  | none ↦ none
  | some reading ↦ reading
]

abbrev pub safe_mtu : ℕ → ℕ
safe_mtu detected_min = min (detected_min - outer_overhead) 65535

-- The MTU before the reservation, from the ceiling and what is safe.
unfoldable pub pre_fec : Option ℕ → ℕ → ℕ → ℕ
pre_fec none safe floor = max safe floor
pre_fec (some ceiling) safe floor = if leb ceiling safe then ceiling else max safe floor

abbrev pub mtu_or_fallback : Option ℕ → ℕ
mtu_or_fallback none = fallback_mtu_when_nothing_detected
mtu_or_fallback (some ceiling) = ceiling

unfoldable pub effective_tunnel_mtu : TunnelConfig → List (Option ℕ) → ℕ → Option ℕ → ℕ
effective_tunnel_mtu cfg detected fec_reservation primary_idx =
    let floor = mtu_floor_for cfg.has_address6 in
    elim (detected_value primary_idx detected) [
      | none ↦ max (mtu_or_fallback cfg.mtu - fec_reservation) floor
      | some detected_min ↦
          max (pre_fec cfg.mtu (safe_mtu detected_min) floor - fec_reservation) floor
    ]

unfoldable pub mtu_resize_needed : ℕ → ℕ → Bool
mtu_resize_needed current recomputed = not (current == recomputed)

pub record ResizeFailureLatch : Type 0 where
  pub streak : ℕ
  pub last_failed_mtu : Option ℕ

abbrev pub default_latch : ResizeFailureLatch
default_latch = record { streak = 0; last_failed_mtu = none }

abbrev pub is_some_of : Option ℕ → ℕ → Bool
is_some_of none attempted = false
is_some_of (some last) attempted = last == attempted

-- The streak is a `u32`; a failure is returned with whether it is to be logged.
unfoldable pub record_failure : ResizeFailureLatch → ℕ → ResizeFailureLatch × Bool
record_failure latch attempted = (
  record { streak = (latch.streak + 1) % 2 ^ 32; last_failed_mtu = some attempted },
  latch.streak == 0 || not (is_some_of latch.last_failed_mtu attempted),
)

unfoldable pub record_success : ResizeFailureLatch → ResizeFailureLatch × Option ℕ
record_success latch = (default_latch, if ltb 0 latch.streak then some (latch.streak - 1) else none)

pub record MtuMonitor : Type 0 where
  pub live_mtu : ℕ
  pub local_capability_mtu : ℕ
  pub failures : ResizeFailureLatch

-- One round: what the interfaces, the scheduler and the peer say, and whether the kernel takes an MTU.
-- Returns the new state and the MTU that the resizer was asked for.
unfoldable pub mtu_tick :
    TunnelConfig
    → ℕ
    → List (Option ℕ)
    → Option ℕ
    → Option ℕ
    → (ℕ → Bool)
    → MtuMonitor
    → MtuMonitor × Option ℕ
mtu_tick cfg fec_reservation detected primary_idx peer_advertised set_mtu s =
    let local = effective_tunnel_mtu cfg detected fec_reservation primary_idx in
    let recomputed = negotiate_tunnel_mtu local peer_advertised (mtu_floor_for cfg.has_address6) in
    if not (mtu_resize_needed s.live_mtu recomputed)
    then (record s { local_capability_mtu = local }, none)
    else if set_mtu recomputed
    then (
      record {
        live_mtu = recomputed;
        local_capability_mtu = local;
        failures = (record_success s.failures).0;
      },
      some recomputed,
    )
    else (
      record s {
        local_capability_mtu = local;
        failures = (record_failure s.failures recomputed).0;
      },
      some recomputed,
    )
