-- ===== src/Control/Tests.antt =====
-- Detected MTUs, two peers that negotiate, and a kernel that refuses.
use mlvpn_rs.Common.{
  ℕ, ◌+◌, ◌≤◌, ◌<◌, ◌≡◌, refl, Bool, true, false, none, some, [], ◌∷◌, arith, max, get_elem?,
  replicate,
}
use mlvpn_rs.Control.Mtu.{
  TunnelConfig, effective_tunnel_mtu, pre_fec, detected_value, min_detected, outer_overhead,
  MtuMonitor, default_latch, mtu_tick, record_success,
}
use mlvpn_rs.Control.Negotiation.{
  Counts, effective_tunnel_mtu_fits, mtu_tick_agrees, failures_at, failures_logged_once,
}
use mlvpn_rs.Control.{mtu_floor_for}

abbrev dual : TunnelConfig
dual = record { mtu = some 1420; has_address6 = true }

abbrev open_ended : TunnelConfig
open_ended = record { mtu = none; has_address6 = true }

-- 1492 less 112 and the reservation of 83.
reserved_run : effective_tunnel_mtu open_ended (some 1500 ∷ none ∷ some 1492 ∷ []) 83 none ≡ 1297
unfolding effective_tunnel_mtu pre_fec detected_value min_detected mtu_floor_for
reserved_run = refl

effective_tunnel_mtu_fits_example :
    let floor = mtu_floor_for dual.has_address6 in
    let mtu = effective_tunnel_mtu dual (some 1500 ∷ none ∷ some 1492 ∷ []) 83 none in
    (floor ≤ mtu)
    × ((ceiling : ℕ) → dual.mtu ≡ some ceiling → mtu ≤ max ceiling floor)
    × ((i d : ℕ)
        → Counts none i
        → get_elem? (some 1500 ∷ none ∷ some 1492 ∷ []) i ≡ some (some d)
        → floor < mtu
        → mtu + 83 + outer_overhead ≤ d)
effective_tunnel_mtu_fits_example =
    effective_tunnel_mtu_fits dual (some 1500 ∷ none ∷ some 1492 ∷ []) 83 none

abbrev fresh : MtuMonitor
fresh = record { live_mtu = 1400; local_capability_mtu = 1400; failures = default_latch }

abbrev accepts : ℕ → Bool
accepts mtu = true

mtu_tick_agrees_example :
    let from_a = effective_tunnel_mtu dual (some 1500 ∷ []) 0 none in
    let from_b = effective_tunnel_mtu open_ended (some 1454 ∷ []) 0 (some 0) in
    let next_a = (mtu_tick dual 0 (some 1500 ∷ []) none (some from_b) accepts fresh).0 in
    let next_b = (mtu_tick open_ended 0 (some 1454 ∷ []) (some 0) (some from_a) accepts fresh).0 in
    (next_a.live_mtu ≡ next_b.live_mtu)
    × (mtu_floor_for dual.has_address6 ≤ next_a.live_mtu)
    × (next_a.live_mtu ≤ next_a.local_capability_mtu)
    × (next_b.live_mtu ≤ next_b.local_capability_mtu)
mtu_tick_agrees_example =
    mtu_tick_agrees dual open_ended 0 0 (some 1500 ∷ []) (some 1454 ∷ []) none (some 0) accepts
      accepts fresh fresh refl (λ mtu. refl) (λ mtu. refl)

failures_logged_once_example :
    let (last, warned) = failures_at 3 1337 (record_success default_latch).0 in
    (warned ≡ true ∷ replicate 2 false) × (record_success last ≡ (default_latch, some 2))
failures_logged_once_example = failures_logged_once default_latch 2 1337 (omega arith)
