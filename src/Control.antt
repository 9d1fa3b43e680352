-- ===== src/Control.antt =====
-- src/control.rs, `negotiate_tunnel_mtu` and `mtu_floor_for`: the tunnel's MTU after what the peer says.
pub mod Mtu
pub mod Negotiation
mod Tests
use mlvpn_rs.Common.{
  ℕ, ◌≤◌, ◌≡◌, ◌≢◌, refl, Bool, Option, none, some, arith, max, min, ◌==◌, ne→==, if◌then◌else◌,
}

abbrev pub mtu_floor_ipv4_only : ℕ
mtu_floor_ipv4_only = 576

abbrev pub mtu_floor_dual_stack : ℕ
mtu_floor_dual_stack = 1280

-- Of the configuration, only whether the tunnel has an IPv6 address is read.
pub mtu_floor_for : Bool → ℕ
mtu_floor_for has_address6 = if has_address6 then mtu_floor_dual_stack else mtu_floor_ipv4_only

-- What the peer allows; a peer that says 0 has no opinion.
pub within_peer : ℕ → Option ℕ → ℕ
within_peer local none = local
within_peer local (some peer) = if peer == 0 then local else min local peer

pub negotiate_tunnel_mtu : ℕ → Option ℕ → ℕ → ℕ
negotiate_tunnel_mtu local peer_advertised floor = max (within_peer local peer_advertised) floor

-- Two peers that advertise their own values, neither of them 0, and have the same floor, which depends
-- on their address families, agree on the MTU: it is not below the floor, and above the value of either
-- side only where that value is below the floor.
pub negotiate_tunnel_mtu_agrees :
    (a b : ℕ) (has_address6 : Bool)
    → a ≢ 0
    → b ≢ 0
    → (negotiate_tunnel_mtu a (some b) (mtu_floor_for has_address6)
        ≡ negotiate_tunnel_mtu b (some a) (mtu_floor_for has_address6))
      × (mtu_floor_for has_address6 ≤ negotiate_tunnel_mtu a (some b) (mtu_floor_for has_address6))
      × (negotiate_tunnel_mtu a (some b) (mtu_floor_for has_address6)
          ≤ max a (mtu_floor_for has_address6))
      × (negotiate_tunnel_mtu a (some b) (mtu_floor_for has_address6)
          ≤ max b (mtu_floor_for has_address6))
unfolding negotiate_tunnel_mtu within_peer
negotiate_tunnel_mtu_agrees a b has_address6 ha hb =
    rw (ne→== a 0 ha, ne→== b 0 hb) (omega arith, omega arith, omega arith, omega arith)
