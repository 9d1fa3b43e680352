-- ===== src/Protocol/Payloads/VersionInfo.antt =====
-- src/protocol.rs, `VersionInfoPayload`: version, MTUs and primary link of the sender. Each later
-- field was appended to the layout, and `decode` takes a buffer that ends before it.
pub mod Laws
use mlvpn_rs.Common.{
  ℕ, ◌+◌, ◌-◌, ◌^◌, ◌<◌, ◌≡◌, List, ◌++◌, ltb, leb, length, Result, ok, too_short, ◌>>=◌, ◌>>◌,
  refuse_if, slice, if◌then◌else◌, replicate,
}
use mlvpn_rs.Common.Bytes.{be_bytes, from_be}

abbrev pub version_len : ℕ
version_len = 16

abbrev pub link_name_len : ℕ
link_name_len = 16

pub record VersionInfoPayload : Type 0 where
  pub version : List ℕ
  pub tunnel_mtu : ℕ
  pub live_tunnel_mtu : ℕ
  pub primary_link_name : List ℕ

pub record IsVersionInfoPayload (p : VersionInfoPayload) : Type 0 where
  pub version_array : length p.version ≡ version_len
  pub tunnel_mtu_u16 : p.tunnel_mtu < 2 ^ 16
  pub live_tunnel_mtu_u16 : p.live_tunnel_mtu < 2 ^ 16
  pub link_name_array : length p.primary_link_name ≡ link_name_len

abbrev pub name_start : ℕ
name_start = version_len + 2

abbrev pub name_end : ℕ
name_end = name_start + link_name_len

-- `Self::LEN`
abbrev pub version_info_len : ℕ
version_info_len = version_len + 2 + link_name_len + 2

-- The slices of `out` that the source fills, one after the other.
pub encode : VersionInfoPayload → List ℕ
encode p =
    p.version ++ (be_bytes 2 p.tunnel_mtu ++ (p.primary_link_name ++ be_bytes 2 p.live_tunnel_mtu))

-- A `u16` at `i`, or 0 where the buffer ends before it.
pub u16_or_zero : List ℕ → ℕ → Result ℕ
u16_or_zero buf i =
    if leb (i + 2) (length buf) then (slice buf i (i + 2) >>= λ b. ok (from_be b)) else ok 0

-- As much of the name as the buffer holds, in an array of zeros.
pub decode_link_name : List ℕ → Result (List ℕ)
decode_link_name buf =
    if leb name_end (length buf)
    then slice buf name_start name_end
    else if ltb name_start (length buf)
    then (slice buf name_start (length buf) >>= λ part.
        ok (part ++ replicate (link_name_len - (length buf - name_start)) 0))
    else ok (replicate link_name_len 0)

pub decode : List ℕ → Result VersionInfoPayload
decode buf = do
  refuse_if (ltb (length buf) version_len) too_short
  version ← slice buf 0 version_len
  tunnel_mtu ← u16_or_zero buf version_len
  primary_link_name ← decode_link_name buf
  live_tunnel_mtu ← u16_or_zero buf name_end
  ok (record {
    version = version;
    tunnel_mtu = tunnel_mtu;
    live_tunnel_mtu = live_tunnel_mtu;
    primary_link_name = primary_link_name;
  })
