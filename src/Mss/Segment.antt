-- ===== src/Mss/Segment.antt =====
-- src/mss.rs, when the MSS of a packet's TCP segment is to be lowered, and what the lowered packet is.
use mlvpn_rs.Common.{
  ℕ, ◌+◌, ◌-◌, ◌*◌, ◌/◌, ◌≤◌, ◌<◌, ◌≡◌, ◌≢◌, ◌↔◌, inl, inr, refl, sym, ap, List, ◌++◌, length, take,
  drop, Option, none, some, Bool-cases, ok, ltb, ltb→lt, ltb→le, index_lem, arith,
}
use mlvpn_rs.Common.Bytes.{byte_at}
use mlvpn_rs.Mss.{internet_checksum, tcp_header_len}
use mlvpn_rs.Mss.Options.{mss_value}
use mlvpn_rs.Mss.Rewrite.{IsRewritable}

-- The addresses, and what the version of IP puts behind them, in front of the checksum's segment.
abbrev pub pseudo_header : (ℕ → List ℕ) → ℕ → ℕ → ℕ → List ℕ → List ℕ
pseudo_header pseudo addresses width start packet =
    take width (drop addresses packet)
    ++ (take width (drop (addresses + width) packet) ++ pseudo (length packet - start))

-- The TCP header at `start` is whole, `header_len` bytes long, and its MSS, at `at` in it, exceeds what
-- the MTU leaves behind the headers.
pub record IsClampable (start mtu : ℕ) (packet : List ℕ) : Type 0 where
  pub header_len : ℕ
  pub at : ℕ
  pub data_offset : header_len ≡ byte_at (drop start packet) 12 / 16 * 4
  pub header_long : 20 ≤ header_len
  pub header_fits : start + header_len ≤ length packet
  pub room : start + header_len < mtu
  pub rewritable :
      IsRewritable (take header_len (drop start packet)) (mtu - (start + header_len)) at

-- The packet `result` is `packet` with the MSS of the TCP segment at `start` lowered.
pub record IsClamped (pseudo : ℕ → List ℕ) (addresses width start mtu : ℕ) (packet result : List ℕ)
    : Type 0 where
  pub need : IsClampable start mtu packet
  pub same_length : length result ≡ length packet
  pub lowered : mss_value result (start + need.at) ≡ mtu - (start + need.header_len)
  pub verifies :
      internet_checksum (pseudo_header pseudo addresses width start result ++ drop start result) ≡ 0
  pub elsewhere :
      (j : ℕ)
      → j ≢ start + 16
      → j ≢ start + 17
      → j ≢ start + need.at + 2
      → j ≢ start + need.at + 3
      → byte_at result j ≡ byte_at packet j

pub tcp_header_len_lem :
    (tcp : List ℕ)
    → (found : Option ℕ) × (tcp_header_len tcp ≡ ok found)
      × ((n : ℕ)
          → (found ≡ some n) ↔ ((n ≡ byte_at tcp 12 / 16 * 4) × (20 ≤ n) × (20 ≤ length tcp)))
unfolding tcp_header_len
tcp_header_len_lem tcp = elim (Bool-cases (ltb (length tcp) 20)) [
  | inl short ↦ rw short (
    none,
    refl,
    λ n. (λ e. cc, λ p. absurd (let u = ltb→lt (length tcp) 20 short in omega arith)),
  )
  | inr long ↦
      let l = ltb→le (length tcp) 20 long in
      rw (long, index_lem tcp 12 (omega arith))
        (elim (Bool-cases (ltb (byte_at tcp 12 / 16 * 4) 20)) [
          | inl small ↦ rw small (none, refl, λ n. (λ e. cc, λ p. ground arith))
          | inr large ↦ rw large (
            some (byte_at tcp 12 / 16 * 4),
            refl,
            λ n. (λ e. (ground arith, ground arith, l), λ p. ap some (sym p.0)),
          )
        ])
]
