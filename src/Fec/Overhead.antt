-- ===== src/Fec/Overhead.antt =====
-- src/fec.rs, `parity_frame_overhead_bytes` and `mtu_reservation_bytes`: what a parity frame costs beyond
-- the longest frame that it covers.
use mlvpn_rs.Common.{
  ℕ, ◌+◌, ◌*◌, ◌%◌, ◌^◌, ◌<◌, ◌≡◌, ap, ◌∙◌, Bool, true, List, arith, length, length-map,
  if◌then◌else◌,
}
use mlvpn_rs.Protocol.FecParity.{FecParityPayload, encode}
use mlvpn_rs.Protocol.FecParity.Laws.{length-encode}
use mlvpn_rs.Fec.Sums.{longest}
use mlvpn_rs.Fec.Sender.Shares.{IsShare}

-- On `u16`, where no group size of `u8` overflows it.
pub parity_frame_overhead_bytes : ℕ → ℕ
parity_frame_overhead_bytes group_size = (1 + group_size * 10 + 2) % 2 ^ 16

-- The two fields of `SchedulerConfig` that are read.
pub mtu_reservation_bytes : Bool → ℕ → ℕ
mtu_reservation_bytes fec_enabled fec_group_size =
    if fec_enabled then parity_frame_overhead_bytes fec_group_size else 0

-- The payload of the parity frame for a group of at most 255 frames, with FEC on, is longer than the
-- longest of the frames by exactly what is reserved for the group's size.
pub length-encode-share :
    (c : ℕ → ℕ → ℕ) (seqs : List ℕ) (ms : List (List ℕ)) (s : FecParityPayload)
    → IsShare c seqs ms s
    → length seqs ≡ length ms
    → length seqs < 256
    → length (encode s) ≡ longest ms + mtu_reservation_bytes true (length seqs)
unfolding mtu_reservation_bytes parity_frame_overhead_bytes
length-encode-share c seqs ms s v same small =
    let n : length s.member_seqs ≡ length seqs = ap length v.seqs_are in
    let l : length s.member_lens ≡ length ms = ap length v.lens_are ∙ length-map length ms in
    omega (arith, length-encode s, n, l, v.width, same, small)
