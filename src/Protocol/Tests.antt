-- ===== src/Protocol/Tests.antt =====
-- Frames and payloads that are written, read and refused.
use mlvpn_rs.Common.{
  ℕ, ◌≡◌, ◌≢◌, refl, true, List, [], ◌∷◌, ◌++◌, arith, take, drop, replicate, All, none, some, ok,
  slice, index,
}
use mlvpn_rs.Common.Bytes.{AreBytes, from_be}
use mlvpn_rs.Common.Fields.{concat}
use mlvpn_rs.Protocol.Header.{Header, IsHeader, magic, version, probe, payload_data, from_u8}
use mlvpn_rs.Protocol.Header
use mlvpn_rs.Protocol.Header.Laws.{decode-encode_header, decode_sound}
use mlvpn_rs.Protocol.Header.Answers.{Answer, decode-Answer}
use mlvpn_rs.Protocol.FecParity.Answers.{ParityAnswer, decode-ParityAnswer}
use mlvpn_rs.Protocol.Payloads.Probe
use mlvpn_rs.Protocol.Payloads.Probe.{
  ProbePayload, probe_len, decode-encode_probe, decode_probe_total,
}
use mlvpn_rs.Protocol.Payloads.Stats
use mlvpn_rs.Protocol.Payloads.Stats.{
  StatsPayload, IsStatsPayload, legacy_fields, decode-encode_stats, decode_legacy,
}
use mlvpn_rs.Protocol.Payloads.VersionInfo
use mlvpn_rs.Protocol.Payloads.VersionInfo.{VersionInfoPayload, IsVersionInfoPayload}
use mlvpn_rs.Protocol.Payloads.VersionInfo.Laws.{truncated, decode-encode_version_info, decode-take}
use mlvpn_rs.Protocol.Payloads.Throughput.{ThroughputTestDataPayload, ThroughputTestResultPayload}
use mlvpn_rs.Protocol.FecParity
use mlvpn_rs.Protocol.FecParity.{FecParityPayload, IsFecParityPayload}
use mlvpn_rs.Protocol.FecParity.Laws.{decode-encode_parity}

abbrev header : Header
header = record { ptype = probe; link_id = 3; seq = 515 }

header-IsHeader : IsHeader header
header-IsHeader = record { link_id_u8 = omega arith; seq_u64 = omega arith }

decode-encode_header_example :
    Header.decode (Header.encode header [] ++ (9 ∷ [])) ≡ ok (header, 9 ∷ [])
decode-encode_header_example = decode-encode_header header (9 ∷ []) header-IsHeader

-- The same frame, byte for byte.
abbrev frame : List ℕ
frame = 0x4D ∷ 1 ∷ 4 ∷ 3 ∷ 0 ∷ 0 ∷ 0 ∷ 0 ∷ 0 ∷ 0 ∷ 2 ∷ 3 ∷ 9 ∷ []

frame-AreBytes : AreBytes frame
frame-AreBytes = (
  omega arith,
  (
    omega arith,
    (
      omega arith,
      (
        omega arith,
        (
          omega arith,
          (
            omega arith,
            (
              omega arith,
              (
                omega arith,
                (omega arith, (omega arith, (omega arith, (omega arith, (omega arith, tt))))),
              ),
            ),
          ),
        ),
      ),
    ),
  ),
)

frame_decoded : Header.decode frame ≡ ok (header, 9 ∷ [])
unfolding Header.decode from_be index from_u8 slice
frame_decoded = refl

decode_sound_example : (Header.encode header [] ++ (9 ∷ []) ≡ frame) × IsHeader header
decode_sound_example = decode_sound frame header (9 ∷ []) frame-AreBytes frame_decoded

abbrev probe_payload : ProbePayload
probe_payload = record { probe_seq = 70000; send_ts_ns = 12345678901 }

decode-encode_probe_example :
    Probe.decode (Probe.encode probe_payload ++ (1 ∷ [])) ≡ ok probe_payload
decode-encode_probe_example =
    decode-encode_probe probe_payload (1 ∷ [])
      (record { probe_seq_u32 = omega arith; send_ts_ns_u64 = omega arith })

abbrev stats : StatsPayload
stats = record {
  name = replicate 16 97;
  rtt_ms = 1101004800;
  jitter_ms = 0;
  loss_pct = 0;
  throughput_mbps = 1120403456;
  state = 2;
  rx_bytes = none;
}

stats-IsStatsPayload : IsStatsPayload stats
stats-IsStatsPayload = record {
  name_array = refl;
  rtt_ms_f32 = omega arith;
  jitter_ms_f32 = omega arith;
  loss_pct_f32 = omega arith;
  throughput_mbps_f32 = omega arith;
  state_u8 = omega arith;
  rx_bytes_u64 = omega arith;
}

decode-encode_stats_example :
    Stats.decode (Stats.encode stats ++ []) ≡ ok (record stats { rx_bytes = some 0 })
decode-encode_stats_example = decode-encode_stats stats stats-IsStatsPayload []

decode_legacy_example :
    Stats.decode (concat (legacy_fields stats) (1 ∷ 2 ∷ [])) ≡ ok (record stats { rx_bytes = none })
decode_legacy_example = decode_legacy stats stats-IsStatsPayload (1 ∷ 2 ∷ []) (omega arith)

abbrev info : VersionInfoPayload
info = record {
  version = replicate 16 49;
  tunnel_mtu = 1420;
  live_tunnel_mtu = 1337;
  primary_link_name = replicate 16 98;
}

info-IsVersionInfoPayload : IsVersionInfoPayload info
info-IsVersionInfoPayload = record {
  version_array = refl;
  tunnel_mtu_u16 = omega arith;
  live_tunnel_mtu_u16 = omega arith;
  link_name_array = refl;
}

decode-encode_version_info_example :
    VersionInfo.decode (VersionInfo.encode info ++ (7 ∷ [])) ≡ ok info
decode-encode_version_info_example =
    decode-encode_version_info info info-IsVersionInfoPayload (7 ∷ [])

decode-take_example :
    VersionInfo.decode (take 21 (VersionInfo.encode info)) ≡ ok (truncated 21 info)
decode-take_example = decode-take info info-IsVersionInfoPayload 21 (omega arith) (omega arith)

abbrev test_packet : ThroughputTestDataPayload
test_packet = record { test_id = 41; done = true }

abbrev test_result : ThroughputTestResultPayload
test_result = record { test_id = 41; achieved_mbps = 1120403456 }

-- Eight characters of two bytes and one more byte: the last character that fits is kept whole.
abbrev text : List ℕ
text =
    97 ∷ 195 ∷ 164 ∷ 195 ∷ 164 ∷ 195 ∷ 164 ∷ 195 ∷ 164 ∷ 195 ∷ 164 ∷ 195 ∷ 164 ∷ 195 ∷ 164 ∷ 195
    ∷ 164 ∷ []

text-IsText : All (λ b. b ≢ 0) text
text-IsText = (
  omega arith,
  (
    omega arith,
    (
      omega arith,
      (
        omega arith,
        (
          omega arith,
          (
            omega arith,
            (
              omega arith,
              (
                omega arith,
                (
                  omega arith,
                  (
                    omega arith,
                    (
                      omega arith,
                      (
                        omega arith,
                        (
                          omega arith,
                          (omega arith, (omega arith, (omega arith, (omega arith, tt)))),
                        ),
                      ),
                    ),
                  ),
                ),
              ),
            ),
          ),
        ),
      ),
    ),
  ),
)

abbrev share : FecParityPayload
share = record { member_seqs = 5 ∷ 9 ∷ []; member_lens = 2 ∷ 1 ∷ []; parity = 69 ∷ 7 ∷ [] }

share-IsFecParityPayload : IsFecParityPayload share
share-IsFecParityPayload = record {
  same_count = refl;
  count_u8 = omega arith;
  seqs_u64 = (omega arith, (omega arith, tt));
  lens_u16 = (omega arith, (omega arith, tt));
  parity_u16 = omega arith;
}

decode-encode_parity_example : FecParity.decode (FecParity.encode share ++ []) ≡ ok share
decode-encode_parity_example = decode-encode_parity share share-IsFecParityPayload []

abbrev cut_share : List ℕ
cut_share = 1 ∷ 0 ∷ []

decode-ParityAnswer_example : ParityAnswer cut_share (FecParity.decode cut_share)
decode-ParityAnswer_example = decode-ParityAnswer cut_share (omega arith, (omega arith, tt))

decode-Answer_example :
    Answer (0x4D ∷ 1 ∷ 9 ∷ 3 ∷ drop 4 frame) (Header.decode (0x4D ∷ 1 ∷ 9 ∷ 3 ∷ drop 4 frame))
decode-Answer_example = decode-Answer (0x4D ∷ 1 ∷ 9 ∷ 3 ∷ drop 4 frame)
