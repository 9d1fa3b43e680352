-- ===== src/Protocol/Payloads/Stats.antt =====
-- src/protocol.rs, `StatsPayload`: one side's own measurements of a link.
use mathlib.Core.List.{append_assoc}
use mlvpn_rs.Common.{
  ℕ, ◌+◌, ◌*◌, ◌^◌, ◌<◌, ◌≡◌, refl, List, [], ◌∷◌, ◌++◌, ltb, leb, le→ltb, le→leb, lt→leb, ap, ◌∙◌,
  length, Result, ok, too_short, ◌>>=◌, ◌>>◌, refuse_if, slice, index, arith, Option, none, some,
  if◌then◌else◌,
}
use mlvpn_rs.Common.Bytes.{be_bytes, from_be, length-be_bytes, from_be-be_bytes}
use mlvpn_rs.Common.Fields.{concat, slice_field, index_field, length-concat}

pub record StatsPayload : Type 0 where
  pub name : List ℕ
  pub rtt_ms : ℕ
  pub jitter_ms : ℕ
  pub loss_pct : ℕ
  pub throughput_mbps : ℕ
  pub state : ℕ
  pub rx_bytes : Option ℕ

abbrev pub name_len : ℕ
name_len = 16

abbrev pub legacy_len : ℕ
legacy_len = name_len + 4 * 4 + 1

abbrev pub stats_len : ℕ
stats_len = legacy_len + 8

abbrev pub unwrap_or : Option ℕ → ℕ → ℕ
unwrap_or none d = d
unwrap_or (some n) d = n

pub record IsStatsPayload (s : StatsPayload) : Type 0 where
  pub name_array : length s.name ≡ name_len
  pub rtt_ms_f32 : s.rtt_ms < 2 ^ 32
  pub jitter_ms_f32 : s.jitter_ms < 2 ^ 32
  pub loss_pct_f32 : s.loss_pct < 2 ^ 32
  pub throughput_mbps_f32 : s.throughput_mbps < 2 ^ 32
  pub state_u8 : s.state < 256
  pub rx_bytes_u64 : unwrap_or s.rx_bytes 0 < 2 ^ 64

-- The slices of `out` that the source fills, one after the other.
pub encode : StatsPayload → List ℕ
encode s =
    s.name
    ++ (be_bytes 4 s.rtt_ms
        ++ (be_bytes 4 s.jitter_ms
            ++ (be_bytes 4 s.loss_pct
                ++ (be_bytes 4 s.throughput_mbps
                    ++ (s.state ∷ be_bytes 8 (unwrap_or s.rx_bytes 0))))))

-- `(buf.len() >= Self::LEN).then(|| u64::from_be_bytes(..))`
pub decode_rx_bytes : List ℕ → Result (Option ℕ)
decode_rx_bytes buf =
    if leb stats_len (length buf)
    then (slice buf legacy_len stats_len >>= λ b. ok (some (from_be b)))
    else ok none

pub decode : List ℕ → Result StatsPayload
decode buf = do
  refuse_if (ltb (length buf) legacy_len) too_short
  name ← slice buf 0 16
  rtt ← slice buf 16 20
  jitter ← slice buf 20 24
  loss ← slice buf 24 28
  throughput ← slice buf 28 32
  state ← index buf 32
  rx ← decode_rx_bytes buf
  ok (record {
    name = name;
    rtt_ms = from_be rtt;
    jitter_ms = from_be jitter;
    loss_pct = from_be loss;
    throughput_mbps = from_be throughput;
    state = state;
    rx_bytes = rx;
  })

-- The fields of a report from a peer that predates `rx_bytes`.
abbrev pub legacy_fields : StatsPayload → List (List ℕ)
legacy_fields s =
    s.name
    ∷ be_bytes 4 s.rtt_ms
    ∷ be_bytes 4 s.jitter_ms
    ∷ be_bytes 4 s.loss_pct
    ∷ be_bytes 4 s.throughput_mbps
    ∷ (s.state ∷ [])
    ∷ []

module _ (s : StatsPayload) (v : IsStatsPayload s) where
  decode-fields :
      (rest : List ℕ) (rx : Option ℕ)
      → decode_rx_bytes (concat (legacy_fields s) rest) ≡ ok rx
      → decode (concat (legacy_fields s) rest) ≡ ok (record s { rx_bytes = rx })
  unfolding decode
  decode-fields rest rx e =
      let fs = legacy_fields s in
      let ln = v.name_array in
      let l1 = length-be_bytes 4 s.rtt_ms in
      let l2 = length-be_bytes 4 s.jitter_ms in
      let l3 = length-be_bytes 4 s.loss_pct in
      let l4 = length-be_bytes 4 s.throughput_mbps in
      rw (
        le→ltb (length (concat fs rest)) legacy_len (omega (arith, length-concat fs rest)),
        slice_field fs rest 0 0 16 (omega arith) (omega arith) (omega arith),
        slice_field fs rest 1 16 20 (omega arith) (omega arith) (omega arith),
        slice_field fs rest 2 20 24 (omega arith) (omega arith) (omega arith),
        slice_field fs rest 3 24 28 (omega arith) (omega arith) (omega arith),
        slice_field fs rest 4 28 32 (omega arith) (omega arith) (omega arith),
        index_field fs rest 5 32 s.state (omega arith) (omega arith) refl,
        e,
        from_be-be_bytes 4 s.rtt_ms v.rtt_ms_f32,
        from_be-be_bytes 4 s.jitter_ms v.jitter_ms_f32,
        from_be-be_bytes 4 s.loss_pct v.loss_pct_f32,
        from_be-be_bytes 4 s.throughput_mbps v.throughput_mbps_f32,
      )

  encode-append :
      (rest : List ℕ)
      → encode s ++ rest ≡ concat (legacy_fields s) (be_bytes 8 (unwrap_or s.rx_bytes 0) ++ rest)
  unfolding encode
  encode-append rest = simp append_assoc

  decode_rx_bytes-encode :
      (rest : List ℕ)
      → decode_rx_bytes (concat (legacy_fields s) (be_bytes 8 (unwrap_or s.rx_bytes 0) ++ rest))
        ≡ ok (some (unwrap_or s.rx_bytes 0))
  unfolding decode_rx_bytes
  decode_rx_bytes-encode rest =
      let rx = be_bytes 8 (unwrap_or s.rx_bytes 0) in
      let fs : List (List ℕ) =
        s.name
        ∷ be_bytes 4 s.rtt_ms
        ∷ be_bytes 4 s.jitter_ms
        ∷ be_bytes 4 s.loss_pct
        ∷ be_bytes 4 s.throughput_mbps
        ∷ (s.state ∷ [])
        ∷ rx
        ∷ [] in
      let ln = v.name_array in
      let l1 = length-be_bytes 4 s.rtt_ms in
      let l2 = length-be_bytes 4 s.jitter_ms in
      let l3 = length-be_bytes 4 s.loss_pct in
      let l4 = length-be_bytes 4 s.throughput_mbps in
      let l5 = length-be_bytes 8 (unwrap_or s.rx_bytes 0) in
      rw (
        le→leb stats_len (length (concat fs rest)) (omega (arith, length-concat fs rest)),
        slice_field fs rest 6 legacy_len stats_len (omega arith) (omega arith) (omega arith),
        from_be-be_bytes 8 (unwrap_or s.rx_bytes 0) v.rx_bytes_u64,
      )

  -- A report is read back field by field, whatever follows it. A sender without a byte count writes
  -- 0, which is read as a count of 0 and not as a missing one.
  pub decode-encode_stats :
      (rest : List ℕ)
      → decode (encode s ++ rest) ≡ ok (record s { rx_bytes = some (unwrap_or s.rx_bytes 0) })
  decode-encode_stats rest =
      ap decode (encode-append rest) ∙ decode-fields _ _ (decode_rx_bytes-encode rest)

  -- A report from a peer that predates the byte count is read with no count, and is not refused:
  -- also if up to 7 bytes follow.
  pub decode_legacy :
      (rest : List ℕ)
      → length rest < 8
      → decode (concat (legacy_fields s) rest) ≡ ok (record s { rx_bytes = none })
  unfolding decode_rx_bytes
  decode_legacy rest short =
      let fs = legacy_fields s in
      let ln = v.name_array in
      let l1 = length-be_bytes 4 s.rtt_ms in
      let l2 = length-be_bytes 4 s.jitter_ms in
      let l3 = length-be_bytes 4 s.loss_pct in
      let l4 = length-be_bytes 4 s.throughput_mbps in
      let whole = length-concat fs rest in
      decode-fields rest none
        (rw (lt→leb stats_len (length (concat fs rest)) (omega (arith, whole))) refl)
