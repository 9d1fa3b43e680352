-- ===== src/Protocol/Payloads/Probe.antt =====
-- src/protocol.rs, `ProbePayload`: the payload of `Probe` and `ProbeReply`.
use mlvpn_rs.Common.{
  ℕ, ◌+◌, ◌^◌, ◌≤◌, ◌<◌, ◌≡◌, List, [], ◌∷◌, ◌++◌, ltb, le→ltb, length, Result, ok, err, too_short,
  ◌>>=◌, ◌>>◌, refuse_if, slice, slice_lem, arith,
}
use mathlib.Core.List.{append_assoc}
use mlvpn_rs.Common.{◌⊎◌, inl, inr, Bool-cases, ltb→lt, ltb→le, take, drop}
use mlvpn_rs.Common.Bytes.{be_bytes, from_be, length-be_bytes, from_be-be_bytes}
use mlvpn_rs.Common.Fields.{concat, slice_field, length-concat}

pub record ProbePayload : Type 0 where
  pub probe_seq : ℕ
  pub send_ts_ns : ℕ

pub record IsProbePayload (p : ProbePayload) : Type 0 where
  pub probe_seq_u32 : p.probe_seq < 2 ^ 32
  pub send_ts_ns_u64 : p.send_ts_ns < 2 ^ 64

abbrev pub probe_len : ℕ
probe_len = 4 + 8

pub encode : ProbePayload → List ℕ
encode p = be_bytes 4 p.probe_seq ++ be_bytes 8 p.send_ts_ns

pub decode : List ℕ → Result ProbePayload
decode buf = do
  refuse_if (ltb (length buf) probe_len) too_short
  seq ← slice buf 0 4
  ts ← slice buf 4 12
  ok (record { probe_seq = from_be seq; send_ts_ns = from_be ts })

abbrev fields : ProbePayload → List (List ℕ)
fields p = be_bytes 4 p.probe_seq ∷ be_bytes 8 p.send_ts_ns ∷ []

decode-fields :
    (p : ProbePayload) (rest : List ℕ) → IsProbePayload p → decode (concat (fields p) rest) ≡ ok p
unfolding decode
decode-fields p rest v =
    let l4 = length-be_bytes 4 p.probe_seq in
    let l8 = length-be_bytes 8 p.send_ts_ns in
    rw (
      le→ltb (length (concat (fields p) rest)) probe_len
          (omega (arith, length-concat (fields p) rest)),
      slice_field (fields p) rest 0 0 4 (omega arith) (omega arith) (omega arith),
      slice_field (fields p) rest 1 4 12 (omega arith) (omega arith) (omega arith),
      from_be-be_bytes 4 p.probe_seq v.probe_seq_u32,
      from_be-be_bytes 8 p.send_ts_ns v.send_ts_ns_u64,
    )

-- A payload is read back from what was written, whatever follows it in the buffer.
pub decode-encode_probe :
    (p : ProbePayload) (rest : List ℕ) → IsProbePayload p → decode (encode p ++ rest) ≡ ok p
unfolding encode
decode-encode_probe p rest v =
    rw (append_assoc (be_bytes 4 p.probe_seq) (be_bytes 8 p.send_ts_ns) rest)
      (decode-fields p rest v)

-- `decode` refuses exactly the buffers that are too short, and never reads out of range.
pub decode_probe_total :
    (buf : List ℕ)
    → ((length buf < probe_len) × (decode buf ≡ err too_short))
      ⊎ ((probe_len ≤ length buf) × ((p : ProbePayload) × (decode buf ≡ ok p)))
unfolding decode
decode_probe_total buf = elim (Bool-cases (ltb (length buf) probe_len)) [
  | inl short ↦ inl (ltb→lt (length buf) probe_len short, rw short)
  | inr long ↦
      let fits : probe_len ≤ length buf = ltb→le (length buf) probe_len long in
      inr (
        fits,
        (
          record {
            probe_seq = from_be (take 4 (drop 0 buf));
            send_ts_ns = from_be (take 8 (drop 4 buf));
          },
          rw (
            long,
            slice_lem buf 0 4 (omega arith) (omega arith),
            slice_lem buf 4 12 (omega arith) (omega arith),
          ),
        ),
      )
]
