-- ===== src/Protocol/Payloads/Throughput.antt =====
-- src/protocol.rs: the payloads of the throughput test's stream, its result and its reverse request.
use mathlib.Core.List.{append_assoc}
use mlvpn_rs.Common.{
  ℕ, ◌+◌, ◌-◌, ◌^◌, ◌≤◌, ◌<◌, ◌≡◌, refl, List, [], ◌∷◌, ◌++◌, ltb, le→ltb, ◌==◌, not, max, Bool,
  true, false, length, length-append, length-replicate, Result, ok, too_short, ◌>>=◌, ◌>>◌,
  refuse_if, slice, index, arith, replicate,
}
use mlvpn_rs.Common.Bytes.{be_bytes, from_be, length-be_bytes, from_be-be_bytes}
use mlvpn_rs.Common.Fields.{concat, slice_field, index_field, length-concat}

pub record ThroughputTestDataPayload : Type 0 where
  pub test_id : ℕ
  pub done : Bool

abbrev pub data_header_len : ℕ
data_header_len = 4 + 1

-- `self.done as u8`
abbrev pub bool_as_u8 : Bool → ℕ
bool_as_u8 true = 1
bool_as_u8 false = 0

-- A zeroed vector of the padded length, with the two fields written in front.
pub encode_padded : ThroughputTestDataPayload → ℕ → List ℕ
encode_padded p total_len =
    be_bytes 4 p.test_id
    ++ (bool_as_u8 p.done ∷ replicate (max total_len data_header_len - data_header_len) 0)

pub decode_data : List ℕ → Result ThroughputTestDataPayload
decode_data buf = do
  refuse_if (ltb (length buf) data_header_len) too_short
  id ← slice buf 0 4
  done ← index buf 4
  ok (record { test_id = from_be id; done = not (done == 0) })

-- `achieved_mbps` is the bit pattern of an `f32`.
pub record ThroughputTestResultPayload : Type 0 where
  pub test_id : ℕ
  pub achieved_mbps : ℕ

pub encode_result : ThroughputTestResultPayload → List ℕ
encode_result p = be_bytes 4 p.test_id ++ be_bytes 4 p.achieved_mbps

abbrev pub result_len : ℕ
result_len = 4 + 4

pub decode_result : List ℕ → Result ThroughputTestResultPayload
decode_result buf = do
  refuse_if (ltb (length buf) result_len) too_short
  id ← slice buf 0 4
  mbps ← slice buf 4 8
  ok (record { test_id = from_be id; achieved_mbps = from_be mbps })

pub record ThroughputTestReverseRequestPayload : Type 0 where
  pub test_id : ℕ
  pub duration_secs : ℕ

pub encode_request : ThroughputTestReverseRequestPayload → List ℕ
encode_request p = be_bytes 4 p.test_id ++ be_bytes 4 p.duration_secs

pub decode_request : List ℕ → Result ThroughputTestReverseRequestPayload
decode_request buf = do
  refuse_if (ltb (length buf) result_len) too_short
  id ← slice buf 0 4
  secs ← slice buf 4 8
  ok (record { test_id = from_be id; duration_secs = from_be secs })

not-bool_as_u8 : (b : Bool) → not (bool_as_u8 b == 0) ≡ b
not-bool_as_u8 true = refl
not-bool_as_u8 false = refl

-- A packet is padded to the length that is asked for, never cut below its header, and read back
-- through its padding and anything behind.
pub decode_data-encode_padded :
    (p : ThroughputTestDataPayload) (total_len : ℕ) (rest : List ℕ)
    → p.test_id < 2 ^ 32
    → (length (encode_padded p total_len) ≡ max total_len data_header_len)
      × (decode_data (encode_padded p total_len ++ rest) ≡ ok p)
unfolding encode_padded decode_data
decode_data-encode_padded p total_len rest id_u32 =
    let padding = max total_len data_header_len - data_header_len in
    let zeros : List ℕ = replicate padding 0 in
    let fs : List (List ℕ) = be_bytes 4 p.test_id ∷ (bool_as_u8 p.done ∷ []) ∷ [] in
    let l = length-be_bytes 4 p.test_id in
    (
      omega (
        arith,
        length-append (be_bytes 4 p.test_id) (bool_as_u8 p.done ∷ zeros),
        length-replicate padding (let z : ℕ = 0 in z),
      ),
      rw (
        append_assoc,
        le→ltb (length (concat fs (zeros ++ rest))) data_header_len
            (omega (arith, length-concat fs (zeros ++ rest))),
        slice_field fs (zeros ++ rest) 0 0 4 (omega arith) (omega arith) (omega arith),
        index_field fs (zeros ++ rest) 1 4 (bool_as_u8 p.done) (omega arith) (omega arith) refl,
        from_be-be_bytes 4 p.test_id id_u32,
        not-bool_as_u8 p.done,
      ),
    )

-- Two words of four bytes, read back in front of any rest.
module _ (a b : ℕ) (rest : List ℕ) where
  abbrev words : List (List ℕ)
  words = be_bytes 4 a ∷ be_bytes 4 b ∷ []

  words_long : result_len ≤ length (concat words rest)
  words_long = omega (arith, length-concat words rest, length-be_bytes 4 a, length-be_bytes 4 b)

  first_word : slice (concat words rest) 0 4 ≡ ok (be_bytes 4 a)
  first_word =
      let l = length-be_bytes 4 a in
      slice_field words rest 0 0 4 (omega arith) (omega arith) (omega arith)

  second_word : slice (concat words rest) 4 8 ≡ ok (be_bytes 4 b)
  second_word =
      let l = length-be_bytes 4 a in
      let l' = length-be_bytes 4 b in
      slice_field words rest 1 4 8 (omega arith) (omega arith) (omega arith)

-- The result of a test is read back, whatever follows it.
pub decode_result-encode_result :
    (p : ThroughputTestResultPayload) (rest : List ℕ)
    → p.test_id < 2 ^ 32
    → p.achieved_mbps < 2 ^ 32
    → decode_result (encode_result p ++ rest) ≡ ok p
unfolding encode_result decode_result
decode_result-encode_result p rest ha hb =
    let a = p.test_id in
    let b = p.achieved_mbps in
    rw (
      append_assoc,
      le→ltb (length (concat (words a b rest) rest)) result_len (words_long a b rest),
      first_word a b rest,
      second_word a b rest,
      from_be-be_bytes 4 a ha,
      from_be-be_bytes 4 b hb,
    )

pub decode_request-encode_request :
    (p : ThroughputTestReverseRequestPayload) (rest : List ℕ)
    → p.test_id < 2 ^ 32
    → p.duration_secs < 2 ^ 32
    → decode_request (encode_request p ++ rest) ≡ ok p
unfolding encode_request decode_request
decode_request-encode_request p rest ha hb =
    let a = p.test_id in
    let b = p.duration_secs in
    rw (
      append_assoc,
      le→ltb (length (concat (words a b rest) rest)) result_len (words_long a b rest),
      first_word a b rest,
      second_word a b rest,
      from_be-be_bytes 4 a ha,
      from_be-be_bytes 4 b hb,
    )
