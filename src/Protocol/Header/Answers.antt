-- ===== src/Protocol/Header/Answers.antt =====
-- What `decode` answers on any buffer.
use mlvpn_rs.Common.{
  ap₂, subst, ℕ, ◌≤◌, ◌<◌, ◌≡◌, refl, sym, ◌≢◌, List, [], ◌∷◌, length, take, drop, Error, Result,
  ok, err, le→ltb, lt→ltb, too_short, bad_magic, unsupported_version, unknown_packet_type, index,
  arith,
}
use native.Mathlib.Decide.{dec_lt, ℕ_discrete}
use mlvpn_rs.Common.Bytes.{from_be}
use mlvpn_rs.Protocol.Header.{
  PacketType, handshake_init, Header, to_u8, from_u8, decode, header_len, magic, version,
}
use mlvpn_rs.Protocol.Header.Laws.{decode_frame, to_u8-from_u8}

-- The bytes that name a packet type: 1 to 16 but for 9 and 10.
abbrev pub Named : ℕ → Type 0
Named t = (1 ≤ t) × (t ≤ 16) × (t ≢ 9) × (t ≢ 10)

-- What is answered on which buffer.
pub data Answer (buf : List ℕ) : Result (Header × List ℕ) → Type 0 where
  short : length buf < 12 → Answer buf (err too_short)
  other_magic :
      (m : ℕ) (rest : List ℕ)
      → buf ≡ m ∷ rest
      → 12 ≤ length buf
      → m ≢ 0x4D
      → Answer buf (err bad_magic)
  other_version :
      (v : ℕ) (rest : List ℕ)
      → buf ≡ 0x4D ∷ v ∷ rest
      → 12 ≤ length buf
      → v ≢ 1
      → Answer buf (err (unsupported_version v))
  unnamed :
      (t : ℕ) (rest : List ℕ)
      → buf ≡ 0x4D ∷ 1 ∷ t ∷ rest
      → 12 ≤ length buf
      → ¬ Named t
      → Answer buf (err (unknown_packet_type t))
  accepted :
      (t l : ℕ) (rest : List ℕ) (p : PacketType)
      → buf ≡ 0x4D ∷ 1 ∷ t ∷ l ∷ rest
      → 8 ≤ length rest
      → Named t
      → to_u8 p ≡ t
      → Answer buf
          (ok (record { ptype = p; link_id = l; seq = from_be (take 8 rest) }, drop 8 rest))

to_u8-Named : (p : PacketType) → Named (to_u8 p)
unfolding to_u8
to_u8-Named handshake_init = (omega arith, omega arith, omega arith, omega arith)
to_u8-Named _ = (omega arith, omega arith, omega arith, omega arith)

from_u8-err : (t : ℕ) {e : Error} → from_u8 t ≡ err e → (e ≡ unknown_packet_type t) × (¬ Named t)
unfolding from_u8
from_u8-err t h = (ground arith, λ n. ground arith)

-- A frame of full length with the fixed bytes in place is accepted or refused by its type.
frame-Answer :
    (t l : ℕ) (rest : List ℕ) (r : Result PacketType)
    → from_u8 t ≡ r
    → 8 ≤ length rest
    → Answer (magic ∷ version ∷ t ∷ l ∷ rest) (decode (magic ∷ version ∷ t ∷ l ∷ rest))
frame-Answer t l rest (ok p) h long =
    let same = to_u8-from_u8 t p h in
    let named : Named t = rw (← same) (to_u8-Named p) in
    rw (decode_frame t l rest long, h) (accepted t l rest p refl long named same)
frame-Answer t l rest (err e) h long =
    let (same, not_named) = from_u8-err t h in
    rw (decode_frame t l rest long, h, same) (unnamed t (l ∷ rest) refl (omega arith) not_named)

-- Every buffer is refused or accepted: it is refused if it is short, else if it does not begin with the
-- magic byte, else if it has another version, else if no packet type has its type byte; and else it is
-- accepted, with the type of that byte, the link, the number of the next eight bytes and what is left.
pub decode-Answer : (buf : List ℕ) → Answer buf (decode buf)
unfolding decode index
decode-Answer [] = short (omega arith)
decode-Answer (m ∷ []) = short (omega arith)
decode-Answer (m ∷ v ∷ []) = short (omega arith)
decode-Answer (m ∷ v ∷ t ∷ []) = short (omega arith)
decode-Answer (m ∷ v ∷ t ∷ l ∷ rest) = elim (dec_lt (length rest) 8) [
  | yes less ↦
      rw (decode, lt→ltb (length (m ∷ v ∷ t ∷ l ∷ rest)) header_len (omega arith))
        (short (omega arith))
  | no more ↦ elim (ℕ_discrete m magic) [
    | no other ↦
        let e : decode (m ∷ v ∷ t ∷ l ∷ rest) ≡ err bad_magic =
          rw (le→ltb (length (m ∷ v ∷ t ∷ l ∷ rest)) header_len (omega arith)) (ground arith) in
        rw e (other_magic m (v ∷ t ∷ l ∷ rest) refl (omega arith) other)
    | yes is_magic ↦ elim (ℕ_discrete v version) [
      | no other ↦
          let e : decode (magic ∷ v ∷ t ∷ l ∷ rest) ≡ err (unsupported_version v) =
            rw (le→ltb (length (m ∷ v ∷ t ∷ l ∷ rest)) header_len (omega arith)) (ground arith) in
          rw (is_magic, e) (other_version v (t ∷ l ∷ rest) refl (omega arith) other)
      | yes is_version ↦
          subst (λ b. Answer b (decode b))
            (sym (ap₂ (λ m v. m ∷ v ∷ t ∷ l ∷ rest) is_magic is_version))
            (frame-Answer t l rest (from_u8 t) refl (omega arith))
    ]
  ]
]
