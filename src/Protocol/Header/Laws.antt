-- ===== src/Protocol/Header/Laws.antt =====
-- What `decode` does with what `encode` wrote, and with any other bytes.
use mlvpn_rs.Common.{
  ℕ, ◌≤◌, ◌<◌, ◌≡◌, refl, sym, ◌∙◌, ◌≢◌, List, [], ◌∷◌, ◌++◌, length, take, drop, take-append,
  drop-append, length-append, le→ltb, slice_lem, slice_to_end, subst, All-take, take-append-drop,
  length-take, >>=-eq-ok, ok, err, panic, ◌>>=◌, index, arith,
}
use mlvpn_rs.Common.Bytes.{
  be_bytes, from_be, from_be-lt, IsByte, length-be_bytes, from_be-be_bytes, be_bytes-from_be,
  AreBytes,
}
use mlvpn_rs.Protocol.Header.{
  PacketType, handshake_init, Header, IsHeader, to_u8, from_u8, to_bytes, encode, decode,
  header_len, magic, version,
}

pub from_u8-to_u8 : (p : PacketType) → from_u8 (to_u8 p) ≡ ok p
unfolding from_u8 to_u8
from_u8-to_u8 handshake_init = refl
from_u8-to_u8 _ = refl

pub to_u8-from_u8 : (v : ℕ) (p : PacketType) → from_u8 v ≡ ok p → to_u8 p ≡ v
unfolding from_u8 to_u8
to_u8-from_u8 v p h = ground arith

-- Behind the two fixed bytes a frame of full length fails only at its type byte.
pub decode_frame :
    (t l : ℕ) (rest : List ℕ)
    → 8 ≤ length rest
    → decode (magic ∷ version ∷ t ∷ l ∷ rest) ≡ (
        from_u8 t >>= λ p.
        ok (record { ptype = p; link_id = l; seq = from_be (take 8 rest) }, drop 8 rest))
unfolding decode index
decode_frame t l rest h = rw (
  le→ltb (length (magic ∷ version ∷ t ∷ l ∷ rest)) header_len (omega arith),
  slice_lem (magic ∷ version ∷ t ∷ l ∷ rest) 4 12 (omega arith) (omega arith),
  slice_to_end (magic ∷ version ∷ t ∷ l ∷ rest) header_len (omega arith),
)

-- A frame is read back as the header that it was written from and the payload behind it.
pub decode-encode_header :
    (h : Header) (payload : List ℕ) → IsHeader h → decode (encode h [] ++ payload) ≡ ok (h, payload)
unfolding encode to_bytes
decode-encode_header h payload v =
    let field = be_bytes 8 h.seq in
    let l : length field ≡ 8 = length-be_bytes 8 h.seq in
    decode_frame (to_u8 h.ptype) h.link_id (field ++ payload)
      (omega (arith, length-append field payload))
    ∙ rw (
      from_u8-to_u8 h.ptype,
      take-append 8 field payload l,
      drop-append 8 field payload l,
      from_be-be_bytes 8 h.seq v.seq_u64,
    )

-- What an accepted frame looks like.
decode-eq-ok :
    (m v t l : ℕ) (rest : List ℕ) {r : Header × List ℕ}
    → decode (m ∷ v ∷ t ∷ l ∷ rest) ≡ ok r
    → (m ≡ magic) × (v ≡ version) × (8 ≤ length rest)
unfolding decode index
decode-eq-ok m v t l rest e = ground arith

from_u8-ne-panic : (v : ℕ) → from_u8 v ≢ err panic
unfolding from_u8
from_u8-ne-panic v = ground arith

-- The bytes of a frame are those of the header that is read from it, and the rest.
frame_bytes :
    (t l : ℕ) (rest : List ℕ) (p : PacketType)
    → from_u8 t ≡ ok p
    → 8 ≤ length rest
    → AreBytes rest
    → to_bytes (record { ptype = p; link_id = l; seq = from_be (take 8 rest) }) ++ drop 8 rest
      ≡ magic ∷ version ∷ t ∷ l ∷ rest
unfolding to_bytes
frame_bytes t l rest p e h bytes = rw (
  to_u8-from_u8 t p e,
  be_bytes-from_be 8 (take 8 rest) (All-take IsByte 8 rest bytes)
      (omega (arith, length-take 8 rest)),
  take-append-drop 8 rest,
)

frame-IsHeader :
    (l : ℕ) (rest : List ℕ) (p : PacketType)
    → l < 256
    → 8 ≤ length rest
    → AreBytes rest
    → IsHeader (record { ptype = p; link_id = l; seq = from_be (take 8 rest) })
frame-IsHeader l rest p hl h bytes = record {
  link_id_u8 = hl;
  seq_u64 =
      from_be-lt 8 (take 8 rest) (All-take IsByte 8 rest bytes) (omega (arith, length-take 8 rest));
}

-- The accepted frame, with the fixed bytes in place.
decode_frame_sound :
    (t l : ℕ) (rest : List ℕ) (h : Header) (payload : List ℕ)
    → AreBytes (t ∷ l ∷ rest)
    → 8 ≤ length rest
    → decode (magic ∷ version ∷ t ∷ l ∷ rest) ≡ ok (h, payload)
    → (to_bytes h ++ payload ≡ magic ∷ version ∷ t ∷ l ∷ rest) × IsHeader h
decode_frame_sound t l rest h payload bytes long e =
    let (p, type_ok, whole) =
      >>=-eq-ok (from_u8 t)
        (λ p. ok (record { ptype = p; link_id = l; seq = from_be (take 8 rest) }, drop 8 rest))
        (sym (decode_frame t l rest long) ∙ e) in
    let same_header : record { ptype = p; link_id = l; seq = from_be (take 8 rest) } ≡ h =
      ground arith in
    let same_rest : drop 8 rest ≡ payload = ground arith in
    (
      cc (frame_bytes t l rest p type_ok long bytes.1.1),
      subst IsHeader same_header (frame-IsHeader l rest p bytes.1.0 long bytes.1.1),
    )

-- `decode` accepts only what `encode` writes: an accepted buffer is the encoding of the header that
-- is returned, whose fields are in range, followed by the payload that is returned.
pub decode_sound :
    (buf : List ℕ) (h : Header) (payload : List ℕ)
    → AreBytes buf
    → decode buf ≡ ok (h, payload)
    → (encode h [] ++ payload ≡ buf) × IsHeader h
unfolding encode
decode_sound [] h payload bytes e = unfold decode in cc
decode_sound (m ∷ []) h payload bytes e = unfold decode in cc
decode_sound (m ∷ v ∷ []) h payload bytes e = unfold decode in cc
decode_sound (m ∷ v ∷ t ∷ []) h payload bytes e = unfold decode in cc
decode_sound (m ∷ v ∷ t ∷ l ∷ rest) h payload bytes e =
    let (is_magic, is_version, long) = decode-eq-ok m v t l rest e in
    rw (is_magic, is_version)
      (decode_frame_sound t l rest h payload bytes.1.1 long (rw (is_magic, is_version) at e))

-- No buffer makes `decode` read out of range.
pub decode-ne-panic : (buf : List ℕ) → decode buf ≢ err panic
decode-ne-panic [] e = unfold decode in cc
decode-ne-panic (m ∷ []) e = unfold decode in cc
decode-ne-panic (m ∷ v ∷ []) e = unfold decode in cc
decode-ne-panic (m ∷ v ∷ t ∷ []) e = unfold decode in cc
decode-ne-panic (m ∷ v ∷ t ∷ l ∷ rest) e =
    unfold decode index in
    ground (
      arith,
      slice_lem (m ∷ v ∷ t ∷ l ∷ rest) 4 12,
      slice_to_end (m ∷ v ∷ t ∷ l ∷ rest) header_len,
      from_u8-ne-panic t,
    )
