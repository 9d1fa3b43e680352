-- ===== src/Mss/Finish.antt =====
-- src/mss.rs, the checksum that is written last, behind the addresses and the TCP header's fixed part.
use mlvpn_rs.Common.{
  ℕ, ◌+◌, ◌-◌, ◌^◌, ◌≤◌, ◌≡◌, refl, List, [], ◌∷◌, ◌++◌, length, take, drop, length-append,
  length-take, length-drop, ok, All-append, All-take, All-drop, slice, slice_lem, slice_to_end,
  ◌>>=◌, arith,
}
use mlvpn_rs.Common.Bytes.{AreBytes, IsByte, be_bytes, length-be_bytes}
use mlvpn_rs.Common.Splice.{
  splice, copy_into, copy_into_lem, length-splice, drop-splice, window_before,
}
use mlvpn_rs.Mss.{internet_checksum, tcp_checksum}
use mlvpn_rs.Mss.Verify.{tcp_checksum_lem, segment_verifies}
use mlvpn_rs.Mss.Segment.{pseudo_header}

module _ (pseudo : ℕ → List ℕ) (addresses width start cksum_at k : ℕ)
    (in_front : addresses + width + width ≤ start)
    (even : (n : ℕ) → width + (width + length (pseudo n)) ≡ k + k)
    (plain : (n : ℕ) → AreBytes (pseudo n))
    (field : width + width + length (pseudo 0) + 16 ≡ cksum_at) where
  front-even :
      (buf : List ℕ)
      → start ≤ length buf
      → (length (pseudo_header pseudo addresses width start buf) ≡ k + k)
        × (AreBytes buf → AreBytes (pseudo_header pseudo addresses width start buf))
  front-even buf h =
      let src = take width (drop addresses buf) in
      let dst = take width (drop (addresses + width) buf) in
      let tail = pseudo (length buf - start) in
      (
        omega (
          arith,
          even (length buf - start),
          length-append src (dst ++ tail),
          length-append dst tail,
          length-take width (drop addresses buf),
          length-take width (drop (addresses + width) buf),
          length-drop addresses buf,
          length-drop (addresses + width) buf,
        ),
        λ b.
            All-append IsByte src (dst ++ tail)
              (All-take IsByte width (drop addresses buf) (All-drop IsByte addresses buf b))
              (All-append IsByte dst tail
                (All-take IsByte width (drop (addresses + width) buf)
                  (All-drop IsByte (addresses + width) buf b))
                (plain (length buf - start))),
      )

  -- The last steps, from the packet in which the option is written already.
  pub checksum_written :
      (clamped : List ℕ)
      → AreBytes clamped
      → start + 20 ≤ length clamped
      → length clamped ≤ 2 ^ 16 - 1
      → (k + k ≤ start)
      → (checksum : ℕ) × ((do
        src ← slice clamped addresses (addresses + width)
        dst ← slice clamped (addresses + width) (addresses + width + width)
        segment ← slice clamped start (length clamped)
        checksum ← tcp_checksum pseudo cksum_at src dst segment
        copy_into clamped (start + 16) (be_bytes 2 checksum))
          ≡ ok (splice clamped (start + 16) (be_bytes 2 checksum)))
        × (internet_checksum (
              pseudo_header pseudo addresses width start
                (splice clamped (start + 16) (be_bytes 2 checksum))
              ++ drop start (splice clamped (start + 16) (be_bytes 2 checksum)))
            ≡ 0)
  checksum_written clamped bytes long short tiny =
      let src = take width (drop addresses clamped) in
      let dst = take width (drop (addresses + width) clamped) in
      let seg = drop start clamped in
      let many : length seg ≡ length clamped - start = length-drop start clamped in
      let front = src ++ (dst ++ pseudo (length clamped - start)) in
      let (halves, front_bytes) = front-even clamped (omega arith) in
      let checksum = internet_checksum (front ++ splice seg 16 (0 ∷ 0 ∷ [])) in
      let written = be_bytes 2 checksum in
      let wide = length-be_bytes 2 checksum in
      let result = splice clamped (start + 16) written in
      let w1 : addresses + width - addresses ≡ width = omega arith in
      let w2 : addresses + width + width - (addresses + width) ≡ width = omega arith in
      let place : length (src ++ (dst ++ pseudo (length seg))) + 16 ≡ cksum_at =
        rw many (omega (arith, halves, even 0, field)) in
      let sum : tcp_checksum pseudo cksum_at src dst seg ≡ ok checksum =
        rw (tcp_checksum_lem pseudo src dst seg cksum_at place (omega arith), many) refl in
      let src_same : take width (drop addresses result) ≡ src =
        window_before width addresses clamped (start + 16) written (omega arith) (omega arith) in
      let dst_same : take width (drop (addresses + width) result) ≡ dst =
        window_before width (addresses + width) clamped (start + 16) written (omega arith)
          (omega arith) in
      let length_same : length result ≡ length clamped =
        length-splice clamped (start + 16) written (omega arith) in
      (
        checksum,
        rw
            (
              slice_lem clamped addresses (addresses + width) (omega arith) (omega arith),
              w1,
              slice_lem clamped (addresses + width) (addresses + width + width) (omega arith)
                  (omega arith),
              w2,
              slice_to_end clamped start (omega arith),
              sum,
              copy_into_lem clamped (start + 16) written (omega arith),
            )
            refl,
        rw (src_same, dst_same, length_same, drop-splice start clamped 16 written (omega arith))
            (segment_verifies k front seg halves (front_bytes bytes)
              (All-drop IsByte start clamped bytes) (omega arith) (omega arith)),
      )
