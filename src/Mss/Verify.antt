-- ===== src/Mss/Verify.antt =====
-- src/mss.rs, the checksum over the pseudo-header and the segment, and that it verifies once written.
use mathlib.Core.List.{append_assoc}
use mlvpn_rs.Common.{
  ℕ, ◌+◌, ◌/◌, ◌%◌, ◌^◌, ◌≤◌, ◌≡◌, refl, sym, ap, ◌∙◌, List, [], ◌∷◌, ◌++◌, length, take, drop,
  length-append, length-take, ok, All-append, arith,
}
use mlvpn_rs.Common.Bytes.{AreBytes, IsByte, be_bytes}
use mlvpn_rs.Common.Splice.{splice, copy_into_lem, length-splice, splice-AreBytes, splice-append}
use mlvpn_rs.Mss.{internet_checksum, tcp_checksum}
use mlvpn_rs.Mss.Checksum.{internet_checksum_verifies}

-- The checksum is that of the segment with zeros in the field.
pub tcp_checksum_lem :
    (pseudo : ℕ → List ℕ) (src dst seg : List ℕ) (cksum_at : ℕ)
    → length (src ++ (dst ++ pseudo (length seg))) + 16 ≡ cksum_at
    → 18 ≤ length seg
    → tcp_checksum pseudo cksum_at src dst seg
      ≡ ok (internet_checksum ((src ++ (dst ++ pseudo (length seg))) ++ splice seg 16 (0 ∷ 0 ∷ [])))
unfolding tcp_checksum
tcp_checksum_lem pseudo src dst seg cksum_at e long =
    let front = src ++ (dst ++ pseudo (length seg)) in
    let whole : src ++ (dst ++ (pseudo (length seg) ++ seg)) ≡ front ++ seg =
      ap (◌++◌ src) (sym (append_assoc dst (pseudo (length seg)) seg))
      ∙ sym (append_assoc src (dst ++ pseudo (length seg)) seg) in
    rw
      (
        whole,
        ← e,
        copy_into_lem (front ++ seg) (length front + 16) (0 ∷ 0 ∷ [])
            (omega (arith, length-append front seg)),
        splice-append front seg 16 (0 ∷ 0 ∷ []),
      )
      refl

-- A segment with that checksum in its field verifies.
pub segment_verifies :
    (k : ℕ) (front seg : List ℕ)
    → length front ≡ k + k
    → AreBytes front
    → AreBytes seg
    → 18 ≤ length seg
    → length front + length seg ≤ 2 ^ 16
    → internet_checksum (
        front
        ++ splice seg 16 (be_bytes 2 (internet_checksum (front ++ splice seg 16 (0 ∷ 0 ∷ [])))))
      ≡ 0
unfolding be_bytes
segment_verifies k front seg even hf hs long short =
    let before = front ++ take 16 seg in
    let back = drop 18 seg in
    let apart = λ (a b : ℕ). append_assoc front (take 16 seg) (a ∷ b ∷ back) in
    let zeroed = before ++ (0 ∷ 0 ∷ back) in
    let c = internet_checksum zeroed in
    let c_same : internet_checksum (front ++ splice seg 16 (0 ∷ 0 ∷ [])) ≡ c =
      ap internet_checksum (sym (apart 0 0)) in
    let l = length-splice seg 16 (0 ∷ 0 ∷ []) long in
    let l' = length-append front (splice seg 16 (0 ∷ 0 ∷ [])) in
    rw (c_same, ← apart (c / 256 % 256) (c % 256))
      (internet_checksum_verifies (k + 8) before back
        (omega (arith, length-append front (take 16 seg), length-take 16 seg))
        (rw (apart 0 0) (
          All-append IsByte front (splice seg 16 (0 ∷ 0 ∷ [])) hf
            (splice-AreBytes seg 16 (0 ∷ 0 ∷ []) hs (omega arith, (omega arith, tt)))))
        (rw (apart 0 0) (omega arith)))
