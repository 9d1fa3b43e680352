-- ===== src/Protocol/FecParity/Laws.antt =====
-- The round trip of a parity share, and what `decode` accepts.
use mathlib.Core.List.{append_assoc}
use mlvpn_rs.Common.{
  ℕ, ◌+◌, ◌*◌, ◌%◌, ◌^◌, ◌≤◌, ◌<◌, ◌≡◌, refl, sym, ap, ◌∙◌, List, [], ◌∷◌, ◌++◌, le→ltb, length,
  length-append, All, ok, slice, index, arith, ne→==, subst,
}
use mlvpn_rs.Common.Bytes.{be_bytes, from_be, length-be_bytes, from_be-be_bytes}
use mlvpn_rs.Common.Fields.{slice_middle, slice_field, concat, length-concat}
use mlvpn_rs.Protocol.FecParity.{
  FecParityPayload, IsFecParityPayload, write_words, read_words, encode, decode,
}

pub length-write_words : (w : ℕ) (vs : List ℕ) → length (write_words w vs) ≡ length vs * w
unfolding write_words
length-write_words w [] = omega arith
length-write_words w (v ∷ vs) = omega (
  arith,
  length-append (be_bytes w v) (write_words w vs),
  length-be_bytes w v,
  length-write_words w vs,
)

-- Words are read back wherever they stand in the buffer.
read_words-write_words :
    (front vs tail : List ℕ) (base w i : ℕ)
    → length front ≡ base + i * w
    → All (λ v. v < 256 ^ w) vs
    → read_words (front ++ (write_words w vs ++ tail)) base w i (length vs) ≡ ok vs
unfolding write_words read_words
read_words-write_words front [] tail base w i l h = refl
read_words-write_words front (v ∷ vs) tail base w i l h =
    let word = be_bytes w v in
    let rest = write_words w vs ++ tail in
    let lw = length-be_bytes w v in
    let split = append_assoc word (write_words w vs) tail in
    rw (
      ap (λ r. slice (front ++ r) (base + i * w) (base + i * w + w)) split
          ∙ slice_middle front word rest (base + i * w) (base + i * w + w) l (omega arith),
      from_be-be_bytes w v h.0,
      ap (λ buf. read_words buf base w (i + 1) (length vs))
            (ap (◌++◌ front) split ∙ sym (append_assoc front word rest))
          ∙ read_words-write_words (front ++ word) vs tail base w (i + 1)
              (omega (arith, length-append front word)) h.1,
    )

-- Once every read succeeds, `decode` returns what was read.
pub decode_of_parts :
    (n : ℕ) (bs seqs lens len_bytes parity : List ℕ)
    → 1 + n * 8 + n * 2 + 2 ≤ length (n ∷ bs)
    → read_words (n ∷ bs) 1 8 0 n ≡ ok seqs
    → read_words (n ∷ bs) (1 + n * 8) 2 0 n ≡ ok lens
    → slice (n ∷ bs) (1 + n * 8 + n * 2) (1 + n * 8 + n * 2 + 2) ≡ ok len_bytes
    → 1 + n * 8 + n * 2 + 2 + from_be len_bytes ≤ length (n ∷ bs)
    → slice (n ∷ bs) (1 + n * 8 + n * 2 + 2) (1 + n * 8 + n * 2 + 2 + from_be len_bytes) ≡ ok parity
    → decode (n ∷ bs) ≡ ok (record { member_seqs = seqs; member_lens = lens; parity = parity })
unfolding decode index
decode_of_parts n bs seqs lens len_bytes parity h es el en k ep = rw (
  ne→== (length (n ∷ bs)) 0 (omega arith),
  le→ltb (length (n ∷ bs)) (1 + n * 8 + n * 2 + 2) h,
  es,
  el,
  en,
  le→ltb (length (n ∷ bs)) (1 + n * 8 + n * 2 + 2 + from_be len_bytes) k,
  ep,
)

module _ (p : FecParityPayload) (v : IsFecParityPayload p) (rest : List ℕ) where
  abbrev fields : List (List ℕ)
  fields =
      (length p.member_seqs ∷ [])
      ∷ write_words 8 p.member_seqs
      ∷ write_words 2 p.member_lens
      ∷ be_bytes 2 (length p.parity)
      ∷ p.parity
      ∷ []

  encode-append : encode p ++ rest ≡ concat fields rest
  unfolding encode
  encode-append =
      let count : length p.member_seqs % 2 ^ 8 ≡ length p.member_seqs = omega (arith, v.count_u8) in
      let size : length p.parity % 2 ^ 16 ≡ length p.parity = omega (arith, v.parity_u16) in
      rw (count, size) (simp append_assoc)

  decode-fields : decode (concat fields rest) ≡ ok p
  decode-fields =
      let n = length p.member_seqs in
      let same = v.same_count in
      let size = from_be-be_bytes 2 (length p.parity) v.parity_u16 in
      let seqs = write_words 8 p.member_seqs in
      let lens = write_words 2 p.member_lens in
      let l1 = length-write_words 8 p.member_seqs in
      let l2 = length-write_words 2 p.member_lens in
      let l3 = length-be_bytes 2 (length p.parity) in
      let tail = be_bytes 2 (length p.parity) ++ (p.parity ++ rest) in
      let whole = length-concat fields rest in
      decode_of_parts n (seqs ++ (lens ++ tail)) p.member_seqs p.member_lens
        (be_bytes 2 (length p.parity)) p.parity (omega arith)
        (read_words-write_words (n ∷ []) p.member_seqs (lens ++ tail) 1 8 0 refl v.seqs_u64)
        (subst (λ k. read_words (concat fields rest) (1 + n * 8) 2 0 k ≡ ok p.member_lens) same
          (read_words-write_words (n ∷ seqs) p.member_lens tail (1 + n * 8) 2 0 (omega arith)
            v.lens_u16))
        (slice_field fields rest 3 (1 + n * 8 + n * 2) (1 + n * 8 + n * 2 + 2) (omega arith)
          (omega arith) (omega arith))
        (omega arith)
        (slice_field fields rest 4 (1 + n * 8 + n * 2 + 2)
          (1 + n * 8 + n * 2 + 2 + from_be (be_bytes 2 (length p.parity))) (omega arith)
          (omega arith) (omega arith))

  -- A share is read back from what was written, whatever follows it: its group and its bytes.
  pub decode-encode_parity : decode (encode p ++ rest) ≡ ok p
  decode-encode_parity = ap decode encode-append ∙ decode-fields

pub length-encode :
    (p : FecParityPayload)
    → length (encode p)
      ≡ 1 + length p.member_seqs * 8 + length p.member_lens * 2 + 2 + length p.parity
unfolding encode
length-encode p =
    let size = be_bytes 2 (length p.parity % 2 ^ 16) in
    omega (
      arith,
      length-append (write_words 8 p.member_seqs)
          (write_words 2 p.member_lens ++ (size ++ p.parity)),
      length-append (write_words 2 p.member_lens) (size ++ p.parity),
      length-append size p.parity,
      length-write_words 8 p.member_seqs,
      length-write_words 2 p.member_lens,
      length-be_bytes 2 (length p.parity % 2 ^ 16),
    )
