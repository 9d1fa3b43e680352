-- ===== src/Protocol/FecParity/Answers.antt =====
-- What `decode` of a parity share answers on any buffer.
use native.Mathlib.Decide.{dec_lt}
use mlvpn_rs.Common.{
  ap₂, ℕ, zero, suc, ◌+◌, ◌-◌, ◌*◌, ◌≤◌, ◌<◌, ◌≡◌, refl, sym, ap, ◌∙◌, List, [], ◌∷◌, ◌++◌, le→ltb,
  lt→ltb, ne→==, length, length-take, length-drop, Result, ok, err, slice_lem, index, arith, take,
  drop, All-take, All-drop, too_short, too_short_for_group, too_short_for_parity,
}
use mlvpn_rs.Common.Bytes.{be_bytes, from_be, be_bytes-from_be, AreBytes, IsByte}
use mlvpn_rs.Protocol.FecParity.{FecParityPayload, write_words, read_words, decode}
use mlvpn_rs.Protocol.FecParity.Laws.{decode_of_parts}

take_add : (m n : ℕ) (xs : List ℕ) → take (m + n) xs ≡ take m xs ++ take n (drop m xs)
take_add zero n xs = let z : 0 + n ≡ n = omega arith in ap (λ k. take k xs) z
take_add (suc m) n [] =
    let z : suc m + n ≡ suc (m + n) = omega arith in ap (λ k. take {A = ℕ} k []) z ∙ take_nil n
  where
    take_nil : (n : ℕ) → [] ≡ take {A = ℕ} n []
    take_nil zero = refl
    take_nil (suc n) = refl
take_add (suc m) n (x ∷ xs) =
    let z : suc m + n ≡ suc (m + n) = omega arith in
    ap (λ k. take k (x ∷ xs)) z ∙ ap (◌∷◌ x) (take_add m n xs)

drop_add : (m n : ℕ) (xs : List ℕ) → drop (m + n) xs ≡ drop n (drop m xs)
drop_add zero n xs = let z : 0 + n ≡ n = omega arith in ap (λ k. drop k xs) z
drop_add (suc m) n [] =
    let z : suc m + n ≡ suc (m + n) = omega arith in ap (λ k. drop {A = ℕ} k []) z ∙ drop_nil n
  where
    drop_nil : (n : ℕ) → [] ≡ drop {A = ℕ} n []
    drop_nil zero = refl
    drop_nil (suc n) = refl
drop_add (suc m) n (x ∷ xs) =
    let z : suc m + n ≡ suc (m + n) = omega arith in ap (λ k. drop k (x ∷ xs)) z ∙ drop_add m n xs

-- The words of a buffer that is long enough are read without a panic, each of them, as they stand there.
read_words_stand :
    (buf : List ℕ) (base w i n : ℕ)
    → AreBytes buf
    → base + (i + n) * w ≤ length buf
    → (vs : List ℕ) × (read_words buf base w i n ≡ ok vs)
      × (write_words w vs ≡ take (n * w) (drop (base + i * w) buf))
unfolding read_words write_words
read_words_stand buf base w i zero b h =
    ([], refl, ap (λ k. take k (drop (base + i * w) buf)) (let z : 0 ≡ 0 * w = omega arith in z))
read_words_stand buf base w i (suc n) b h =
    let (vs, e, stand) = read_words_stand buf base w (i + 1) n b (omega arith) in
    let start = base + i * w in
    let word = take (start + w - start) (drop start buf) in
    let width : start + w - start ≡ w = omega arith in
    let next : base + (i + 1) * w ≡ start + w = omega arith in
    let whole : w + n * w ≡ suc n * w = omega arith in
    let len : length word ≡ w =
      omega (arith, length-take (start + w - start) (drop start buf), length-drop start buf) in
    let same : be_bytes w (from_be word) ≡ take w (drop start buf) =
      be_bytes-from_be w word
        (All-take IsByte (start + w - start) (drop start buf) (All-drop IsByte start buf b)) len
      ∙ ap (λ k. take k (drop start buf)) width in
    (
      from_be word ∷ vs,
      rw (slice_lem buf start (start + w) (omega arith) (omega arith), e),
      ap₂ (λ a c. a ++ c) same
            (stand ∙ ap (take (n * w)) (ap (λ k. drop k buf) next ∙ drop_add start w buf))
          ∙ sym (take_add w (n * w) (drop start buf))
          ∙ ap (λ k. take k (drop start buf)) whole,
    )

-- How long the parity is that a share of `n` members declares behind their numbers and lengths.
abbrev pub declared : ℕ → List ℕ → ℕ
declared n bs = from_be (take 2 (drop (n * 10) bs))

-- The share stands in the buffer: `n` numbers of 8 bytes, `n` lengths of 2, the length of the parity and
-- so many bytes of it.
pub record Stands (n : ℕ) (bs : List ℕ) (p : FecParityPayload) : Type 0 where
  seqs_stand : write_words 8 p.member_seqs ≡ take (n * 8) bs
  lens_stand : write_words 2 p.member_lens ≡ take (n * 2) (drop (n * 8) bs)
  parity_stands : p.parity ≡ take (declared n bs) (drop (n * 10 + 2) bs)

-- What is answered on which buffer.
pub data ParityAnswer (buf : List ℕ) : Result FecParityPayload → Type 0 where
  nothing : buf ≡ [] → ParityAnswer buf (err too_short)
  group_cut :
      (n : ℕ) (bs : List ℕ)
      → buf ≡ n ∷ bs
      → length buf < 3 + n * 10
      → ParityAnswer buf (err too_short_for_group)
  parity_cut :
      (n : ℕ) (bs : List ℕ)
      → buf ≡ n ∷ bs
      → 3 + n * 10 ≤ length buf
      → length buf < 3 + n * 10 + declared n bs
      → ParityAnswer buf (err too_short_for_parity)
  whole :
      (n : ℕ) (bs : List ℕ) (p : FecParityPayload)
      → buf ≡ n ∷ bs
      → 3 + n * 10 + declared n bs ≤ length buf
      → Stands n bs p
      → ParityAnswer buf (ok p)

-- `decode` refuses the empty buffer, one that ends before the lists of as many members as the first byte
-- says or before the length of the parity, and one that ends before the parity that is declared there;
-- any other one it accepts, with the numbers, the lengths and the parity that stand in it.
pub decode-ParityAnswer : (buf : List ℕ) → AreBytes buf → ParityAnswer buf (decode buf)
unfolding decode index
decode-ParityAnswer [] b = nothing refl
decode-ParityAnswer (n ∷ bs) b = elim (dec_lt (length (n ∷ bs)) (1 + n * 8 + n * 2 + 2)) [
  | yes short ↦
      rw
        (
          decode,
          ne→== (length (n ∷ bs)) 0 (omega arith),
          lt→ltb (length (n ∷ bs)) (1 + n * 8 + n * 2 + 2) short,
        )
        (group_cut n bs refl (omega arith))
  | no long ↦
      let (seqs, es, ls) = read_words_stand (n ∷ bs) 1 8 0 n b (omega arith) in
      let (lens, el, ll) = read_words_stand (n ∷ bs) (1 + n * 8) 2 0 n b (omega arith) in
      let lens_end = 1 + n * 8 + n * 2 in
      let len_bytes = take (lens_end + 2 - lens_end) (drop lens_end (n ∷ bs)) in
      let en = slice_lem (n ∷ bs) lens_end (lens_end + 2) (omega arith) (omega arith) in
      let parity_end = lens_end + 2 + from_be len_bytes in
      let parity = take (parity_end - (lens_end + 2)) (drop (lens_end + 2) (n ∷ bs)) in
      let two : lens_end + 2 - lens_end ≡ 2 = omega arith in
      let at : lens_end ≡ suc (n * 10) = omega arith in
      let behind : lens_end + 2 ≡ suc (n * 10 + 2) = omega arith in
      let from_first : 1 + 0 * 8 ≡ suc 0 = refl in
      let from_lens : 1 + n * 8 + 0 * 2 ≡ suc (n * 8) = omega arith in
      let size : from_be len_bytes ≡ declared n bs =
        ap₂ (λ k i. from_be (take k (drop i (n ∷ bs)))) two at in
      let width : parity_end - (lens_end + 2) ≡ declared n bs = omega arith in
      elim (dec_lt (length (n ∷ bs)) parity_end) [
        | yes cut ↦
            rw
              (
                decode,
                ne→== (length (n ∷ bs)) 0 (omega arith),
                le→ltb (length (n ∷ bs)) (lens_end + 2) (omega arith),
                es,
                el,
                en,
                lt→ltb (length (n ∷ bs)) parity_end cut,
              )
              (parity_cut n bs refl (omega arith) (omega arith))
        | no all ↦
            rw
              (decode_of_parts n bs seqs lens len_bytes parity (omega arith) es el en (omega arith)
                (slice_lem (n ∷ bs) (lens_end + 2) parity_end (omega arith) (omega arith)))
              (whole n bs (record { member_seqs = seqs; member_lens = lens; parity = parity }) refl
                (omega arith)
                (record {
                  seqs_stand = ls;
                  lens_stand = ll ∙ ap (λ i. take (n * 2) (drop i (n ∷ bs))) from_lens;
                  parity_stands = ap₂ (λ k i. take k (drop i (n ∷ bs))) width behind;
                }))
      ]
]
