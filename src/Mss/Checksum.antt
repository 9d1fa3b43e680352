-- ===== src/Mss/Checksum.antt =====
-- src/mss.rs, the checksum's sum as a number, and what the folding of its carries keeps of it.
use mlvpn_rs.Common.{
  ℕ, zero, suc, ◌+◌, ◌*◌, ◌/◌, ◌%◌, ◌^◌, ◌≤◌, ◌<◌, ◌≡◌, ◌≢◌, ◌∙◌, ne→==, false, length-append, All,
  All-append, List, [], ◌∷◌, ◌++◌, length, ◌==◌, arith,
}
use mlvpn_rs.Common.Bytes.{AreBytes, IsByte, be_bytes}
use native.Mathlib.Decide.{dec_lt}
use mlvpn_rs.Mss.{add_words, fold_carries, internet_checksum}

-- The sum without a width.
abbrev pub words : List ℕ → ℕ
words [] = 0
words (last ∷ []) = last * 256
words (high ∷ low ∷ rest) = high * 256 + low + words rest

pub words-le : (xs : List ℕ) → AreBytes xs → words xs ≤ 65535 * length xs
words-le [] h = omega arith
words-le (last ∷ []) h = let b = h.0 in omega arith
words-le (high ∷ low ∷ rest) h = let a = h.0 in let b = h.1.0 in omega (arith, words-le rest h.1.1)

add_words_lem :
    (sum : ℕ) (xs : List ℕ) → sum + words xs < 2 ^ 32 → add_words sum xs ≡ sum + words xs
unfolding add_words
add_words_lem sum [] h = omega arith
add_words_lem sum (last ∷ []) h = omega arith
add_words_lem sum (high ∷ low ∷ rest) h =
    let s : (sum + (high * 256 + low)) % 2 ^ 32 ≡ sum + (high * 256 + low) = omega arith in
    rw s (add_words_lem (sum + (high * 256 + low)) rest (omega arith) ∙ omega arith)

-- An even number of bytes in front adds its own sum.
pub words-append :
    (k : ℕ) (front rest : List ℕ)
    → length front ≡ k + k
    → words (front ++ rest) ≡ words front + words rest
words-append zero [] rest h = omega arith
words-append zero (x ∷ front) rest h = absurd (omega arith)
words-append (suc k) [] rest h = absurd (omega arith)
words-append (suc k) (x ∷ []) rest h = absurd (omega arith)
words-append (suc k) (x ∷ y ∷ front) rest h = omega (arith, words-append k front rest (omega arith))

-- What is left of a sum differs from it by a multiple of 65535, and is 0 only for 0.
abbrev Folds : ℕ → ℕ → Type 0
Folds sum r = (q : ℕ) × (sum ≡ r + 65535 * q) × (r < 2 ^ 16) × (r ≡ 0 → sum ≡ 0)

fold_carries_done : (fuel sum : ℕ) → sum < 2 ^ 16 → Folds sum (fold_carries fuel sum)
unfolding fold_carries
fold_carries_done zero sum h = (0, omega arith, h, λ e. e)
fold_carries_done (suc fuel) sum h =
    let small : sum / 2 ^ 16 ≡ 0 = omega arith in rw small (0, omega arith, h, λ e. e)

-- One more round.
fold_carries_round :
    (fuel sum : ℕ)
    → Folds (sum % 2 ^ 16 + sum / 2 ^ 16) (fold_carries fuel (sum % 2 ^ 16 + sum / 2 ^ 16))
    → 2 ^ 16 ≤ sum
    → Folds sum (fold_carries (suc fuel) sum)
unfolding fold_carries
fold_carries_round fuel sum (q, e, lt, nonzero) h =
    let carries : (sum / 2 ^ 16 == 0) ≡ false = ne→== (sum / 2 ^ 16) 0 (omega arith) in
    rw carries (q + sum / 2 ^ 16, omega arith, lt, λ z. absurd (let o = nonzero z in omega arith))

fold_carries-Folds : (sum : ℕ) → sum < 2 ^ 32 → Folds sum (fold_carries 3 sum)
fold_carries-Folds sum h = elim (dec_lt sum (2 ^ 16)) [
  | yes small ↦ fold_carries_done 3 sum small
  | no large ↦
      let next = sum % 2 ^ 16 + sum / 2 ^ 16 in
      fold_carries_round 2 sum
        (elim (dec_lt next (2 ^ 16)) [
          | yes small ↦ fold_carries_done 2 next small
          | no carried ↦
              fold_carries_round 1 next
                (fold_carries_done 1 (next % 2 ^ 16 + next / 2 ^ 16) (omega arith)) (omega arith)
        ])
        (omega arith)
]

whole_sum : (xs : List ℕ) → words xs < 2 ^ 32 → add_words 0 xs ≡ words xs
whole_sum xs h = add_words_lem 0 xs (omega arith) ∙ omega arith

-- The checksum completes the sum to a multiple of 65535.
internet_checksum-Completes :
    (xs : List ℕ)
    → AreBytes xs
    → length xs ≤ 2 ^ 16
    → (q : ℕ) × (words xs + internet_checksum xs ≡ 65535 * (q + 1))
      × (internet_checksum xs < 2 ^ 16)
unfolding internet_checksum
internet_checksum-Completes xs h short =
    let bound = words-le xs h in
    let (q, e, lt, nonzero) = fold_carries-Folds (words xs) (omega arith) in
    rw (whole_sum xs (omega arith)) (q, omega arith, omega arith)

-- A sum that is such a multiple, and not 0, has the checksum 0.
internet_checksum_zero :
    (xs : List ℕ) (q : ℕ)
    → AreBytes xs
    → length xs ≤ 2 ^ 16
    → words xs ≡ 65535 * q
    → words xs ≢ 0
    → internet_checksum xs ≡ 0
unfolding internet_checksum
internet_checksum_zero xs q h short e nonempty =
    let bound = words-le xs h in
    let (q', e', lt, nonzero) = fold_carries-Folds (words xs) (omega arith) in
    let left : fold_carries 3 (words xs) ≢ 0 = λ z. nonempty (nonzero z) in
    rw (whole_sum xs (omega arith)) (omega arith)

All-append_parts : (P : ℕ → Type 0) (xs ys : List ℕ) → All P (xs ++ ys) → All P xs × All P ys
All-append_parts P [] ys h = (tt, h)
All-append_parts P (x ∷ xs) ys h = let (a, b) = All-append_parts P xs ys h.1 in ((h.0, a), b)

-- A checksum that is written where the sum found two zero bytes, at an even place, verifies.
pub internet_checksum_verifies :
    (k : ℕ) (front rest : List ℕ)
    → length front ≡ k + k
    → AreBytes (front ++ (0 ∷ 0 ∷ rest))
    → length (front ++ (0 ∷ 0 ∷ rest)) ≤ 2 ^ 16
    → internet_checksum
        (front ++ (be_bytes 2 (internet_checksum (front ++ (0 ∷ 0 ∷ rest))) ++ rest))
      ≡ 0
unfolding be_bytes
internet_checksum_verifies k front rest even h short =
    let c = internet_checksum (front ++ (0 ∷ 0 ∷ rest)) in
    let (q, e, lt) = internet_checksum-Completes (front ++ (0 ∷ 0 ∷ rest)) h short in
    let before = words-append k front (0 ∷ 0 ∷ rest) even in
    let after = words-append k front (c / 256 % 256 ∷ c % 256 ∷ rest) even in
    let (bytes_front, bytes_rest) = All-append_parts IsByte front (0 ∷ 0 ∷ rest) h in
    internet_checksum_zero (front ++ (c / 256 % 256 ∷ c % 256 ∷ rest)) (q + 1)
      (All-append IsByte front (c / 256 % 256 ∷ c % 256 ∷ rest) bytes_front
        (omega arith, (omega arith, bytes_rest.1.1)))
      (omega (
        arith,
        length-append front (0 ∷ 0 ∷ rest),
        length-append front (c / 256 % 256 ∷ c % 256 ∷ rest),
      ))
      (omega arith) (λ z. absurd (omega arith))
