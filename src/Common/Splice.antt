-- ===== src/Common/Splice.antt =====
-- Bytes written over a part of a buffer: `buf[i..i + n].copy_from_slice(bytes)`.
use mathlib.Core.List.{append_assoc}
use mlvpn_rs.Common.Tests.{leb, le→leb, if◌then◌else◌}
use mlvpn_rs.Common.Lists.{
  length, take, drop, length-append, length-take, length-drop, take-append-drop, take-append,
  drop-append, All-append, All-take, All-drop,
}
use mlvpn_rs.Common.Outcome.{Result, ok, err, panic}
use mlvpn_rs.Common.Bytes.{AreBytes, byte_at}
use Prim.Native.Nat.{ℕ, zero, suc, ◌+◌, ◌-◌, ◌≤◌, ◌<◌}
use mathlib.Core.Path.{◌≡◌, refl, sym, ap, ◌∙◌}
use native.Mathlib.Decide.{dec_lt}
use mathlib.Core.Logic.{◌≢◌}
use mathlib.Core.List.{List, [], ◌∷◌, ◌++◌}
use native.Mathlib.Omega.{arith}

abbrev pub splice : List ℕ → ℕ → List ℕ → List ℕ
splice buf i bytes = take i buf ++ (bytes ++ drop (i + length bytes) buf)

-- The copy panics where the part does not lie in the buffer.
unfoldable pub copy_into : List ℕ → ℕ → List ℕ → Result (List ℕ)
copy_into buf i bytes =
    if leb (i + length bytes) (length buf) then ok (splice buf i bytes) else err panic

pub copy_into_lem :
    (buf : List ℕ) (i : ℕ) (bytes : List ℕ)
    → i + length bytes ≤ length buf
    → copy_into buf i bytes ≡ ok (splice buf i bytes)
unfolding copy_into
copy_into_lem buf i bytes h = rw (le→leb (i + length bytes) (length buf) h)

pub length-splice :
    (buf : List ℕ) (i : ℕ) (bytes : List ℕ)
    → i + length bytes ≤ length buf
    → length (splice buf i bytes) ≡ length buf
length-splice buf i bytes h = omega (
  arith,
  length-append (take i buf) (bytes ++ drop (i + length bytes) buf),
  length-append bytes (drop (i + length bytes) buf),
  length-take i buf,
  length-drop (i + length bytes) buf,
)

byte_at-append_past : (xs ys : List ℕ) (j : ℕ) → byte_at (xs ++ ys) (length xs + j) ≡ byte_at ys j
byte_at-append_past [] ys j = ap (byte_at ys) (omega arith)
byte_at-append_past (x ∷ xs) ys j =
    let s : suc (length xs) + j ≡ suc (length xs + j) = omega arith in
    rw s (byte_at-append_past xs ys j)

byte_at-append_within :
    (xs ys : List ℕ) (j : ℕ) → j < length xs → byte_at (xs ++ ys) j ≡ byte_at xs j
byte_at-append_within [] ys j h = absurd (omega arith)
byte_at-append_within (x ∷ xs) ys zero h = refl
byte_at-append_within (x ∷ xs) ys (suc j) h = byte_at-append_within xs ys j (omega arith)

byte_at-drop : (n : ℕ) (xs : List ℕ) (j : ℕ) → byte_at (drop n xs) j ≡ byte_at xs (n + j)
byte_at-drop zero xs j = ap (byte_at xs) (omega arith)
byte_at-drop (suc n) [] j = refl
byte_at-drop (suc n) (x ∷ xs) j =
    let s : suc n + j ≡ suc (n + j) = omega arith in rw s (byte_at-drop n xs j)

byte_at-take : (n : ℕ) (xs : List ℕ) (j : ℕ) → j < n → byte_at (take n xs) j ≡ byte_at xs j
byte_at-take zero xs j h = absurd (omega arith)
byte_at-take (suc n) [] j h = refl
byte_at-take (suc n) (x ∷ xs) zero h = refl
byte_at-take (suc n) (x ∷ xs) (suc j) h = byte_at-take n xs j (omega arith)

module _ (buf : List ℕ) (i : ℕ) (bytes : List ℕ) (fits : i + length bytes ≤ length buf) where
  taken : length (take i buf) ≡ i
  taken = omega (arith, length-take i buf, fits)

  -- Bytes before and behind the part stay.
  pub splice_before : (j : ℕ) → j < i → byte_at (splice buf i bytes) j ≡ byte_at buf j
  splice_before j h =
      byte_at-append_within (take i buf) (bytes ++ drop (i + length bytes) buf) j
        (omega (arith, taken))
      ∙ byte_at-take i buf j h

  pub splice_behind :
      (j : ℕ) → i + length bytes ≤ j → byte_at (splice buf i bytes) j ≡ byte_at buf j
  splice_behind j h =
      let n : j ≡ length (take i buf) + (length bytes + (j - (i + length bytes))) =
        omega (arith, taken, h) in
      let m : i + length bytes + (j - (i + length bytes)) ≡ j = omega (arith, h) in
      ap (byte_at (splice buf i bytes)) n
      ∙ byte_at-append_past (take i buf) (bytes ++ drop (i + length bytes) buf)
          (length bytes + (j - (i + length bytes)))
      ∙ byte_at-append_past bytes (drop (i + length bytes) buf) (j - (i + length bytes))
      ∙ byte_at-drop (i + length bytes) buf (j - (i + length bytes))
      ∙ ap (byte_at buf) m

  -- In the part stand the bytes that were written.
  pub splice_inside :
      (j : ℕ) → j < length bytes → byte_at (splice buf i bytes) (i + j) ≡ byte_at bytes j
  splice_inside j h =
      let n : i + j ≡ length (take i buf) + j = omega (arith, taken) in
      ap (byte_at (splice buf i bytes)) n
      ∙ byte_at-append_past (take i buf) (bytes ++ drop (i + length bytes) buf) j
      ∙ byte_at-append_within bytes (drop (i + length bytes) buf) j h

-- Two bytes that are written leave all others.
pub splice_two :
    (buf : List ℕ) (i : ℕ) (bytes : List ℕ) (j : ℕ)
    → length bytes ≡ 2
    → i + 2 ≤ length buf
    → j ≢ i
    → j ≢ i + 1
    → byte_at (splice buf i bytes) j ≡ byte_at buf j
splice_two buf i bytes j two fits ne0 ne1 =
    let room : i + length bytes ≤ length buf = omega (arith, two, fits) in
    elim (dec_lt j i) [
      | yes before ↦ splice_before buf i bytes room j before
      | no behind ↦ splice_behind buf i bytes room j (omega arith)
    ]

pub splice-AreBytes :
    (buf : List ℕ) (i : ℕ) (bytes : List ℕ)
    → AreBytes buf
    → AreBytes bytes
    → AreBytes (splice buf i bytes)
splice-AreBytes buf i bytes hb hs =
    All-append (λ b. b < 256) (take i buf) (bytes ++ drop (i + length bytes) buf)
      (All-take (λ b. b < 256) i buf hb)
      (All-append (λ b. b < 256) bytes (drop (i + length bytes) buf) hs
        (All-drop (λ b. b < 256) (i + length bytes) buf hb))

-- A part behind the first `k` bytes is one of the rest.
pub drop-splice :
    (k : ℕ) (buf : List ℕ) (i : ℕ) (bytes : List ℕ)
    → k ≤ length buf
    → drop k (splice buf (k + i) bytes) ≡ splice (drop k buf) i bytes
drop-splice zero buf i bytes h = let s : 0 + i ≡ i = omega arith in rw s refl
drop-splice (suc k) [] i bytes h = absurd (omega arith)
drop-splice (suc k) (x ∷ buf) i bytes h =
    let s : suc k + i ≡ suc (k + i) = omega arith in
    let t : suc k + i + length bytes ≡ suc (k + i + length bytes) = omega arith in
    let u : suc (k + i) + length bytes ≡ suc (k + i + length bytes) = omega arith in
    rw (s, u) (drop-splice k buf i bytes (omega arith))

-- What lies before the part, taken out whole.
pub take-splice :
    (k : ℕ) (buf : List ℕ) (i : ℕ) (bytes : List ℕ)
    → k ≤ i
    → k ≤ length buf
    → take k (splice buf i bytes) ≡ take k buf
take-splice zero buf i bytes h l = refl
take-splice (suc k) [] i bytes h l = absurd (omega arith)
take-splice (suc k) (x ∷ buf) zero bytes h l = absurd (omega arith)
take-splice (suc k) (x ∷ buf) (suc i) bytes h l =
    let u : suc i + length bytes ≡ suc (i + length bytes) = omega arith in
    rw u (ap (◌∷◌ x) (take-splice k buf i bytes (omega arith) (omega arith)))

-- A part behind what stands in front.
pub splice-append :
    (front buf : List ℕ) (i : ℕ) (bytes : List ℕ)
    → splice (front ++ buf) (length front + i) bytes ≡ front ++ splice buf i bytes
splice-append [] buf i bytes = let s : 0 + i ≡ i = omega arith in rw s refl
splice-append (x ∷ front) buf i bytes =
    let s : suc (length front) + i ≡ suc (length front + i) = omega arith in
    let t : suc (length front + i) + length bytes ≡ suc (length front + i + length bytes) =
      omega arith in
    rw (s, t) (ap (◌∷◌ x) (splice-append front buf i bytes))

take_none : (n : ℕ) → take {A = ℕ} n [] ≡ []
take_none zero = refl
take_none (suc n) = refl

drop_none : (n : ℕ) → drop {A = ℕ} n [] ≡ []
drop_none zero = refl
drop_none (suc n) = refl

take-drop : (w a : ℕ) (xs : List ℕ) → take w (drop a xs) ≡ drop a (take (a + w) xs)
take-drop w zero xs = ap (λ k. take k xs) (omega arith)
take-drop w (suc a) [] =
    take_none w ∙ sym (drop_none (suc a)) ∙ ap (drop (suc a)) (sym (take_none (suc a + w)))
take-drop w (suc a) (x ∷ xs) =
    let s : suc a + w ≡ suc (a + w) = omega arith in rw s (take-drop w a xs)

-- A window before the part stays.
pub window_before :
    (w a : ℕ) (buf : List ℕ) (i : ℕ) (bytes : List ℕ)
    → a + w ≤ i
    → i ≤ length buf
    → take w (drop a (splice buf i bytes)) ≡ take w (drop a buf)
window_before w a buf i bytes h l =
    take-drop w a (splice buf i bytes)
    ∙ ap (drop a) (take-splice (a + w) buf i bytes h (omega arith))
    ∙ sym (take-drop w a buf)

drop-drop : (a b : ℕ) (xs : List ℕ) → drop a (drop b xs) ≡ drop (b + a) xs
drop-drop a zero xs = ap (λ k. drop k xs) (omega arith)
drop-drop a (suc b) [] = drop_none a ∙ sym (drop_none (suc b + a))
drop-drop a (suc b) (x ∷ xs) =
    let s : suc b + a ≡ suc (b + a) = omega arith in rw s (drop-drop a b xs)

-- What lies behind the part stays.
pub drop_behind :
    (a : ℕ) (buf : List ℕ) (i : ℕ) (bytes : List ℕ)
    → i + length bytes ≤ a
    → i ≤ length buf
    → drop a (splice buf i bytes) ≡ drop a buf
drop_behind a buf i bytes h l =
    let front = take i buf ++ bytes in
    let long : length front ≡ i + length bytes =
      omega (arith, length-append (take i buf) bytes, length-take i buf) in
    let back : i + length bytes + (a - (i + length bytes)) ≡ a = omega (arith, h) in
    ap (drop a) (sym (append_assoc (take i buf) bytes (drop (i + length bytes) buf)))
    ∙ ap (λ k. drop k (front ++ drop (i + length bytes) buf)) (sym back)
    ∙ sym (
        drop-drop (a - (i + length bytes)) (i + length bytes)
          (front ++ drop (i + length bytes) buf))
    ∙ ap (drop (a - (i + length bytes)))
        (drop-append (i + length bytes) front (drop (i + length bytes) buf) long)
    ∙ drop-drop (a - (i + length bytes)) (i + length bytes) buf
    ∙ ap (λ k. drop k buf) back

-- The part itself.
pub window_inside :
    (buf : List ℕ) (i : ℕ) (bytes : List ℕ)
    → i ≤ length buf
    → take (length bytes) (drop i (splice buf i bytes)) ≡ bytes
window_inside buf i bytes h =
    ap (take (length bytes)) (
      drop-append i (take i buf) (bytes ++ drop (i + length bytes) buf)
        (omega (arith, length-take i buf)))
    ∙ take-append (length bytes) bytes (drop (i + length bytes) buf) refl

drop-take : (l n : ℕ) (xs : List ℕ) → l ≤ n → drop l (take n xs) ++ drop n xs ≡ drop l xs
drop-take zero n xs h = take-append-drop n xs
drop-take (suc l) zero xs h = absurd (omega arith)
drop-take (suc l) (suc n) [] h = refl
drop-take (suc l) (suc n) (x ∷ xs) h = drop-take l n xs (omega arith)

take-take : (i n : ℕ) (xs : List ℕ) → i ≤ n → take i (take n xs) ≡ take i xs
take-take zero n xs h = refl
take-take (suc i) zero xs h = absurd (omega arith)
take-take (suc i) (suc n) [] h = refl
take-take (suc i) (suc n) (x ∷ xs) h = ap (◌∷◌ x) (take-take i n xs (omega arith))

take_plus : (a b : ℕ) (xs : List ℕ) → take a xs ++ take b (drop a xs) ≡ take (a + b) xs
take_plus zero b xs = ap (λ k. take k xs) (omega arith)
take_plus (suc a) b [] = take_none b ∙ sym (take_none (suc a + b))
take_plus (suc a) b (x ∷ xs) =
    let s : suc a + b ≡ suc (a + b) = omega arith in rw s (ap (◌∷◌ x) (take_plus a b xs))

-- A part of a part, written back.
pub splice-splice :
    (buf : List ℕ) (start n i : ℕ) (bytes : List ℕ)
    → i + length bytes ≤ n
    → start + n ≤ length buf
    → splice buf start (splice (take n (drop start buf)) i bytes) ≡ splice buf (start + i) bytes
splice-splice buf start n i bytes h l =
    let inner = take n (drop start buf) in
    let many : length inner ≡ n =
      omega (arith, length-take n (drop start buf), length-drop start buf) in
    let written = length-splice inner i bytes (omega arith) in
    let same : length (splice inner i bytes) ≡ n = omega (arith, written, many) in
    let rest : drop (i + length bytes) inner ++ drop (start + n) buf
        ≡ drop (start + i + length bytes) buf =
      ap (◌++◌ (drop (i + length bytes) inner)) (sym (drop-drop n start buf))
      ∙ drop-take (i + length bytes) n (drop start buf) h
      ∙ drop-drop (i + length bytes) start buf
      ∙ ap (λ k. drop k buf) (omega arith) in
    rw
      (
        same,
        append_assoc (take i inner) (bytes ++ drop (i + length bytes) inner) (drop (start + n) buf),
        append_assoc bytes (drop (i + length bytes) inner) (drop (start + n) buf),
        rest,
        take-take i n (drop start buf) (omega arith),
        ← take_plus start i buf,
        append_assoc (take start buf) (take i (drop start buf)),
      )
      refl
