-- ===== src/Protocol/Payloads/Names.antt =====
-- src/protocol.rs: the text fields of a fixed size of 16 bytes, `encode_name`, `encode_version` and
-- `encode_link_name`, and their readers. A `&str` is the list of its UTF-8 bytes; the readers' last
-- step, `from_utf8_lossy`, is not part of the model.
use mlvpn_rs.Common.{
  ℕ, zero, suc, ◌-◌, ◌≤◌, ◌≡◌, refl, ◌≢◌, inl, inr, Bool, true, false, ◌||◌, ◌&&◌, All-take,
  take_all, List, [], ◌∷◌, ◌++◌, ltb, leb, ◌==◌, min, length, replicate, take, get_or, arith,
  if◌then◌else◌, Option, none, some, All, length-take, length-append, length-replicate, Bool-cases,
  ne→==, ==→ne, ==→eq, ap, ◌∙◌,
}

abbrev pub field_len : ℕ
field_len = 16

-- `str::is_char_boundary`: the start, the end, and each byte that continues no character.
pub is_char_boundary : List ℕ → ℕ → Bool
is_char_boundary name end =
    end == 0
    || (end == length name
        || (ltb end (length name) && (ltb (get_or name end 0) 128 || leb 192 (get_or name end 0))))

-- `while end > 0 && !name.is_char_boundary(end) { end -= 1; }`
pub boundary_before : List ℕ → ℕ → ℕ
boundary_before name zero = zero
boundary_before name (suc end) =
    let back = boundary_before name end in if is_char_boundary name (suc end) then suc end else back

pub encode_name : List ℕ → List ℕ
encode_name name =
    let end = boundary_before name (min (length name) field_len) in
    take end name ++ replicate (field_len - end) 0

-- `.position(|&b| b == 0).unwrap_or(Self::NAME_LEN)` and the slice up to there.
pub name_str : List ℕ → List ℕ
name_str [] = []
name_str (b ∷ bs) = if b == 0 then [] else b ∷ name_str bs

-- An empty name is `None`: no primary link is selected.
pub primary_link_name_str : List ℕ → Option (List ℕ)
primary_link_name_str field = elim (name_str field) [ [] ↦ none | b ∷ bs ↦ some (b ∷ bs) ]

-- `VersionInfoPayload` repeats the code of the three functions for its own fields of 16 bytes.
abbrev pub encode_version : List ℕ → List ℕ
encode_version = encode_name

abbrev pub version_str : List ℕ → List ℕ
version_str = name_str

abbrev pub encode_link_name : List ℕ → List ℕ
encode_link_name = encode_name

boundary_before-le : (name : List ℕ) (end : ℕ) → boundary_before name end ≤ end
unfolding boundary_before
boundary_before-le name zero = omega arith
boundary_before-le name (suc end) = ground (arith, boundary_before-le name end)

boundary_before_is :
    (name : List ℕ) (end : ℕ) → is_char_boundary name (boundary_before name end) ≡ true
unfolding boundary_before
boundary_before_is name zero = unfold is_char_boundary in refl
boundary_before_is name (suc end) = ground (arith, boundary_before_is name end)

-- No boundary up to `end` lies behind the one that is found.
boundary_before_last :
    (name : List ℕ) (end i : ℕ)
    → i ≤ end
    → is_char_boundary name i ≡ true
    → i ≤ boundary_before name end
unfolding boundary_before
boundary_before_last name zero i h b = h
boundary_before_last name (suc end) i h b = elim (Bool-cases (is_char_boundary name (suc end))) [
  | inl here ↦ rw here h
  | inr past ↦ rw past (boundary_before_last name end i (earlier past) b)
]
  where
    earlier : is_char_boundary name (suc end) ≡ false → i ≤ end
    earlier past = elim (Bool-cases (i == suc end)) [
      | inl same ↦ absurd (differ (==→eq i (suc end) same) past)
      | inr other ↦ omega (arith, ==→ne i (suc end) other)
    ]
      where
        differ : i ≡ suc end → is_char_boundary name (suc end) ≡ false → ⊥
        differ e past = cc

abbrev pub IsText : List ℕ → Type 0
IsText = All (λ b. b ≢ 0)

name_str-zeros : (xs : List ℕ) (k : ℕ) → IsText xs → name_str (xs ++ replicate k 0) ≡ xs
unfolding name_str
name_str-zeros [] zero h = refl
name_str-zeros [] (suc k) h = refl
name_str-zeros (x ∷ xs) k h = rw (ne→== x 0 h.0) (ap (◌∷◌ x) (name_str-zeros xs k h.1))

-- The field is always 16 bytes long.
pub length-encode_name : (name : List ℕ) → length (encode_name name) ≡ field_len
unfolding encode_name
length-encode_name name =
    let end = boundary_before name (min (length name) field_len) in
    omega (
      arith,
      boundary_before-le name (min (length name) field_len),
      length-append (take end name) (replicate (field_len - end) 0),
      length-take end name,
      length-replicate (field_len - end) (let z : ℕ = 0 in z),
    )

-- What is read back from an encoded text without NUL bytes is the text cut at the last character
-- boundary that leaves at most 16 bytes: a boundary, and none that fits lies behind it.
pub name_str-encode_name :
    (name : List ℕ)
    → IsText name
    → (end : ℕ) × (name_str (encode_name name) ≡ take end name)
      × (end ≤ min (length name) field_len)
      × (is_char_boundary name end ≡ true)
      × ((i : ℕ) → i ≤ min (length name) field_len → is_char_boundary name i ≡ true → i ≤ end)
unfolding encode_name
name_str-encode_name name text =
    let most = min (length name) field_len in
    let end = boundary_before name most in
    (
      end,
      name_str-zeros (take end name) (field_len - end) (All-take (λ b. b ≢ 0) end name text),
      boundary_before-le name most,
      boundary_before_is name most,
      boundary_before_last name most,
    )

-- A text of at most 16 bytes comes back whole.
pub name_str-encode_name_short :
    (name : List ℕ) → IsText name → length name ≤ field_len → name_str (encode_name name) ≡ name
name_str-encode_name_short name text short =
    let (end, read, le, is, last) = name_str-encode_name name text in
    read ∙ take_all end name (last (length name) (omega arith) (at_end name))
  where
    at_end : (name : List ℕ) → is_char_boundary name (length name) ≡ true
    at_end name = unfold is_char_boundary in ground arith
