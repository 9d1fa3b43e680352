-- ===== src/Common/Outcome.antt =====
-- Rust's `Result<_, MlvpnError>` (src/error.rs) with a case of its own for a panic: an index or a
-- slice out of range.
use Prim.Native.Nat.{ℕ, ◌-◌, ◌≤◌, ◌<◌}
use mathlib.Core.Path.{◌≡◌, refl, ap}
use mathlib.Core.Logic.{◌⊎◌, inl, inr}
use native.Mathlib.Nat.{le_refl}
use native.Mathlib.Omega.{arith}
use mathlib.Core.Bool.{Bool, true, false, ◌&&◌}
use mathlib.Core.Option.{none, some}
use mathlib.Core.List.{List}
use mlvpn_rs.Common.Tests.{leb, le→leb, if◌then◌else◌}
use mlvpn_rs.Common.Lists.{
  length, get_elem?, get_or, get_elem?-lt, take, drop, take_all, length-drop,
}

-- The reason of a `MlvpnError::Protocol`; `panic` is no error value of the source.
pub data Error : Type 0 where
  too_short : Error
  bad_magic : Error
  unsupported_version : ℕ → Error
  unknown_packet_type : ℕ → Error
  too_short_for_group : Error
  too_short_for_parity : Error
  panic : Error

-- A value, or the error that stops the computation.
pub data Result {ℓ} (T : Type ℓ) : Type ℓ where
  err : Error → Result T
  ok : T → Result T

-- `r?` with what follows it, and without its value.
infixl 5 ◌>>=◌
abbrev pub ◌>>=◌ {ℓ₁ ℓ₂} : {T : Type ℓ₁} {U : Type ℓ₂} → Result T → (T → Result U) → Result U
err reason >>= next = err reason
ok value >>= next = next value

infixl 5 ◌>>◌
abbrev pub ◌>>◌ {ℓ₁} : {U : Type ℓ₁} → Result (Unit {0}) → Result U → Result U
check >> next = check >>= λ passed. next

-- `if c { return Err(e) }`
abbrev pub refuse_if : Bool → Error → Result (Unit {0})
refuse_if true e = err e
refuse_if false e = ok tt

-- `buf[i]`
unfoldable pub index : List ℕ → ℕ → Result ℕ
index xs i = elim (get_elem? xs i) [ none ↦ err panic | some b ↦ ok b ]

-- `&buf[i..j]`
unfoldable pub slice : List ℕ → ℕ → ℕ → Result (List ℕ)
slice xs i j = if leb i j && leb j (length xs) then ok (take (j - i) (drop i xs)) else err panic

pub index_lem : (xs : List ℕ) (i : ℕ) → i < length xs → index xs i ≡ ok (get_or xs i 0)
unfolding index
index_lem xs i h = rw (get_elem?-lt 0 xs i h, index)

pub slice_lem :
    (xs : List ℕ) (i j : ℕ) → i ≤ j → j ≤ length xs → slice xs i j ≡ ok (take (j - i) (drop i xs))
unfolding slice
slice_lem xs i j h k = rw (le→leb i j h, le→leb j (length xs) k)

-- `&buf[i..]`
pub slice_to_end : (xs : List ℕ) (i : ℕ) → i ≤ length xs → slice xs i (length xs) ≡ ok (drop i xs)
slice_to_end xs i h =
    rw (slice_lem xs i (length xs) h (le_refl _))
      (ap ok (take_all (length xs - i) (drop i xs) (omega (arith, length-drop i xs))))

pub slice-ne-panic :
    (xs : List ℕ) (i j : ℕ) → i ≤ j → j ≤ length xs → (r : List ℕ) × (slice xs i j ≡ ok r)
slice-ne-panic xs i j h k = (take (j - i) (drop i xs), slice_lem xs i j h k)

pub >>=-eq-ok {ℓ₁ ℓ₂} :
    {T : Type ℓ₁} {U : Type ℓ₂} (r : Result T) (next : T → Result U) {u : U}
    → (r >>= next) ≡ ok u
    → (t : T) × (r ≡ ok t) × (next t ≡ ok u)
>>=-eq-ok (err reason) next h = cc
>>=-eq-ok (ok t) next h = (t, refl, h)

pub Result-cases {ℓ} :
    {T : Type ℓ} (r : Result T) → ((t : T) × (r ≡ ok t)) ⊎ ((e : Error) × (r ≡ err e))
Result-cases (err e) = inr (e, refl)
Result-cases (ok t) = inl (t, refl)
