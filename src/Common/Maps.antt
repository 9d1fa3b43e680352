-- ===== src/Common/Maps.antt =====
-- Hash maps and hash sets with integer keys, as lists: a map holds a key once, a set an element once.
-- The order of the list stands for the table's order of iteration.
use mathlib.Core.Path.{◌≡◌, refl}
use mathlib.Core.List.{List, [], ◌∷◌}
use mathlib.Core.Option.{Option, none, some}
use mathlib.Core.Bool.{Bool, true, false, ◌||◌}
use mathlib.Core.Logic.{inl, inr}
use Prim.Native.Nat.{ℕ}
use native.Mathlib.Omega.{arith}
use mlvpn_rs.Common.Tests.{◌==◌, if◌then◌else◌, ==→eq, Bool-cases}

module _ {ℓ} {V : Type ℓ} where
  -- `HashMap::get`
  unfoldable pub lookup : ℕ → List (ℕ × V) → Option V
  lookup wanted [] = none
  lookup wanted ((key, value) ∷ rest) = if key == wanted then some value else lookup wanted rest

  unfoldable pub contains_key : ℕ → List (ℕ × V) → Bool
  contains_key wanted table = elim (lookup wanted table) [ none ↦ false | some value ↦ true ]

  unfoldable pub remove : ℕ → List (ℕ × V) → List (ℕ × V)
  remove old [] = []
  remove old ((key, value) ∷ rest) =
      if key == old then remove old rest else (key, value) ∷ remove old rest

  -- The value under a key is replaced; a new key goes to the end.
  unfoldable pub insert : ℕ → V → List (ℕ × V) → List (ℕ × V)
  insert new value [] = (new, value) ∷ []
  insert new value ((key, was) ∷ rest) =
      if key == new then (new, value) ∷ rest else (key, was) ∷ insert new value rest

  pub lookup-insert :
      (key wanted : ℕ) (value : V) (table : List (ℕ × V))
      → lookup wanted (insert key value table)
        ≡ (if key == wanted then some value else lookup wanted table)
  unfolding insert lookup
  lookup-insert key wanted value ((other, was) ∷ rest) =
      ground (arith, lookup-insert key wanted value rest)
  lookup-insert key wanted value [] = refl

  pub lookup-remove :
      (k j : ℕ) (m : List (ℕ × V)) → lookup j (remove k m) ≡ (if k == j then none else lookup j m)
  unfolding lookup remove
  lookup-remove k j [] = ground arith
  lookup-remove k j ((i, w) ∷ m) = ground (arith, lookup-remove k j m)

  pub contains_key-some :
      (k : ℕ) {v : V} (m : List (ℕ × V)) → lookup k m ≡ some v → contains_key k m ≡ true
  unfolding contains_key
  contains_key-some k m h = ground arith

unfoldable pub contains : List ℕ → ℕ → Bool
contains [] a = false
contains (x ∷ xs) a = x == a || contains xs a

-- `HashSet::insert`
unfoldable pub set_insert : ℕ → List ℕ → List ℕ
set_insert a xs = if contains xs a then xs else a ∷ xs

pub contains-set_insert :
    (a b : ℕ) (xs : List ℕ) → contains (set_insert a xs) b ≡ (a == b || contains xs b)
unfolding set_insert contains
contains-set_insert a b xs = elim (Bool-cases (contains xs a)) [
  | inr new ↦ rw new refl
  | inl old ↦ rw old (elim (Bool-cases (a == b)) [
    | inl same ↦ rw same (present a b xs old (==→eq a b same))
    | inr other ↦ rw other refl
  ])
]
  where
    present : (a b : ℕ) (xs : List ℕ) → contains xs a ≡ true → a ≡ b → contains xs b ≡ true
    present a b xs h e = cc
