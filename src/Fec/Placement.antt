-- ===== src/Fec/Placement.antt =====
-- src/fec.rs, `choose_parity_link`: on which link the parity of a group is sent.
pub mod Counts
pub mod Beats
use mlvpn_rs.Common.{
  ℕ, zero, suc, ◌+◌, ◌-◌, ◌≤◌, ◌<◌, ◌≡◌, refl, sym, ap, ◌∙◌, ◌≢◌, ◌⊎◌, inl, inr, Bool, true, false,
  ◌&&◌, ◌||◌, List, [], ◌∷◌, arith, tests, max, min, length, ltb, ◌==◌, if◌then◌else◌, get_or, set,
  length-set, replicate, length-replicate, Option, none, some, Bool-cases, Option-cases, subst,
  ==_refl, ne→==, ==→eq, ==→ne, ltb→lt, ltb→le, lt→ltb,
}
use native.Mathlib.Decide.{ℕ_discrete}
use mlvpn_rs.Common.Maps.{contains}

-- `config::FecParityPlacement`
pub data FecParityPlacement : Type 0 where
  by_scheduler dominant diverse : FecParityPlacement

-- The loop over the members; a link out of range is passed over.
unfoldable pub count_members : List ℕ → List ℕ → List ℕ
count_members counts [] = counts
count_members counts (l ∷ links) =
    count_members (if ltb l (length counts) then set counts l (get_or counts l 0 + 1) else counts)
      links

-- The usable links from `i` on.
unfoldable pub candidates : ℕ → List Bool → List ℕ
candidates i [] = []
candidates i (usable ∷ rest) =
    let later = candidates (i + 1) rest in if usable then i ∷ later else later

-- `candidates().map(|i| counts[i]).max()`, or `min()`
unfoldable pub best_of : (ℕ → ℕ → ℕ) → List ℕ → List ℕ → Option ℕ
best_of pick counts [] = none
best_of pick counts (i ∷ is) = elim (best_of pick counts is) [
  | none ↦ some (get_or counts i 0)
  | some best ↦ some (pick (get_or counts i 0) best)
]

-- `candidates().filter(|&i| counts[i] == best)`
unfoldable pub hits : List ℕ → ℕ → List ℕ → List ℕ
hits counts best [] = []
hits counts best (i ∷ is) =
    let later = hits counts best is in if get_or counts i 0 == best then i ∷ later else later

-- The first hit, if there is no second one.
unfoldable pub only_hit : List ℕ → Option ℕ
only_hit [] = none
only_hit (i ∷ []) = some i
only_hit (i ∷ j ∷ is) = none

unfoldable pub choose_by_count : FecParityPlacement → List ℕ → List ℕ → Option ℕ
choose_by_count by_scheduler counts links = none
choose_by_count dominant counts links = elim (best_of max counts links) [
  | none ↦ none
  | some best ↦ if best == 0 then none else only_hit (hits counts best links)
]
choose_by_count diverse counts links = elim (best_of min counts links) [
  | none ↦ none
  | some best ↦ only_hit (hits counts best links)
]

unfoldable pub choose_parity_link : FecParityPlacement → List ℕ → List Bool → Option ℕ
choose_parity_link placement member_links usable =
    choose_by_count placement (count_members (replicate (length usable) 0) member_links)
      (candidates 0 usable)
