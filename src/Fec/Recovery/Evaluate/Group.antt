-- ===== src/Fec/Recovery/Evaluate/Group.antt =====
-- A group as the buffer knows it: which of its members are at hand, and which are missing.
use mlvpn_rs.Common.{
  ℕ, ◌+◌, ◌≤◌, ◌<◌, ◌≡◌, refl, ap, ◌∙◌, ◌⊎◌, inl, inr, true, false, List, [], ◌∷◌, arith, some,
  ==_refl, ne→==,
}
use mlvpn_rs.Common.Maps.{contains, lookup, contains_key-some}
use mlvpn_rs.Fec.Recovery.State.{FecRecoveryBuffer, known, missing, member_state}
use mlvpn_rs.Fec.Recovery.Evaluate.{classify}
use mlvpn_rs.Fec.Recovery.Evaluate.Subtract.{Held}

-- The buffer keeps this plaintext under this sequence number.
abbrev pub Kept : FecRecoveryBuffer → ℕ → List ℕ → Type 0
Kept b seq m = (at : ℕ) × (lookup seq b.payloads ≡ some (record { at = at; bytes = m }))

-- The members with these sequence numbers and plaintexts, from position `i` on: those at the
-- positions `miss` are missing, and the buffer keeps the others.
abbrev pub Group : FecRecoveryBuffer → ℕ → List ℕ → List (List ℕ) → List ℕ → Type 0
Group b i [] [] miss = miss ≡ []
Group b i [] (m ∷ ms) miss = ⊥
Group b i (seq ∷ seqs) [] miss = ⊥
Group b i (seq ∷ seqs) (m ∷ ms) miss =
    (Kept b seq m × Group b (i + 1) seqs ms miss)
    ⊎ ((rest : List ℕ) × (miss ≡ i ∷ rest)
        × (member_state b seq ≡ missing)
        × Group b (i + 1) seqs ms rest)

known_of_Kept :
    (b : FecRecoveryBuffer) (seq : ℕ) (m : List ℕ) → Kept b seq m → member_state b seq ≡ known
unfolding member_state
known_of_Kept b seq m (at, l) = rw (contains_key-some seq b.payloads l) refl

pub classify-Group :
    (b : FecRecoveryBuffer) (i : ℕ) (seqs : List ℕ) (ms : List (List ℕ)) (miss : List ℕ)
    → Group b i seqs ms miss
    → classify b i seqs ≡ (miss, 0)
unfolding classify
classify-Group b i [] [] miss g = rw g refl
classify-Group b i [] (m ∷ ms) miss g = elim g [ ]
classify-Group b i (seq ∷ seqs) [] miss g = elim g [ ]
classify-Group b i (seq ∷ seqs) (m ∷ ms) miss (inl (k, g)) =
    rw (known_of_Kept b seq m k, classify) (classify-Group b (i + 1) seqs ms miss g)
classify-Group b i (seq ∷ seqs) (m ∷ ms) miss (inr (rest, e, s, g)) =
    rw (s, classify, classify-Group b (i + 1) seqs ms rest g, e) refl

-- No position before `i` is among the missing ones.
before :
    (b : FecRecoveryBuffer) (i : ℕ) (seqs : List ℕ) (ms : List (List ℕ)) (miss : List ℕ)
    → Group b i seqs ms miss
    → (k : ℕ) → k < i
    → contains miss k ≡ false
unfolding contains
before b i [] [] miss g k h = rw g refl
before b i [] (m ∷ ms) miss g k h = elim g [ ]
before b i (seq ∷ seqs) [] miss g k h = elim g [ ]
before b i (seq ∷ seqs) (m ∷ ms) miss (inl (p, g)) k h =
    before b (i + 1) seqs ms miss g k (omega arith)
before b i (seq ∷ seqs) (m ∷ ms) miss (inr (rest, e, s, g)) k h =
    rw (e, ne→== i k (omega arith)) (before b (i + 1) seqs ms rest g k (omega arith))

first_contained : (i : ℕ) (rest : List ℕ) → contains (i ∷ rest) i ≡ true
unfolding contains
first_contained i rest = rw (==_refl i) refl

later_contained : (i k : ℕ) (rest : List ℕ) → i + 1 ≤ k → contains (i ∷ rest) k ≡ contains rest k
unfolding contains
later_contained i k rest h = rw (ne→== i k (omega arith)) refl

pub Group-Held :
    (b : FecRecoveryBuffer) (all : List ℕ) (i : ℕ) (seqs : List ℕ) (ms : List (List ℕ))
    (miss : List ℕ)
    → Group b i seqs ms miss
    → ((k : ℕ) → i ≤ k → contains all k ≡ contains miss k)
    → Held b all i seqs ms
Group-Held b all i [] [] miss g same = tt
Group-Held b all i [] (m ∷ ms) miss g same = elim g [ ]
Group-Held b all i (seq ∷ seqs) [] miss g same = elim g [ ]
Group-Held b all i (seq ∷ seqs) (m ∷ ms) miss (inl (k, g)) same = (
  inr (same i (omega arith) ∙ before b (i + 1) seqs ms miss g i (omega arith), k),
  Group-Held b all (i + 1) seqs ms miss g (λ k h. same k (omega arith)),
)
Group-Held b all i (seq ∷ seqs) (m ∷ ms) miss (inr (rest, e, s, g)) same = (
  inl (same i (omega arith) ∙ ap (λ l. contains l i) e ∙ first_contained i rest),
  Group-Held b all (i + 1) seqs ms rest g
      (λ k h. same k (omega arith) ∙ ap (λ l. contains l k) e ∙ later_contained i k rest h),
)
