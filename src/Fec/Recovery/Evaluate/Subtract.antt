-- ===== src/Fec/Recovery/Evaluate/Subtract.antt =====
-- `sub_known` leaves in each share the sum over the missing members.
use mlvpn_rs.Common.{
  ℕ, ◌+◌, ◌≤◌, ◌≡◌, refl, ap, ◌∙◌, ◌⊎◌, inl, inr, true, false, List, [], ◌∷◌, arith, length, All,
  Option, none, some, le→ltb,
}
use mlvpn_rs.Common.Maps.{contains, lookup}
use mlvpn_rs.Common.Bytes.{AreBytes, byte_at}
use mlvpn_rs.Common.Xor.{bit_xor}
use mlvpn_rs.Fec.Gf.{mul_acc, pow2}
use mlvpn_rs.Fec.Gf.Field.{pow2-range}
use mlvpn_rs.Fec.Gf.Slices.{length-mul_acc, byte_at-mul_acc}
use mlvpn_rs.Fec.Sender.{xor_into}
use mlvpn_rs.Fec.Sender.Columns.{length-xor_into, byte_at-xor_into}
use mlvpn_rs.Fec.Sums.{plain, weighted, sum}
use mlvpn_rs.Fec.Recovery.State.{FecRecoveryBuffer}
use mlvpn_rs.Fec.Recovery.Evaluate.{sub_known, sub_p, sub_q}
use mlvpn_rs.Fec.Recovery.Evaluate.Missing.{miss_sum, move_known, move_missing}

-- `share'` is `share` less the members from position `i` on that are not missing.
pub record Reduced (c : ℕ → ℕ → ℕ) (miss : List ℕ) (i : ℕ) (ms : List (List ℕ))
    (share share' : List ℕ) : Type 0 where
  pub same_width : length share' ≡ length share
  pub column :
      (j : ℕ)
      → bit_xor (byte_at share' j) (sum c i ms j)
        ≡ bit_xor (byte_at share j) (miss_sum c miss i ms j)

abbrev pub ReducedOption :
    (ℕ → ℕ → ℕ) → List ℕ → ℕ → List (List ℕ) → Option (List ℕ) → Option (List ℕ) → Type 0
ReducedOption c miss i ms none none = Unit {0}
ReducedOption c miss i ms none (some y) = ⊥
ReducedOption c miss i ms (some x) none = ⊥
ReducedOption c miss i ms (some x) (some y) = Reduced c miss i ms x y

-- The members from position `i` on: each is missing, or its payload is at hand.
abbrev pub Held : FecRecoveryBuffer → List ℕ → ℕ → List ℕ → List (List ℕ) → Type 0
Held b miss i [] [] = Unit {0}
Held b miss i [] (m ∷ ms) = ⊥
Held b miss i (seq ∷ seqs) [] = ⊥
Held b miss i (seq ∷ seqs) (m ∷ ms) =
    ((contains miss i ≡ true)
      ⊎ ((contains miss i ≡ false)
          × ((at : ℕ) × (lookup seq b.payloads ≡ some (record { at = at; bytes = m })))))
    × Held b miss (i + 1) seqs ms

unfoldable pub Fits : ℕ → Option (List ℕ) → Type 0
Fits width none = Unit {0}
Fits width (some x) = length x ≡ width

module _ (c : ℕ → ℕ → ℕ) (miss : List ℕ) (i : ℕ) (m : List ℕ) (ms : List (List ℕ)) where
  reduce_missing :
      (x y : List ℕ)
      → contains miss i ≡ true
      → Reduced c miss (i + 1) ms x y
      → Reduced c miss i (m ∷ ms) x y
  unfolding sum miss_sum
  reduce_missing x y e r = record {
    same_width = r.same_width;
    column = λ j. rw e (
        move_missing (byte_at y j) (c i (byte_at m j)) (sum c (i + 1) ms j) (byte_at x j)
          (miss_sum c miss (i + 1) ms j) (r.column j));
  }

  reduce_known :
      (x x' y : List ℕ)
      → contains miss i ≡ false
      → length x' ≡ length x
      → ((j : ℕ) → byte_at x' j ≡ bit_xor (byte_at x j) (c i (byte_at m j)))
      → Reduced c miss (i + 1) ms x' y
      → Reduced c miss i (m ∷ ms) x y
  unfolding sum miss_sum
  reduce_known x x' y e l h r = record {
    same_width = r.same_width ∙ l;
    column = λ j. rw e (
        move_known (byte_at y j) (c i (byte_at m j)) (sum c (i + 1) ms j) (byte_at x j)
          (miss_sum c miss (i + 1) ms j)
          (r.column j ∙ ap (λ z. bit_xor z (miss_sum c miss (i + 1) ms j)) (h j)));
  }

module _ (miss : List ℕ) (i width : ℕ) (m : List ℕ) (ms : List (List ℕ)) where
  missing_option :
      (c : ℕ → ℕ → ℕ) (x y : Option (List ℕ))
      → contains miss i ≡ true
      → ReducedOption c miss (i + 1) ms x y
      → ReducedOption c miss i (m ∷ ms) x y
  missing_option c none none e r = r
  missing_option c none (some y) e r = r
  missing_option c (some x) none e r = r
  missing_option c (some x) (some y) e r = reduce_missing c miss i m ms x y e r

  p_option :
      (x y : Option (List ℕ))
      → contains miss i ≡ false
      → Fits width x
      → length m ≤ width
      → ReducedOption plain miss (i + 1) ms (sub_p x m) y
      → ReducedOption plain miss i (m ∷ ms) x y
  unfolding sub_p Fits
  p_option none none e f h r = r
  p_option none (some y) e f h r = r
  p_option (some x) none e f h r = r
  p_option (some x) (some y) e f h r =
      reduce_known plain miss i m ms x (xor_into x m) y e (length-xor_into x m)
        (λ j. byte_at-xor_into x m j (omega arith)) r

  q_option :
      (x y : Option (List ℕ))
      → contains miss i ≡ false
      → Fits width x
      → length m ≤ width
      → AreBytes m
      → ReducedOption weighted miss (i + 1) ms (sub_q x m i) y
      → ReducedOption weighted miss i (m ∷ ms) x y
  unfolding sub_q Fits
  q_option none none e f h b r = r
  q_option none (some y) e f h b r = r
  q_option (some x) none e f h b r = r
  q_option (some x) (some y) e f h b r =
      reduce_known weighted miss i m ms x (mul_acc x m (pow2 i)) y e
        (length-mul_acc x m (pow2 i) (pow2-range i).0)
        (λ j. byte_at-mul_acc x m (pow2 i) (pow2-range i).0 j (pow2-range i).1 b (omega arith)) r

sub_p-Fits : (width : ℕ) (x : Option (List ℕ)) (m : List ℕ) → Fits width x → Fits width (sub_p x m)
unfolding Fits sub_p
sub_p-Fits width none m f = f
sub_p-Fits width (some x) m f = length-xor_into x m ∙ f

sub_q-Fits :
    (width : ℕ) (x : Option (List ℕ)) (m : List ℕ) (i : ℕ) → Fits width x → Fits width (sub_q x m i)
unfolding Fits sub_q
sub_q-Fits width none m i f = f
sub_q-Fits width (some x) m i f = length-mul_acc x m (pow2 i) (pow2-range i).0 ∙ f

abbrev pub Members : ℕ → List (List ℕ) → Type 0
Members width = All (λ m. AreBytes m × (length m ≤ width))

pub sub_known-Reduced :
    (b : FecRecoveryBuffer) (miss : List ℕ) (width i : ℕ) (seqs : List ℕ) (ms : List (List ℕ))
    (p q : Option (List ℕ))
    → Held b miss i seqs ms
    → Members width ms
    → Fits width p
    → Fits width q
    → (p' : Option (List ℕ)) × (q' : Option (List ℕ)) × (sub_known b miss width i seqs p q
        ≡ some (p', q'))
      × ReducedOption plain miss i ms p p'
      × ReducedOption weighted miss i ms q q'
unfolding sub_known
sub_known-Reduced b miss width i [] [] p q h v fp fq = (p, q, refl, same plain p, same weighted q)
  where
    same : (c : ℕ → ℕ → ℕ) (x : Option (List ℕ)) → ReducedOption c miss i [] x x
    same c none = tt
    same c (some x) = record { same_width = refl; column = λ j. unfold sum miss_sum in refl }
sub_known-Reduced b miss width i [] (m ∷ ms) p q h v fp fq = elim h [ ]
sub_known-Reduced b miss width i (seq ∷ seqs) [] p q h v fp fq = elim h [ ]
sub_known-Reduced b miss width i (seq ∷ seqs) (m ∷ ms) p q (inl e, h) v fp fq =
    let (p', q', s, rp, rq) = sub_known-Reduced b miss width (i + 1) seqs ms p q h v.1 fp fq in
    (
      p',
      q',
      rw e s,
      missing_option miss i width m ms plain p p' e rp,
      missing_option miss i width m ms weighted q q' e rq,
    )
sub_known-Reduced b miss width i (seq ∷ seqs) (m ∷ ms) p q (inr (e, (at, l)), h) v fp fq =
    let (p', q', s, rp, rq) =
      sub_known-Reduced b miss width (i + 1) seqs ms (sub_p p m) (sub_q q m i) h v.1
        (sub_p-Fits width p m fp) (sub_q-Fits width q m i fq) in
    (
      p',
      q',
      rw (e, l, le→ltb width (length m) v.0.1) s,
      p_option miss i width m ms p p' e fp v.0.1 rp,
      q_option miss i width m ms q q' e fq v.0.1 v.0.0 rq,
    )
