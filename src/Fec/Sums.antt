-- ===== src/Fec/Sums.antt =====
-- What a parity share holds: at each position the sum, over the members of the group, of the member's
-- byte there under the member's coefficient. A member is 0 behind its end.
use mlvpn_rs.Common.{ℕ, ◌+◌, ◌≡◌, sym, ap, ◌∙◌, List, [], ◌∷◌, ◌++◌, max, arith, length}
use mlvpn_rs.Common.Bytes.{byte_at}
use mlvpn_rs.Common.Xor.{bit_xor, bit_xor-zero, zero-bit_xor, bit_xor_assoc}
use mlvpn_rs.Fec.Gf.{mul, pow2}

-- How a share weighs the member at a position of the group: `P` adds it, `Q` its multiple.
abbrev pub plain : ℕ → ℕ → ℕ
plain i x = x

abbrev pub weighted : ℕ → ℕ → ℕ
weighted i x = mul (pow2 i) x

-- The sum over the members from position `i` on, at byte `j`.
unfoldable pub sum : (ℕ → ℕ → ℕ) → ℕ → List (List ℕ) → ℕ → ℕ
sum c i [] j = 0
sum c i (m ∷ ms) j = bit_xor (c i (byte_at m j)) (sum c (i + 1) ms j)

pub sum-snoc :
    (c : ℕ → ℕ → ℕ) (i : ℕ) (ms : List (List ℕ)) (m : List ℕ) (j : ℕ)
    → sum c i (ms ++ (m ∷ [])) j ≡ bit_xor (sum c i ms j) (c (i + length ms) (byte_at m j))
unfolding sum
sum-snoc c i [] m j =
    bit_xor-zero (c i (byte_at m j))
    ∙ ap (λ k. c k (byte_at m j)) (omega arith)
    ∙ sym (zero-bit_xor (c (i + 0) (byte_at m j)))
sum-snoc c i (x ∷ ms) m j =
    ap (bit_xor (c i (byte_at x j))) (
      sum-snoc c (i + 1) ms m j
      ∙ ap (λ k. bit_xor (sum c (i + 1) ms j) (c k (byte_at m j))) (omega arith))
    ∙ sym (
        bit_xor_assoc (c i (byte_at x j)) (sum c (i + 1) ms j)
          (c (i + length (x ∷ ms)) (byte_at m j)))

-- The length of the longest member.
unfoldable pub longest : List (List ℕ) → ℕ
longest [] = 0
longest (m ∷ ms) = max (length m) (longest ms)

pub longest-snoc :
    (ms : List (List ℕ)) (m : List ℕ) → longest (ms ++ (m ∷ [])) ≡ max (longest ms) (length m)
unfolding longest
longest-snoc [] m = omega arith
longest-snoc (x ∷ ms) m = omega (arith, longest-snoc ms m)
