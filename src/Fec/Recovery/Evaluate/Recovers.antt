-- ===== src/Fec/Recovery/Evaluate/Recovers.antt =====
-- `evaluate` gives back the missing members of a group, from the shares that were made of it.
use mlvpn_rs.Common.{
  ℕ, zero, suc, ◌+◌, ◌≤◌, ◌<◌, ◌≡◌, refl, sym, ap, ◌∙◌, inl, inr, true, ◌||◌, List, [], ◌∷◌, arith,
  length, map, get_or, All, Option, none, some, leb, le→leb, Bool-cases,
}
use mlvpn_rs.Common.Bytes.{AreBytes}
use mlvpn_rs.Fec.Gf.{pow2, scale, inv}
use mlvpn_rs.Fec.Sums.{plain, weighted}
use mlvpn_rs.Protocol.FecParity.{FecParityPayload}
use mlvpn_rs.Fec.Recovery.State.{FecRecoveryBuffer}
use mlvpn_rs.Fec.Recovery.Evaluate.{
  recovered, solve, finish, reconstruct, has_share, evaluate_group, evaluate,
}
use mlvpn_rs.Fec.Recovery.Evaluate.Missing.{miss_sum_single, miss_sum_pair}
use mlvpn_rs.Fec.Recovery.Evaluate.Group.{Group, classify-Group}
use mlvpn_rs.Fec.Recovery.Evaluate.Solve.{plain-Pads, weighted-Pads, solve_two-Pads}
use mlvpn_rs.Fec.Recovery.Evaluate.Reduce.{
  lost, Solves, Left, ShareOption, finish-lost, evaluate-group, reconstruct-Left, length-le-longest,
}

member-AreBytes : (ms : List (List ℕ)) (a : ℕ) → All AreBytes ms → AreBytes (get_or ms a [])
member-AreBytes [] a h = tt
member-AreBytes (m ∷ ms) zero h = h.0
member-AreBytes (m ∷ ms) (suc a) h = member-AreBytes ms a h.1

one_in_range :
    (b : FecRecoveryBuffer) (i : ℕ) (seqs : List ℕ) (ms : List (List ℕ)) (a : ℕ) (miss : List ℕ)
    → Group b i seqs ms (a ∷ miss)
    → (i ≤ a) × (a < i + length ms)
one_in_range b i [] [] a miss g = absurd (ground arith)
one_in_range b i [] (m ∷ ms) a miss g = elim g [ ]
one_in_range b i (seq ∷ seqs) [] a miss g = elim g [ ]
one_in_range b i (seq ∷ seqs) (m ∷ ms) a miss (inl (k, g)) =
    let (lo, hi) = one_in_range b (i + 1) seqs ms a miss g in (omega arith, omega arith)
one_in_range b i (seq ∷ seqs) (m ∷ ms) a miss (inr (rest, e, s, g)) =
    let h : a ≡ i = ap (λ l. get_or l 0 0) e in (omega arith, omega arith)

two_in_range :
    (b : FecRecoveryBuffer) (i : ℕ) (seqs : List ℕ) (ms : List (List ℕ)) (a c : ℕ)
    → Group b i seqs ms (a ∷ c ∷ [])
    → (a < c) × (c < i + length ms)
two_in_range b i [] [] a c g = absurd (ground arith)
two_in_range b i [] (m ∷ ms) a c g = elim g [ ]
two_in_range b i (seq ∷ seqs) [] a c g = elim g [ ]
two_in_range b i (seq ∷ seqs) (m ∷ ms) a c (inl (k, g)) =
    let (lt, hi) = two_in_range b (i + 1) seqs ms a c g in (lt, omega arith)
two_in_range b i (seq ∷ seqs) (m ∷ ms) a c (inr ([], e, s, g)) = absurd (ground arith)
two_in_range b i (seq ∷ seqs) (m ∷ ms) a c (inr (d ∷ rest, e, s, g)) =
    let h : a ≡ i = ap (λ l. get_or l 0 0) e in
    let h' : c ≡ d = ap (λ l. get_or l 1 0) e in
    let (lo, hi) = one_in_range b (i + 1) seqs ms d rest g in (omega arith, omega arith)

-- Whether the shares at hand are enough for the missing members: one share for one, and both for
-- two, with two parity frames configured.
unfoldable pub Enough :
    FecRecoveryBuffer → Option FecParityPayload → Option FecParityPayload → List ℕ → Type 0
Enough b p q [] = ⊥
Enough b p q (a ∷ []) = (has_share p || has_share q) ≡ true
Enough b p q (a ∷ c ∷ []) = (has_share p ≡ true) × (has_share q ≡ true) × (2 ≤ b.parity_count)
Enough b p q (a ∷ c ∷ d ∷ miss) = ⊥

any_of :
    (b : FecRecoveryBuffer) (p q : Option FecParityPayload) (miss : List ℕ)
    → Enough b p q miss
    → (has_share p || has_share q) ≡ true
unfolding Enough
any_of b p q [] h = elim h [ ]
any_of b p q (a ∷ []) h = h
any_of b p q (a ∷ c ∷ []) (hp, hq, two) = rw hp refl
any_of b p q (a ∷ c ∷ d ∷ miss) h = elim h [ ]

module _ (seqs : List ℕ) (ms : List (List ℕ)) (bytes : All AreBytes ms) where
  Group-reconstruct :
      (b : FecRecoveryBuffer) (now : ℕ) (p q : Option FecParityPayload) (miss : List ℕ)
      → Group b 0 seqs ms miss
      → Enough b p q miss
      → evaluate_group b now (record { p = p; q = q }) seqs (map length ms)
        ≡ reconstruct b now (record { p = p; q = q }) seqs (map length ms) miss
  unfolding evaluate_group Enough
  Group-reconstruct b now p q [] g h = elim h [ ]
  Group-reconstruct b now p q (a ∷ []) g h = elim (Bool-cases (leb 2 b.parity_count)) [
    | inl more ↦ rw (classify-Group b 0 seqs ms (a ∷ []) g, more) refl
    | inr less ↦ rw (classify-Group b 0 seqs ms (a ∷ []) g, less) refl
  ]
  Group-reconstruct b now p q (a ∷ c ∷ []) g (hp, hq, two) =
      rw (classify-Group b 0 seqs ms (a ∷ c ∷ []) g, le→leb 2 b.parity_count two, hp, hq) refl
  Group-reconstruct b now p q (a ∷ c ∷ d ∷ miss) g h = elim h [ ]

  solve_one :
      (a : ℕ) (p q : Option FecParityPayload) (p' q' : Option (List ℕ))
      → a < length ms
      → (has_share p || has_share q) ≡ true
      → Left plain ms (a ∷ []) p p'
      → Left weighted ms (a ∷ []) q q'
      → (out : List (ℕ × List ℕ)) × (solve (a ∷ []) p' q' ≡ some out) × Solves ms (a ∷ []) out
  unfolding solve
  solve_one a none none p' q' lt h lp lq = absurd (ground arith)
  solve_one a (some s) q none q' lt h lp lq = elim lp [ ]
  solve_one a (some s) q (some x) q' lt h (w, column) lq = (
    (a, x) ∷ [],
    refl,
    (
      refl,
      plain-Pads a (get_or ms a []) x (omega (arith, w, length-le-longest ms a))
          (λ j. column j ∙ miss_sum_single plain j ms a lt),
      tt,
    ),
  )
  solve_one a none (some s) (some x) q' lt h lp lq = elim lp [ ]
  solve_one a none (some s) none none lt h lp lq = elim lq [ ]
  solve_one a none (some s) none (some x) lt h lp (w, column) = (
    (a, scale x (inv (pow2 a))) ∷ [],
    refl,
    (
      refl,
      weighted-Pads a (get_or ms a []) x (member-AreBytes ms a bytes)
          (omega (arith, w, length-le-longest ms a))
          (λ j. column j ∙ miss_sum_single weighted j ms a lt),
      tt,
    ),
  )

  solve_both :
      (a c : ℕ) (p q : Option FecParityPayload) (p' q' : Option (List ℕ))
      → a < c
      → c < length ms
      → length ms ≤ 255
      → has_share p ≡ true
      → has_share q ≡ true
      → Left plain ms (a ∷ c ∷ []) p p'
      → Left weighted ms (a ∷ c ∷ []) q q'
      → (out : List (ℕ × List ℕ)) × (solve (a ∷ c ∷ []) p' q' ≡ some out)
        × Solves ms (a ∷ c ∷ []) out
  unfolding solve
  solve_both a c none q p' q' lt hi n hp hq lp lq = absurd (ground arith)
  solve_both a c (some s) none p' q' lt hi n hp hq lp lq = absurd (ground arith)
  solve_both a c (some s) (some t) none q' lt hi n hp hq lp lq = elim lp [ ]
  solve_both a c (some s) (some t) (some x) none lt hi n hp hq lp lq = elim lq [ ]
  solve_both a c (some s) (some t) (some x) (some y) lt hi n hp hq (wx, cx) (wy, cy) =
      let (u, v, e, pu, pv) =
        solve_two-Pads a c (get_or ms a []) (get_or ms c []) x y lt (omega arith)
          (member-AreBytes ms a bytes) (member-AreBytes ms c bytes) (wx ∙ sym wy)
          (omega (arith, wx, length-le-longest ms a)) (omega (arith, wx, length-le-longest ms c))
          (λ j. cx j ∙ miss_sum_pair plain j ms a c lt hi)
          (λ j. cy j ∙ miss_sum_pair weighted j ms a c lt hi) in
      ((a, u) ∷ (c, v) ∷ [], ap some e, (refl, pu, (refl, pv, tt)))

  solve-Solves :
      (b : FecRecoveryBuffer) (p q : Option FecParityPayload) (p' q' : Option (List ℕ))
      (miss : List ℕ)
      → Group b 0 seqs ms miss
      → Enough b p q miss
      → length ms ≤ 255
      → Left plain ms miss p p'
      → Left weighted ms miss q q'
      → (out : List (ℕ × List ℕ)) × (solve miss p' q' ≡ some out) × Solves ms miss out
  unfolding Enough
  solve-Solves b p q p' q' [] g h n lp lq = elim h [ ]
  solve-Solves b p q p' q' (a ∷ []) g h n lp lq =
      solve_one a p q p' q' (omega (arith, (one_in_range b 0 seqs ms a [] g).1)) h lp lq
  solve-Solves b p q p' q' (a ∷ c ∷ []) g (hp, hq, two) n lp lq =
      let (lt, hi) = two_in_range b 0 seqs ms a c g in
      solve_both a c p q p' q' lt (omega arith) n hp hq lp lq
  solve-Solves b p q p' q' (a ∷ c ∷ d ∷ miss) g h n lp lq = elim h [ ]

-- A group of at most 255 members, of which one is missing and a share is at hand, or two are missing,
-- both shares are at hand and two parity frames are configured: `evaluate` reconstructs the missing
-- members, byte for byte, each under its own sequence number, in the order of the group.
pub evaluate-recovers :
    (b : FecRecoveryBuffer) (now : ℕ) (seqs : List ℕ) (ms : List (List ℕ)) (miss : List ℕ)
    (p q : Option FecParityPayload)
    → All AreBytes ms
    → length ms ≤ 255
    → ShareOption plain seqs ms p
    → ShareOption weighted seqs ms q
    → Group b 0 seqs ms miss
    → Enough b p q miss
    → (evaluate b now (record { p = p; q = q })).1 ≡ recovered (lost seqs ms miss)
evaluate-recovers b now seqs ms miss p q bytes n vp vq g h =
    let any = any_of b p q miss h in
    let (p', q', lp, lq, e) = reconstruct-Left seqs ms b now p q miss vp vq any bytes g in
    let (out, s, solved) = solve-Solves seqs ms bytes b p q p' q' miss g h n lp lq in
    ap (λ r. r.1)
      (evaluate-group seqs ms b now p q vp vq any
        ∙ Group-reconstruct seqs ms bytes b now p q miss g h
        ∙ e
        ∙ ap (finish b now seqs (map length ms)) s)
    ∙ finish-lost b now seqs ms miss out solved
