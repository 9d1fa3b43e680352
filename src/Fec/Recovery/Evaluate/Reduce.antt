-- ===== src/Fec/Recovery/Evaluate/Reduce.antt =====
-- What `evaluate` computes on a group whose shares were made of its members.
use mlvpn_rs.Common.{
  ℕ, zero, suc, ◌≤◌, ◌≡◌, refl, sym, ap, ap₂, ◌∙◌, true, false, ◌||◌, List, [], ◌∷◌, arith, length,
  map, get_or, take, All, Option, none, some, le→ltb, ==_refl,
}
use mlvpn_rs.Common.Bytes.{AreBytes, byte_at}
use mlvpn_rs.Common.Xor.{bit_xor, bit_xor_comm, bit_xor_cancel}
use mlvpn_rs.Fec.Sums.{plain, weighted, sum, longest}
use mlvpn_rs.Fec.Sender.Shares.{IsShare}
use mlvpn_rs.Protocol.FecParity.{FecParityPayload}
use mlvpn_rs.Fec.Recovery.State.{FecRecoveryBuffer, Recovery, mark_seen, insert_payload}
use mlvpn_rs.Fec.Recovery.Evaluate.{
  recovered, any_share, list_eq, shares_match, share_width, any_wider, sub_known, solve,
  record_recovered, finish, parity_of, reconstruct, has_share, evaluate_group, evaluate,
}
use mlvpn_rs.Fec.Recovery.Evaluate.Missing.{miss_sum}
use mlvpn_rs.Fec.Recovery.Evaluate.Subtract.{ReducedOption, Fits, Members, sub_known-Reduced}
use mlvpn_rs.Fec.Recovery.Evaluate.Group.{Group, Group-Held}
use mlvpn_rs.Fec.Recovery.Evaluate.Solve.{Pads, take-Pads}

list_eq_refl : (xs : List ℕ) → list_eq xs xs ≡ true
unfolding list_eq
list_eq_refl [] = refl
list_eq_refl (x ∷ xs) = rw (==_refl x, list_eq_refl xs) refl

pub length-le-longest : (ms : List (List ℕ)) (a : ℕ) → length (get_or ms a []) ≤ longest ms
unfolding longest
length-le-longest [] a = omega arith
length-le-longest (m ∷ ms) zero = omega arith
length-le-longest (m ∷ ms) (suc a) = omega (arith, length-le-longest ms a)

get_or-map-length :
    (ms : List (List ℕ)) (a : ℕ) → get_or (map length ms) a 0 ≡ length (get_or ms a [])
get_or-map-length [] a = refl
get_or-map-length (m ∷ ms) zero = refl
get_or-map-length (m ∷ ms) (suc a) = get_or-map-length ms a

any_wider_none :
    (ms : List (List ℕ)) (miss : List ℕ) → any_wider (map length ms) miss (longest ms) ≡ false
unfolding any_wider
any_wider_none ms [] = refl
any_wider_none ms (a ∷ miss) =
    rw
      (
        get_or-map-length ms a,
        le→ltb (longest ms) (length (get_or ms a [])) (length-le-longest ms a),
      )
      (any_wider_none ms miss)

All-Members : (w : ℕ) (ms : List (List ℕ)) → All AreBytes ms → longest ms ≤ w → Members w ms
unfolding longest
All-Members w [] b h = tt
All-Members w (m ∷ ms) b h = ((b.0, omega arith), All-Members w ms b.1 (omega arith))

-- The plaintexts at the missing positions, with their sequence numbers.
unfoldable pub lost : List ℕ → List (List ℕ) → List ℕ → List Recovery
lost seqs ms [] = []
lost seqs ms (a ∷ miss) = (get_or seqs a 0, get_or ms a []) ∷ lost seqs ms miss

-- Solutions, padded, at the missing positions.
abbrev pub Solves : List (List ℕ) → List ℕ → List (ℕ × List ℕ) → Type 0
Solves ms [] [] = Unit {0}
Solves ms [] (s ∷ out) = ⊥
Solves ms (a ∷ miss) [] = ⊥
Solves ms (a ∷ miss) ((i, x) ∷ out) = (i ≡ a) × Pads (get_or ms a []) x × Solves ms miss out

record_recovered-lost :
    (b : FecRecoveryBuffer) (now : ℕ) (seqs : List ℕ) (ms : List (List ℕ)) (miss : List ℕ)
    (out : List (ℕ × List ℕ))
    → Solves ms miss out
    → (record_recovered b now seqs (map length ms) out).1 ≡ lost seqs ms miss
unfolding record_recovered lost
record_recovered-lost b now seqs ms [] [] s = refl
record_recovered-lost b now seqs ms [] (o ∷ out) s = elim s [ ]
record_recovered-lost b now seqs ms (a ∷ miss) [] s = elim s [ ]
record_recovered-lost b now seqs ms (a ∷ miss) ((i, x) ∷ out) (e, p, s) =
    let plaintext : take (get_or (map length ms) i 0) x ≡ get_or ms a [] =
      ap (λ n. take n x) (ap (λ k. get_or (map length ms) k 0) e ∙ get_or-map-length ms a)
      ∙ take-Pads (get_or ms a []) x p in
    ap₂ (λ r rest. r ∷ rest) (ap₂ (λ s p. (s, p)) (ap (λ k. get_or seqs k 0) e) plaintext)
      (record_recovered-lost
        (insert_payload (mark_seen b (get_or seqs i 0) now) (get_or seqs i 0)
          (take (get_or (map length ms) i 0) x) now)
        now seqs ms miss out s)

pub finish-lost :
    (b : FecRecoveryBuffer) (now : ℕ) (seqs : List ℕ) (ms : List (List ℕ)) (miss : List ℕ)
    (out : List (ℕ × List ℕ))
    → Solves ms miss out
    → (finish b now seqs (map length ms) (some out)).1 ≡ recovered (lost seqs ms miss)
unfolding finish
finish-lost b now seqs ms miss out s = ap recovered (record_recovered-lost b now seqs ms miss out s)

-- A share of the group, if it is at hand.
abbrev pub ShareOption : (ℕ → ℕ → ℕ) → List ℕ → List (List ℕ) → Option FecParityPayload → Type 0
ShareOption c seqs ms none = Unit {0}
ShareOption c seqs ms (some s) = IsShare c seqs ms s

parity-Fits :
    (c : ℕ → ℕ → ℕ) (seqs : List ℕ) (ms : List (List ℕ)) (s : Option FecParityPayload)
    → ShareOption c seqs ms s
    → Fits (longest ms) (parity_of s)
unfolding Fits
parity-Fits c seqs ms none v = tt
parity-Fits c seqs ms (some s) v = v.width

-- What `sub_known` leaves of a share.
abbrev pub Left :
    (ℕ → ℕ → ℕ) → List (List ℕ) → List ℕ → Option FecParityPayload → Option (List ℕ) → Type 0
Left c ms miss none none = Unit {0}
Left c ms miss none (some x) = ⊥
Left c ms miss (some s) none = ⊥
Left c ms miss (some s) (some x) =
    (length x ≡ longest ms) × ((j : ℕ) → byte_at x j ≡ miss_sum c miss 0 ms j)

Left-of :
    (c : ℕ → ℕ → ℕ) (seqs : List ℕ) (ms : List (List ℕ)) (miss : List ℕ)
    (s : Option FecParityPayload) (x : Option (List ℕ))
    → ShareOption c seqs ms s
    → ReducedOption c miss 0 ms (parity_of s) x
    → Left c ms miss s x
Left-of c seqs ms miss none none v r = tt
Left-of c seqs ms miss none (some x) v r = r
Left-of c seqs ms miss (some s) none v r = r
Left-of c seqs ms miss (some s) (some x) v r = (r.same_width ∙ v.width, column)
  where
    column : (j : ℕ) → byte_at x j ≡ miss_sum c miss 0 ms j
    column j =
        let total = sum c 0 ms j in
        sym (bit_xor_cancel total (byte_at x j))
        ∙ ap (bit_xor total) (
            bit_xor_comm total (byte_at x j)
            ∙ r.column j
            ∙ ap (λ y. bit_xor y (miss_sum c miss 0 ms j)) (v.column j))
        ∙ bit_xor_cancel total (miss_sum c miss 0 ms j)

reconstruct_step :
    (b : FecRecoveryBuffer) (now : ℕ) (p q : Option FecParityPayload) (seqs lens miss : List ℕ)
    (w : ℕ) (p' q' : Option (List ℕ))
    → share_width p q ≡ some w
    → any_wider lens miss w ≡ false
    → sub_known b miss w 0 seqs (parity_of p) (parity_of q) ≡ some (p', q')
    → reconstruct b now (record { p = p; q = q }) seqs lens miss
      ≡ finish b now seqs lens (solve miss p' q')
unfolding reconstruct
reconstruct_step b now p q seqs lens miss w p' q' ew ea es = rw (reconstruct, ew, ea, es) refl

module _ (seqs : List ℕ) (ms : List (List ℕ)) where
  share_width-longest :
      (p q : Option FecParityPayload)
      → ShareOption plain seqs ms p
      → ShareOption weighted seqs ms q
      → (has_share p || has_share q) ≡ true
      → share_width p q ≡ some (longest ms)
  unfolding share_width shares_match
  share_width-longest none none vp vq h = absurd (ground arith)
  share_width-longest none (some q) vp vq h = ap some vq.width
  share_width-longest (some p) none vp vq h = ap some vp.width
  share_width-longest (some p) (some q) vp vq h =
      rw
        (
          vp.width,
          vq.width,
          vp.seqs_are,
          vq.seqs_are,
          vp.lens_are,
          vq.lens_are,
          ==_refl (longest ms),
          list_eq_refl seqs,
          list_eq_refl (map length ms),
        )
        refl

  pub evaluate-group :
      (b : FecRecoveryBuffer) (now : ℕ) (p q : Option FecParityPayload)
      → ShareOption plain seqs ms p
      → ShareOption weighted seqs ms q
      → (has_share p || has_share q) ≡ true
      → evaluate b now (record { p = p; q = q })
        ≡ evaluate_group b now (record { p = p; q = q }) seqs (map length ms)
  unfolding evaluate any_share
  evaluate-group b now none none vp vq h = absurd (ground arith)
  evaluate-group b now none (some q) vp vq h =
      ap₂ (evaluate_group b now (record { p = none; q = some q })) vq.seqs_are vq.lens_are
  evaluate-group b now (some p) q vp vq h =
      ap₂ (evaluate_group b now (record { p = some p; q = q })) vp.seqs_are vp.lens_are

  pub reconstruct-Left :
      (b : FecRecoveryBuffer) (now : ℕ) (p q : Option FecParityPayload) (miss : List ℕ)
      → ShareOption plain seqs ms p
      → ShareOption weighted seqs ms q
      → (has_share p || has_share q) ≡ true
      → All AreBytes ms
      → Group b 0 seqs ms miss
      → (p' : Option (List ℕ)) × (q' : Option (List ℕ)) × Left plain ms miss p p'
        × Left weighted ms miss q q'
        × (reconstruct b now (record { p = p; q = q }) seqs (map length ms) miss
            ≡ finish b now seqs (map length ms) (solve miss p' q'))
  reconstruct-Left b now p q miss vp vq h bytes g =
      let (p', q', s, rp, rq) =
        sub_known-Reduced b miss (longest ms) 0 seqs ms (parity_of p) (parity_of q)
          (Group-Held b miss 0 seqs ms miss g (λ k le. refl))
          (All-Members (longest ms) ms bytes (omega arith)) (parity-Fits plain seqs ms p vp)
          (parity-Fits weighted seqs ms q vq) in
      (
        p',
        q',
        Left-of plain seqs ms miss p p' vp rp,
        Left-of weighted seqs ms miss q q' vq rq,
        reconstruct_step b now p q seqs (map length ms) miss (longest ms) p' q'
            (share_width-longest p q vp vq h) (any_wider_none ms miss) s,
      )
