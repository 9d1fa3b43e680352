-- ===== src/Fec/RoundTrip.antt =====
-- From the sender's group to the frames that `evaluate` reconstructs of it.
use mlvpn_rs.Common.{
  ℕ, ◌≤◌, ◌≡◌, sym, ap, ◌∙◌, subst, Bool, inl, inr, Bool-cases, List, [], ◌∷◌, length, length-map,
  All, some, arith, get_or,
}
use mlvpn_rs.Common.Bytes.{AreBytes}
use mlvpn_rs.Fec.Sums.{weighted}
use mlvpn_rs.Fec.Sender.{FecGroup, new}
use mlvpn_rs.Fec.Sender.Groups.{
  Frame, IsFrame, seqs_of, plaintexts_of, feed, Covers, feed-new-Completes,
}
use mlvpn_rs.Fec.Recovery.State.{FecRecoveryBuffer}
use mlvpn_rs.Fec.Recovery.Evaluate.{recovered, evaluate}
use mlvpn_rs.Fec.Recovery.Evaluate.Group.{Group}
use mlvpn_rs.Fec.Recovery.Evaluate.Reduce.{lost, ShareOption}
use mlvpn_rs.Fec.Recovery.Evaluate.Recovers.{Enough, evaluate-recovers}

plaintexts-AreBytes : (fs : List Frame) → All IsFrame fs → All AreBytes (plaintexts_of fs)
plaintexts-AreBytes [] v = tt
plaintexts-AreBytes (f ∷ fs) v = (v.0.bytes, plaintexts-AreBytes fs v.1)

q-ShareOption :
    (with_q : Bool) (seqs : List ℕ) (ms : List (List ℕ)) (g : FecGroup)
    → Covers with_q seqs ms g
    → ShareOption weighted seqs ms g.q
q-ShareOption with_q seqs ms g c = elim (Bool-cases with_q) [
  | inl on ↦ let (q, e, share) = c.q_share on in subst (ShareOption weighted seqs ms) (sym e) share
  | inr off ↦ subst (ShareOption weighted seqs ms) (sym (c.no_q off)) tt
]

group_of : (gs : List FecGroup) (g h : FecGroup) → gs ≡ h ∷ [] → gs ≡ g ∷ [] → h ≡ g
group_of gs g h p q = ap (λ l. get_or l 0 g) (sym p ∙ q)

-- A sender makes a group of at most 255 frames, and a receiver that holds the group's shares is short of
-- the frames at the positions `miss`: of one frame, or of two if the sender made both shares and the
-- receiver is configured for two. Then `evaluate` on these shares gives back exactly the frames that
-- the sender was given there.
pub evaluate-feed :
    (group_size parity_count : ℕ) (f : Frame) (fs : List Frame) (g : FecGroup)
    (b : FecRecoveryBuffer) (now : ℕ) (miss : List ℕ)
    → All IsFrame (f ∷ fs)
    → length (f ∷ fs) ≡ group_size
    → group_size ≤ 255
    → (feed (new group_size parity_count) (f ∷ fs)).1 ≡ g ∷ []
    → Group b 0 (seqs_of (f ∷ fs)) (plaintexts_of (f ∷ fs)) miss
    → Enough b (some g.p) g.q miss
    → (evaluate b now (record { p = some g.p; q = g.q })).1
      ≡ recovered (lost (seqs_of (f ∷ fs)) (plaintexts_of (f ∷ fs)) miss)
evaluate-feed group_size parity_count f fs g b now miss v n le out known enough =
    let done = feed-new-Completes group_size parity_count f fs v n in
    let c =
      subst
        (Covers (new group_size parity_count).with_q (seqs_of (f ∷ fs)) (plaintexts_of (f ∷ fs)))
        (group_of (feed (new group_size parity_count) (f ∷ fs)).1 g done.group done.one_group out)
        done.covers in
    evaluate-recovers b now (seqs_of (f ∷ fs)) (plaintexts_of (f ∷ fs)) miss (some g.p) g.q
      (plaintexts-AreBytes (f ∷ fs) v)
      (omega (arith, n, le, length-map (λ (x : Frame). x.plaintext) (f ∷ fs))) c.p_share
      (q-ShareOption (new group_size parity_count).with_q (seqs_of (f ∷ fs))
        (plaintexts_of (f ∷ fs)) g c)
      known enough
