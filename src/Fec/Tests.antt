-- ===== src/Fec/Tests.antt =====
-- Runs of the FEC code on small groups.
use mlvpn_rs.Common.{
  ℕ, ◌+◌, ◌≡◌, refl, ap, ◌≢◌, Bool, true, false, get_or, List, [], ◌∷◌, arith, length, All, none,
  some, inl, inr,
}
use mlvpn_rs.Common.Maps.{contains_key, lookup, contains}
use mlvpn_rs.Common.Xor.{bit_xor}
use mlvpn_rs.Protocol.FecParity.{encode}
use mlvpn_rs.Fec.Gf.{mul, inv}
use mlvpn_rs.Fec.Gf.Field.{mul_assoc, mul-bit_xor, mul-inv}
use mlvpn_rs.Fec.Sums.{plain, longest}
use mlvpn_rs.Fec.Sender.{new}
use mlvpn_rs.Fec.Sender.Groups.{
  Frame, IsFrame, seqs_of, plaintexts_of, links_of, feed, Completes, feed-new-Completes,
}
use mlvpn_rs.Fec.Recovery.State.{FecRecoveryBuffer, member_state, was_seen, below_floor}
use mlvpn_rs.Fec.Recovery.Evaluate.{recovered, evaluate, has_share}
use mlvpn_rs.Fec.Recovery.Evaluate.Group.{Group}
use mlvpn_rs.Fec.Recovery.Evaluate.Reduce.{lost}
use mlvpn_rs.Fec.Recovery.Evaluate.Recovers.{Enough, evaluate-recovers}
use mlvpn_rs.Fec.RoundTrip.{evaluate-feed}
use mlvpn_rs.Fec.Placement.{
  dominant, choose_parity_link, count_members, candidates, best_of, hits, only_hit, choose_by_count,
}
use mlvpn_rs.Fec.Placement.Counts.{carried}
use mlvpn_rs.Fec.Placement.Beats.{Beats, Merits, choose_parity_link-Beats}
use mlvpn_rs.Fec.Overhead.{mtu_reservation_bytes, length-encode-share}

abbrev first : Frame
first = record { seq = 70010; plaintext = 69 ∷ 7 ∷ []; link = 0 }

abbrev others : List Frame
others =
    record { seq = 70011; plaintext = 255 ∷ []; link = 1 }
    ∷ record { seq = 70013; plaintext = 8 ∷ 200 ∷ 31 ∷ []; link = 0 }
    ∷ []

frames-IsFrame : All IsFrame (first ∷ others)
frames-IsFrame = (
  record { bytes = (omega arith, (omega arith, tt)); fits = omega arith },
  (
    record { bytes = (omega arith, tt); fits = omega arith },
    (record { bytes = (omega arith, (omega arith, (omega arith, tt))); fits = omega arith }, tt),
  ),
)

made :
    Completes
      (new 3 2)
      (seqs_of (first ∷ others))
      (plaintexts_of (first ∷ others))
      (links_of (first ∷ others))
      (feed (new 3 2) (first ∷ others))
made = feed-new-Completes 3 2 first others frames-IsFrame refl

feed-new-Completes_example :
    Completes
      (new 3 1)
      (seqs_of (first ∷ others))
      (plaintexts_of (first ∷ others))
      (links_of (first ∷ others))
      (feed (new 3 1) (first ∷ others))
feed-new-Completes_example = feed-new-Completes 3 1 first others frames-IsFrame refl

-- A receiver that holds the middle frame.
abbrev buffer : FecRecoveryBuffer
buffer = record {
  payload_ttl = 2000;
  seen_generation = 2000;
  payloads = (70011, record { at = 5; bytes = 255 ∷ [] }) ∷ [];
  payload_order = 70011 ∷ [];
  seen_current = 70011 ∷ [];
  seen_previous = [];
  seen_rotated_at = 0;
  seen_floor = none;
  seen_rotation_high = none;
  highest_seq = 70011;
  parity_count = 2;
  parked = [];
  parked_by_seq = [];
  late_recoveries = [];
  given_up = 0;
}

outer_lost : Group buffer 0 (seqs_of (first ∷ others)) (plaintexts_of (first ∷ others)) (0 ∷ 2 ∷ [])
unfolding member_state was_seen below_floor contains_key lookup contains
outer_lost = inr (2 ∷ [], refl, refl, inl ((5, refl), inr ([], refl, refl, refl)))

both_at_hand : Enough buffer (some made.group.p) made.group.q (0 ∷ 2 ∷ [])
unfolding Enough new
both_at_hand = (refl, ap has_share (made.covers.q_share refl).1, omega arith)

evaluate-feed_example :
    (evaluate buffer 9 (record { p = some made.group.p; q = made.group.q })).1
    ≡ recovered (lost (seqs_of (first ∷ others)) (plaintexts_of (first ∷ others)) (0 ∷ 2 ∷ []))
evaluate-feed_example =
    evaluate-feed 3 2 first others made.group buffer 9 (0 ∷ 2 ∷ []) frames-IsFrame refl
      (omega arith) made.one_group outer_lost both_at_hand

-- Here the Q share alone is at hand, and the middle frame is missing as well as kept by nobody.
abbrev holder : FecRecoveryBuffer
holder = record buffer {
  payloads =
      (70010, record { at = 5; bytes = 69 ∷ 7 ∷ [] })
      ∷ (70013, record { at = 6; bytes = 8 ∷ 200 ∷ 31 ∷ [] })
      ∷ [];
  payload_order = 70010 ∷ 70013 ∷ [];
  seen_current = 70010 ∷ 70013 ∷ [];
}

middle_lost : Group holder 0 (seqs_of (first ∷ others)) (plaintexts_of (first ∷ others)) (1 ∷ [])
unfolding member_state was_seen below_floor contains_key lookup contains
middle_lost = inl ((5, refl), inr ([], refl, refl, inl ((6, refl), refl)))

p_at_hand : Enough holder (some made.group.p) none (1 ∷ [])
unfolding Enough
p_at_hand = refl

evaluate-recovers_example :
    (evaluate holder 9 (record { p = some made.group.p; q = none })).1
    ≡ recovered (lost (seqs_of (first ∷ others)) (plaintexts_of (first ∷ others)) (1 ∷ []))
evaluate-recovers_example =
    evaluate-recovers holder 9 (seqs_of (first ∷ others)) (plaintexts_of (first ∷ others)) (1 ∷ [])
      (some made.group.p) none
      (
        (omega arith, (omega arith, tt)),
        ((omega arith, tt), ((omega arith, (omega arith, (omega arith, tt))), tt)),
      )
      (omega arith) made.covers.p_share tt middle_lost p_at_hand

length-encode-share_example :
    length (encode made.group.p)
    ≡ longest (plaintexts_of (first ∷ others)) + mtu_reservation_bytes true 3
length-encode-share_example =
    length-encode-share plain (seqs_of (first ∷ others)) (plaintexts_of (first ∷ others))
      made.group.p made.covers.p_share refl (omega arith)

mul_assoc_example : mul (mul 87 131) 202 ≡ mul 87 (mul 131 202)
mul_assoc_example = mul_assoc 87 131 202 (omega arith) (omega arith) (omega arith)

mul-bit_xor_example : mul 87 (bit_xor 131 202) ≡ bit_xor (mul 87 131) (mul 87 202)
mul-bit_xor_example = mul-bit_xor 87 131 202 (omega arith) (omega arith) (omega arith)

mul-inv_example : mul (inv 87) 87 ≡ 1
mul-inv_example = mul-inv 87 (omega arith) (omega arith)

-- Two members went over the first link and one over the last; the second one is down.
abbrev carriers : List ℕ
carriers = 0 ∷ 2 ∷ 0 ∷ []

abbrev usable_links : List Bool
usable_links = true ∷ false ∷ true ∷ []

first_chosen : choose_parity_link dominant carriers usable_links ≡ some 0
unfolding choose_parity_link count_members candidates best_of hits only_hit choose_by_count
first_chosen = refl

choose_parity_link-Beats_example :
    (get_or usable_links 0 false ≡ true)
    × Merits dominant (carried 0 carriers)
    × ((k : ℕ)
        → get_or usable_links k false ≡ true
        → k ≢ 0
        → Beats dominant (carried 0 carriers) (carried k carriers))
choose_parity_link-Beats_example =
    choose_parity_link-Beats dominant carriers usable_links 0 first_chosen
