-- ===== src/Fec/Recovery/Evaluate.antt =====
-- src/fec.rs, `evaluate`: classify a group's members, and reconstruct what the shares at hand allow.
pub mod Missing
pub mod Subtract
pub mod Group
pub mod Solve
pub mod Reduce
pub mod Recovers
use mlvpn_rs.Common.{
  ℕ, suc, ◌+◌, ◌≤◌, Bool, true, false, not, ◌&&◌, ◌||◌, List, [], ◌∷◌, ◌++◌, ltb, leb, ◌==◌,
  if◌then◌else◌, length, get_or, take, map, Option, none, some,
}
use mlvpn_rs.Common.Maps.{lookup, contains}
use mlvpn_rs.Common.Xor.{bit_xor}
use mlvpn_rs.Fec.Gf.{mul_acc, pow2, scale, inv}
use mlvpn_rs.Fec.Sender.{xor_into}
use mlvpn_rs.Protocol.FecParity.{FecParityPayload}
use mlvpn_rs.Fec.Recovery.State.{
  FecRecoveryBuffer, ShareSet, Payload, Recovery, MemberState, known, handled, missing,
  member_state, mark_seen, insert_payload,
}

pub data Eval : Type 0 where
  recovered : List Recovery → Eval
  already_complete unrecoverable : Eval
  need_more : List ℕ → Eval

-- The positions of the missing members from `i` on, and the number of handled ones.
pub classify : FecRecoveryBuffer → ℕ → List ℕ → List ℕ × ℕ
classify b i [] = ([], 0)
classify b i (seq ∷ seqs) =
    let (missing_idx, handled_count) = classify b (i + 1) seqs in
    elim (member_state b seq) [
      | known ↦ (missing_idx, handled_count)
      | handled ↦ (missing_idx, suc handled_count)
      | missing ↦ (i ∷ missing_idx, handled_count)
    ]

-- `shares.p.as_ref().or(shares.q.as_ref())`
pub any_share : ShareSet → Option FecParityPayload
any_share s = elim s.p [ some p ↦ some p | none ↦ s.q ]

unfoldable pub list_eq : List ℕ → List ℕ → Bool
list_eq [] [] = true
list_eq [] (y ∷ ys) = false
list_eq (x ∷ xs) [] = false
list_eq (x ∷ xs) (y ∷ ys) = x == y && list_eq xs ys

pub shares_match : FecParityPayload → FecParityPayload → Bool
shares_match p q =
    length p.parity == length q.parity
    && (list_eq p.member_seqs q.member_seqs && list_eq p.member_lens q.member_lens)

-- The width that the shares agree on.
pub share_width : Option FecParityPayload → Option FecParityPayload → Option ℕ
share_width none none = none
share_width none (some q) = some (length q.parity)
share_width (some p) none = some (length p.parity)
share_width (some p) (some q) = if shares_match p q then some (length p.parity) else none

-- `missing_idx.iter().any(|&i| lens[i] as usize > width)`
pub any_wider : List ℕ → List ℕ → ℕ → Bool
any_wider lens [] width = false
any_wider lens (i ∷ idx) width = ltb width (get_or lens i 0) || any_wider lens idx width

pub sub_p : Option (List ℕ) → List ℕ → Option (List ℕ)
sub_p none bytes = none
sub_p (some pp) bytes = some (xor_into pp bytes)

pub sub_q : Option (List ℕ) → List ℕ → ℕ → Option (List ℕ)
sub_q none bytes i = none
sub_q (some qp) bytes i = some (mul_acc qp bytes (pow2 i))

-- `P'` and `Q'`: the shares less the members from position `i` on that are not missing.
pub sub_known :
    FecRecoveryBuffer
    → List ℕ
    → ℕ
    → ℕ
    → List ℕ
    → Option (List ℕ)
    → Option (List ℕ)
    → Option (Option (List ℕ) × Option (List ℕ))
sub_known b missing_idx width i [] p q = some (p, q)
sub_known b missing_idx width i (seq ∷ seqs) p q =
    if contains missing_idx i
    then sub_known b missing_idx width (i + 1) seqs p q
    else elim (lookup seq b.payloads) [
      | none ↦ none
      | some payload ↦
          if ltb width (length payload.bytes)
          then none
          else sub_known b missing_idx width (i + 1) seqs (sub_p p payload.bytes)
              (sub_q q payload.bytes i)
    ]

-- `for (x, &y) in da.iter_mut().zip(&db) { *x ^= y; }` is `xor_into da db`.
pub solve_two : ℕ → ℕ → List ℕ → List ℕ → List (ℕ × List ℕ)
solve_two i j pp qp =
    let gi = pow2 i in
    let db = scale (mul_acc qp pp gi) (inv (bit_xor gi (pow2 j))) in
    (i, xor_into pp db) ∷ (j, db) ∷ []

pub solve : List ℕ → Option (List ℕ) → Option (List ℕ) → Option (List (ℕ × List ℕ))
solve (i ∷ []) (some pp) q = some ((i, pp) ∷ [])
solve (i ∷ []) none (some qp) = some ((i, scale qp (inv (pow2 i))) ∷ [])
solve (i ∷ j ∷ []) (some pp) (some qp) = some (solve_two i j pp qp)
solve missing_idx p q = none

-- `data.truncate(..)`, `mark_seen` and `insert_payload` for each solved member.
pub record_recovered :
    FecRecoveryBuffer → ℕ → List ℕ → List ℕ → List (ℕ × List ℕ) → FecRecoveryBuffer × List Recovery
record_recovered b now seqs lens [] = (b, [])
record_recovered b now seqs lens ((i, bytes) ∷ out) =
    let plaintext = take (get_or lens i 0) bytes in
    let seq = get_or seqs i 0 in
    let b' = insert_payload (mark_seen b seq now) seq plaintext now in
    let (b'', rest) = record_recovered b' now seqs lens out in (b'', (seq, plaintext) ∷ rest)

-- From the solved members on.
pub finish :
    FecRecoveryBuffer → ℕ → List ℕ → List ℕ → Option (List (ℕ × List ℕ)) → FecRecoveryBuffer × Eval
finish b now seqs lens none = (b, unrecoverable)
finish b now seqs lens (some out) =
    let (b', r) = record_recovered b now seqs lens out in (b', recovered r)

abbrev pub parity_of : Option FecParityPayload → Option (List ℕ)
parity_of none = none
parity_of (some s) = some s.parity

-- From the width check on.
pub reconstruct :
    FecRecoveryBuffer → ℕ → ShareSet → List ℕ → List ℕ → List ℕ → FecRecoveryBuffer × Eval
reconstruct b now shares seqs lens missing_idx = elim (share_width shares.p shares.q) [
  | none ↦ (b, unrecoverable)
  | some width ↦
      if any_wider lens missing_idx width
      then (b, unrecoverable)
      else elim (sub_known b missing_idx width 0 seqs (parity_of shares.p) (parity_of shares.q)) [
        | none ↦ (b, unrecoverable)
        | some (p, q) ↦ finish b now seqs lens (solve missing_idx p q)
      ]
]

abbrev pub has_share : Option FecParityPayload → Bool
has_share none = false
has_share (some s) = true

pub evaluate_group : FecRecoveryBuffer → ℕ → ShareSet → List ℕ → List ℕ → FecRecoveryBuffer × Eval
evaluate_group b now shares seqs lens =
    let (missing_idx, handled_count) = classify b 0 seqs in
    let max_erasures = if leb 2 b.parity_count then 2 else 1 in
    if length missing_idx == 0
    then (b, already_complete)
    else if ltb max_erasures (length missing_idx) || ltb 0 handled_count
    then (b, unrecoverable)
    else if length missing_idx == 2 && not (has_share shares.p && has_share shares.q)
    then (b, need_more (map (λ i. get_or seqs i 0) missing_idx))
    else reconstruct b now shares seqs lens missing_idx

pub evaluate : FecRecoveryBuffer → ℕ → ShareSet → FecRecoveryBuffer × Eval
evaluate b now shares = elim (any_share shares) [
  | none ↦ (b, unrecoverable)
  | some s ↦ evaluate_group b now shares s.member_seqs s.member_lens
]
