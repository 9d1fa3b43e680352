-- ===== src/Fec/Recovery/Buffer.antt =====
-- src/fec.rs: the operations of `FecRecoveryBuffer`: `observe_data`, `take_late_recoveries`,
-- `try_recover` and `tick`, with the parking of groups that wait for a share.
use mlvpn_rs.Common.{
  ℕ, ◌+◌, ◌-◌, Bool, true, false, not, List, [], ◌∷◌, ◌++◌, max, ltb, leb, ◌==◌, if◌then◌else◌,
  length, Option, none, some,
}
use mlvpn_rs.Common.Maps.{lookup, insert, remove}
use mlvpn_rs.Protocol.FecParity.{FecParityPayload}
use mlvpn_rs.Fec.Recovery.State.{
  FecRecoveryBuffer, ParkedGroup, ShareSet, Payload, Recovery, max_parked_groups, was_seen,
  note_seq, mark_seen, rotate_seen, insert_payload,
}
use mlvpn_rs.Fec.Recovery.Evaluate.{
  Eval, recovered, already_complete, unrecoverable, need_more, evaluate,
}

-- `for seq in seqs { self.parked_by_seq.remove(seq); }`
pub remove_all : List ℕ → List (ℕ × ℕ) → List (ℕ × ℕ)
remove_all [] m = m
remove_all (seq ∷ seqs) m = remove_all seqs (remove seq m)

-- `for &seq in &missing { self.parked_by_seq.insert(seq, key); }`
pub insert_all : List ℕ → ℕ → List (ℕ × ℕ) → List (ℕ × ℕ)
insert_all [] key m = m
insert_all (seq ∷ seqs) key m = insert_all seqs key (insert seq key m)

pub drop_parked : FecRecoveryBuffer → ℕ → FecRecoveryBuffer
drop_parked b key = elim (lookup key b.parked) [
  | none ↦ b
  | some g ↦ record b {
    parked = remove key b.parked;
    parked_by_seq = remove_all g.missing b.parked_by_seq;
  }
]

-- The key of the first group of least age, `(k, at)` being the best one so far.
pub oldest_from : ℕ → ℕ → List (ℕ × ParkedGroup) → ℕ
oldest_from k at [] = k
oldest_from k at ((j, g) ∷ m) = if ltb g.at at then oldest_from j g.at m else oldest_from k at m

pub oldest : List (ℕ × ParkedGroup) → Option ℕ
oldest [] = none
oldest ((k, g) ∷ m) = some (oldest_from k g.at m)

pub make_room : FecRecoveryBuffer → FecRecoveryBuffer
make_room b =
    if leb max_parked_groups (length b.parked)
    then elim (oldest b.parked) [
      | none ↦ b
      | some k ↦ (let c = drop_parked b k in record c { given_up = c.given_up + 1 })
    ]
    else b

-- `at` is `Instant::now()`, or what `recheck_parked_for` puts in its place afterwards.
pub park : FecRecoveryBuffer → ℕ → ℕ → ShareSet → List ℕ → FecRecoveryBuffer
park b at key shares missing =
    let c = make_room b in
    record c {
      parked_by_seq = insert_all missing key c.parked_by_seq;
      parked = insert key (record { at = at; shares = shares; missing = missing }) c.parked;
    }

-- What the result of a re-check does to the buffer.
pub settle : FecRecoveryBuffer → ℕ → ℕ → ShareSet → Eval → FecRecoveryBuffer
settle b at key shares (recovered r) = record b { late_recoveries = b.late_recoveries ++ r }
settle b at key shares already_complete = b
settle b at key shares unrecoverable = record b { given_up = b.given_up + 1 }
settle b at key shares (need_more missing) = park b at key shares missing

pub recheck_group : FecRecoveryBuffer → ℕ → ℕ → ParkedGroup → FecRecoveryBuffer
recheck_group b now key g =
    let c = record b {
      parked = remove key b.parked;
      parked_by_seq = remove_all g.missing b.parked_by_seq;
    } in
    let (d, result) = evaluate c now g.shares in settle d g.at key g.shares result

pub recheck_parked_for : FecRecoveryBuffer → ℕ → ℕ → FecRecoveryBuffer
recheck_parked_for b seq now = elim (lookup seq b.parked_by_seq) [
  | none ↦ b
  | some key ↦
      let c = record b { parked_by_seq = remove seq b.parked_by_seq } in
      elim (lookup key c.parked) [ none ↦ c | some g ↦ recheck_group c now key g ]
]

-- The frame is new: mark it, keep it, and look at the groups that wait for it.
pub accept : FecRecoveryBuffer → ℕ → List ℕ → ℕ → FecRecoveryBuffer
accept b seq plaintext now =
    let c = insert_payload (mark_seen b seq now) seq plaintext now in
    if length c.parked == 0 then c else recheck_parked_for c seq now

pub observe_data : FecRecoveryBuffer → ℕ → List ℕ → ℕ → FecRecoveryBuffer × Bool
observe_data b seq plaintext now =
    let c = note_seq b seq in
    if was_seen c seq then (c, false) else (accept c seq plaintext now, true)

-- `!self.late_recoveries.is_empty()`
pub has_late_recoveries : FecRecoveryBuffer → Bool
has_late_recoveries b = not (length b.late_recoveries == 0)

pub take_late_recoveries : FecRecoveryBuffer → FecRecoveryBuffer × List Recovery
take_late_recoveries b = (record b { late_recoveries = [] }, b.late_recoveries)

pub data ParityKind : Type 0 where
  kind_p kind_q : ParityKind

pub data RecoveryOutcome : Type 0 where
  frames_recovered : List Recovery → RecoveryOutcome
  group_unrecoverable group_complete group_pending : RecoveryOutcome

pub add_share : ParityKind → FecParityPayload → ShareSet → ShareSet
add_share kind_p parity shares = record shares { p = some parity }
add_share kind_q parity shares = record shares { q = some parity }

-- The shares that a parked group holds already, taken out of the buffer.
pub unpark : FecRecoveryBuffer → ℕ → FecRecoveryBuffer × ShareSet
unpark b key = elim (lookup key b.parked) [
  | none ↦ (b, record { p = none; q = none })
  | some g ↦ (
    record b { parked = remove key b.parked; parked_by_seq = remove_all g.missing b.parked_by_seq },
    g.shares,
  )
]

pub answer : FecRecoveryBuffer → ℕ → ℕ → ShareSet → Eval → FecRecoveryBuffer × RecoveryOutcome
answer b now key shares (recovered r) = (b, frames_recovered r)
answer b now key shares already_complete = (b, group_complete)
answer b now key shares unrecoverable = (b, group_unrecoverable)
answer b now key shares (need_more missing) = (park b now key shares missing, group_pending)

pub maximum : ℕ → List ℕ → ℕ
maximum m [] = m
maximum m (x ∷ xs) = maximum (max m x) xs

-- The group of the first member seq, `seqs` being the others.
pub recover_group :
    FecRecoveryBuffer
    → ParityKind
    → FecParityPayload
    → ℕ
    → List ℕ
    → ℕ
    → FecRecoveryBuffer × RecoveryOutcome
recover_group b kind parity key seqs now =
    let (c, held) = unpark (note_seq b (maximum key seqs)) key in
    let shares = add_share kind parity held in
    let (d, result) = evaluate c now shares in answer d now key shares result

pub try_recover :
    FecRecoveryBuffer → ParityKind → FecParityPayload → ℕ → FecRecoveryBuffer × RecoveryOutcome
try_recover b kind parity now =
    if not (length parity.member_seqs == length parity.member_lens)
    then (b, group_unrecoverable)
    else elim parity.member_seqs [
      | [] ↦ (b, group_unrecoverable)
      | key ∷ seqs ↦ recover_group b kind parity key seqs now
    ]

-- The front of `payload_order` that is gone or past its time.
pub expire_payloads : ℕ → ℕ → List ℕ → List (ℕ × Payload) → List ℕ × List (ℕ × Payload)
expire_payloads ttl now [] payloads = ([], payloads)
expire_payloads ttl now (seq ∷ order) payloads =
    let rest = expire_payloads ttl now order (remove seq payloads) in
    elim (lookup seq payloads) [
      | none ↦ rest
      | some payload ↦ if leb ttl (now - payload.at) then rest else (seq ∷ order, payloads)
    ]

pub expired_keys : ℕ → ℕ → List (ℕ × ParkedGroup) → List ℕ
expired_keys ttl now [] = []
expired_keys ttl now ((k, g) ∷ m) =
    let rest = expired_keys ttl now m in if leb ttl (now - g.at) then k ∷ rest else rest

pub drop_expired : FecRecoveryBuffer → List ℕ → FecRecoveryBuffer
drop_expired b [] = b
drop_expired b (k ∷ ks) =
    let c = drop_parked b k in drop_expired (record c { given_up = c.given_up + 1 }) ks

pub tick : FecRecoveryBuffer → ℕ → FecRecoveryBuffer × ℕ
tick b now =
    let (order, payloads) = expire_payloads b.payload_ttl now b.payload_order b.payloads in
    let c = record b { payload_order = order; payloads = payloads } in
    let d = drop_expired c (expired_keys c.payload_ttl now c.parked) in
    let e = if leb d.seen_generation (now - d.seen_rotated_at) then rotate_seen d now else d in
    (record e { given_up = 0 }, e.given_up)
