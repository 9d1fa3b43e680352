-- ===== src/Fec/Recovery/State.antt =====
-- src/fec.rs: the state of `FecRecoveryBuffer` and its private steps `member_state`, `note_seq`,
-- `mark_seen`, `rotate_seen` and `insert_payload`.
use mlvpn_rs.Common.{
  ℕ, ◌+◌, ◌-◌, ◌%◌, ◌^◌, Bool, false, List, [], ◌∷◌, ◌++◌, ◌||◌, ltb, leb, if◌then◌else◌, length,
  Option, none, some,
}
use mlvpn_rs.Common.Maps.{insert, remove, contains_key, contains, set_insert}
use mlvpn_rs.Protocol.FecParity.{FecParityPayload}

abbrev pub max_payloads : ℕ
max_payloads = 4096

abbrev pub max_seen_per_generation : ℕ
max_seen_per_generation = 131072

abbrev pub stale_seq_window : ℕ
stale_seq_window = 65536

abbrev pub seq_reset_gap : ℕ
seq_reset_gap = 2 ^ 24

abbrev pub max_parked_groups : ℕ
max_parked_groups = 512

-- `PAYLOAD_TTL` and `SEEN_GENERATION`, in milliseconds.
abbrev pub payload_ttl_default : ℕ
payload_ttl_default = 2000

abbrev pub seen_generation_default : ℕ
seen_generation_default = 2000

-- A payload with the time at which it was recorded.
pub record Payload : Type 0 where
  pub at : ℕ
  pub bytes : List ℕ

pub record ShareSet : Type 0 where
  pub p : Option FecParityPayload
  pub q : Option FecParityPayload

pub record ParkedGroup : Type 0 where
  pub at : ℕ
  pub shares : ShareSet
  pub missing : List ℕ

-- A frame that was reconstructed: its sequence number and its plaintext.
abbrev pub Recovery : Type 0
Recovery = ℕ × List ℕ

pub record FecRecoveryBuffer : Type 0 where
  pub payload_ttl : ℕ
  pub seen_generation : ℕ
  pub payloads : List (ℕ × Payload)
  pub payload_order : List ℕ
  pub seen_current : List ℕ
  pub seen_previous : List ℕ
  pub seen_rotated_at : ℕ
  pub seen_floor : Option ℕ
  pub seen_rotation_high : Option ℕ
  pub highest_seq : ℕ
  pub parity_count : ℕ
  pub parked : List (ℕ × ParkedGroup)
  pub parked_by_seq : List (ℕ × ℕ)
  pub late_recoveries : List Recovery
  pub given_up : ℕ

-- `new` and `with_params`; the group size only sizes the tables.
pub with_params : ℕ → ℕ → ℕ → ℕ → FecRecoveryBuffer
with_params parity_count payload_ttl seen_generation now = record {
  payload_ttl = payload_ttl;
  seen_generation = seen_generation;
  payloads = [];
  payload_order = [];
  seen_current = [];
  seen_previous = [];
  seen_rotated_at = now;
  seen_floor = none;
  seen_rotation_high = none;
  highest_seq = 0;
  parity_count = parity_count;
  parked = [];
  parked_by_seq = [];
  late_recoveries = [];
  given_up = 0;
}

pub data MemberState : Type 0 where
  known handled missing : MemberState

-- `self.seen_floor.is_some_and(|floor| seq <= floor)`
unfoldable pub below_floor : Option ℕ → ℕ → Bool
below_floor none seq = false
below_floor (some floor) seq = leb seq floor

unfoldable pub was_seen : FecRecoveryBuffer → ℕ → Bool
was_seen b seq = contains b.seen_current seq || contains b.seen_previous seq

-- The sum of the last test is one of `u64`, which wraps.
unfoldable pub member_state : FecRecoveryBuffer → ℕ → MemberState
member_state b seq =
    if contains_key seq b.payloads
    then known
    else if was_seen b seq
    then handled
    else if below_floor b.seen_floor seq
    then handled
    else if leb ((seq + stale_seq_window) % 2 ^ 64) b.highest_seq
    then handled
    else missing

pub note_seq : FecRecoveryBuffer → ℕ → FecRecoveryBuffer
note_seq b seq =
    if ltb b.highest_seq seq
    then record b { highest_seq = seq }
    else if leb seq_reset_gap (b.highest_seq - seq)
    then record b {
      payloads = [];
      payload_order = [];
      seen_current = [];
      seen_previous = [];
      seen_floor = none;
      seen_rotation_high = none;
      highest_seq = seq;
    }
    else b

pub rotate_seen : FecRecoveryBuffer → ℕ → FecRecoveryBuffer
rotate_seen b now = record b {
  seen_previous = b.seen_current;
  seen_current = [];
  seen_floor = b.seen_rotation_high;
  seen_rotation_high = some b.highest_seq;
  seen_rotated_at = now;
}

pub mark_seen : FecRecoveryBuffer → ℕ → ℕ → FecRecoveryBuffer
mark_seen b seq now =
    let marked = record b { seen_current = set_insert seq b.seen_current } in
    if ltb max_seen_per_generation (length marked.seen_current)
    then rotate_seen marked now
    else marked

-- `while payload_order.len() > MAX_PAYLOADS`, oldest first.
pub evict : List ℕ → List (ℕ × Payload) → List ℕ × List (ℕ × Payload)
evict [] payloads = ([], payloads)
evict (oldest ∷ order) payloads =
    let rest = evict order (remove oldest payloads) in
    if ltb max_payloads (length (oldest ∷ order)) then rest else (oldest ∷ order, payloads)

pub insert_payload : FecRecoveryBuffer → ℕ → List ℕ → ℕ → FecRecoveryBuffer
insert_payload b seq plaintext now =
    let order =
      if contains_key seq b.payloads then b.payload_order else b.payload_order ++ (seq ∷ []) in
    let (order', payloads') =
      evict order (insert seq (record { at = now; bytes = plaintext }) b.payloads) in
    record b { payloads = payloads'; payload_order = order' }
