-- ===== src/Tunnel/Reorder.antt =====
-- src/tunnel.rs, `ReorderBuffer` and `rx_deliver`: decrypted data frames pass through a sorted buffer, which
-- is drained after each of them. The `BTreeMap` is the list of its entries in ascending order; times are in microseconds.
pub mod Order
use mlvpn_rs.Common.{
  ℕ, ◌+◌, ◌-◌, ◌*◌, ◌/◌, ◌^◌, Bool, true, false, List, [], ◌∷◌, ◌++◌, max, min, ltb, leb, ◌==◌,
  if◌then◌else◌, length, Option, none, some,
}

pub record Entry : Type 0 where
  pub sent_at : ℕ
  pub payload : List ℕ

pub record ReorderCounters : Type 0 where
  pub late : ℕ
  pub duplicate : ℕ
  pub timeout : ℕ
  pub wait_recent_us : ℕ
  pub wait_max_us : ℕ
  pub max_depth : ℕ

pub record ReorderBuffer : Type 0 where
  pub window : ℕ
  pub high_watermark : ℕ
  pub pending : List (ℕ × Entry)
  pub counters : ReorderCounters

pub new : ℕ → ReorderBuffer
new window_ms = record {
  window = window_ms * 1000;
  high_watermark = 0;
  pending = [];
  counters = record {
    late = 0;
    duplicate = 0;
    timeout = 0;
    wait_recent_us = 0;
    wait_max_us = 0;
    max_depth = 0;
  };
}

-- `telemetry::RxPipelineStats`, the fields of it that the buffer stores.
pub record RxPipelineStats : Type 0 where
  pub window_ms : ℕ
  pub depth : ℕ
  pub stats_max_depth : ℕ
  pub stats_wait_recent_us : ℕ
  pub stats_wait_max_us : ℕ
  pub late_total : ℕ
  pub duplicate_total : ℕ
  pub timeout_total : ℕ

pub publish : ReorderBuffer → RxPipelineStats
publish b = record {
  window_ms = b.window / 1000;
  depth = length b.pending;
  stats_max_depth = b.counters.max_depth;
  stats_wait_recent_us = b.counters.wait_recent_us;
  stats_wait_max_us = b.counters.wait_max_us;
  late_total = b.counters.late;
  duplicate_total = b.counters.duplicate;
  timeout_total = b.counters.timeout;
}

-- `wm.fetch_max(seq.saturating_add(1))`
pub advance_watermark : ℕ → ℕ → ℕ
advance_watermark wm seq = max wm (min (seq + 1) (2 ^ 64 - 1))

-- `wm.load().checked_sub(1)`
pub watermark_value : ℕ → Option ℕ
watermark_value wm = if wm == 0 then none else some (wm - 1)

pub note_delivered : ReorderBuffer → ℕ → ReorderBuffer
note_delivered b seq = record b { high_watermark = advance_watermark b.high_watermark seq }

pub watermark : ReorderBuffer → Option ℕ
watermark b = watermark_value b.high_watermark

pub set_window : ReorderBuffer → ℕ → ReorderBuffer
set_window b window_ms = record b { window = window_ms * 1000 }

-- `BTreeMap::insert`: the entries, and whether the key was there.
pub tree_insert : ℕ → Entry → List (ℕ × Entry) → List (ℕ × Entry) × Bool
tree_insert seq e [] = ((seq, e) ∷ [], false)
tree_insert seq e ((k, x) ∷ m) =
    let (rest, found) = tree_insert seq e m in
    if ltb seq k
    then ((seq, e) ∷ (k, x) ∷ m, false)
    else if seq == k
    then ((seq, e) ∷ m, true)
    else ((k, x) ∷ rest, found)

-- `self.watermark().is_some_and(|wm| seq <= wm)`
pub is_late : Option ℕ → ℕ → Bool
is_late none seq = false
is_late (some wm) seq = leb seq wm

pub insert : ReorderBuffer → ℕ → List ℕ → ℕ → ReorderBuffer
insert b seq payload now =
    let (pending, found) =
      tree_insert seq (record { sent_at = now; payload = payload }) b.pending in
    record b {
      pending = pending;
      counters = record b.counters {
        late = b.counters.late + (if is_late (watermark b) seq then 1 else 0);
        duplicate = b.counters.duplicate + (if found then 1 else 0);
        max_depth = max b.counters.max_depth (length pending);
      };
    }

-- The counters after a frame that waited this long.
pub note_wait : ReorderCounters → ℕ → ReorderCounters
note_wait c waited_us = record c {
  wait_recent_us = (c.wait_recent_us - c.wait_recent_us / 8) + waited_us / 8;
  wait_max_us = max c.wait_max_us waited_us;
}

-- The loop of `drain_ready`, on the entries that are left; `duration_since` is 0 for a later time.
pub drain : ReorderBuffer → ℕ → List (ℕ × Entry) → ReorderBuffer × List (List ℕ)
drain b now [] = (record b { pending = [] }, [])
drain b now ((seq, e) ∷ m) =
    let (c, out) =
      drain (note_delivered (record b { counters = note_wait b.counters (now - e.sent_at) }) seq)
        now m in
    (c, e.payload ∷ out)

pub drain_ready : ReorderBuffer → ℕ → ReorderBuffer × List (List ℕ)
drain_ready b now = drain b now b.pending

-- The buffer and the packets that are sent to the TUN device; `now` is the time of the drain.
pub rx_deliver : Bool → ReorderBuffer → ℕ → List ℕ → ℕ → ℕ → ReorderBuffer × List (List ℕ)
rx_deliver primary b seq plaintext inserted_at now =
    if primary
    then (note_delivered b seq, plaintext ∷ [])
    else drain_ready (insert b seq plaintext inserted_at) now
