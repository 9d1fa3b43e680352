-- ===== src/Tunnel/Tests.antt =====
-- Runs of the FEC gate and of the reorder buffer.
use mlvpn_rs.Common.{ℕ, ◌≡◌, refl, true, false, List, [], ◌∷◌, arith, Option, none, some}
use mlvpn_rs.Fec.Sender.{FecGroup}
use mlvpn_rs.Tunnel.Gate.{
  Event, member_joins, group_sealed, member_drops, new_gate, run_gate, Legal, any_lost,
  sealed_group, settled, run_gate-settled,
}
use mlvpn_rs.Tunnel.Reorder.{Entry, ReorderBuffer, advance_watermark, drain_ready, rx_deliver}
use mlvpn_rs.Tunnel.Reorder.Order.{
  Ascending, find, newest, insert_frames, payloads, WaitsBounded, drain_ready-insert_frames,
  rx_deliver_at_once,
}

-- A channel of one place.
abbrev one_place : List FecGroup → FecGroup → Option (List FecGroup)
one_place [] g = some (g ∷ [])
one_place (x ∷ ch) g = none

abbrev sealed : FecGroup
sealed = record {
  p = record { member_seqs = 4 ∷ []; member_lens = 1 ∷ []; parity = 9 ∷ [] };
  q = none;
  member_links = 0 ∷ [];
}

-- The first member is carried before the second one joins; the seal comes before the last drop.
abbrev events : List Event
events =
    member_joins ∷ member_drops true ∷ member_joins ∷ group_sealed sealed ∷ member_drops true ∷ []

events-Legal : Legal 0 false events
unfolding Legal
events-Legal = (refl, omega arith, (refl, omega arith, (refl, (refl, refl))))

run_gate-settled_example :
    (g : FecGroup) × (sealed_group events ≡ some g)
    × (run_gate one_place (new_gate one_place [] 0) events
        ≡ settled one_place [] 0 (any_lost events) g)
run_gate-settled_example = run_gate-settled one_place [] 0 events events-Legal

-- An empty buffer that has delivered frames up to 9.
abbrev drained : ReorderBuffer
drained = record {
  window = 20000;
  high_watermark = 10;
  pending = [];
  counters = record {
    late = 0;
    duplicate = 0;
    timeout = 0;
    wait_recent_us = 3;
    wait_max_us = 40;
    max_depth = 2;
  };
}

abbrev batch : List (ℕ × List ℕ)
batch = (12, 1 ∷ []) ∷ (10, 2 ∷ []) ∷ (12, 3 ∷ []) ∷ []

drain_ready-insert_frames_example :
    (m : List (ℕ × Entry)) × Ascending none m
    × ((s : ℕ) → find s m ≡ newest s none batch)
    × ((drain_ready (insert_frames drained 100 batch) 120).1 ≡ payloads m)
    × ((drain_ready (insert_frames drained 100 batch) 120).0.pending ≡ [])
drain_ready-insert_frames_example = drain_ready-insert_frames drained 100 120 batch refl

drained-WaitsBounded : WaitsBounded drained
unfolding WaitsBounded
drained-WaitsBounded = omega arith

rx_deliver_at_once_example :
    ((rx_deliver false drained 5 (7 ∷ []) 100 120).1 ≡ (7 ∷ []) ∷ [])
    × ((rx_deliver false drained 5 (7 ∷ []) 100 120).0.pending ≡ [])
    × ((rx_deliver false drained 5 (7 ∷ []) 100 120).0.high_watermark ≡ advance_watermark 10 5)
    × WaitsBounded (rx_deliver false drained 5 (7 ∷ []) 100 120).0
rx_deliver_at_once_example =
    rx_deliver_at_once false drained 5 (7 ∷ []) 100 120 refl drained-WaitsBounded
