-- ===== src/Lib.antt =====
-- The core of mlvpn-rs, a VPN that bonds several links into one tunnel: each link has its own WireGuard
-- session, and inside it travel the frames of the protocol that is modelled here.
--
-- How the parts interact. A data frame that is read off the TUN device gets a sequence number, goes
-- through `FecSender::accumulate` and is sent in a plaintext frame (`Header` and payload) on some link.
-- When a group of frames is full, its parity shares are handed to the group's `FecGate`, which lets them
-- go once every frame of the group has reached the wire; they are sent as `FecParityPayload`s, in batches
-- that `plan_gso_runs` cuts into messages. The receiver gives data frames to `observe_data` and parity to
-- `try_recover` of its `FecRecoveryBuffer`, and every frame, received or recovered, to `rx_deliver`, which
-- puts it through the `ReorderBuffer`, drained after each frame, and writes to the TUN device.
--
-- Each link is probed; `update_link_state` takes it up or down by what the probes tell (`LinkStats`).
-- The scheduler picks the link of each frame by the links' scores, by what their queues take
-- (`CongestionTracker`) and by what the peer reports of them (`DeliveryTracker`).
--
-- Which file models what (paths from the repository's root):
--   Common/*                what the rest shares: tests, lists, results and slices, bytes in big-endian
--                           order, the laws of `^`, fields laid out one after the other, maps
--   Protocol/Header         src/protocol.rs: PacketType, Header
--   Protocol/Payloads/*     src/protocol.rs: ProbePayload, StatsPayload, VersionInfoPayload, the payloads
--                           of the throughput test, and the text fields of a fixed size
--   Protocol/FecParity      src/protocol.rs: FecParityPayload
--   Fec/Gf                  src/fec.rs, module gf: the tables of GF(256), mul, inv, mul_acc, scale
--   Fec/Sender              src/fec.rs: FecSender; Fec/Sums says what a share is to hold
--   Fec/Overhead            src/fec.rs: parity_frame_overhead_bytes, mtu_reservation_bytes
--   Fec/Placement           src/fec.rs: choose_parity_link
--   Fec/Recovery/State      src/fec.rs: FecRecoveryBuffer with member_state, note_seq, mark_seen,
--                           rotate_seen, insert_payload
--   Fec/Recovery/Evaluate   src/fec.rs: FecRecoveryBuffer::evaluate
--   Fec/Recovery/Buffer     src/fec.rs: observe_data, try_recover, tick, take_late_recoveries, and the
--                           parking of groups
--   Fec/RoundTrip           the sender's group against the receiver's evaluation
--   Link/Gso                src/link.rs: plan_gso_runs
--   Link/Stats, Link/Ewma   src/link.rs: LinkState, LinkStats, Ewma
--   Link/Windows            src/autoreport.rs: ProbeWindow, DownTransitions
--   Monitor                 src/monitor.rs: ProbeTracker, update_link_state; Monitor/Streaks is about when a
--                           link goes down or up, Monitor/Probes about the probes that are out
--   Control                 src/control.rs: negotiate_tunnel_mtu, mtu_floor_for
--   Control/Mtu             src/control.rs: effective_tunnel_mtu, ResizeFailureLatch, and a round of
--                           mtu_monitor_loop; Control/Negotiation has what holds of them
--   Scheduler               src/scheduler.rs: Scheduler, its penalties and the choice of the primary link
--   Scheduler/Floats        what the scheduler uses of f64 and of its trackers, as interfaces
--   Scheduler/Pick          src/scheduler.rs: the weights, the caps, select and select_fast; the other
--                           children say what holds of both
--   Scheduler/Trackers      the two trackers below as the scheduler holds them; Scheduler/Delivered has
--                           what holds of them in it, Scheduler/Thousandths numbers for the tests
--   Congestion              src/congestion.rs: CongestionTracker and what it calls
--   Delivery                src/delivery.rs: ReportWindow, DeliveryTracker
--   Mss                     src/mss.rs: clamp_if_tcp_syn with all that it calls; Mss/Options and
--                           Mss/Rewrite are about the walk over the options, Mss/Checksum and Mss/Verify
--                           about the checksum, and Mss/Segment, Mss/Finish, Mss/Clamp and Mss/Packet
--                           about the packet
--   Tunnel/Gate             src/tunnel.rs: FecGate, FecMember
--   Tunnel/Reorder          src/tunnel.rs: ReorderBuffer, rx_deliver
--
-- How the code is modelled. A byte, a word and a `usize` are natural numbers; where a number is narrowed
-- or can wrap, the remainder is written out. A slice is a list of numbers, and reading it out of range is
-- the error `panic`. A `HashMap` and a `HashSet` are association lists, a `BTreeMap` a sorted one, a
-- `VecDeque` a list. `&mut self` is the state that is passed and returned. An `Instant` is a number, and
-- the time that an operation reads is an argument of it, read once per call. An `f32` is its bit pattern.
-- The walk over the TCP options runs on fuel, the length of the header, and each step moves on by a byte
-- at least; to run out of fuel is the error `panic`, which is shown not to occur. A kernel that takes or
-- refuses an MTU is a function, which the round of the MTU monitor is given.
-- The theorems of the scheduler and its trackers hold for any type of numbers with the operations of
-- Scheduler/Floats, whose laws are those of comparison, `min`, `clamp` and rounding, and of `total_cmp`.
-- `Instant`s count milliseconds here, and the count of refreshes that a candidate has led never exceeds
-- the threshold by more than one, so it is not cut.
-- The loop of `plan_gso_runs` runs on fuel, the number of datagrams, and each run takes at least one.
-- A method of `FecGate` is one atomic step, and the channel behind it is a parameter.
--
-- What is not modelled: sockets, the TUN device, timers and the async tasks around them; WireGuard and
-- the cryptography, which are third-party code; configuration, telemetry and the front ends; the
-- score that is made of a link's estimates, a floating-point formula. The scheduler is given the scores,
-- its trackers are given the counters as they were read, and what it copies onto counters for
-- diagnostics is left out.
pub mod Common
pub mod Protocol
pub mod Fec
pub mod Link
pub mod Tunnel
pub mod Control
pub mod Mss
pub mod Scheduler
pub mod Delivery
pub mod Congestion
pub mod Monitor
