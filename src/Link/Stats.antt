-- ===== src/Link/Stats.antt =====
-- src/link.rs: LinkState and LinkStats, what the probes and the packets tell of a link.
use mlvpn_rs.Common.{
  ℕ, ◌+◌, ◌-◌, ◌%◌, ◌^◌, true, false, Option, none, some, [], ◌==◌, if◌then◌else◌,
}
use mlvpn_rs.Scheduler.Floats.{Float}
use mlvpn_rs.Link.Ewma
use mlvpn_rs.Link.Ewma.{Ewma}
use mlvpn_rs.Link.Windows.{ProbeWindow, DownTransitions, record_probe, clear}

pub data LinkState : Type 0 where
  probing : LinkState
  up : LinkState
  down : LinkState

unfoldable pub to_wire : LinkState → ℕ
to_wire probing = 0
to_wire up = 1
to_wire down = 2

unfoldable pub from_wire : ℕ → LinkState
from_wire v = if v == 1 then up else if v == 2 then down else probing

-- Everything but the counters that a link shares with the worker that sends.
pub record LinkStats (F : Type 0) : Type 0 where
  pub rtt_ms : Ewma F
  pub jitter_ms : Ewma F
  pub loss_rate : Ewma F
  pub rx_throughput_mbps : Ewma F
  pub tx_throughput_mbps : Ewma F
  pub active_bandwidth_mbps : Ewma F
  pub confirmed_ceiling_mbps : Option F
  pub last_ramp_at : Option ℕ
  pub consecutive_verify_misses : ℕ
  pub last_rtt_ms : Option F
  pub consecutive_misses : ℕ
  pub consecutive_hits : ℕ
  pub probe_window : ProbeWindow
  pub down_transitions : DownTransitions
  pub rx_bytes_since_last_sample : ℕ
  pub last_rx_throughput_sample : ℕ
  pub tx_bytes_since_last_sample : ℕ
  pub last_tx_throughput_sample : ℕ
  pub tx_bytes : ℕ
  pub rx_bytes : ℕ
  pub tx_packets : ℕ
  pub rx_packets : ℕ

unfoldable pub new : {F : Type 0} → ℕ → F → LinkStats F
new now alpha = record {
  rtt_ms = Ewma.new alpha;
  jitter_ms = Ewma.new alpha;
  loss_rate = Ewma.new alpha;
  rx_throughput_mbps = Ewma.new alpha;
  tx_throughput_mbps = Ewma.new alpha;
  active_bandwidth_mbps = Ewma.new alpha;
  confirmed_ceiling_mbps = none;
  last_ramp_at = none;
  consecutive_verify_misses = 0;
  last_rtt_ms = none;
  consecutive_misses = 0;
  consecutive_hits = 0;
  probe_window = clear;
  down_transitions = record { times = [] };
  rx_bytes_since_last_sample = 0;
  last_rx_throughput_sample = now;
  tx_bytes_since_last_sample = 0;
  last_tx_throughput_sample = now;
  tx_bytes = 0;
  rx_bytes = 0;
  tx_packets = 0;
  rx_packets = 0;
}

unfoldable pub set_alpha : {F : Type 0} → F → LinkStats F → LinkStats F
set_alpha alpha s = record s {
  rtt_ms = Ewma.set_alpha alpha s.rtt_ms;
  jitter_ms = Ewma.set_alpha alpha s.jitter_ms;
  loss_rate = Ewma.set_alpha alpha s.loss_rate;
  rx_throughput_mbps = Ewma.set_alpha alpha s.rx_throughput_mbps;
  tx_throughput_mbps = Ewma.set_alpha alpha s.tx_throughput_mbps;
}

module _ {F : Type 0} ⦃f64 : Float F⦄ where
  unfoldable pub with_jitter : F → Option F → Ewma F → Ewma F
  with_jitter rtt none jitter = jitter
  with_jitter rtt (some prev) jitter = Ewma.update (f64.abs (f64.sub rtt prev)) jitter

  unfoldable pub record_rtt : ℕ → F → LinkStats F → LinkStats F
  record_rtt now rtt s = record s {
    rtt_ms = Ewma.update rtt s.rtt_ms;
    jitter_ms = with_jitter rtt s.last_rtt_ms s.jitter_ms;
    last_rtt_ms = some rtt;
    loss_rate = Ewma.update f64.zero_value s.loss_rate;
    consecutive_misses = 0;
    consecutive_hits = (s.consecutive_hits + 1) % 2 ^ 32;
    probe_window = record_probe now true s.probe_window;
  }

  unfoldable pub record_miss : ℕ → LinkStats F → LinkStats F
  record_miss now s = record s {
    loss_rate = Ewma.update f64.one_value s.loss_rate;
    consecutive_misses = (s.consecutive_misses + 1) % 2 ^ 32;
    consecutive_hits = 0;
    probe_window = record_probe now false s.probe_window;
  }

  -- The megabits per second of so many bytes in `elapsed`.
  unfoldable pub mbps_of : ℕ → ℕ → F
  mbps_of bytes elapsed =
      f64.div (f64.div (f64.mul (f64.of_u64 bytes) (f64.literal 8 0)) (f64.as_secs elapsed))
        (f64.literal 1000000 0)

  unfoldable pub record_tx_many : ℕ → ℕ → ℕ → LinkStats F → LinkStats F
  record_tx_many now bytes packets s =
      let since = (s.tx_bytes_since_last_sample + bytes) % 2 ^ 64 in
      let elapsed = now - s.last_tx_throughput_sample in
      let counted = record s {
        tx_bytes = (s.tx_bytes + bytes) % 2 ^ 64;
        tx_packets = (s.tx_packets + packets) % 2 ^ 64;
        tx_bytes_since_last_sample = since;
      } in
      if f64.ge (f64.as_secs elapsed) f64.one_value
      then record counted {
        tx_throughput_mbps = Ewma.update (mbps_of since elapsed) s.tx_throughput_mbps;
        tx_bytes_since_last_sample = 0;
        last_tx_throughput_sample = now;
      }
      else counted

  unfoldable pub record_rx : ℕ → ℕ → LinkStats F → LinkStats F
  record_rx now n s =
      let since = (s.rx_bytes_since_last_sample + n) % 2 ^ 64 in
      let elapsed = now - s.last_rx_throughput_sample in
      let counted = record s {
        rx_bytes = (s.rx_bytes + n) % 2 ^ 64;
        rx_packets = (s.rx_packets + 1) % 2 ^ 64;
        rx_bytes_since_last_sample = since;
      } in
      if f64.ge (f64.as_secs elapsed) f64.one_value
      then record counted {
        rx_throughput_mbps = Ewma.update (mbps_of since elapsed) s.rx_throughput_mbps;
        rx_bytes_since_last_sample = 0;
        last_rx_throughput_sample = now;
      }
      else counted
