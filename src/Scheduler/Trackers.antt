-- ===== src/Scheduler/Trackers.antt =====
-- src/congestion.rs, src/delivery.rs: the trackers of the links as the scheduler holds them.
use mlvpn_rs.Common.{Option}
use mlvpn_rs.Scheduler.Floats.{Float, Tracker}
use mlvpn_rs.Congestion
use mlvpn_rs.Delivery

module _ {F : Type 0} ⦃f64 : Float F⦄ where
  abbrev pub congestion_trackers :
      Tracker F (Congestion.CongestionTracker F) Congestion.CounterSnapshot
  congestion_trackers = record {
    default = Congestion.default_tracker;
    factor = λ t. t.factor;
    observe = Congestion.update;
  }

  abbrev pub delivery_trackers :
      Tracker F (Delivery.DeliveryTracker F) (Option (Delivery.DeliverySample F))
  delivery_trackers = record {
    default = Delivery.default_tracker;
    factor = λ t. t.factor;
    observe = Delivery.observe;
  }
