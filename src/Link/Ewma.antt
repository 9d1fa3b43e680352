-- ===== src/Link/Ewma.antt =====
-- src/link.rs: Ewma, a moving average.
use mlvpn_rs.Common.{Option, none, some}
use mlvpn_rs.Scheduler.Floats.{Float}

pub record Ewma (F : Type 0) : Type 0 where
  pub alpha : F
  pub value : Option F

abbrev pub new : {F : Type 0} → F → Ewma F
new a = record { alpha = a; value = none }

module _ {F : Type 0} ⦃f64 : Float F⦄ where
  unfoldable pub blend : F → F → Option F → F
  blend alpha sample none = sample
  blend alpha sample (some prev) =
      f64.add (f64.mul alpha sample) (f64.mul (f64.sub f64.one_value alpha) prev)

  unfoldable pub update : F → Ewma F → Ewma F
  update sample e = record e { value = some (blend e.alpha sample e.value) }

unfoldable pub set_alpha : {F : Type 0} → F → Ewma F → Ewma F
set_alpha a e = record e { alpha = a }
