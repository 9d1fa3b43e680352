-- ===== src/Link/Windows.antt =====
-- src/autoreport.rs: the probes and the failures of a link that are remembered, oldest first.
use mlvpn_rs.Common.{
  ℕ, ◌-◌, Bool, ◌||◌, Option, none, some, List, [], ◌∷◌, ◌++◌, length, ltb, if◌then◌else◌,
}

-- Durations are in milliseconds.
abbrev pub probe_history : ℕ
probe_history = 330000

abbrev pub probe_history_max_samples : ℕ
probe_history_max_samples = 16384

abbrev pub down_history : ℕ
down_history = 3600000

abbrev pub down_history_max_samples : ℕ
down_history_max_samples = 256

pub record ProbeWindow : Type 0 where
  pub samples : List (ℕ × Bool)
  pub epoch : Option ℕ

pub record DownTransitions : Type 0 where
  pub times : List ℕ

-- The loop that drops what is at the front while it is too old or too much is held.
unfoldable pub drop_front : {A : Type 0} → (A → ℕ) → ℕ → ℕ → ℕ → List A → List A
drop_front time now max_age max_len [] = []
drop_front time now max_age max_len (x ∷ xs) =
    if ltb max_age (now - time x) || ltb max_len (length (x ∷ xs))
    then drop_front time now max_age max_len xs
    else x ∷ xs

abbrev pub or_now : Option ℕ → ℕ → Option ℕ
or_now none now = some now
or_now (some t) now = some t

unfoldable pub record_probe : ℕ → Bool → ProbeWindow → ProbeWindow
record_probe now hit w = record {
  samples =
      drop_front (λ s. s.0) now probe_history probe_history_max_samples
        (w.samples ++ (now, hit) ∷ []);
  epoch = or_now w.epoch now;
}

abbrev pub clear : ProbeWindow
clear = record { samples = []; epoch = none }

unfoldable pub record_down : ℕ → DownTransitions → DownTransitions
record_down now d = record {
  times = drop_front (λ t. t) now down_history down_history_max_samples (d.times ++ now ∷ []);
}
