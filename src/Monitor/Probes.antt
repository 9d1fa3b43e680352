-- ===== src/Monitor/Probes.antt =====
-- src/monitor.rs: a probe is answered or given up, and counts once.
use mlvpn_rs.Common.{
  ℕ, ◌-◌, ◌≡◌, refl, ◌∙◌, true, false, none, List, [], ◌∷◌, All, arith, ltb, ◌==◌, Bool-cases,
  Option-cases, inl, inr,
}
use mlvpn_rs.Common.Maps.{lookup, lookup-insert, lookup-remove}
use mlvpn_rs.Monitor.{ProbeTracker, record_sent, record_reply, retain_recent, sweep_timeouts}

-- A use of the tracker, with its time.
pub data Use : Type 0 where
  sent : ℕ → ℕ → Use
  replied : ℕ → ℕ → Use
  swept : ℕ → Use

unfoldable pub use_tracker : Use → ProbeTracker → ProbeTracker
use_tracker (sent now seq) t = record_sent now seq t
use_tracker (replied now seq) t = (record_reply now seq t).0
use_tracker (swept now) t = (sweep_timeouts now t).0

-- The tracker after these uses, latest first.
abbrev pub used : List Use → ProbeTracker → ProbeTracker
used [] t = t
used (u ∷ us) t = use_tracker u (used us t)

-- The use does not send this probe.
abbrev pub NotSent : ℕ → Use → Type 0
NotSent seq (sent now other) = (other == seq) ≡ false
NotSent seq (replied now other) = true ≡ true
NotSent seq (swept now) = true ≡ true

lookup-retain_recent :
    (now timeout seq : ℕ) (m : List (ℕ × ℕ))
    → lookup seq m ≡ none
    → lookup seq (retain_recent now timeout m) ≡ none
unfolding lookup retain_recent
lookup-retain_recent now timeout seq [] h = refl
lookup-retain_recent now timeout seq ((key, at) ∷ m) h = elim (Bool-cases (key == seq)) [
  | inl same ↦ let no = rw same at h in ground arith
  | inr other ↦
      let rest = lookup-retain_recent now timeout seq m (rw other at h) in
      elim (Bool-cases (ltb (now - at) timeout)) [
        | inl recent ↦ rw (recent, other) rest
        | inr late ↦ rw late rest
      ]
]

use_tracker-lookup :
    (seq : ℕ) (u : Use) (t : ProbeTracker)
    → NotSent seq u
    → lookup seq t.outstanding ≡ none
    → lookup seq (use_tracker u t).outstanding ≡ none
unfolding use_tracker record_sent record_reply sweep_timeouts
use_tracker-lookup seq (sent now other) t away h =
    lookup-insert other seq now t.outstanding ∙ rw away h
use_tracker-lookup seq (replied now other) t away h =
    elim (Option-cases (lookup other t.outstanding)) [
      | inl unknown ↦ rw (use_tracker, record_reply, unknown) h
      | inr (at, known) ↦
          rw (use_tracker, record_reply, known)
            (lookup-remove other seq t.outstanding ∙ elim (Bool-cases (other == seq)) [
              | inl same ↦ rw same refl
              | inr different ↦ rw different h
            ])
    ]
use_tracker-lookup seq (swept now) t away h = lookup-retain_recent now t.timeout seq t.outstanding h

used-lookup :
    (seq : ℕ) (us : List Use) (t : ProbeTracker)
    → All (NotSent seq) us
    → lookup seq t.outstanding ≡ none
    → lookup seq (used us t).outstanding ≡ none
used-lookup seq [] t away h = h
used-lookup seq (u ∷ us) t away h =
    use_tracker-lookup seq u (used us t) away.0 (used-lookup seq us t away.1 h)

replied-lookup :
    (now seq : ℕ) (t : ProbeTracker) → lookup seq (record_reply now seq t).0.outstanding ≡ none
unfolding record_reply
replied-lookup now seq t = elim (Option-cases (lookup seq t.outstanding)) [
  | inl unknown ↦ rw (record_reply, unknown) unknown
  | inr (at, known) ↦ rw (record_reply, known) (lookup-remove seq seq t.outstanding ∙ ground arith)
]

-- Once a reply to a probe was taken, another one gives no round-trip time and leaves the tracker as it is,
-- whatever was sent, answered and given up in between, unless a probe with that number was sent again.
pub answered_once :
    (now later seq : ℕ) (us : List Use) (t : ProbeTracker)
    → All (NotSent seq) us
    → record_reply later seq (used us (record_reply now seq t).0)
      ≡ (used us (record_reply now seq t).0, none)
unfolding record_reply
answered_once now later seq us t away =
    rw (record_reply, used-lookup seq us (record_reply now seq t).0 away (replied-lookup now seq t))
      refl
