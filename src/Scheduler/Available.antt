-- ===== src/Scheduler/Available.antt =====
-- src/scheduler.rs: that the tunnel always has a link to send on, and that both ways to choose agree.
use mlvpn_rs.Common.{
  ℕ, suc, ◌≤◌, ◌<◌, ◌≡◌, ◌⊎◌, inl, inr, refl, Bool, true, false, Option, none, some, List, [], ◌∷◌,
  All, arith, Bool-cases, Option-cases, ◌==◌, ne→==, length, ok,
}
use mlvpn_rs.Scheduler.{Scheduler, no_primary, is_set, min_by, min_onto}
use mlvpn_rs.Scheduler.Floats.{Float, Tracker}
use mlvpn_rs.Scheduler.Pick.{LinkScore, is_empty, select, select_fast, less_bad, link_index_of}
use mlvpn_rs.Scheduler.Order.{Has-All, min_onto-All}
use mlvpn_rs.Scheduler.Weights.{indexes}
use mlvpn_rs.Scheduler.Reach.{
  IsConsistent, Reachable, start, after, Choice, no_links, by_primary, least_bad, by_weight,
  select-Choice, start-IsConsistent, Step-IsConsistent,
}

-- Whether there is a value.
abbrev pub is_some {ℓ} : {A : Type ℓ} → Option A → Bool
is_some none = false
is_some (some a) = true

module _ {F C D CS DS : Type 0} ⦃f64 : Float F⦄ (cong : Tracker F C CS)
    (deliv : Tracker F D DS) where
  -- In every state that the scheduler of a tunnel with `n` links reaches, the published primary is the
  -- primary, the primary is a link with an entry, and every entry is for one of the `n` links.
  pub Reachable-IsConsistent :
      {n : ℕ} {s : Scheduler F C D} → Reachable cong deliv n s → IsConsistent n s
  Reachable-IsConsistent {n = n} start = start-IsConsistent cong deliv n
  Reachable-IsConsistent (after r step) =
      Step-IsConsistent cong deliv step (Reachable-IsConsistent r)

  -- The published flag says whether there is a primary, for fewer links than the number that stands for
  -- none.
  pub is_set-primary :
      {n : ℕ} {s : Scheduler F C D}
      → Reachable cong deliv n s
      → n ≤ no_primary
      → is_set s ≡ is_some s.primary
  unfolding is_set
  is_set-primary {n = n} {s = s} r small =
      let c = Reachable-IsConsistent r in
      rw c.chosen.published (elim (Option-cases s.primary) [
        | inl off ↦ rw off refl
        | inr (i, on) ↦
            let within : i < n =
              Has-All (λ i. i < n) (indexes s.entries) i c.in_range (c.chosen.primary_up i on) in
            rw (on, ne→== i no_primary (omega arith)) refl
      ])

  least_bad-within :
      (n : ℕ) (links : List (LinkScore F))
      → All (λ l. l.link_index < n) links
      → is_empty links ≡ false
      → (i : ℕ) × (link_index_of (min_by less_bad links) ≡ some i) × (i < n)
  unfolding min_by
  least_bad-within n [] h some_link = cc
  least_bad-within n (l ∷ ls) h some_link = (
    (min_onto less_bad l ls).link_index,
    refl,
    min_onto-All (λ l. l.link_index < n) less_bad l ls h.0 h.1,
  )

  Choice-bounds :
      {n : ℕ} {s t : Scheduler F C D} {links : List (LinkScore F)} {r : Option ℕ}
      → IsConsistent n s
      → All (λ l. l.link_index < n) links
      → Choice cong deliv s links t r
      → (is_empty links ≡ true → r ≡ none)
        × (is_empty links ≡ false → (i : ℕ) × (r ≡ some i) × (i < n))
  Choice-bounds c h (no_links e) = (λ e. refl, λ e'. cc)
  Choice-bounds {n = n} {s = s} c h (by_primary l i e) = (
    λ e'. cc,
    λ e'.
        (i, refl, Has-All (λ i. i < n) (indexes s.entries) i c.in_range (c.chosen.primary_up i e)),
  )
  Choice-bounds {n = n} {links = links} c h (least_bad e) =
      (λ e'. cc, λ e'. least_bad-within n links h e)
  Choice-bounds {n = n} {s = s} c h (by_weight {idx = idx} l p) = (
    λ e'. cc,
    λ e'. (idx, refl, Has-All (λ i. i < n) (indexes s.entries) idx c.in_range p.has_entry),
  )

  -- A link to send on is chosen in every reachable state as soon as the tunnel has a link, without a panic,
  -- and it is one of the tunnel's links, whether any is up or not. None is chosen exactly if there are none.
  pub select_available :
      {n : ℕ} {s : Scheduler F C D} (now frame_len : ℕ) (links : List (LinkScore F))
      → Reachable cong deliv n s
      → All (λ l. l.link_index < n) links
      → (t : Scheduler F C D) × (r : Option ℕ) × (select cong deliv now links frame_len s
          ≡ ok (t, r))
        × (is_empty links ≡ true → r ≡ none)
        × (is_empty links ≡ false → (i : ℕ) × (r ≡ some i) × (i < n))
  select_available {s = s} now frame_len links r h =
      let (t, chosen, e, how) = select-Choice cong deliv now frame_len links s in
      let (empty, some_link) = Choice-bounds (Reachable-IsConsistent r) h how in
      (t, chosen, e, empty, some_link)

  -- Both ways to choose agree, in the link and in the state that they leave behind, but where there is
  -- neither a primary nor an entry: there the fast one chooses none and leaves the state as it is.
  pub select_fast-select :
      (now frame_len : ℕ) (links : List (LinkScore F)) (s : Scheduler F C D)
      → (select_fast cong deliv now (length links) frame_len s
          ≡ select cong deliv now links frame_len s)
        ⊎ ((select_fast cong deliv now (length links) frame_len s ≡ ok (s, none))
            × (s.primary ≡ none)
            × (is_empty s.entries ≡ true))
  unfolding select_fast select
  select_fast-select now frame_len [] s = inl refl
  select_fast-select now frame_len (l ∷ ls) s =
      let some_link : (suc (length ls) == 0) ≡ false = ne→== (suc (length ls)) 0 (omega arith) in
      elim (Option-cases s.primary) [
        | inr (i, on) ↦ inl (simp (some_link, on) refl)
        | inl off ↦ elim (Bool-cases (is_empty s.entries)) [
          | inl down ↦ inr (simp (some_link, off, down) refl, off, down)
          | inr up ↦ inl (simp (some_link, off, up) refl)
        ]
      ]
