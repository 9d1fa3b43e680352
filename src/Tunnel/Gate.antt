-- ===== src/Tunnel/Gate.antt =====
-- src/tunnel.rs, `FecGate` and `FecMember`: the parity of a group is released by whoever drops the last
-- token on the gate. Each method call is one step; the steps of the workers come in any order. The
-- channel is tokio's: a parameter `try_send`, which answers `none` where the channel is full or closed.
use mlvpn_rs.Common.{
  ℕ, zero, suc, ◌+◌, ◌-◌, ◌%◌, ◌^◌, ◌<◌, ◌≡◌, refl, ap, subst, ◌∙◌, Bool, true, false, not, ◌||◌,
  List, [], ◌∷◌, arith, ◌==◌, ne→==, if◌then◌else◌, Option, none, some,
}
use mlvpn_rs.Fec.Sender.{FecGroup}

pub record FecGate {ℓ} (Channel : Type ℓ) : Type ℓ where
  pub outstanding : ℕ
  pub phantom : Bool
  pub group : Option FecGroup
  pub ready : Channel
  pub unrecoverable : ℕ

-- What happens to a gate: a member joins, the owner seals it, or a member is dropped, which was marked
-- as carried or was not.
pub data Event : Type 0 where
  member_joins : Event
  group_sealed : FecGroup → Event
  member_drops : Bool → Event

module _ {ℓ} {Channel : Type ℓ} (try_send : Channel → FecGroup → Option Channel) where
  pub new_gate : Channel → ℕ → FecGate Channel
  new_gate ready unrecoverable = record {
    outstanding = 1;
    phantom = false;
    group = none;
    ready = ready;
    unrecoverable = unrecoverable;
  }

  pub join : FecGate Channel → FecGate Channel
  join s = record s { outstanding = (s.outstanding + 1) % 2 ^ 32 }

  -- `unrecoverable.fetch_add(1)` on `u64`, the group being gone already.
  pub give_up : FecGate Channel → FecGate Channel
  give_up s = record s { unrecoverable = (s.unrecoverable + 1) % 2 ^ 64 }

  pub emit_group : FecGate Channel → FecGroup → FecGate Channel
  emit_group s g =
      let t = record s { group = none } in
      if s.phantom
      then give_up t
      else elim (try_send s.ready g) [ none ↦ give_up t | some ready ↦ record t { ready = ready } ]

  pub emit : FecGate Channel → FecGate Channel
  emit s = elim s.group [ none ↦ s | some g ↦ emit_group s g ]

  -- `fetch_sub` wraps, and answers the value before it.
  pub release : FecGate Channel → FecGate Channel
  release s =
      let t = record s { outstanding = (s.outstanding + 2 ^ 32 - 1) % 2 ^ 32 } in
      if s.outstanding == 1 then emit t else t

  pub seal : FecGate Channel → FecGroup → FecGate Channel
  seal s group = release (record s { group = some group })

  pub drop_member : FecGate Channel → Bool → FecGate Channel
  drop_member s carried = release (if carried then s else record s { phantom = true })

  pub step : FecGate Channel → Event → FecGate Channel
  step s member_joins = join s
  step s (group_sealed g) = seal s g
  step s (member_drops carried) = drop_member s carried

  pub run_gate : FecGate Channel → List Event → FecGate Channel
  run_gate s [] = s
  run_gate s (e ∷ es) = run_gate (step s e) es

-- The orders that the sender keeps to: a member joins before the group is sealed, the group is sealed
-- once, and a member is dropped once. `live` members are alive, and `sealed` says whether the group is
-- sealed; at the end it is, and no member is alive.
unfoldable pub Legal : ℕ → Bool → List Event → Type 0
Legal live sealed [] = (live ≡ 0) × (sealed ≡ true)
Legal live sealed (member_joins ∷ es) =
    (sealed ≡ false) × (live + 3 < 2 ^ 32) × Legal (live + 1) sealed es
Legal live sealed (group_sealed g ∷ es) = (sealed ≡ false) × Legal live true es
Legal zero sealed (member_drops carried ∷ es) = ⊥
Legal (suc live) sealed (member_drops carried ∷ es) = Legal live sealed es

-- The member that was dropped without having reached the wire.
pub any_lost : List Event → Bool
any_lost [] = false
any_lost (member_joins ∷ es) = any_lost es
any_lost (group_sealed g ∷ es) = any_lost es
any_lost (member_drops carried ∷ es) = not carried || any_lost es

-- The group that the owner seals.
pub sealed_group : List Event → Option FecGroup
sealed_group [] = none
sealed_group (member_joins ∷ es) = sealed_group es
sealed_group (group_sealed g ∷ es) = some g
sealed_group (member_drops carried ∷ es) = sealed_group es

module _ {ℓ} {Channel : Type ℓ} (try_send : Channel → FecGroup → Option Channel) where
  abbrev gate : ℕ → Bool → Option FecGroup → Channel → ℕ → FecGate Channel
  gate outstanding phantom group ready n = record {
    outstanding = outstanding;
    phantom = phantom;
    group = group;
    ready = ready;
    unrecoverable = n;
  }

  -- A gate whose group is gone: sent once if no member was lost and the channel took it, else counted
  -- once as unrecoverable.
  pub settled : Channel → ℕ → Bool → FecGroup → FecGate Channel
  settled ready n true g = gate 0 true none ready ((n + 1) % 2 ^ 64)
  settled ready n false g = elim (try_send ready g) [
    | none ↦ gate 0 false none ready ((n + 1) % 2 ^ 64)
    | some taken ↦ gate 0 false none taken n
  ]

  emit-settled :
      (ph : Bool) (g : FecGroup) (ready : Channel) (n : ℕ)
      → emit try_send (gate 0 ph (some g) ready n) ≡ settled ready n ph g
  unfolding emit emit_group give_up settled
  emit-settled true g ready n = refl
  emit-settled false g ready n =
      elim (try_send ready g)
        as (λ o.
          elim o [
            | none ↦ give_up try_send (gate 0 false none ready n)
            | some taken ↦ gate 0 false none taken n
          ]
          ≡ elim o [
            | none ↦ gate 0 false none ready ((n + 1) % 2 ^ 64)
            | some taken ↦ gate 0 false none taken n
          ]) [ none ↦ refl | some taken ↦ refl ]

  -- The last token releases the group.
  release_last :
      (ph : Bool) (g : FecGroup) (ready : Channel) (n : ℕ)
      → release try_send (gate 1 ph (some g) ready n) ≡ settled ready n ph g
  unfolding release
  release_last ph g ready n = emit-settled ph g ready n

  release_more :
      (live : ℕ) (ph : Bool) (group : Option FecGroup) (ready : Channel) (n : ℕ)
      → live + 2 < 2 ^ 32
      → release try_send (gate (suc (suc live)) ph group ready n) ≡ gate (suc live) ph group ready n
  unfolding release
  release_more live ph group ready n h =
      let one_less : (suc (suc live) + 2 ^ 32 - 1) % 2 ^ 32 ≡ suc live = omega arith in
      rw (ne→== (suc (suc live)) 1 (omega arith), one_less) refl

  -- With or without having been carried, a member that is dropped takes one token along.
  drop_more :
      (live : ℕ) (ph carried : Bool) (group : Option FecGroup) (ready : Channel) (n : ℕ)
      → live + 2 < 2 ^ 32
      → drop_member try_send (gate (suc (suc live)) ph group ready n) carried
        ≡ gate (suc live) (ph || not carried) group ready n
  unfolding drop_member
  drop_more live false true group ready n h = release_more live false group ready n h
  drop_more live true true group ready n h = release_more live true group ready n h
  drop_more live false false group ready n h = release_more live true group ready n h
  drop_more live true false group ready n h = release_more live true group ready n h

  drop_last :
      (ph carried : Bool) (g : FecGroup) (ready : Channel) (n : ℕ)
      → drop_member try_send (gate 1 ph (some g) ready n) carried
        ≡ settled ready n (ph || not carried) g
  unfolding drop_member
  drop_last false true g ready n = release_last false g ready n
  drop_last true true g ready n = release_last true g ready n
  drop_last false false g ready n = release_last true g ready n
  drop_last true false g ready n = release_last true g ready n

  -- Nothing is left to happen once the group is sealed and no member is alive.
  over : (es : List Event) → Legal 0 true es → es ≡ []
  unfolding Legal
  over [] l = refl
  over (member_joins ∷ es) l = absurd (ground (arith, l.0))
  over (group_sealed g ∷ es) l = absurd (ground (arith, l.0))
  over (member_drops carried ∷ es) l = elim l [ ]

  or_assoc : (a b c : Bool) → ((a || b) || c) ≡ (a || (b || c))
  or_assoc true b c = refl
  or_assoc false b c = refl

  or_false : (a : Bool) → (a || false) ≡ a
  or_false true = refl
  or_false false = refl

  sealed_run :
      (live : ℕ) (ph : Bool) (g : FecGroup) (ready : Channel) (n : ℕ) (es : List Event)
      → live + 2 < 2 ^ 32
      → Legal (suc live) true es
      → run_gate try_send (gate (suc live) ph (some g) ready n) es
        ≡ settled ready n (ph || any_lost es) g
  unfolding run_gate step Legal any_lost
  sealed_run live ph g ready n [] h l = absurd (omega (arith, l.0))
  sealed_run live ph g ready n (member_joins ∷ es) h l = absurd (ground (arith, l.0))
  sealed_run live ph g ready n (group_sealed x ∷ es) h l = absurd (ground (arith, l.0))
  sealed_run zero ph g ready n (member_drops carried ∷ es) h l =
      rw (over es l, drop_last ph carried g ready n, or_false (not carried)) refl
  sealed_run (suc live) ph g ready n (member_drops carried ∷ es) h l =
      rw (drop_more live ph carried (some g) ready n (omega arith)) (
        sealed_run live (ph || not carried) g ready n es (omega arith) l
        ∙ ap (λ b. settled ready n b g) (or_assoc ph (not carried) (any_lost es)))

  open_run :
      (live : ℕ) (ph : Bool) (ready : Channel) (n : ℕ) (es : List Event)
      → live + 2 < 2 ^ 32
      → Legal live false es
      → (g : FecGroup) × (sealed_group es ≡ some g)
        × (run_gate try_send (gate (suc live) ph none ready n) es
            ≡ settled ready n (ph || any_lost es) g)
  unfolding run_gate step join seal Legal any_lost sealed_group
  open_run live ph ready n [] h l = absurd (ground (arith, l.1))
  open_run live ph ready n (member_joins ∷ es) h (same, room, l) =
      let one_more : (suc live + 1) % 2 ^ 32 ≡ suc (suc live) = omega arith in
      let next : live + 1 ≡ suc live = omega arith in
      rw one_more
        (open_run (suc live) ph ready n es (omega arith) (subst (λ k. Legal k false es) next l))
  open_run zero ph ready n (group_sealed g ∷ es) h (same, l) =
      (g, refl, rw (over es l, release_last ph g ready n, or_false ph) refl)
  open_run (suc live) ph ready n (group_sealed g ∷ es) h (same, l) = (
    g,
    refl,
    rw (release_more live ph (some g) ready n (omega arith))
        (sealed_run live ph g ready n es (omega arith) l),
  )
  open_run zero ph ready n (member_drops carried ∷ es) h l = elim l [ ]
  open_run (suc live) ph ready n (member_drops carried ∷ es) h l =
      let (g, e, r) = open_run live (ph || not carried) ready n es (omega arith) l in
      (
        g,
        e,
        rw (drop_more live ph carried none ready n (omega arith))
            (r ∙ ap (λ b. settled ready n b g) (or_assoc ph (not carried) (any_lost es))),
      )

-- In whatever order the members join and are dropped and the group is sealed, within what the sender
-- keeps to: when all is done the gate holds no token and no group, and it has offered the group to the
-- channel exactly once if every member was carried, and never if one was not; a group that was not
-- offered, or not taken, is counted once as unrecoverable.
pub run_gate-settled {ℓ} :
    {Channel : Type ℓ} (try_send : Channel → FecGroup → Option Channel) (ready : Channel) (n : ℕ)
    (es : List Event)
    → Legal 0 false es
    → (g : FecGroup) × (sealed_group es ≡ some g)
      × (run_gate try_send (new_gate try_send ready n) es
          ≡ settled try_send ready n (any_lost es) g)
unfolding new_gate
run_gate-settled try_send ready n es l = open_run try_send 0 false ready n es (omega arith) l
