-- ===== src/Fec/Sender/Groups.antt =====
-- A whole group goes through `accumulate`: parity after the last member, and not before.
use mathlib.Core.List.{append_assoc}
use mlvpn_rs.Common.{
  ℕ, ◌+◌, ◌^◌, ◌<◌, ◌≡◌, refl, ap, ◌∙◌, Bool, true, false, List, [], ◌∷◌, ◌++◌, map, arith, length,
  length-append, lt→ltb, le→ltb, Bool-cases, inl, inr, Option, none, some, All, subst,
}
use mlvpn_rs.Common.Bytes.{AreBytes}
use mlvpn_rs.Fec.Sums.{plain, weighted, sum, longest}
use mlvpn_rs.Fec.Sender.{FecSender, FecGroup, new, add_member, take_group, accumulate}
use mlvpn_rs.Fec.Sender.Shares.{IsShare, Building, add_member-Building}
use mlvpn_rs.Protocol.FecParity.{FecParityPayload}

pub record Frame : Type 0 where
  pub seq : ℕ
  pub plaintext : List ℕ
  pub link : ℕ

-- A frame read off the TUN device: bytes, and fewer than 65536 of them.
pub record IsFrame (f : Frame) : Type 0 where
  pub bytes : AreBytes f.plaintext
  pub fits : length f.plaintext < 2 ^ 16

abbrev pub seqs_of : List Frame → List ℕ
seqs_of = map (λ f. f.seq)

abbrev pub plaintexts_of : List Frame → List (List ℕ)
plaintexts_of = map (λ f. f.plaintext)

abbrev pub links_of : List Frame → List ℕ
links_of = map (λ f. f.link)

-- The sender without the group that it is building.
abbrev pub emptied : FecSender → FecSender
emptied s = record s { member_seqs = []; member_lens = []; member_links = []; parity = []; q = [] }

abbrev with_group : Option FecGroup → List FecGroup → List FecGroup
with_group none gs = gs
with_group (some g) gs = g ∷ gs

-- Frame after frame into `accumulate`, with the groups that come out.
unfoldable pub feed : FecSender → List Frame → FecSender × List FecGroup
feed s [] = (s, [])
feed s (f ∷ fs) =
    let (s', out) = accumulate s f.seq f.plaintext f.link in
    let (t, groups) = feed s' fs in (t, with_group out groups)

-- The group carries both shares that the sender is set up for.
pub record Covers (with_q : Bool) (seqs : List ℕ) (ms : List (List ℕ)) (g : FecGroup) : Type 0 where
  pub p_share : IsShare plain seqs ms g.p
  pub q_share : with_q ≡ true → (q : FecParityPayload) × (g.q ≡ some q) × IsShare weighted seqs ms q
  pub no_q : with_q ≡ false → g.q ≡ none

nothing-IsShare :
    (c : ℕ → ℕ → ℕ) → IsShare c [] [] (record { member_seqs = []; member_lens = []; parity = [] })
nothing-IsShare c = record {
  seqs_are = refl;
  lens_are = refl;
  width = unfold longest in refl;
  column = λ j. unfold sum in refl;
}

pub new-Building : (group_size parity_count : ℕ) → Building (new group_size parity_count) [] []
unfolding new
new-Building group_size parity_count = record {
  same_count = refl;
  p_share = nothing-IsShare plain;
  q_share = λ on. nothing-IsShare weighted;
}

take_group-Building : (s : FecSender) → Building (take_group s).0 [] []
unfolding take_group
take_group-Building s = record {
  same_count = refl;
  p_share = nothing-IsShare plain;
  q_share = λ on. rw on (nothing-IsShare weighted);
}

take_group-Covers :
    (s : FecSender) (seqs : List ℕ) (ms : List (List ℕ))
    → Building s seqs ms
    → Covers s.with_q seqs ms (take_group s).1
unfolding take_group
take_group-Covers s seqs ms b = record {
  p_share = b.p_share;
  q_share = λ on. (
    record { member_seqs = s.member_seqs; member_lens = s.member_lens; parity = s.q },
    rw on,
    b.q_share on,
  );
  no_q = λ off. rw off;
}

-- The configuration of a sender, which `accumulate` leaves alone.
abbrev SameSetup : FecSender → FecSender → Type 0
SameSetup s t = (t.group_size ≡ s.group_size) × (t.with_q ≡ s.with_q)

module _ (s : FecSender) (seqs : List ℕ) (ms : List (List ℕ)) (b : Building s seqs ms) (f : Frame)
    (v : IsFrame f) where
  added : FecSender
  added = add_member s f.seq f.plaintext f.link

  added-Building : Building added (seqs ++ (f.seq ∷ [])) (ms ++ (f.plaintext ∷ []))
  unfolding added
  added-Building = add_member-Building s seqs ms b f.seq f.plaintext v.bytes v.fits f.link

  added_setup : SameSetup s added
  unfolding added add_member
  added_setup = (refl, refl)

  added_links : added.member_links ≡ s.member_links ++ (f.link ∷ [])
  unfolding added add_member
  added_links = refl

  added-emptied : emptied added ≡ emptied s
  unfolding added add_member
  added-emptied = refl

  added_no_q : (s.with_q ≡ false → s.q ≡ []) → added.with_q ≡ false → added.q ≡ []
  unfolding added add_member
  added_no_q none_yet off = rw off (none_yet off)

  added_count : length added.member_seqs ≡ length seqs + 1
  added_count = ap length added-Building.p_share.seqs_are ∙ length-append seqs (f.seq ∷ [])

  accumulate_more :
      length seqs + 1 < s.group_size → accumulate s f.seq f.plaintext f.link ≡ (added, none)
  unfolding accumulate added
  accumulate_more more = rw (
      lt→ltb (length added.member_seqs) added.group_size
        (omega (arith, added_count, added_setup.0)))

  accumulate_last :
      length seqs + 1 ≡ s.group_size
      → accumulate s f.seq f.plaintext f.link ≡ ((take_group added).0, some (take_group added).1)
  unfolding accumulate added
  accumulate_last last = rw (
      le→ltb (length added.member_seqs) added.group_size
        (omega (arith, added_count, added_setup.0)))

-- What a run over the rest of a group leaves: one group that covers all members and names their links, and
-- a sender that is set up as before and holds nothing.
pub record Completes (s : FecSender) (seqs : List ℕ) (ms : List (List ℕ)) (links : List ℕ)
    (r : FecSender × List FecGroup) : Type 0 where
  pub group : FecGroup
  pub one_group : r.1 ≡ group ∷ []
  pub covers : Covers s.with_q seqs ms group
  pub on_links : group.member_links ≡ links
  pub holds_nothing : r.0 ≡ emptied s
  pub fresh : Building r.0 [] []
  pub setup : SameSetup s r.0

take_group_setup : (s : FecSender) → SameSetup s (take_group s).0
unfolding take_group
take_group_setup s = (refl, refl)

-- With the group taken out, nothing is left in the sender.
take_group-emptied : (s : FecSender) → (s.with_q ≡ false → s.q ≡ []) → (take_group s).0 ≡ emptied s
unfolding take_group
take_group-emptied s no_q = elim (Bool-cases s.with_q) [
  | inl on ↦ rw on refl
  | inr off ↦ rw (off, no_q off) refl
]

take_group_links : (s : FecSender) → (take_group s).1.member_links ≡ s.member_links
unfolding take_group
take_group_links s = refl

feed_more :
    (s t : FecSender) (f : Frame) (fs : List Frame)
    → accumulate s f.seq f.plaintext f.link ≡ (t, none)
    → feed s (f ∷ fs) ≡ feed t fs
unfolding feed
feed_more s t f fs e = rw e refl

feed_last :
    (s t : FecSender) (g : FecGroup) (f : Frame)
    → accumulate s f.seq f.plaintext f.link ≡ (t, some g)
    → feed s (f ∷ []) ≡ (t, g ∷ [])
unfolding feed
feed_last s t g f e = rw e refl

feed-Completes :
    (s : FecSender) (seqs : List ℕ) (ms : List (List ℕ)) (f : Frame) (fs : List Frame)
    → Building s seqs ms
    → (s.with_q ≡ false → s.q ≡ [])
    → All IsFrame (f ∷ fs)
    → length seqs + length (f ∷ fs) ≡ s.group_size
    → Completes s
        (seqs ++ seqs_of (f ∷ fs))
        (ms ++ plaintexts_of (f ∷ fs))
        (s.member_links ++ links_of (f ∷ fs))
        (feed s (f ∷ fs))
feed-Completes s seqs ms f [] b no_q v n =
    let t = added s seqs ms b f v.0 in
    let bt = added-Building s seqs ms b f v.0 in
    let setup = added_setup s seqs ms b f v.0 in
    let back = take_group_setup t in
    rw
      (feed_last s (take_group t).0 (take_group t).1 f
        (accumulate_last s seqs ms b f v.0 (omega arith)))
      (record {
        group = (take_group t).1;
        one_group = refl;
        covers =
            subst (λ q. Covers q (seqs ++ (f.seq ∷ [])) (ms ++ (f.plaintext ∷ [])) (take_group t).1)
              setup.1 (take_group-Covers t (seqs ++ (f.seq ∷ [])) (ms ++ (f.plaintext ∷ [])) bt);
        on_links = take_group_links t ∙ added_links s seqs ms b f v.0;
        holds_nothing =
            take_group-emptied t (added_no_q s seqs ms b f v.0 no_q)
            ∙ added-emptied s seqs ms b f v.0;
        fresh = take_group-Building t;
        setup = (back.0 ∙ setup.0, back.1 ∙ setup.1);
      })
feed-Completes s seqs ms f (g ∷ fs) b no_q v n =
    let t = added s seqs ms b f v.0 in
    let bt = added-Building s seqs ms b f v.0 in
    let setup = added_setup s seqs ms b f v.0 in
    let rest =
      feed-Completes t (seqs ++ (f.seq ∷ [])) (ms ++ (f.plaintext ∷ [])) g fs bt
        (added_no_q s seqs ms b f v.0 no_q) v.1
        (omega (arith, length-append seqs (f.seq ∷ []), setup.0, n)) in
    rw
      (
        feed_more s t f (g ∷ fs) (accumulate_more s seqs ms b f v.0 (omega arith)),
        ← append_assoc seqs (f.seq ∷ []) (seqs_of (g ∷ fs)),
        ← append_assoc ms (f.plaintext ∷ []) (plaintexts_of (g ∷ fs)),
      )
      (record {
        group = rest.group;
        one_group = rest.one_group;
        covers =
            subst
              (λ q.
                Covers q ((seqs ++ (f.seq ∷ [])) ++ seqs_of (g ∷ fs))
                  ((ms ++ (f.plaintext ∷ [])) ++ plaintexts_of (g ∷ fs)) rest.group)
              setup.1 rest.covers;
        on_links =
            rest.on_links
            ∙ ap (λ ls. ls ++ links_of (g ∷ fs)) (added_links s seqs ms b f v.0)
            ∙ append_assoc s.member_links (f.link ∷ []) (links_of (g ∷ fs));
        holds_nothing = rest.holds_nothing ∙ added-emptied s seqs ms b f v.0;
        fresh = rest.fresh;
        setup = (rest.setup.0 ∙ setup.0, rest.setup.1 ∙ setup.1);
      })

-- A sender that is created for groups of `group_size` and given that many frames emits one group, at
-- the last frame: its P share is the sum of the frames in every column, its Q share, which it has
-- with two parity shares and else not, the weighted sum, both with the frames' sequence numbers and
-- lengths, and the group names the frames' links; and then the sender holds nothing, set up as before.
pub feed-new-Completes :
    (group_size parity_count : ℕ) (f : Frame) (fs : List Frame)
    → All IsFrame (f ∷ fs)
    → length (f ∷ fs) ≡ group_size
    → Completes
        (new group_size parity_count)
        (seqs_of (f ∷ fs))
        (plaintexts_of (f ∷ fs))
        (links_of (f ∷ fs))
        (feed (new group_size parity_count) (f ∷ fs))
unfolding new
feed-new-Completes group_size parity_count f fs v n =
    feed-Completes (new group_size parity_count) [] [] f fs (new-Building group_size parity_count)
      (λ off. refl) v (omega arith)
