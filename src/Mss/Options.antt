-- ===== src/Mss/Options.antt =====
-- src/mss.rs, the walk over the options of a TCP header and the option that it finds.
use mlvpn_rs.Common.{
  ℕ, zero, suc, ◌+◌, ◌-◌, ◌≤◌, ◌<◌, ◌≡◌, ◌≢◌, ◌↔◌, refl, List, length, Option, none, some, false,
  ok, ◌==◌, ltb, leb, ==→eq, ==→ne, ne→==, lt→leb, leb→le, le→ltb, ltb→le, Bool-cases, inl, inr,
  index_lem, Option-cases, slice_lem, take, drop, arith, ◌||◌,
}
use mlvpn_rs.Common.Bytes.{byte_at, from_be}
use mlvpn_rs.Mss.{find_mss, check_mss, skip_option, tcp_opt_end, tcp_opt_nop, tcp_opt_mss}

-- The value of the option at `i`.
abbrev pub mss_value : List ℕ → ℕ → ℕ
mss_value header i = from_be (take 2 (drop (i + 2) header))

-- From the option at `i` on the well-formed options lead to the one at `j`.
pub data Leads (header : List ℕ) : ℕ → ℕ → Type 0 where
  here : {i : ℕ} → Leads header i i
  nop :
      {i j : ℕ}
      → i < length header
      → byte_at header i ≡ tcp_opt_nop
      → Leads header (i + 1) j
      → Leads header i j
  other :
      {i j : ℕ}
      → i + 1 < length header
      → byte_at header i ≢ tcp_opt_end
      → byte_at header i ≢ tcp_opt_nop
      → byte_at header i ≢ tcp_opt_mss
      → 2 ≤ byte_at header (i + 1)
      → i + byte_at header (i + 1) ≤ length header
      → Leads header (i + byte_at header (i + 1)) j
      → Leads header i j

-- A whole MSS option above the bound stands at `i`.
pub record IsOversized (header : List ℕ) (max_segment i : ℕ) : Type 0 where
  pub whole : i + 4 ≤ length header
  pub kind : byte_at header i ≡ tcp_opt_mss
  pub size : byte_at header (i + 1) ≡ 4
  pub above : max_segment < mss_value header i

check_mss_lem :
    (header : List ℕ) (m i : ℕ) → IsOversized header m i → check_mss header m i ≡ ok (some i)
unfolding check_mss
check_mss_lem header m i o =
    let w = o.whole in
    let two : i + 4 - (i + 2) ≡ 2 = omega arith in
    rw
      (
        le→ltb (length header) (i + 4) w,
        index_lem header (i + 1) (omega arith),
        o.size,
        slice_lem header (i + 2) (i + 4) (omega arith) w,
        two,
        lt→leb (mss_value header i) m o.above,
      )
      refl

check_mss_sound :
    (header : List ℕ) (m i : ℕ)
    → byte_at header i ≡ tcp_opt_mss
    → (found : Option ℕ) × (check_mss header m i ≡ ok found)
      × ((j : ℕ) → found ≡ some j → (j ≡ i) × IsOversized header m i)
unfolding check_mss
check_mss_sound header m i k =
    let two : i + 4 - (i + 2) ≡ 2 = omega arith in
    elim (Bool-cases (ltb (length header) (i + 4))) [
      | inl short ↦ rw short (none, refl, λ j e. cc)
      | inr long ↦
          let w = ltb→le (length header) (i + 4) long in
          rw (long, index_lem header (i + 1) (omega arith))
            (elim (Bool-cases (byte_at header (i + 1) == 4)) [
              | inr unequal ↦ rw unequal (none, refl, λ j e. cc)
              | inl four ↦
                  rw (four, slice_lem header (i + 2) (i + 4) (omega arith) w, two)
                    (elim (Bool-cases (leb (mss_value header i) m)) [
                      | inl fits ↦ rw fits (none, refl, λ j e. cc)
                      | inr above ↦ rw above (
                        some i,
                        refl,
                        λ j e. (
                          cc,
                          record {
                            whole = w;
                            kind = k;
                            size = ==→eq (byte_at header (i + 1)) 4 four;
                            above = ground arith;
                          },
                        ),
                      )
                    ])
            ])
    ]

-- An option that the walk steps over.
Passes : List ℕ → ℕ → ℕ → Type 0
Passes header i j =
    (j ≡ i + byte_at header (i + 1))
    × (i + 1 < length header)
    × (2 ≤ byte_at header (i + 1))
    × (i + byte_at header (i + 1) ≤ length header)

skip_option_lem :
    (header : List ℕ) (i : ℕ)
    → (next : Option ℕ) × (skip_option header i ≡ ok next)
      × ((j : ℕ) → (next ≡ some j) ↔ Passes header i j)
unfolding skip_option Passes
skip_option_lem header i = elim (Bool-cases (leb (length header) (i + 1))) [
  | inl short ↦ rw short (
    none,
    refl,
    λ j. (λ e. cc, λ p. absurd (let a = leb→le (length header) (i + 1) short in omega arith)),
  )
  | inr long ↦
      rw (long, index_lem header (i + 1) (ground arith))
        (elim (Bool-cases
          (ltb (byte_at header (i + 1)) 2 || ltb (length header) (i + byte_at header (i + 1)))) [
            | inl bad ↦ rw bad (none, refl, λ j. (λ e. cc, λ p. ground arith))
            | inr good ↦ rw good (
              some (i + byte_at header (i + 1)),
              refl,
              λ j. (λ e. ground arith, λ p. ground arith),
            )
          ])
]

pub Leads-le : {header : List ℕ} {i j : ℕ} → Leads header i j → i ≤ j
Leads-le here = omega arith
Leads-le (nop l k walk) = omega (arith, Leads-le walk)
Leads-le (other l k0 k1 k2 g r walk) = omega (arith, Leads-le walk)

-- An oversized MSS option that the walk reaches is found.
pub find_mss-Leads :
    (fuel : ℕ) (header : List ℕ) (m i j : ℕ)
    → Leads header i j
    → IsOversized header m j
    → length header < fuel + i
    → find_mss fuel header m i ≡ ok (some j)
unfolding find_mss skip_option
find_mss-Leads zero header m i j walk o h = let w = o.whole in absurd (omega (arith, Leads-le walk))
find_mss-Leads (suc fuel) header m i j here o h =
    let w = o.whole in
    rw (lt→leb (length header) i (omega arith), index_lem header i (omega arith), o.kind)
      (check_mss_lem header m i o)
find_mss-Leads (suc fuel) header m i j (nop l k walk) o h =
    rw (lt→leb (length header) i l, index_lem header i l, k)
      (find_mss-Leads fuel header m (i + 1) j walk o (omega arith))
find_mss-Leads (suc fuel) header m i j (other l k0 k1 k2 g r walk) o h =
    let short : (ltb (byte_at header (i + 1)) 2 || ltb (length header) (i + byte_at header (i + 1)))
        ≡ false =
      ground arith in
    rw
      (
        lt→leb (length header) i (omega arith),
        index_lem header i (omega arith),
        ne→== (byte_at header i) tcp_opt_end k0,
        ne→== (byte_at header i) tcp_opt_nop k1,
        ne→== (byte_at header i) tcp_opt_mss k2,
        lt→leb (length header) (i + 1) l,
        index_lem header (i + 1) l,
        short,
      )
      (find_mss-Leads fuel header m (i + byte_at header (i + 1)) j walk o (omega arith))

-- The walk ends, and what it finds it has reached.
find_mss_sound :
    (fuel : ℕ) (header : List ℕ) (m i : ℕ)
    → length header < fuel + i
    → i ≤ length header
    → (found : Option ℕ) × (find_mss fuel header m i ≡ ok found)
      × ((j : ℕ) → found ≡ some j → Leads header i j × IsOversized header m j)
unfolding find_mss Passes
find_mss_sound zero header m i h b = absurd (omega arith)
find_mss_sound (suc fuel) header m i h b =
    let k = byte_at header i in
    elim (Bool-cases (leb (length header) i)) [
      | inl past ↦ rw past (none, refl, λ j e. cc)
      | inr within ↦
          let l : i < length header = ground arith in
          rw (within, index_lem header i l)
            (elim (Bool-cases (k == tcp_opt_end)) [
              | inl e0 ↦ rw e0 (none, refl, λ j e. cc)
              | inr n0 ↦ rw n0 (elim (Bool-cases (k == tcp_opt_nop)) [
                | inl e1 ↦
                    let (found, e, sound) =
                      find_mss_sound fuel header m (i + 1) (omega arith) (omega arith) in
                    rw e1 (
                      found,
                      e,
                      λ j f. (nop l (==→eq k tcp_opt_nop e1) (sound j f).0, (sound j f).1),
                    )
                | inr n1 ↦ rw n1 (elim (Bool-cases (k == tcp_opt_mss)) [
                  | inl e2 ↦
                      let (found, e, sound) = check_mss_sound header m i (==→eq k tcp_opt_mss e2) in
                      rw e2 (found, e, λ j f. rw (sound j f).0 (here, (sound j f).1))
                  | inr n2 ↦ rw n2 (
                      let (next, step, passes) = skip_option_lem header i in
                      rw step (elim (Option-cases next) [
                        | inl stop ↦ rw stop (none, refl, λ j f. cc)
                        | inr (to, on) ↦
                            let (to_next, l1, two, reaches) = (passes to).0 on in
                            let (found, e, sound) =
                              find_mss_sound fuel header m to (omega arith) (omega arith) in
                            rw on (
                              found,
                              e,
                              λ j f. (
                                other l1 (==→ne k tcp_opt_end n0) (==→ne k tcp_opt_nop n1)
                                    (==→ne k tcp_opt_mss n2) two reaches
                                    (rw (← to_next) (sound j f).0),
                                (sound j f).1,
                              ),
                            )
                      ]))
                ])
              ])
            ])
    ]

-- The loop over the options of a header of at least 20 bytes ends without a panic, and finds an option
-- exactly if it is an MSS option above the bound, whole and four bytes long, that the well-formed
-- options from the start of the list lead to.
pub find_mss_lem :
    (header : List ℕ) (m : ℕ)
    → 20 ≤ length header
    → (found : Option ℕ) × (find_mss (length header) header m 20 ≡ ok found)
      × ((j : ℕ) → (found ≡ some j) ↔ (Leads header 20 j × IsOversized header m j))
find_mss_lem header m long =
    let (found, e, sound) = find_mss_sound (length header) header m 20 (omega arith) long in
    (
      found,
      e,
      λ j. (
        sound j,
        λ (walk, o).
            let there = find_mss-Leads (length header) header m 20 j walk o (omega arith) in cc,
      ),
    )
