-- ===== src/Link/Gso.antt =====
-- src/link.rs, `plan_gso_runs`: how a batch of datagrams is cut into the messages of one `sendmmsg`.
use mlvpn_rs.Common.{
  ℕ, zero, suc, ◌+◌, ◌≤◌, ◌<◌, ◌≡◌, refl, ◌⊎◌, inl, inr, Bool, true, false, ◌&&◌, List, [], ◌∷◌,
  arith, ltb, leb, ◌==◌, if◌then◌else◌, length, take, drop, length-drop, length-take, Bool-cases,
  ==→eq, ltb→lt, leb→le,
}

pub record GsoRun : Type 0 where
  pub start : ℕ
  pub len : ℕ

abbrev pub gso_max_segs : ℕ
gso_max_segs = 64

abbrev pub gso_max_bytes : ℕ
gso_max_bytes = 65000

-- The inner loop: the length of the run, `len` datagrams of `bytes` bytes being in it already.
pub extend : ℕ → List (List ℕ) → ℕ → ℕ → ℕ
extend size [] len bytes = len
extend size (d ∷ ds) len bytes =
    let more = extend size ds (len + 1) (bytes + length d) in
    if ltb len gso_max_segs
    then (if length d == size && leb (bytes + length d) gso_max_bytes
        then more
        else if ltb 0 (length d) && (ltb (length d) size && leb (bytes + length d) gso_max_bytes)
        then len + 1
        else len)
    else len

pub run_len : List ℕ → List (List ℕ) → ℕ
run_len d ds =
    if ltb 0 (length d) && leb (length d) 65535 then extend (length d) ds 1 (length d) else 1

-- The outer loop, `i` datagrams being behind it, on fuel.
pub plan_from : ℕ → ℕ → List (List ℕ) → List GsoRun
plan_from zero i dgs = []
plan_from (suc fuel) i [] = []
plan_from (suc fuel) i (d ∷ ds) =
    let len = run_len d ds in
    record { start = i; len = len } ∷ plan_from fuel (i + len) (drop len (d ∷ ds))

pub plan_gso_runs : List (List ℕ) → List GsoRun
plan_gso_runs dgs = plan_from (length dgs) 0 dgs

pub total : List (List ℕ) → ℕ
total [] = 0
total (d ∷ ds) = length d + total ds

-- Datagrams of `size` bytes, the last of which may be shorter, and has a byte.
pub Uniform : ℕ → List (List ℕ) → Type 0
Uniform size [] = Unit {0}
Uniform size (d ∷ []) = (0 < length d) × (length d ≤ size)
Uniform size (d ∷ e ∷ ds) = (length d ≡ size) × Uniform size (e ∷ ds)

-- A single datagram, or a run that the kernel takes as segments of the first one's size.
pub IsMessage : List (List ℕ) → Type 0
IsMessage [] = ⊥
IsMessage (d ∷ []) = Unit {0}
IsMessage (d ∷ e ∷ ds) =
    Uniform (length d) (d ∷ e ∷ ds)
    × (length (d ∷ e ∷ ds) ≤ gso_max_segs)
    × (total (d ∷ e ∷ ds) ≤ gso_max_bytes)

-- The runs cover the datagrams from the `i`-th on, in order and without a gap or an overlap, and each
-- is a message.
pub Covers : ℕ → List (List ℕ) → List GsoRun → Type 0
Covers i dgs [] = dgs ≡ []
Covers i dgs (r ∷ runs) =
    (r.start ≡ i)
    × (r.len ≤ length dgs)
    × IsMessage (take r.len dgs)
    × Covers (i + r.len) (drop r.len dgs) runs

-- What the inner loop adds to the run: `k` datagrams.
abbrev Extends : ℕ → List (List ℕ) → ℕ → ℕ → ℕ → Type 0
Extends size ds len bytes k =
    (extend size ds len bytes ≡ len + k)
    × (k ≤ length ds)
    × Uniform size (take k ds)
    × ((k ≡ 0) ⊎ ((len + k ≤ gso_max_segs) × (bytes + total (take k ds) ≤ gso_max_bytes)))

Uniform-cons :
    (size : ℕ) (d : List ℕ) (ds : List (List ℕ))
    → 0 < size
    → length d ≡ size
    → Uniform size ds
    → Uniform size (d ∷ ds)
unfolding Uniform
Uniform-cons size d [] pos e u = (omega arith, omega arith)
Uniform-cons size d (x ∷ ds) pos e u = (e, u)

both : (a b : Bool) → (a && b) ≡ true → (a ≡ true) × (b ≡ true)
both true true h = (refl, refl)
both true false h = absurd (ground arith)
both false b h = absurd (ground arith)

extend-Extends :
    (size : ℕ) (ds : List (List ℕ)) (len bytes : ℕ)
    → 0 < size
    → (k : ℕ) × Extends size ds len bytes k
unfolding extend Uniform total
extend-Extends size [] len bytes pos = (0, (omega arith, omega arith, tt, inl refl))
extend-Extends size (d ∷ ds) len bytes pos = elim (Bool-cases (ltb len gso_max_segs)) [
  | inr full ↦ (0, (rw full (omega arith), omega arith, tt, inl refl))
  | inl room ↦ elim (Bool-cases (length d == size && leb (bytes + length d) gso_max_bytes)) [
    | inl same ↦
        let (k, (e, le, u, b)) = extend-Extends size ds (len + 1) (bytes + length d) pos in
        let (eq, fit) = both (length d == size) (leb (bytes + length d) gso_max_bytes) same in
        let sized = ==→eq (length d) size eq in
        let fits = leb→le (bytes + length d) gso_max_bytes fit in
        let small = ltb→lt len gso_max_segs room in
        (
          suc k,
          (
            rw (room, same) (omega (arith, e)),
            omega arith,
            Uniform-cons size d (take k ds) pos sized u,
            inr (
                let r = bounds size k len (bytes + length d) ds small fits b in
                (r.0, omega (arith, r.1))),
          ),
        )
    | inr other ↦
        elim (Bool-cases
          (ltb 0 (length d) && (ltb (length d) size && leb (bytes + length d) gso_max_bytes))) [
            | inr no_fit ↦ (0, (rw (room, other, no_fit) (omega arith), omega arith, tt, inl refl))
            | inl short ↦
                let (some_byte, rest) =
                  both (ltb 0 (length d))
                    (ltb (length d) size && leb (bytes + length d) gso_max_bytes) short in
                let (less, fit) =
                  both (ltb (length d) size) (leb (bytes + length d) gso_max_bytes) rest in
                let fits = leb→le (bytes + length d) gso_max_bytes fit in
                let small = ltb→lt len gso_max_segs room in
                let least = ltb→lt 0 (length d) some_byte in
                let below = ltb→lt (length d) size less in
                (
                  1,
                  (
                    rw (room, other, short) refl,
                    omega arith,
                    (least, omega arith),
                    inr (omega arith, omega arith),
                  ),
                )
          ]
  ]
]
  where
    bounds :
        (size k len bytes : ℕ) (ds : List (List ℕ))
        → len < gso_max_segs
        → bytes ≤ gso_max_bytes
        → (k ≡ 0) ⊎ (((len + 1) + k ≤ gso_max_segs) × (bytes + total (take k ds) ≤ gso_max_bytes))
        → (len + suc k ≤ gso_max_segs) × (bytes + total (take k ds) ≤ gso_max_bytes)
    bounds size k len bytes ds lt le (inl z) = (omega arith, rw z (omega arith))
    bounds size k len bytes ds lt le (inr (n, t)) = (omega arith, t)

IsMessage-of :
    (d : List ℕ) (ds : List (List ℕ)) (k : ℕ)
    → Extends (length d) ds 1 (length d) k
    → IsMessage (d ∷ take k ds)
unfolding IsMessage Uniform total
IsMessage-of d ds zero e = tt
IsMessage-of d [] (suc k) (e, le, u, b) = absurd (omega arith)
IsMessage-of d (x ∷ ds) (suc k) (e, le, u, inl z) = absurd (omega arith)
IsMessage-of d (x ∷ ds) (suc k) (e, le, u, inr (n, t)) =
    let size = length-take k ds in ((refl, u), omega arith, t)

-- A run holds its first datagram and none that is not there.
run_len-IsMessage :
    (d : List ℕ) (ds : List (List ℕ))
    → (k : ℕ) × (run_len d ds ≡ suc k) × (k ≤ length ds) × IsMessage (d ∷ take k ds)
unfolding run_len
run_len-IsMessage d ds = elim (Bool-cases (ltb 0 (length d) && leb (length d) 65535)) [
  | inr odd ↦ (0, rw odd refl, omega arith, unfold IsMessage in tt)
  | inl usual ↦
      let pos = ltb→lt 0 (length d) (both (ltb 0 (length d)) (leb (length d) 65535) usual).0 in
      let (k, e) = extend-Extends (length d) ds 1 (length d) pos in
      (k, rw usual (omega (arith, e.0)), e.1, IsMessage-of d ds k e)
]

plan_from-Covers :
    (fuel i : ℕ) (dgs : List (List ℕ)) → length dgs ≤ fuel → Covers i dgs (plan_from fuel i dgs)
unfolding plan_from Covers
plan_from-Covers zero i [] h = refl
plan_from-Covers zero i (d ∷ ds) h = absurd (omega arith)
plan_from-Covers (suc fuel) i [] h = refl
plan_from-Covers (suc fuel) i (d ∷ ds) h =
    let (k, e, le, m) = run_len-IsMessage d ds in
    rw e (
      refl,
      omega arith,
      m,
      plan_from-Covers fuel (i + suc k) (drop k ds) (omega (arith, length-drop k ds)),
    )

-- The runs that are planned for a batch cover its datagrams, each of them once and in order, and each
-- run is either a single datagram or one that the kernel takes: at most 64 datagrams and 65000 bytes,
-- all as long as the first but the last, which may be shorter and is not empty.
pub plan_gso_runs-Covers : (dgs : List (List ℕ)) → Covers 0 dgs (plan_gso_runs dgs)
unfolding plan_gso_runs
plan_gso_runs-Covers dgs = plan_from-Covers (length dgs) 0 dgs (omega arith)
