-- ===== src/Tunnel/Reorder/Order.antt =====
-- The order in which frames are delivered, and what the counters and the watermark say of them.
use mlvpn_rs.Common.{
  ℕ, ◌-◌, ◌≤◌, ◌<◌, ◌≡◌, refl, sym, ap, subst, ◌∙◌, inl, inr, Bool, true, false, List, [], ◌∷◌,
  arith, ltb, ◌==◌, if◌then◌else◌, Option, none, some, Bool-cases, ne→==, ltb→lt, ltb→le, ==→eq,
  ==→ne,
}
use mlvpn_rs.Tunnel.Reorder.{
  Entry, ReorderBuffer, advance_watermark, note_delivered, tree_insert, insert, note_wait, drain,
  drain_ready, rx_deliver,
}

-- The keys are in strictly ascending order, and all above the bound, if there is one.
pub Ascending : Option ℕ → List (ℕ × Entry) → Type 0
Ascending low [] = Unit {0}
Ascending none ((k, e) ∷ m) = Ascending (some k) m
Ascending (some low) ((k, e) ∷ m) = (low < k) × Ascending (some k) m

-- The payloads in the order of the entries.
pub payloads : List (ℕ × Entry) → List (List ℕ)
payloads [] = []
payloads ((k, e) ∷ m) = e.payload ∷ payloads m

-- The frames that came in, sorted by sequence number, the last of each number.
pub insert_frames : ReorderBuffer → ℕ → List (ℕ × List ℕ) → ReorderBuffer
insert_frames b now [] = b
insert_frames b now ((seq, p) ∷ fs) = insert_frames (insert b seq p now) now fs

drain-payloads :
    (b : ReorderBuffer) (now : ℕ) (m : List (ℕ × Entry)) → (drain b now m).1 ≡ payloads m
unfolding drain payloads
drain-payloads b now [] = refl
drain-payloads b now ((k, e) ∷ m) = ap (◌∷◌ e.payload) (
    drain-payloads
      (note_delivered (record b { counters = note_wait b.counters (now - e.sent_at) }) k) now m)

drain-pending :
    (b : ReorderBuffer) (now : ℕ) (m : List (ℕ × Entry)) → (drain b now m).0.pending ≡ []
unfolding drain
drain-pending b now [] = refl
drain-pending b now ((k, e) ∷ m) =
    drain-pending
      (note_delivered (record b { counters = note_wait b.counters (now - e.sent_at) }) k) now m

-- What the counters of the waits keep: the recent average never exceeds the longest wait.
unfoldable pub WaitsBounded : ReorderBuffer → Type 0
WaitsBounded b = b.counters.wait_recent_us ≤ b.counters.wait_max_us

drain-WaitsBounded :
    (b : ReorderBuffer) (now : ℕ) (m : List (ℕ × Entry))
    → WaitsBounded b
    → WaitsBounded (drain b now m).0
unfolding drain WaitsBounded note_wait note_delivered
drain-WaitsBounded b now [] h = h
drain-WaitsBounded b now ((k, e) ∷ m) h =
    drain-WaitsBounded
      (note_delivered (record b { counters = note_wait b.counters (now - e.sent_at) }) k) now m
      (omega arith)

insert_above :
    (low seq : ℕ) (e : Entry) (m : List (ℕ × Entry))
    → low < seq
    → Ascending (some low) m
    → Ascending (some low) (tree_insert seq e m).0
unfolding tree_insert Ascending
insert_above low seq e [] h a = (h, tt)
insert_above low seq e ((k, x) ∷ m) h (lt, a) = elim (Bool-cases (ltb seq k)) [
  | inl less ↦ rw less (h, (ltb→lt seq k less, a))
  | inr more ↦ elim (Bool-cases (seq == k)) [
    | inl same ↦
        let eq = ==→eq seq k same in
        rw (more, same) (h, subst (λ j. Ascending (some j) m) (sym eq) a)
    | inr other ↦
        let ge = ltb→le seq k more in
        let ne = ==→ne seq k other in rw (more, other) (lt, insert_above k seq e m (omega arith) a)
  ]
]

pub tree_insert-Ascending :
    (seq : ℕ) (e : Entry) (m : List (ℕ × Entry))
    → Ascending none m
    → Ascending none (tree_insert seq e m).0
unfolding tree_insert Ascending
tree_insert-Ascending seq e [] a = tt
tree_insert-Ascending seq e ((k, x) ∷ m) a = elim (Bool-cases (ltb seq k)) [
  | inl less ↦ rw less (ltb→lt seq k less, a)
  | inr more ↦ elim (Bool-cases (seq == k)) [
    | inl same ↦
        let eq = ==→eq seq k same in rw (more, same) (subst (λ j. Ascending (some j) m) (sym eq) a)
    | inr other ↦
        let ge = ltb→le seq k more in
        let ne = ==→ne seq k other in rw (more, other) (insert_above k seq e m (omega arith) a)
  ]
]

-- The payload that the entries hold under a sequence number.
pub find : ℕ → List (ℕ × Entry) → Option (List ℕ)
find seq [] = none
find seq ((k, e) ∷ m) = if seq == k then some e.payload else find seq m

-- The payload of the last frame with this number, `acc` being what was there before.
pub newest : ℕ → Option (List ℕ) → List (ℕ × List ℕ) → Option (List ℕ)
newest seq acc [] = acc
newest seq acc ((k, p) ∷ fs) = newest seq (if seq == k then some p else acc) fs

find-tree_insert :
    (s seq : ℕ) (e : Entry) (m : List (ℕ × Entry))
    → find s (tree_insert seq e m).0 ≡ (if s == seq then some e.payload else find s m)
unfolding find tree_insert
find-tree_insert s seq e [] = refl
find-tree_insert s seq e ((k, x) ∷ m) = elim (Bool-cases (ltb seq k)) [
  | inl less ↦ rw less refl
  | inr more ↦ elim (Bool-cases (seq == k)) [
    | inl same ↦ rw (more, same) (replaced s seq k (==→eq seq k same))
    | inr other ↦
        rw (more, other)
          (elim (Bool-cases (s == k)) [
            | inl here ↦
                let eq = ==→eq s k here in
                let ne = ==→ne seq k other in rw (here, ne→== s seq (λ q. ne (sym q ∙ eq))) refl
            | inr there ↦ rw there (find-tree_insert s seq e m)
          ])
  ]
]
  where
    replaced :
        (s seq k : ℕ)
        → seq ≡ k
        → (if s == seq then some e.payload else find s m)
          ≡ (if s == seq then some e.payload else if s == k then some x.payload else find s m)
    replaced s seq k q = elim (Bool-cases (s == k)) [
      | inl here ↦ rw (q, here) refl
      | inr there ↦ rw (q, there) refl
    ]

insert_frames-find :
    (b : ReorderBuffer) (now : ℕ) (fs : List (ℕ × List ℕ)) (s : ℕ)
    → find s (insert_frames b now fs).pending ≡ newest s (find s b.pending) fs
unfolding insert_frames insert newest
insert_frames-find b now [] s = refl
insert_frames-find b now ((k, p) ∷ fs) s =
    insert_frames-find (insert b k p now) now fs s
    ∙ ap (λ o. newest s o fs)
        (find-tree_insert s k (record { sent_at = now; payload = p }) b.pending)

insert_frames-Ascending :
    (b : ReorderBuffer) (now : ℕ) (fs : List (ℕ × List ℕ))
    → Ascending none b.pending
    → Ascending none (insert_frames b now fs).pending
unfolding insert_frames insert
insert_frames-Ascending b now [] a = a
insert_frames-Ascending b now ((k, p) ∷ fs) a =
    insert_frames-Ascending (insert b k p now) now fs
      (tree_insert-Ascending k (record { sent_at = now; payload = p }) b.pending a)

-- A batch of frames that goes into an empty buffer and is drained: what comes out are the payloads of
-- entries in strictly ascending order of their sequence numbers, in which each number that came in
-- holds the payload of its last frame, and no other number holds any; nothing stays behind.
pub drain_ready-insert_frames :
    (b : ReorderBuffer) (now later : ℕ) (fs : List (ℕ × List ℕ))
    → b.pending ≡ []
    → (m : List (ℕ × Entry)) × Ascending none m
      × ((s : ℕ) → find s m ≡ newest s none fs)
      × ((drain_ready (insert_frames b now fs) later).1 ≡ payloads m)
      × ((drain_ready (insert_frames b now fs) later).0.pending ≡ [])
unfolding drain_ready find
drain_ready-insert_frames b now later fs h =
    let c = insert_frames b now fs in
    (
      c.pending,
      insert_frames-Ascending b now fs (subst (Ascending none) (sym h) (unfold Ascending in tt)),
      (λ s. insert_frames-find b now fs s ∙ ap (λ m. newest s (find s m) fs) h),
      drain-payloads c later c.pending,
      drain-pending c later c.pending,
    )

-- A frame that comes into an empty buffer is delivered at once, alone, whether the primary flag is set
-- or not, and whether or not frames with higher numbers were delivered before it; the buffer stays
-- empty, the watermark takes the frame in, and the average wait stays within the longest one.
pub rx_deliver_at_once :
    (primary : Bool) (b : ReorderBuffer) (seq : ℕ) (plaintext : List ℕ) (inserted_at now : ℕ)
    → b.pending ≡ []
    → WaitsBounded b
    → ((rx_deliver primary b seq plaintext inserted_at now).1 ≡ plaintext ∷ [])
      × ((rx_deliver primary b seq plaintext inserted_at now).0.pending ≡ [])
      × ((rx_deliver primary b seq plaintext inserted_at now).0.high_watermark
          ≡ advance_watermark b.high_watermark seq)
      × WaitsBounded (rx_deliver primary b seq plaintext inserted_at now).0
unfolding rx_deliver drain_ready
rx_deliver_at_once true b seq plaintext inserted_at now h w =
    unfold note_delivered WaitsBounded in (refl, h, refl, w)
rx_deliver_at_once false b seq plaintext inserted_at now h w =
    let c = insert b seq plaintext inserted_at in
    let one : c.pending ≡ (seq, record { sent_at = inserted_at; payload = plaintext }) ∷ [] =
      unfold insert tree_insert in rw h refl in
    (
      drain-payloads c now c.pending ∙ (unfold payloads in ap payloads one),
      drain-pending c now c.pending,
      ap (λ m. (drain c now m).0.high_watermark) one ∙ (unfold drain note_delivered insert in refl),
      drain-WaitsBounded c now c.pending (unfold WaitsBounded insert in w),
    )
