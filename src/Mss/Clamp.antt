-- ===== src/Mss/Clamp.antt =====
-- src/mss.rs, what the clamping does to the TCP segment of a packet.
use mlvpn_rs.Common.{
  ℕ, ◌+◌, ◌-◌, ◌*◌, ◌/◌, ◌%◌, ◌^◌, ◌≤◌, ◌<◌, ◌≡◌, ◌⊎◌, inl, inr, refl, sym, subst, ap, ◌∙◌, List,
  ◌++◌, length, take, drop, length-take, length-drop, Option, none, some, Bool-cases, Option-cases,
  ok, ltb, ltb→lt, ltb→le, slice, slice_lem, slice_to_end, ◌>>=◌, arith,
}
use mlvpn_rs.Common.Bytes.{
  AreBytes, be_bytes, byte_at, from_be, length-be_bytes, from_be-be_bytes, be_bytes-AreBytes,
}
use mlvpn_rs.Common.Splice.{
  splice, copy_into, copy_into_lem, length-splice, splice-AreBytes, splice_two, splice-splice,
  window_inside, drop_behind,
}
use mlvpn_rs.Mss.{internet_checksum, tcp_checksum, segment_budget, clamp_segment}
use mlvpn_rs.Mss.Options.{Leads-le}
use mlvpn_rs.Mss.Rewrite.{IsRewritable, Rewrites, kept, replaced, rewrite_mss_if_syn-Rewrites}
use mlvpn_rs.Mss.Segment.{pseudo_header, IsClampable, IsClamped, tcp_header_len_lem}
use mlvpn_rs.Mss.Finish.{checksum_written}

module _ (pseudo : ℕ → List ℕ) (addresses width start cksum_at k : ℕ)
    (in_front : addresses + width + width ≤ start)
    (even : (n : ℕ) → width + (width + length (pseudo n)) ≡ k + k)
    (plain : (n : ℕ) → AreBytes (pseudo n))
    (field : width + width + length (pseudo 0) + 16 ≡ cksum_at) where
  -- The packet in which the option is written, and then the checksum.
  after_writes :
      (packet : List ℕ) (mtu checksum : ℕ) (need : IsClampable start mtu packet)
      → let v = mtu - (start + need.header_len) in
        let result =
          splice
            (splice packet (start + need.at + 2) (be_bytes 2 v))
            (start + 16)
            (be_bytes 2 checksum) in
        v < 2 ^ 16
        → internet_checksum (pseudo_header pseudo addresses width start result ++ drop start result)
          ≡ 0
        → IsClamped pseudo addresses width start mtu packet result
  after_writes packet mtu checksum need small ok_sum =
      let n = need.header_len in
      let at = need.at in
      let r = need.rewritable in
      let fits = need.header_fits in
      let far = Leads-le r.leads in
      let header = take n (drop start packet) in
      let w = r.oversized.whole in
      let header_long : length header ≡ n =
        omega (arith, length-take n (drop start packet), length-drop start packet) in
      let v = be_bytes 2 (mtu - (start + n)) in
      let two = length-be_bytes 2 (mtu - (start + n)) in
      let clamped = splice packet (start + at + 2) v in
      let c = be_bytes 2 checksum in
      let two' = length-be_bytes 2 checksum in
      let long : length clamped ≡ length packet =
        length-splice packet (start + at + 2) v (omega arith) in
      record {
        need = need;
        same_length = length-splice clamped (start + 16) c (omega arith) ∙ long;
        lowered =
            ap (λ x. from_be (take 2 x))
              (ap (λ i. drop i (splice clamped (start + 16) c)) (omega arith)
                ∙ drop_behind (start + at + 2) clamped (start + 16) c (omega arith) (omega arith))
            ∙ ap (λ l. from_be (take l (drop (start + at + 2) clamped))) (sym two)
            ∙ ap from_be (window_inside packet (start + at + 2) v (omega arith))
            ∙ from_be-be_bytes 2 (mtu - (start + n)) small;
        verifies = ok_sum;
        elsewhere = λ j h0 h1 h2 h3.
            splice_two clamped (start + 16) c j two' (omega arith) h0 (omega arith)
            ∙ splice_two packet (start + at + 2) v j two (omega arith) h2 (omega arith);
      }

  -- What follows the rewriting of the header.
  write_back :
      (packet : List ℕ) (mtu n : ℕ) (rewritten : Option (List ℕ))
      → AreBytes packet
      → n ≡ byte_at (drop start packet) 12 / 16 * 4
      → 20 ≤ n
      → start + n ≤ length packet
      → start + 20 ≤ length packet
      → length packet < 2 ^ 16
      → start + n < mtu
      → mtu < 2 ^ 16
      → k + k ≤ start
      → Rewrites (take n (drop start packet)) (mtu - (start + n)) rewritten
      → (result : List ℕ) × (elim rewritten [
        | none ↦ ok packet
        | some header ↦ (do
          clamped ← copy_into packet start header
          src ← slice clamped addresses (addresses + width)
          dst ← slice clamped (addresses + width) (addresses + width + width)
          segment ← slice clamped start (length clamped)
          checksum ← tcp_checksum pseudo cksum_at src dst segment
          copy_into clamped (start + 16) (be_bytes 2 checksum))
      ]
          ≡ ok result)
        × (((result ≡ packet) × (IsClampable start mtu packet → ⊥))
            ⊎ IsClamped pseudo addresses width start mtu packet result)
  write_back packet mtu n none bytes offset n_far fits long short room mtu_u16 tiny (kept alone) = (
    packet,
    refl,
    inl (
      refl,
      λ c.
          let same : c.header_len ≡ n = c.data_offset ∙ sym offset in
          alone c.at (
            subst (λ l. IsRewritable (take l (drop start packet)) (mtu - (start + l)) c.at) same
              c.rewritable),
    ),
  )
  write_back packet mtu n (some header) bytes offset n_far fits long short room mtu_u16 tiny
        (replaced at r) =
      let before = take n (drop start packet) in
      let v = be_bytes 2 (mtu - (start + n)) in
      let two = length-be_bytes 2 (mtu - (start + n)) in
      let w = r.oversized.whole in
      let n_long : length before ≡ n =
        omega (arith, length-take n (drop start packet), length-drop start packet) in
      let header_long : length (splice before (at + 2) v) ≡ n =
        length-splice before (at + 2) v (omega arith) ∙ n_long in
      let i : start + (at + 2) ≡ start + at + 2 = omega arith in
      let clamped = splice packet (start + at + 2) v in
      let whole : splice packet start (splice before (at + 2) v) ≡ clamped =
        splice-splice packet start n (at + 2) v (omega arith) fits
        ∙ ap (λ i. splice packet i v) i in
      let clamped_long : length clamped ≡ length packet =
        length-splice packet (start + at + 2) v (omega arith) in
      let (checksum, e, sum) =
        checksum_written pseudo addresses width start cksum_at k in_front even plain field clamped
          (splice-AreBytes packet (start + at + 2) v bytes
            (be_bytes-AreBytes 2 (mtu - (start + n))))
          (omega arith) (omega arith) tiny in
      rw (copy_into_lem packet start (splice before (at + 2) v) (omega arith), whole)
        (
          splice clamped (start + 16) (be_bytes 2 checksum),
          e,
          inr (
              after_writes packet mtu checksum
                (record {
                  header_len = n;
                  at = at;
                  data_offset = offset;
                  header_long = n_far;
                  header_fits = fits;
                  room = room;
                  rewritable = r;
                })
                (omega arith) sum),
        )

  -- The segment is handled without an error, and the packet kept or its MSS lowered.
  pub clamp_segment-IsClamped :
      (packet : List ℕ) (mtu : ℕ)
      → AreBytes packet
      → start ≤ length packet
      → length packet < 2 ^ 16
      → mtu < 2 ^ 16
      → k + k ≤ start
      → (result : List ℕ) × (clamp_segment
            (tcp_checksum pseudo cksum_at)
            addresses
            width
            start
            packet
            mtu
          ≡ ok result)
        × (((result ≡ packet) × (IsClampable start mtu packet → ⊥))
            ⊎ IsClamped pseudo addresses width start mtu packet result)
  unfolding clamp_segment segment_budget
  clamp_segment-IsClamped packet mtu bytes inside short mtu_u16 tiny =
      let tcp = drop start packet in
      let many : length tcp ≡ length packet - start = length-drop start packet in
      let (found, e, lens) = tcp_header_len_lem tcp in
      rw (slice_to_end packet start inside, e)
        (elim (Option-cases found) [
          | inl absent ↦ rw absent (
            packet,
            refl,
            inl (
              refl,
              λ c.
                  let l = c.header_fits in
                  let f = c.header_long in
                  let there = (lens c.header_len).1 (c.data_offset, f, omega arith) in cc,
            ),
          )
          | inr (n, there) ↦ rw there (
              let (offset, n_long, tcp_long) = (lens n).0 there in
              elim (Bool-cases (ltb (length packet) (start + n))) [
                | inl cut ↦
                    let over = ltb→lt (length packet) (start + n) cut in
                    rw cut (
                      packet,
                      refl,
                      inl (
                        refl,
                        λ c.
                            let l = c.header_fits in
                            let same : c.header_len ≡ n = c.data_offset ∙ sym offset in omega arith,
                      ),
                    )
                | inr whole ↦ rw whole (elim (Bool-cases (ltb (start + n) mtu)) [
                  | inr narrow ↦
                      let over = ltb→le (start + n) mtu narrow in
                      rw narrow (
                        packet,
                        refl,
                        inl (
                          refl,
                          λ c.
                              let l = c.room in
                              let same : c.header_len ≡ n = c.data_offset ∙ sym offset in
                              omega arith,
                        ),
                      )
                  | inl room ↦
                      let fits = ltb→le (length packet) (start + n) whole in
                      let v : (mtu - (start + n)) % 2 ^ 16 ≡ mtu - (start + n) = omega arith in
                      let w : start + n - start ≡ n = omega arith in
                      rw (room, v, slice_lem packet start (start + n) (omega arith) fits, w)
                        (let many_n : length (take n tcp) ≡ n = omega (arith, length-take n tcp) in
                          let (rewritten, step, how) =
                            rewrite_mss_if_syn-Rewrites (take n tcp) (mtu - (start + n))
                              (omega arith) in
                          rw step (
                            write_back packet mtu n rewritten bytes offset n_long fits (omega arith)
                              short (ltb→lt (start + n) mtu room) mtu_u16 tiny how))
                ])
              ])
        ])
