-- ===== src/Protocol/Payloads/VersionInfo/Laws.antt =====
-- What `decode` makes of the whole payload and of each of its prefixes.
use mathlib.Core.List.{append_assoc, append-nil}
use native.Mathlib.Decide.{dec_lt}
use mlvpn_rs.Common.{
  ℕ, ◌+◌, ◌-◌, ◌≤◌, ◌<◌, ◌≡◌, refl, ap, ◌∙◌, List, [], ◌∷◌, ◌++◌, leb, length, min, le→ltb, le→leb,
  lt→leb, length-append, ok, slice, slice_to_end, if◌then◌else◌, replicate, take, drop, take_all,
  take_within, sym, Bool-cases, inl, inr, tests, ltb, get_or, ◌^◌, take_past, drop-append,
  length-take, arith,
}
use mlvpn_rs.Common.Bytes.{be_bytes, from_be, length-be_bytes, from_be-be_bytes}
use mlvpn_rs.Common.Fields.{concat, offset, slice_field, length-concat}
use mlvpn_rs.Protocol.Payloads.VersionInfo.{
  VersionInfoPayload, IsVersionInfoPayload, encode, decode, u16_or_zero, decode_link_name,
  version_len, link_name_len, name_start, name_end, version_info_len,
}

u16_or_zero_absent : (buf : List ℕ) (i : ℕ) → length buf < i + 2 → u16_or_zero buf i ≡ ok 0
unfolding u16_or_zero
u16_or_zero_absent buf i h = rw (lt→leb (i + 2) (length buf) h)

u16_or_zero_field :
    (fs : List (List ℕ)) (rest : List ℕ) (k i v : ℕ)
    → k < length fs
    → offset fs k ≡ i
    → get_or fs k [] ≡ be_bytes 2 v
    → i + 2 ≤ length (concat fs rest)
    → v < 2 ^ 16
    → u16_or_zero (concat fs rest) i ≡ ok v
unfolding u16_or_zero
u16_or_zero_field fs rest k i v h ei ef long range =
    rw
      (
        le→leb (i + 2) (length (concat fs rest)) long,
        slice_field fs rest k i (i + 2) h ei (omega (arith, ap length ef, length-be_bytes 2 v)),
      )
      (ap (λ f. ok (from_be f)) ef ∙ ap ok (from_be-be_bytes 2 v range))

decode_of_parts :
    (buf version : List ℕ) (mtu : ℕ) (name : List ℕ) (live : ℕ)
    → version_len ≤ length buf
    → slice buf 0 version_len ≡ ok version
    → u16_or_zero buf version_len ≡ ok mtu
    → decode_link_name buf ≡ ok name
    → u16_or_zero buf name_end ≡ ok live
    → decode buf
      ≡ ok (record {
        version = version;
        tunnel_mtu = mtu;
        live_tunnel_mtu = live;
        primary_link_name = name;
      })
unfolding decode
decode_of_parts buf version mtu name live h ev em en el =
    rw (le→ltb (length buf) version_len h, ev, em, en, el)

link_name_absent :
    (buf : List ℕ) → length buf ≤ name_start → decode_link_name buf ≡ ok (replicate link_name_len 0)
unfolding decode_link_name
link_name_absent buf h =
    rw (lt→leb name_end (length buf) (omega arith), le→ltb name_start (length buf) h)

nothing_left :
    (part : List ℕ)
    → length part ≤ 0
    → ok (replicate link_name_len 0) ≡ ok (part ++ replicate (link_name_len - length part) 0)
nothing_left [] h = refl
nothing_left (x ∷ part) h = absurd (omega arith)

-- What a buffer of `n` bytes still carries: a field that it ends before is 0 or empty, and a name is
-- cut where the buffer ends.
abbrev pub truncated : ℕ → VersionInfoPayload → VersionInfoPayload
truncated n p = record p {
  tunnel_mtu = if leb name_start n then p.tunnel_mtu else 0;
  live_tunnel_mtu = if leb version_info_len n then p.live_tunnel_mtu else 0;
  primary_link_name =
      take (n - name_start) p.primary_link_name ++ replicate (min link_name_len (name_end - n)) 0;
}

-- The shapes of a buffer that an older or a newer peer sends.
module _ (p : VersionInfoPayload) (v : IsVersionInfoPayload p) where
  abbrev all_fields : List (List ℕ)
  all_fields =
      p.version ∷ be_bytes 2 p.tunnel_mtu ∷ p.primary_link_name ∷ be_bytes 2 p.live_tunnel_mtu ∷ []

  decode_version_only :
      (rest : List ℕ)
      → length rest < 2
      → decode (p.version ++ rest)
        ≡ ok (record p {
          tunnel_mtu = 0;
          live_tunnel_mtu = 0;
          primary_link_name = replicate link_name_len 0;
        })
  decode_version_only rest short =
      let fs : List (List ℕ) = p.version ∷ [] in
      let ln = v.version_array in
      let whole = length-concat fs rest in
      decode_of_parts (concat fs rest) p.version 0 (replicate link_name_len 0) 0 (omega arith)
        (slice_field fs rest 0 0 version_len (omega arith) (omega arith) (omega arith))
        (u16_or_zero_absent (concat fs rest) version_len (omega arith))
        (link_name_absent (concat fs rest) (omega arith))
        (u16_or_zero_absent (concat fs rest) name_end (omega arith))

  drop_head :
      (part : List ℕ) → drop name_start (p.version ++ (be_bytes 2 p.tunnel_mtu ++ part)) ≡ part
  drop_head part =
      let ln = v.version_array in
      rw (← append_assoc p.version (be_bytes 2 p.tunnel_mtu) part) (
        drop-append name_start (p.version ++ be_bytes 2 p.tunnel_mtu) part (
          omega (
            arith,
            length-append p.version (be_bytes 2 p.tunnel_mtu),
            length-be_bytes 2 p.tunnel_mtu,
          )))

  link_name_part :
      (part : List ℕ)
      → length part < link_name_len
      → decode_link_name (concat (p.version ∷ be_bytes 2 p.tunnel_mtu ∷ []) part)
        ≡ ok (part ++ replicate (link_name_len - length part) 0)
  unfolding decode_link_name
  link_name_part part short =
      let fs : List (List ℕ) = p.version ∷ be_bytes 2 p.tunnel_mtu ∷ [] in
      let ln = v.version_array in
      let l2 = length-be_bytes 2 p.tunnel_mtu in
      let whole = length-concat fs part in
      rw (lt→leb name_end (length (concat fs part)) (omega arith))
        (elim (Bool-cases (ltb name_start (length (concat fs part)))) [
          | inl some_of_it ↦
              rw
                (some_of_it, slice_to_end (concat fs part) name_start (omega arith), drop_head part)
                (ap (λ k. ok (part ++ replicate k 0)) (omega arith))
          | inr nothing ↦ rw nothing (nothing_left part (omega (tests, nothing)))
        ])

  decode_name_part :
      (part : List ℕ)
      → length part < link_name_len
      → decode (concat (p.version ∷ be_bytes 2 p.tunnel_mtu ∷ []) part)
        ≡ ok (record p {
          live_tunnel_mtu = 0;
          primary_link_name = part ++ replicate (link_name_len - length part) 0;
        })
  decode_name_part part short =
      let fs : List (List ℕ) = p.version ∷ be_bytes 2 p.tunnel_mtu ∷ [] in
      let ln = v.version_array in
      let l2 = length-be_bytes 2 p.tunnel_mtu in
      let whole = length-concat fs part in
      decode_of_parts (concat fs part) p.version p.tunnel_mtu
        (part ++ replicate (link_name_len - length part) 0) 0 (omega arith)
        (slice_field fs part 0 0 version_len (omega arith) (omega arith) (omega arith))
        (u16_or_zero_field fs part 1 version_len p.tunnel_mtu (omega arith) (omega arith) refl
          (omega arith) v.tunnel_mtu_u16)
        (link_name_part part short) (u16_or_zero_absent (concat fs part) name_end (omega arith))

  link_name_whole :
      (rest : List ℕ)
      → decode_link_name
          (concat (p.version ∷ be_bytes 2 p.tunnel_mtu ∷ p.primary_link_name ∷ []) rest)
        ≡ ok p.primary_link_name
  unfolding decode_link_name
  link_name_whole rest =
      let fs : List (List ℕ) = p.version ∷ be_bytes 2 p.tunnel_mtu ∷ p.primary_link_name ∷ [] in
      let ln = v.version_array in
      let l2 = length-be_bytes 2 p.tunnel_mtu in
      let l3 = v.link_name_array in
      rw (
        le→leb name_end (length (concat fs rest)) (omega (arith, length-concat fs rest)),
        slice_field fs rest 2 name_start name_end (omega arith) (omega arith) (omega arith),
      )

  decode_no_live :
      (rest : List ℕ)
      → length rest < 2
      → decode (concat (p.version ∷ be_bytes 2 p.tunnel_mtu ∷ p.primary_link_name ∷ []) rest)
        ≡ ok (record p { live_tunnel_mtu = 0 })
  decode_no_live rest short =
      let fs : List (List ℕ) = p.version ∷ be_bytes 2 p.tunnel_mtu ∷ p.primary_link_name ∷ [] in
      let ln = v.version_array in
      let l2 = length-be_bytes 2 p.tunnel_mtu in
      let l3 = v.link_name_array in
      let whole = length-concat fs rest in
      decode_of_parts (concat fs rest) p.version p.tunnel_mtu p.primary_link_name 0 (omega arith)
        (slice_field fs rest 0 0 version_len (omega arith) (omega arith) (omega arith))
        (u16_or_zero_field fs rest 1 version_len p.tunnel_mtu (omega arith) (omega arith) refl
          (omega arith) v.tunnel_mtu_u16)
        (link_name_whole rest) (u16_or_zero_absent (concat fs rest) name_end (omega arith))

  -- The whole payload is read back, also with bytes of a later version behind it.
  pub decode-encode_version_info : (rest : List ℕ) → decode (encode p ++ rest) ≡ ok p
  unfolding encode
  decode-encode_version_info rest =
      let fs = all_fields in
      let ln = v.version_array in
      let l2 = length-be_bytes 2 p.tunnel_mtu in
      let l3 = v.link_name_array in
      let l4 = length-be_bytes 2 p.live_tunnel_mtu in
      let whole = length-concat fs rest in
      simp append_assoc (
        decode_of_parts (concat fs rest) p.version p.tunnel_mtu p.primary_link_name
          p.live_tunnel_mtu (omega arith)
          (slice_field fs rest 0 0 version_len (omega arith) (omega arith) (omega arith))
          (u16_or_zero_field fs rest 1 version_len p.tunnel_mtu (omega arith) (omega arith) refl
            (omega arith) v.tunnel_mtu_u16)
          (link_name_whole (be_bytes 2 p.live_tunnel_mtu ++ rest))
          (u16_or_zero_field fs rest 3 name_end p.live_tunnel_mtu (omega arith) (omega arith) refl
            (omega arith) v.live_tunnel_mtu_u16))

  -- The first `n` bytes, past the end of the field before.
  take_past_field :
      (n k : ℕ) (xs ys : List ℕ) → length xs ≡ k → k ≤ n → take n (xs ++ ys) ≡ xs ++ take (n - k) ys
  take_past_field n k xs ys e h =
      take_past n xs ys (omega arith) ∙ ap (λ m. xs ++ take (n - m) ys) e

  abbrev name_and_live : List ℕ
  name_and_live = p.primary_link_name ++ be_bytes 2 p.live_tunnel_mtu

  truncated_early :
      (n : ℕ)
      → n < name_start
      → ok (record p {
        tunnel_mtu = 0;
        live_tunnel_mtu = 0;
        primary_link_name = replicate link_name_len 0;
      })
        ≡ ok (truncated n p)
  truncated_early n h =
      let none_of_it : n - name_start ≡ 0 = omega arith in
      let all_zero : min link_name_len (name_end - n) ≡ link_name_len = omega arith in
      rw (lt→leb name_start n h, lt→leb version_info_len n (omega arith), none_of_it, all_zero)

  truncated_late :
      (n : ℕ)
      → name_start ≤ n
      → n < version_info_len
      → ok (record p {
        live_tunnel_mtu = 0;
        primary_link_name =
            take (n - name_start) p.primary_link_name
            ++ replicate (min link_name_len (name_end - n)) 0;
      })
        ≡ ok (truncated n p)
  truncated_late n lo hi = rw (le→leb name_start n lo, lt→leb version_info_len n hi)

  take_early :
      (n : ℕ) → version_len ≤ n → n < name_start → decode (take n (encode p)) ≡ ok (truncated n p)
  unfolding encode
  take_early n lo hi =
      let tail = be_bytes 2 p.tunnel_mtu ++ name_and_live in
      ap decode (take_past_field n version_len p.version tail v.version_array lo)
      ∙ decode_version_only (take (n - version_len) tail)
          (omega (arith, length-take (n - version_len) tail))
      ∙ truncated_early n hi

  -- Past the version and the MTU.
  take_head :
      (n : ℕ)
      → name_start ≤ n
      → take n (encode p)
        ≡ concat (p.version ∷ be_bytes 2 p.tunnel_mtu ∷ []) (take (n - name_start) name_and_live)
  unfolding encode
  take_head n h =
      take_past_field n version_len p.version (be_bytes 2 p.tunnel_mtu ++ name_and_live)
        v.version_array (omega arith)
      ∙ ap (◌++◌ p.version) (
          take_past_field (n - version_len) 2 (be_bytes 2 p.tunnel_mtu) name_and_live
            (length-be_bytes 2 p.tunnel_mtu) (omega arith)
          ∙ ap (λ k. be_bytes 2 p.tunnel_mtu ++ take k name_and_live) (omega arith))

  take_in_name :
      (n : ℕ) → name_start ≤ n → n < name_end → decode (take n (encode p)) ≡ ok (truncated n p)
  take_in_name n lo hi =
      let l3 = v.link_name_array in
      let part = take (n - name_start) p.primary_link_name in
      let lp : length part ≡ n - name_start =
        omega (arith, length-take (n - name_start) p.primary_link_name) in
      let zeros : link_name_len - length part ≡ min link_name_len (name_end - n) = omega arith in
      ap decode (
        take_head n lo
        ∙ ap (concat (p.version ∷ be_bytes 2 p.tunnel_mtu ∷ [])) (
            take_within (n - name_start) p.primary_link_name (be_bytes 2 p.live_tunnel_mtu)
              (omega arith)))
      ∙ decode_name_part part (omega arith)
      ∙ rw zeros (truncated_late n lo (omega arith))

  take_after_name :
      (n : ℕ)
      → name_end ≤ n
      → n < version_info_len
      → decode (take n (encode p)) ≡ ok (truncated n p)
  take_after_name n lo hi =
      let l3 = v.link_name_array in
      let rest = take (n - name_start - link_name_len) (be_bytes 2 p.live_tunnel_mtu) in
      let no_zeros : min link_name_len (name_end - n) ≡ 0 = omega arith in
      ap decode (
        take_head n (omega arith)
        ∙ ap (concat (p.version ∷ be_bytes 2 p.tunnel_mtu ∷ [])) (
            take_past_field (n - name_start) link_name_len p.primary_link_name
              (be_bytes 2 p.live_tunnel_mtu) l3 (omega arith)))
      ∙ decode_no_live rest (
          omega
            (arith, length-take (n - name_start - link_name_len) (be_bytes 2 p.live_tunnel_mtu)))
      ∙ whole_name n (omega arith) no_zeros
      ∙ truncated_late n (omega arith) hi
    where
      whole_name :
          (n : ℕ)
          → link_name_len ≤ n - name_start
          → min link_name_len (name_end - n) ≡ 0
          → ok (record p { live_tunnel_mtu = 0 })
            ≡ ok (record p {
              live_tunnel_mtu = 0;
              primary_link_name =
                  take (n - name_start) p.primary_link_name
                  ++ replicate (min link_name_len (name_end - n)) 0;
            })
      whole_name n h e = rw (
        e,
        take_all (n - name_start) p.primary_link_name (omega (arith, v.link_name_array)),
        append-nil,
      )

  take_whole : decode (take version_info_len (encode p)) ≡ ok (truncated version_info_len p)
  unfolding encode
  take_whole =
      let ln = v.version_array in
      let l2 = length-be_bytes 2 p.tunnel_mtu in
      let l3 = v.link_name_array in
      let l4 = length-be_bytes 2 p.live_tunnel_mtu in
      let short : length (encode p) ≤ version_info_len = omega (
        arith,
        length-append p.version (be_bytes 2 p.tunnel_mtu ++ name_and_live),
        length-append (be_bytes 2 p.tunnel_mtu) name_and_live,
        length-append p.primary_link_name (be_bytes 2 p.live_tunnel_mtu),
      ) in
      ap decode (take_all version_info_len (encode p) short ∙ sym (append-nil (encode p)))
      ∙ decode-encode_version_info []
      ∙ ap (λ name. ok (record p { primary_link_name = name }))
          (sym (
            append-nil _
            ∙ take_all (version_info_len - name_start) p.primary_link_name (omega arith)))

  -- Every prefix of the payload that holds the version is accepted: a field that the prefix ends
  -- before reads as 0, and a name reads as far as the prefix goes.
  pub decode-take :
      (n : ℕ)
      → version_len ≤ n
      → n ≤ version_info_len
      → decode (take n (encode p)) ≡ ok (truncated n p)
  decode-take n lo hi = elim (dec_lt n name_start) [
    | yes early ↦ take_early n lo early
    | no past_mtu ↦ elim (dec_lt n name_end) [
      | yes in_name ↦ take_in_name n (omega arith) in_name
      | no past_name ↦ elim (dec_lt n version_info_len) [
        | yes no_live ↦ take_after_name n (omega arith) no_live
        | no past_all ↦ let e : n ≡ version_info_len = omega arith in rw e take_whole
      ]
    ]
  ]
