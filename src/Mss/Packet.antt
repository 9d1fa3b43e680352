-- ===== src/Mss/Packet.antt =====
-- src/mss.rs, what the clamping does to a packet as a whole, by the version of IP.
use mlvpn_rs.Common.{
  ℕ, ◌+◌, ◌*◌, ◌/◌, ◌%◌, ◌^◌, ◌≤◌, ◌<◌, ◌≡◌, ◌⊎◌, inl, inr, refl, List, [], ◌∷◌, length,
  length-append, Bool-cases, ok, All-append, ◌==◌, ltb, ltb→le, ==→eq, ==→ne, ◌||◌, index_lem,
  arith,
}
use mlvpn_rs.Common.Bytes.{AreBytes, IsByte, be_bytes, byte_at, length-be_bytes, be_bytes-AreBytes}
use mlvpn_rs.Mss.{
  pseudo_v4, pseudo_v6, tcp_checksum_v4, tcp_checksum_v6, proto_tcp, clamp_ipv4, clamp_ipv6,
  ipv6_header_len, clamp_if_tcp_syn,
}
use mlvpn_rs.Mss.Segment.{IsClampable, IsClamped}
use mlvpn_rs.Mss.Clamp.{clamp_segment-IsClamped}

-- Where the TCP segment of an IPv4 packet begins.
abbrev pub ipv4_header_len : List ℕ → ℕ
ipv4_header_len packet = byte_at packet 0 % 16 * 4

-- The packet carries a TCP segment whose MSS is above what the MTU leaves.
pub data NeedsClamping (mtu : ℕ) (packet : List ℕ) : Type 0 where
  over_v4 :
      byte_at packet 0 / 16 ≡ 4
      → byte_at packet 9 ≡ proto_tcp
      → 20 ≤ ipv4_header_len packet
      → IsClampable (ipv4_header_len packet) mtu packet
      → NeedsClamping mtu packet
  over_v6 :
      byte_at packet 0 / 16 ≡ 6
      → byte_at packet 6 ≡ proto_tcp
      → IsClampable ipv6_header_len mtu packet
      → NeedsClamping mtu packet

-- What becomes of a packet.
pub data Clamps (mtu : ℕ) (packet : List ℕ) : List ℕ → Type 0 where
  alone : (NeedsClamping mtu packet → ⊥) → Clamps mtu packet packet
  lowered_v4 :
      {result : List ℕ}
      → byte_at packet 0 / 16 ≡ 4
      → byte_at packet 9 ≡ proto_tcp
      → 20 ≤ ipv4_header_len packet
      → IsClamped pseudo_v4 12 4 (ipv4_header_len packet) mtu packet result
      → Clamps mtu packet result
  lowered_v6 :
      {result : List ℕ}
      → byte_at packet 0 / 16 ≡ 6
      → byte_at packet 6 ≡ proto_tcp
      → IsClamped pseudo_v6 8 16 ipv6_header_len mtu packet result
      → Clamps mtu packet result

-- A packet of one version needs clamping only as one of that version.
as_v4 :
    {mtu : ℕ} {packet : List ℕ}
    → byte_at packet 0 / 16 ≡ 4
    → NeedsClamping mtu packet
    → (byte_at packet 9 ≡ proto_tcp)
      × (20 ≤ ipv4_header_len packet)
      × IsClampable (ipv4_header_len packet) mtu packet
as_v4 version (over_v4 v proto far c) = (proto, far, c)
as_v4 version (over_v6 v proto c) = absurd (omega arith)

as_v6 :
    {mtu : ℕ} {packet : List ℕ}
    → byte_at packet 0 / 16 ≡ 6
    → NeedsClamping mtu packet
    → (byte_at packet 6 ≡ proto_tcp) × IsClampable ipv6_header_len mtu packet
as_v6 version (over_v4 v proto far c) = absurd (omega arith)
as_v6 version (over_v6 v proto c) = (proto, c)

known_version :
    {mtu : ℕ} {packet : List ℕ}
    → NeedsClamping mtu packet
    → (byte_at packet 0 / 16 ≡ 4) ⊎ (byte_at packet 0 / 16 ≡ 6)
known_version (over_v4 v proto far c) = inl v
known_version (over_v6 v proto c) = inr v

-- A TCP header behind the IP header.
long_enough :
    {start mtu : ℕ} {packet : List ℕ} → IsClampable start mtu packet → start + 20 ≤ length packet
long_enough c = let l = c.header_fits in let f = c.header_long in omega arith

length-pseudo_v4 : (n : ℕ) → 4 + (4 + length (pseudo_v4 n)) ≡ 6 + 6
unfolding pseudo_v4
length-pseudo_v4 n = omega (arith, length-be_bytes 2 (n % 2 ^ 16))

pseudo_v4-AreBytes : (n : ℕ) → AreBytes (pseudo_v4 n)
unfolding pseudo_v4
pseudo_v4-AreBytes n = (omega arith, (omega arith, be_bytes-AreBytes 2 (n % 2 ^ 16)))

length-pseudo_v6 : (n : ℕ) → 16 + (16 + length (pseudo_v6 n)) ≡ 20 + 20
unfolding pseudo_v6
length-pseudo_v6 n = omega (
  arith,
  length-be_bytes 4 (n % 2 ^ 32),
  length-append (be_bytes 4 (n % 2 ^ 32)) (0 ∷ 0 ∷ 0 ∷ proto_tcp ∷ []),
)

pseudo_v6-AreBytes : (n : ℕ) → AreBytes (pseudo_v6 n)
unfolding pseudo_v6
pseudo_v6-AreBytes n =
    All-append IsByte (be_bytes 4 (n % 2 ^ 32)) (0 ∷ 0 ∷ 0 ∷ proto_tcp ∷ [])
      (be_bytes-AreBytes 4 (n % 2 ^ 32))
      (omega arith, (omega arith, (omega arith, (omega arith, tt))))

module _ (packet : List ℕ) (mtu : ℕ) (bytes : AreBytes packet) (short : length packet < 2 ^ 16)
    (mtu_u16 : mtu < 2 ^ 16) where
  clamp_ipv4-Clamps :
      byte_at packet 0 / 16 ≡ 4
      → (result : List ℕ) × (clamp_ipv4 packet mtu ≡ ok result) × Clamps mtu packet result
  unfolding clamp_ipv4 tcp_checksum_v4
  clamp_ipv4-Clamps version =
      let start = ipv4_header_len packet in
      elim (Bool-cases (ltb (length packet) 20)) [
        | inl cut ↦ rw cut (
          packet,
          refl,
          alone (λ need.
              let (proto, far, c) = as_v4 version need in let l = long_enough c in ground arith),
        )
        | inr long ↦
            let l = ltb→le (length packet) 20 long in
            rw (long, index_lem packet 0 (omega arith), index_lem packet 9 (omega arith))
              (elim (Bool-cases (ltb start 20 || ltb (length packet) (start + 20))) [
                | inl bad ↦ rw bad (
                  packet,
                  refl,
                  alone (λ need.
                      let (proto, far, c) = as_v4 version need in
                      let l = long_enough c in ground arith),
                )
                | inr good ↦ rw good (elim (Bool-cases (byte_at packet 9 == proto_tcp)) [
                  | inr unknown ↦ rw unknown (
                    packet,
                    refl,
                    alone
                        (λ need. ==→ne (byte_at packet 9) proto_tcp unknown (as_v4 version need).0),
                  )
                  | inl tcp ↦
                      let far : 20 ≤ start = ground arith in
                      let inside : start + 20 ≤ length packet = ground arith in
                      rw tcp (
                        let (result, e, how) =
                          clamp_segment-IsClamped pseudo_v4 12 4 start (12 + 16) 6 (omega arith)
                            length-pseudo_v4 pseudo_v4-AreBytes (omega (arith, length-pseudo_v4 0))
                            packet mtu bytes (omega arith) short mtu_u16 (omega arith) in
                        (
                          result,
                          e,
                          elim how [
                            | inl (same, fits) ↦
                                rw same (alone (λ need. fits (as_v4 version need).2))
                            | inr clamped ↦
                                lowered_v4 version (==→eq (byte_at packet 9) proto_tcp tcp) far
                                  clamped
                          ],
                        ))
                ])
              ])
      ]

  clamp_ipv6-Clamps :
      byte_at packet 0 / 16 ≡ 6
      → (result : List ℕ) × (clamp_ipv6 packet mtu ≡ ok result) × Clamps mtu packet result
  unfolding clamp_ipv6 tcp_checksum_v6
  clamp_ipv6-Clamps version = elim (Bool-cases (ltb (length packet) ipv6_header_len)) [
    | inl cut ↦
        rw cut
          (packet, refl, alone (λ need. let l = long_enough (as_v6 version need).1 in ground arith))
    | inr long ↦
        let l = ltb→le (length packet) ipv6_header_len long in
        rw (long, index_lem packet 6 (omega arith))
          (elim (Bool-cases (byte_at packet 6 == proto_tcp)) [
            | inr unknown ↦ rw unknown (
              packet,
              refl,
              alone (λ need. ==→ne (byte_at packet 6) proto_tcp unknown (as_v6 version need).0),
            )
            | inl tcp ↦ rw tcp (
                let (result, e, how) =
                  clamp_segment-IsClamped pseudo_v6 8 16 40 (40 + 16) 20 (omega arith)
                    length-pseudo_v6 pseudo_v6-AreBytes (omega (arith, length-pseudo_v6 0)) packet
                    mtu bytes (omega arith) short mtu_u16 (omega arith) in
                (
                  result,
                  e,
                  elim how [
                    | inl (same, fits) ↦ rw same (alone (λ need. fits (as_v6 version need).1))
                    | inr clamped ↦
                        lowered_v6 version (==→eq (byte_at packet 6) proto_tcp tcp) clamped
                  ],
                ))
          ])
  ]

-- Every packet of bytes that fits a 16-bit length is handled without a panic. It is left as it is exactly
-- if it is not IPv4 or IPv6 that carries a whole TCP header of a SYN whose options lead to an MSS above
-- what the MTU leaves behind the headers. Else only that MSS and the TCP checksum change: the MSS becomes
-- what the MTU leaves, and the checksum over the pseudo-header and the segment verifies.
pub clamp_if_tcp_syn-Clamps :
    (packet : List ℕ) (mtu : ℕ)
    → AreBytes packet
    → length packet < 2 ^ 16
    → mtu < 2 ^ 16
    → (result : List ℕ) × (clamp_if_tcp_syn packet mtu ≡ ok result) × Clamps mtu packet result
unfolding clamp_if_tcp_syn
clamp_if_tcp_syn-Clamps [] mtu bytes short mtu_u16 = (
  [],
  refl,
  alone (λ need. elim (known_version need) [ inl e ↦ omega arith | inr e ↦ omega arith ]),
)
clamp_if_tcp_syn-Clamps (first ∷ rest) mtu bytes short mtu_u16 =
    elim (Bool-cases (first / 16 == 4)) [
      | inl four ↦
          rw four
            (clamp_ipv4-Clamps (first ∷ rest) mtu bytes short mtu_u16 (==→eq (first / 16) 4 four))
      | inr not_four ↦ rw not_four (elim (Bool-cases (first / 16 == 6)) [
        | inl six ↦
            rw six
              (clamp_ipv6-Clamps (first ∷ rest) mtu bytes short mtu_u16 (==→eq (first / 16) 6 six))
        | inr not_six ↦ rw not_six (
          first ∷ rest,
          refl,
          alone (λ need. elim (known_version need) [
            | inl e ↦ ==→ne (first / 16) 4 not_four e
            | inr e ↦ ==→ne (first / 16) 6 not_six e
          ]),
        )
      ])
    ]
