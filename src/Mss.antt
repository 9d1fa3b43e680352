-- ===== src/Mss.antt =====
-- src/mss.rs: the MSS option of a TCP SYN that crosses the tunnel is lowered to what the tunnel carries.
pub mod Checksum
pub mod Options
pub mod Rewrite
pub mod Verify
pub mod Segment
pub mod Finish
pub mod Clamp
pub mod Packet
mod Tests
use mlvpn_rs.Common.{
  ℕ, zero, suc, ◌+◌, ◌-◌, ◌*◌, ◌/◌, ◌%◌, ◌^◌, Bool, List, [], ◌∷◌, ◌++◌, ltb, leb, ◌==◌, ◌||◌, not,
  if◌then◌else◌, length, Option, none, some, Result, ok, err, panic, ◌>>=◌, index, slice,
}
use mlvpn_rs.Common.Bytes.{be_bytes, from_be}
use mlvpn_rs.Common.Splice.{copy_into}

abbrev pub tcp_flag_syn : ℕ
tcp_flag_syn = 0x02

abbrev pub tcp_opt_end : ℕ
tcp_opt_end = 0

abbrev pub tcp_opt_nop : ℕ
tcp_opt_nop = 1

abbrev pub tcp_opt_mss : ℕ
tcp_opt_mss = 2

abbrev pub ipv6_header_len : ℕ
ipv6_header_len = 40

abbrev pub proto_tcp : ℕ
proto_tcp = 6

-- The loop over the pairs of bytes, and the odd byte behind them; the sum is one of `u32`, which wraps.
unfoldable pub add_words : ℕ → List ℕ → ℕ
add_words sum [] = sum
add_words sum (last ∷ []) = (sum + last * 256) % 2 ^ 32
add_words sum (high ∷ low ∷ rest) = add_words ((sum + (high * 256 + low)) % 2 ^ 32) rest

-- `while sum >> 16 != 0`, on fuel.
unfoldable pub fold_carries : ℕ → ℕ → ℕ
fold_carries zero sum = sum
fold_carries (suc fuel) sum =
    let folded = fold_carries fuel (sum % 2 ^ 16 + sum / 2 ^ 16) in
    if sum / 2 ^ 16 == 0 then sum else folded

-- A sum below 2^32 takes at most three rounds. `!x` on `u16` is `65535 - x`.
unfoldable pub internet_checksum : List ℕ → ℕ
internet_checksum bytes = 65535 - fold_carries 3 (add_words 0 bytes) % 2 ^ 16

-- What stands between the addresses and the segment: for IPv4 and for IPv6.
unfoldable pub pseudo_v4 : ℕ → List ℕ
pseudo_v4 len = 0 ∷ proto_tcp ∷ be_bytes 2 (len % 2 ^ 16)

unfoldable pub pseudo_v6 : ℕ → List ℕ
pseudo_v6 len = be_bytes 4 (len % 2 ^ 32) ++ (0 ∷ 0 ∷ 0 ∷ proto_tcp ∷ [])

-- The checksum over the pseudo-header and the segment, with the segment's own field zeroed.
unfoldable pub tcp_checksum : (ℕ → List ℕ) → ℕ → List ℕ → List ℕ → List ℕ → Result ℕ
tcp_checksum pseudo cksum_at src dst tcp_segment = do
  zeroed ←
      copy_into (src ++ (dst ++ (pseudo (length tcp_segment) ++ tcp_segment))) cksum_at (0 ∷ 0 ∷ [])
  ok (internet_checksum zeroed)

unfoldable pub tcp_checksum_v4 : List ℕ → List ℕ → List ℕ → Result ℕ
tcp_checksum_v4 = tcp_checksum pseudo_v4 (12 + 16)

unfoldable pub tcp_checksum_v6 : List ℕ → List ℕ → List ℕ → Result ℕ
tcp_checksum_v6 = tcp_checksum pseudo_v6 (40 + 16)

-- `tcp[12] >> 4` in words of four bytes.
unfoldable pub tcp_header_len : List ℕ → Result (Option ℕ)
tcp_header_len tcp =
    if ltb (length tcp) 20
    then ok none
    else (index tcp 12 >>= λ b. ok (if ltb (b / 16 * 4) 20 then none else some (b / 16 * 4)))

-- The MSS option at `i`: its place, if its value exceeds the bound.
unfoldable pub check_mss : List ℕ → ℕ → ℕ → Result (Option ℕ)
check_mss tcp_header max_segment i =
    if ltb (length tcp_header) (i + 4)
    then ok none
    else (index tcp_header (i + 1) >>= λ opt_len.
        if not (opt_len == 4)
        then ok none
        else (slice tcp_header (i + 2) (i + 4) >>= λ value.
            ok (if leb (from_be value) max_segment then none else some i)))

-- How far an option of another kind at `i` reaches.
unfoldable pub skip_option : List ℕ → ℕ → Result (Option ℕ)
skip_option tcp_header i =
    if leb (length tcp_header) (i + 1)
    then ok none
    else (index tcp_header (i + 1) >>= λ opt_len. ok (
        if ltb opt_len 2 || ltb (length tcp_header) (i + opt_len)
        then none
        else some (i + opt_len)))

-- The loop over the options from `i` on: the place of the MSS option that is to be rewritten. On fuel;
-- to run out of it is an error like a panic, so that the absence of errors shows that it is enough.
unfoldable pub find_mss : ℕ → List ℕ → ℕ → ℕ → Result (Option ℕ)
find_mss zero tcp_header max_segment i = err panic
find_mss (suc fuel) tcp_header max_segment i =
    if leb (length tcp_header) i
    then ok none
    else (index tcp_header i >>= λ kind.
        if kind == tcp_opt_end
        then ok none
        else if kind == tcp_opt_nop
        then find_mss fuel tcp_header max_segment (i + 1)
        else if kind == tcp_opt_mss
        then check_mss tcp_header max_segment i
        else (skip_option tcp_header i >>= λ next. elim next [
          | none ↦ ok none
          | some j ↦ find_mss fuel tcp_header max_segment j
        ]))

-- The rewritten header, if there is something to rewrite.
unfoldable pub rewrite_mss_if_syn : List ℕ → ℕ → Result (Option (List ℕ))
rewrite_mss_if_syn tcp_header max_segment =
    if ltb (length tcp_header) 20
    then ok none
    else (index tcp_header 13 >>= λ flags.
        if flags / tcp_flag_syn % 2 == 0
        then ok none
        else (find_mss (length tcp_header) tcp_header max_segment 20 >>= λ found. elim found [
          | none ↦ ok none
          | some i ↦ copy_into tcp_header (i + 2) (be_bytes 2 max_segment) >>= λ rewritten.
              ok (some rewritten)
        ]))

-- `mtu.checked_sub(ip_header_len)` and `.checked_sub(tcp_header_len)`, if positive, as `u16`.
unfoldable pub segment_budget : ℕ → ℕ → ℕ → Option ℕ
segment_budget mtu ip_header_len tcp_len =
    if ltb (ip_header_len + tcp_len) mtu
    then some ((mtu - (ip_header_len + tcp_len)) % 2 ^ 16)
    else none

-- What both versions of IP do with the TCP segment at `start`: the addresses of `width` bytes stand
-- from `addresses` on.
unfoldable pub clamp_segment :
    (List ℕ → List ℕ → List ℕ → Result ℕ) → ℕ → ℕ → ℕ → List ℕ → ℕ → Result (List ℕ)
clamp_segment checksum_of addresses width start packet mtu = do
  tcp ← slice packet start (length packet)
  tcp_len ← tcp_header_len tcp
  elim tcp_len [
    | none ↦ ok packet
    | some n ↦
        if ltb (length packet) (start + n) then ok packet else elim (segment_budget mtu start n) [
          | none ↦ ok packet
          | some max_segment ↦ (do
            tcp_header ← slice packet start (start + n)
            rewritten ← rewrite_mss_if_syn tcp_header max_segment
            elim rewritten [
              | none ↦ ok packet
              | some header ↦ (do
                clamped ← copy_into packet start header
                src ← slice clamped addresses (addresses + width)
                dst ← slice clamped (addresses + width) (addresses + width + width)
                segment ← slice clamped start (length clamped)
                checksum ← checksum_of src dst segment
                copy_into clamped (start + 16) (be_bytes 2 checksum))
            ])
        ]
  ]

unfoldable pub clamp_ipv4 : List ℕ → ℕ → Result (List ℕ)
clamp_ipv4 packet mtu =
    if ltb (length packet) 20
    then ok packet
    else (index packet 0 >>= λ first.
        let ihl = first % 16 * 4 in
        if ltb ihl 20 || ltb (length packet) (ihl + 20)
        then ok packet
        else (index packet 9 >>= λ proto.
            if not (proto == proto_tcp)
            then ok packet
            else clamp_segment tcp_checksum_v4 12 4 ihl packet mtu))

unfoldable pub clamp_ipv6 : List ℕ → ℕ → Result (List ℕ)
clamp_ipv6 packet mtu =
    if ltb (length packet) ipv6_header_len
    then ok packet
    else (index packet 6 >>= λ proto.
        if not (proto == proto_tcp)
        then ok packet
        else clamp_segment tcp_checksum_v6 8 16 ipv6_header_len packet mtu)

unfoldable pub clamp_if_tcp_syn : List ℕ → ℕ → Result (List ℕ)
clamp_if_tcp_syn [] mtu = ok []
clamp_if_tcp_syn (first ∷ rest) mtu =
    if first / 16 == 4
    then clamp_ipv4 (first ∷ rest) mtu
    else if first / 16 == 6
    then clamp_ipv6 (first ∷ rest) mtu
    else ok (first ∷ rest)
