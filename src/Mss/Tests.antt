-- ===== src/Mss/Tests.antt =====
-- A SYN with an MSS of 1460 behind a padding option, over IPv4.
use mlvpn_rs.Common.{
  ℕ, ◌≡◌, refl, List, [], ◌∷◌, ◌++◌, length, Option, some, ok, arith, ◌↔◌, index, slice,
}
use mlvpn_rs.Common.Bytes.{all_bytes-AreBytes, from_be, be_bytes}
use mlvpn_rs.Mss.{
  clamp_if_tcp_syn, clamp_ipv4, clamp_segment, tcp_header_len, segment_budget, check_mss,
  tcp_checksum_v4, tcp_checksum, pseudo_v4, fold_carries, add_words, find_mss, rewrite_mss_if_syn,
  internet_checksum,
}
use mlvpn_rs.Common.Splice.{copy_into}
use mlvpn_rs.Mss.Options.{Leads, IsOversized, find_mss_lem}
use mlvpn_rs.Mss.Rewrite.{Rewrites, rewrite_mss_if_syn-Rewrites}
use mlvpn_rs.Mss.Packet.{Clamps, clamp_if_tcp_syn-Clamps}

abbrev ip_header : List ℕ
ip_header =
    0x45 ∷ 0 ∷ 0 ∷ 48 ∷ 0 ∷ 0 ∷ 0 ∷ 0 ∷ 64 ∷ 6 ∷ 0 ∷ 0 ∷ 10 ∷ 0 ∷ 0 ∷ 1 ∷ 10 ∷ 0 ∷ 0 ∷ 2 ∷ []

abbrev tcp_header : List ℕ
tcp_header =
    0 ∷ 80 ∷ 1 ∷ 187 ∷ 0 ∷ 0 ∷ 0 ∷ 1 ∷ 0 ∷ 0 ∷ 0 ∷ 0 ∷ 0x70 ∷ 2 ∷ 255 ∷ 255 ∷ 0xab ∷ 0xcd ∷ 0 ∷ 0
    ∷ 1 ∷ 2 ∷ 4 ∷ 5 ∷ 180 ∷ 1 ∷ 1 ∷ 0 ∷ []

abbrev syn_packet : List ℕ
syn_packet = ip_header ++ tcp_header

-- 1452 is 1500 less both headers.
lowered_run :
    clamp_if_tcp_syn syn_packet 1500
    ≡ ok (
        ip_header
        ++ (0 ∷ 80 ∷ 1 ∷ 187 ∷ 0 ∷ 0 ∷ 0 ∷ 1 ∷ 0 ∷ 0 ∷ 0 ∷ 0 ∷ 0x70 ∷ 2 ∷ 255 ∷ 255 ∷ 199 ∷ 195 ∷ 0
            ∷ 0 ∷ 1 ∷ 2 ∷ 4 ∷ 5 ∷ 172 ∷ 1 ∷ 1 ∷ 0 ∷ []))
unfolding clamp_if_tcp_syn clamp_ipv4 index clamp_segment slice tcp_header_len segment_budget
    rewrite_mss_if_syn find_mss check_mss from_be copy_into be_bytes tcp_checksum_v4 tcp_checksum
    pseudo_v4 internet_checksum fold_carries add_words
lowered_run = refl

find_mss_lem_example :
    (found : Option ℕ) × (find_mss (length tcp_header) tcp_header 1452 20 ≡ ok found)
    × ((j : ℕ) → (found ≡ some j) ↔ (Leads tcp_header 20 j × IsOversized tcp_header 1452 j))
find_mss_lem_example = find_mss_lem tcp_header 1452 (omega arith)

rewrite_mss_if_syn-Rewrites_example :
    (rewritten : Option (List ℕ)) × (rewrite_mss_if_syn tcp_header 1452 ≡ ok rewritten)
    × Rewrites tcp_header 1452 rewritten
rewrite_mss_if_syn-Rewrites_example = rewrite_mss_if_syn-Rewrites tcp_header 1452 (omega arith)

clamp_if_tcp_syn-Clamps_example :
    (result : List ℕ) × (clamp_if_tcp_syn syn_packet 1500 ≡ ok result)
    × Clamps 1500 syn_packet result
clamp_if_tcp_syn-Clamps_example =
    clamp_if_tcp_syn-Clamps syn_packet 1500 (all_bytes-AreBytes syn_packet refl) (omega arith)
      (omega arith)
