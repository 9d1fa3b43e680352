-- ===== src/Mss/Rewrite.antt =====
-- src/mss.rs, `rewrite_mss_if_syn`: when a header is rewritten, and to what.
use mlvpn_rs.Common.{
  ℕ, ◌+◌, ◌/◌, ◌%◌, ◌≤◌, ◌≡◌, ◌≢◌, inl, inr, refl, List, length, Option, none, some, ok, ◌==◌,
  Option-cases, Bool-cases, ==→eq, ==→ne, le→ltb, index_lem, arith,
}
use mlvpn_rs.Common.Bytes.{be_bytes, byte_at, length-be_bytes}
use mlvpn_rs.Common.Splice.{splice, copy_into_lem}
use mlvpn_rs.Mss.{rewrite_mss_if_syn, tcp_flag_syn}
use mlvpn_rs.Mss.Options.{Leads, IsOversized, find_mss_lem}

-- The header is one of a SYN whose options lead to an MSS above the bound at `at`.
pub record IsRewritable (header : List ℕ) (max_segment at : ℕ) : Type 0 where
  pub syn : byte_at header 13 / tcp_flag_syn % 2 ≢ 0
  pub leads : Leads header 20 at
  pub oversized : IsOversized header max_segment at

-- A header is left alone exactly if nothing in it is to be rewritten; else the one value is replaced.
pub data Rewrites (header : List ℕ) (max_segment : ℕ) : Option (List ℕ) → Type 0 where
  kept : ((at : ℕ) → IsRewritable header max_segment at → ⊥) → Rewrites header max_segment none
  replaced :
      (at : ℕ)
      → IsRewritable header max_segment at
      → Rewrites header max_segment (some (splice header (at + 2) (be_bytes 2 max_segment)))

-- `rewrite_mss_if_syn` returns for every header of at least 20 bytes. It leaves the header alone exactly
-- if it is not that of a SYN or its options lead to no MSS above the bound, and else replaces that MSS
-- by the bound and nothing else.
pub rewrite_mss_if_syn-Rewrites :
    (header : List ℕ) (m : ℕ)
    → 20 ≤ length header
    → (rewritten : Option (List ℕ)) × (rewrite_mss_if_syn header m ≡ ok rewritten)
      × Rewrites header m rewritten
unfolding rewrite_mss_if_syn
rewrite_mss_if_syn-Rewrites header m long =
    rw (le→ltb (length header) 20 long, index_lem header 13 (omega arith))
      (elim (Bool-cases (byte_at header 13 / tcp_flag_syn % 2 == 0)) [
        | inl plain ↦ rw plain (
          none,
          refl,
          kept (λ at r. r.syn (==→eq (byte_at header 13 / tcp_flag_syn % 2) 0 plain)),
        )
        | inr syn ↦
            let (found, e, found_iff) = find_mss_lem header m long in
            rw (syn, e)
              (elim (Option-cases found) [
                | inl absent ↦ rw absent (
                  none,
                  refl,
                  kept (λ at r. let there = (found_iff at).1 (r.leads, r.oversized) in cc),
                )
                | inr (at, there) ↦
                    let (leads, oversized) = (found_iff at).0 there in
                    let fits : at + 2 + length (be_bytes 2 m) ≤ length header =
                      let w = oversized.whole in omega (arith, length-be_bytes 2 m) in
                    rw (there, copy_into_lem header (at + 2) (be_bytes 2 m) fits)
                      (
                        some (splice header (at + 2) (be_bytes 2 m)),
                        refl,
                        replaced at (record {
                          syn = ==→ne (byte_at header 13 / tcp_flag_syn % 2) 0 syn;
                          leads = leads;
                          oversized = oversized;
                        }),
                      )
              ])
      ])
