-- ===== src/Fec/Sender/Shares.antt =====
-- The sender's parity is the sum that its group's members make, in every column.
use mathlib.Core.List.{map-append}
use mlvpn_rs.Common.{
  ℕ, ◌+◌, ◌%◌, ◌^◌, ◌<◌, ◌≡◌, sym, ap, ◌∙◌, true, List, [], ◌∷◌, ◌++◌, map, arith, length,
  length-append,
}
use mlvpn_rs.Common.Bytes.{AreBytes, byte_at}
use mlvpn_rs.Common.Xor.{bit_xor}
use mlvpn_rs.Fec.Gf.{mul_acc, mul, pow2}
use mlvpn_rs.Fec.Gf.Field.{pow2-range}
use mlvpn_rs.Fec.Gf.Slices.{length-mul_acc, byte_at-mul_acc}
use mlvpn_rs.Fec.Sender.Columns.{byte_at-grow, length-grow, length-xor_into, byte_at-xor_into}
use mlvpn_rs.Fec.Sums.{plain, weighted, sum, sum-snoc, longest, longest-snoc}
use mlvpn_rs.Fec.Sender.{FecSender, grow, xor_into, add_member}
use mlvpn_rs.Protocol.FecParity.{FecParityPayload}

-- A share of the group with these sequence numbers and members.
pub record IsShare (c : ℕ → ℕ → ℕ) (seqs : List ℕ) (ms : List (List ℕ)) (s : FecParityPayload)
    : Type 0 where
  pub seqs_are : s.member_seqs ≡ seqs
  pub lens_are : s.member_lens ≡ map length ms
  pub width : length s.parity ≡ longest ms
  pub column : (j : ℕ) → byte_at s.parity j ≡ sum c 0 ms j

-- The state of a sender that has taken the members `ms` since its last group.
pub record Building (s : FecSender) (seqs : List ℕ) (ms : List (List ℕ)) : Type 0 where
  pub same_count : length seqs ≡ length ms
  pub p_share :
      IsShare plain seqs ms
        (record { member_seqs = s.member_seqs; member_lens = s.member_lens; parity = s.parity })
  pub q_share :
      s.with_q ≡ true
      → IsShare weighted seqs ms
          (record { member_seqs = s.member_seqs; member_lens = s.member_lens; parity = s.q })

module _ (s : FecSender) (seqs : List ℕ) (ms : List (List ℕ)) (b : Building s seqs ms) (seq : ℕ)
    (plaintext : List ℕ) (bytes : AreBytes plaintext) (fits : length plaintext < 2 ^ 16)
    (link : ℕ) where
  lens_added :
      s.member_lens ++ ((length plaintext % 2 ^ 16) ∷ []) ≡ map length (ms ++ (plaintext ∷ []))
  lens_added =
      let size : length plaintext % 2 ^ 16 ≡ length plaintext = omega (arith, fits) in
      rw (size, map-append) (ap (λ ls. ls ++ (length plaintext ∷ [])) b.p_share.lens_are)

  p_added : IsShare plain (seqs ++ (seq ∷ [])) (ms ++ (plaintext ∷ [])) (record {
    member_seqs = s.member_seqs ++ (seq ∷ []);
    member_lens = s.member_lens ++ ((length plaintext % 2 ^ 16) ∷ []);
    parity = xor_into (grow s.parity (length plaintext)) plaintext;
  })
  p_added =
      let wide = length-grow s.parity (length plaintext) in
      record {
        seqs_are = ap (λ l. l ++ (seq ∷ [])) b.p_share.seqs_are;
        lens_are = lens_added;
        width =
            length-xor_into (grow s.parity (length plaintext)) plaintext
            ∙ omega (arith, wide, b.p_share.width, longest-snoc ms plaintext);
        column = λ j.
            byte_at-xor_into (grow s.parity (length plaintext)) plaintext j (omega (arith, wide))
            ∙ ap (λ x. bit_xor x (byte_at plaintext j))
                (byte_at-grow s.parity (length plaintext) j ∙ b.p_share.column j)
            ∙ sym (sum-snoc plain 0 ms plaintext j);
      }

  q_added :
      s.with_q ≡ true
      → IsShare weighted (seqs ++ (seq ∷ [])) (ms ++ (plaintext ∷ [])) (record {
        member_seqs = s.member_seqs ++ (seq ∷ []);
        member_lens = s.member_lens ++ ((length plaintext % 2 ^ 16) ∷ []);
        parity = mul_acc (grow s.q (length plaintext)) plaintext (pow2 (length s.member_seqs));
      })
  q_added on =
      let wide = length-grow s.q (length plaintext) in
      let share = b.q_share on in
      let coef = pow2 (length s.member_seqs) in
      let pos = (pow2-range (length s.member_seqs)).0 in
      let place : length s.member_seqs ≡ 0 + length ms =
        omega (arith, ap length b.p_share.seqs_are, b.same_count) in
      record {
        seqs_are = ap (λ l. l ++ (seq ∷ [])) share.seqs_are;
        lens_are = lens_added;
        width =
            length-mul_acc (grow s.q (length plaintext)) plaintext coef pos
            ∙ omega (arith, wide, share.width, longest-snoc ms plaintext);
        column = λ j.
            byte_at-mul_acc (grow s.q (length plaintext)) plaintext coef pos j
              (pow2-range (length s.member_seqs)).1 bytes (omega (arith, wide))
            ∙ ap (λ x. bit_xor x (mul coef (byte_at plaintext j)))
                (byte_at-grow s.q (length plaintext) j ∙ share.column j)
            ∙ ap (λ k. bit_xor (sum weighted 0 ms j) (mul (pow2 k) (byte_at plaintext j))) place
            ∙ sym (sum-snoc weighted 0 ms plaintext j);
      }

  pub add_member-Building :
      Building (add_member s seq plaintext link) (seqs ++ (seq ∷ [])) (ms ++ (plaintext ∷ []))
  unfolding add_member
  add_member-Building = record {
    same_count =
        omega
          (arith, length-append seqs (seq ∷ []), length-append ms (plaintext ∷ []), b.same_count);
    p_share = p_added;
    q_share = λ on. rw on (q_added on);
  }
