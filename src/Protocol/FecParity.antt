-- ===== src/Protocol/FecParity.antt =====
-- src/protocol.rs, `FecParityPayload`: a parity share over a group of data frames. Its length is
-- declared by its own bytes, whatever group size the receiver is configured with.
pub mod Laws
pub mod Answers
use mlvpn_rs.Common.{
  ℕ, zero, suc, ◌+◌, ◌*◌, ◌%◌, ◌^◌, ◌≤◌, ◌<◌, ◌≡◌, List, [], ◌∷◌, ◌++◌, ltb, length, All, Result,
  ok, too_short, too_short_for_group, too_short_for_parity, ◌>>=◌, ◌>>◌, refuse_if, slice, index,
}
use mlvpn_rs.Common.{◌==◌}
use mlvpn_rs.Common.Bytes.{be_bytes, from_be, AreBytes}

pub record FecParityPayload : Type 0 where
  pub member_seqs : List ℕ
  pub member_lens : List ℕ
  pub parity : List ℕ

-- What a sender builds: one length for each sequence number, and sizes that fit their fields.
pub record IsFecParityPayload (p : FecParityPayload) : Type 0 where
  pub same_count : length p.member_lens ≡ length p.member_seqs
  pub count_u8 : length p.member_seqs < 256
  pub seqs_u64 : All (λ s. s < 2 ^ 64) p.member_seqs
  pub lens_u16 : All (λ l. l < 2 ^ 16) p.member_lens
  pub parity_u16 : length p.parity < 2 ^ 16

-- `for &x in xs { out.extend_from_slice(&x.to_be_bytes()) }`
pub write_words : ℕ → List ℕ → List ℕ
write_words width [] = []
write_words width (x ∷ xs) = be_bytes width x ++ write_words width xs

pub encode : FecParityPayload → List ℕ
encode p =
    (length p.member_seqs % 2 ^ 8)
    ∷ (write_words 8 p.member_seqs
        ++ (write_words 2 p.member_lens ++ (be_bytes 2 (length p.parity % 2 ^ 16) ++ p.parity)))

-- `for i in i..i + n { start = base + i * width; push(from_be_bytes(buf[start..start + width])) }`
pub read_words : List ℕ → ℕ → ℕ → ℕ → ℕ → Result (List ℕ)
read_words buf base width i zero = ok []
read_words buf base width i (suc n) = do
  b ← slice buf (base + i * width) (base + i * width + width)
  rest ← read_words buf base width (i + 1) n
  ok (from_be b ∷ rest)

pub decode : List ℕ → Result FecParityPayload
decode buf = do
  refuse_if (length buf == 0) too_short
  group_size ← index buf 0
  let seqs_end = 1 + group_size * 8
  let lens_end = seqs_end + group_size * 2
  refuse_if (ltb (length buf) (lens_end + 2)) too_short_for_group
  member_seqs ← read_words buf 1 8 0 group_size
  member_lens ← read_words buf seqs_end 2 0 group_size
  len_bytes ← slice buf lens_end (lens_end + 2)
  let parity_len = from_be len_bytes
  refuse_if (ltb (length buf) (lens_end + 2 + parity_len)) too_short_for_parity
  parity ← slice buf (lens_end + 2) (lens_end + 2 + parity_len)
  ok (record { member_seqs = member_seqs; member_lens = member_lens; parity = parity })
