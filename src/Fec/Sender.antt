-- ===== src/Fec/Sender.antt =====
-- src/fec.rs, `FecSender`: the parity of each group of data frames.
pub mod Columns
pub mod Shares
pub mod Groups
use mlvpn_rs.Common.{
  ℕ, suc, ◌+◌, ◌-◌, ◌%◌, ◌^◌, Bool, List, [], ◌∷◌, ◌++◌, ltb, leb, if◌then◌else◌, length, replicate,
  Option, none, some,
}
use mlvpn_rs.Common.Xor.{bit_xor}
use mlvpn_rs.Fec.Gf.{mul_acc, pow2}
use mlvpn_rs.Protocol.FecParity.{FecParityPayload}

pub record FecGroup : Type 0 where
  pub p : FecParityPayload
  pub q : Option FecParityPayload
  pub member_links : List ℕ

pub record FecSender : Type 0 where
  pub group_size : ℕ
  pub with_q : Bool
  pub member_seqs : List ℕ
  pub member_lens : List ℕ
  pub member_links : List ℕ
  pub parity : List ℕ
  pub q : List ℕ

unfoldable pub new : ℕ → ℕ → FecSender
new group_size parity_count = record {
  group_size = group_size;
  with_q = leb 2 parity_count;
  member_seqs = [];
  member_lens = [];
  member_links = [];
  parity = [];
  q = [];
}

-- `if n > xs.len() { xs.resize(n, 0); }`
pub grow : List ℕ → ℕ → List ℕ
grow xs n = if ltb (length xs) n then xs ++ replicate (n - length xs) 0 else xs

-- `for (i, &byte) in bytes.iter().enumerate() { dst[i] ^= byte; }`, `dst` being long enough.
pub xor_into : List ℕ → List ℕ → List ℕ
xor_into [] src = []
xor_into (d ∷ dst) [] = d ∷ dst
xor_into (d ∷ dst) (s ∷ src) = bit_xor d s ∷ xor_into dst src

-- The part of `accumulate` before the group's size is looked at.
pub add_member : FecSender → ℕ → List ℕ → ℕ → FecSender
add_member s seq plaintext link = record s {
  parity = xor_into (grow s.parity (length plaintext)) plaintext;
  q =
      if s.with_q
      then mul_acc (grow s.q (length plaintext)) plaintext (pow2 (length s.member_seqs))
      else s.q;
  member_seqs = s.member_seqs ++ (seq ∷ []);
  member_links = s.member_links ++ (link ∷ []);
  member_lens = s.member_lens ++ ((length plaintext % 2 ^ 16) ∷ []);
}

-- The completed group, taken out of the sender.
pub take_group : FecSender → FecSender × FecGroup
take_group s = (
  record s {
    member_seqs = [];
    member_lens = [];
    member_links = [];
    parity = [];
    q = if s.with_q then [] else s.q;
  },
  record {
    p = record { member_seqs = s.member_seqs; member_lens = s.member_lens; parity = s.parity };
    q =
        if s.with_q
        then some
            (record { member_seqs = s.member_seqs; member_lens = s.member_lens; parity = s.q })
        else none;
    member_links = s.member_links;
  },
)

pub accumulate : FecSender → ℕ → List ℕ → ℕ → FecSender × Option FecGroup
accumulate s seq plaintext link =
    let t = add_member s seq plaintext link in
    if ltb (length t.member_seqs) t.group_size
    then (t, none)
    else (let (fresh, group) = take_group t in (fresh, some group))
