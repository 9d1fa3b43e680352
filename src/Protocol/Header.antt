-- ===== src/Protocol/Header.antt =====
-- src/protocol.rs, `PacketType` and `Header`: the 12 bytes in front of every payload.
pub mod Laws
pub mod Answers
use mlvpn_rs.Common.{
  ℕ, ◌+◌, ◌<◌, ◌^◌, List, [], ◌∷◌, ◌++◌, ltb, ◌==◌, if◌then◌else◌, length, Result, ok, err,
  too_short, bad_magic, unsupported_version, unknown_packet_type, not, ◌>>=◌, ◌>>◌, refuse_if,
  index, slice,
}
use mlvpn_rs.Common.Bytes.{be_bytes, from_be}

abbrev pub magic : ℕ
magic = 0x4D

abbrev pub version : ℕ
version = 1

abbrev pub header_len : ℕ
header_len = 1 + 1 + 1 + 1 + 8

pub data PacketType : Type 0 where
  handshake_init handshake_resp : PacketType
  payload_data : PacketType
  probe probe_reply keepalive disconnect stats_share : PacketType
  throughput_test_data throughput_test_result throughput_test_reverse_request : PacketType
  version_info fec_parity fec_parity_q : PacketType

-- The discriminants of the enum, `self.ptype as u8`.
unfoldable pub to_u8 : PacketType → ℕ
to_u8 handshake_init = 1
to_u8 handshake_resp = 2
to_u8 payload_data = 3
to_u8 probe = 4
to_u8 probe_reply = 5
to_u8 keepalive = 6
to_u8 disconnect = 7
to_u8 stats_share = 8
to_u8 throughput_test_data = 11
to_u8 throughput_test_result = 12
to_u8 throughput_test_reverse_request = 13
to_u8 version_info = 14
to_u8 fec_parity = 15
to_u8 fec_parity_q = 16

unfoldable pub from_u8 : ℕ → Result PacketType
from_u8 v =
    if v == 1
    then ok handshake_init
    else if v == 2
    then ok handshake_resp
    else if v == 3
    then ok payload_data
    else if v == 4
    then ok probe
    else if v == 5
    then ok probe_reply
    else if v == 6
    then ok keepalive
    else if v == 7
    then ok disconnect
    else if v == 8
    then ok stats_share
    else if v == 11
    then ok throughput_test_data
    else if v == 12
    then ok throughput_test_result
    else if v == 13
    then ok throughput_test_reverse_request
    else if v == 14
    then ok version_info
    else if v == 15
    then ok fec_parity
    else if v == 16
    then ok fec_parity_q
    else err (unknown_packet_type v)

pub record Header : Type 0 where
  pub ptype : PacketType
  pub link_id : ℕ
  pub seq : ℕ

-- The ranges of the fields: a `u8` and a `u64`.
pub record IsHeader (h : Header) : Type 0 where
  pub link_id_u8 : h.link_id < 256
  pub seq_u64 : h.seq < 2 ^ 64

pub to_bytes : Header → List ℕ
to_bytes h = magic ∷ version ∷ to_u8 h.ptype ∷ h.link_id ∷ be_bytes 8 h.seq

-- `out.extend_from_slice(&self.to_bytes())`
pub encode : Header → List ℕ → List ℕ
encode h out = out ++ to_bytes h

unfoldable pub decode : List ℕ → Result (Header × List ℕ)
decode buf = do
  refuse_if (ltb (length buf) header_len) too_short
  m ← index buf 0
  refuse_if (not (m == magic)) bad_magic
  v ← index buf 1
  refuse_if (not (v == version)) (unsupported_version v)
  t ← index buf 2
  ptype ← from_u8 t
  link_id ← index buf 3
  seq ← slice buf 4 12
  rest ← slice buf header_len (length buf)
  ok (record { ptype = ptype; link_id = link_id; seq = from_be seq }, rest)
