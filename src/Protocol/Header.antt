-- ===== src/Protocol/Header.antt =====
-- AaruPacketHeader of aaruremote.h: 16 packed bytes in front of every packet.
use aaruremote.Common.{
  ℕ, ◌^◌, ◌<◌, ◌≡◌, Bool, ◌&&◌, List, ◌∷◌, ◌++◌, length, take, drop, get_or, take-append_exact,
  arith, ◌==◌,
}
use aaruremote.Common.Bytes.{IsByte, le_bytes, le_value, le_value-le_bytes4}
use aaruremote.Protocol.{remote_id_magic, packet_id_magic, packet_version}

pub record AaruPacketHeader : Type 0 where
  pub remote_id : ℕ
  pub packet_id : ℕ
  pub len : ℕ
  pub version : ℕ
  pub packet_type : ℕ
  pub spare : List ℕ

abbrev pub header_size : ℕ
header_size = 16

unfoldable pub encode_header : AaruPacketHeader → List ℕ
encode_header h =
    le_bytes 4 h.remote_id
    ++ (le_bytes 4 h.packet_id ++ (le_bytes 4 h.len ++ (h.version ∷ h.packet_type ∷ h.spare)))

-- The fields of the structure at the start of a buffer.
unfoldable pub load_header : List ℕ → AaruPacketHeader
load_header b = record {
  remote_id = le_value (take 4 b);
  packet_id = le_value (take 4 (drop 4 b));
  len = le_value (take 4 (drop 8 b));
  version = get_or b 12 0;
  packet_type = get_or b 13 0;
  spare = take 2 (drop 14 b);
}

-- A header whose fields fit their widths.
pub record IsHeader (h : AaruPacketHeader) : Type 0 where
  pub remote_id_fits : h.remote_id < 2 ^ 32
  pub packet_id_fits : h.packet_id < 2 ^ 32
  pub len_fits : h.len < 2 ^ 32
  pub version_fits : IsByte h.version
  pub packet_type_fits : IsByte h.packet_type
  pub spare_size : length h.spare ≡ 2

-- The header that the server puts on what it sends: its own identifiers and version.
unfoldable pub own_header : ℕ → ℕ → List ℕ → AaruPacketHeader
own_header packet_type len spare = record {
  remote_id = remote_id_magic;
  packet_id = packet_id_magic;
  len = len;
  version = packet_version;
  packet_type = packet_type;
  spare = spare;
}

-- The server's test on a header that it received.
unfoldable pub has_magic : AaruPacketHeader → Bool
has_magic h = h.remote_id == remote_id_magic && h.packet_id == packet_id_magic

pub length-encode_header :
    (h : AaruPacketHeader) → length h.spare ≡ 2 → length (encode_header h) ≡ header_size
unfolding encode_header
length-encode_header h e = omega arith

-- Loading the memory image of a header whose fields fit their widths gives the header back,
-- whatever follows it in the buffer.
pub load_header-encode_header :
    (h : AaruPacketHeader) (rest : List ℕ) → IsHeader h → load_header (encode_header h ++ rest) ≡ h
unfolding load_header encode_header
load_header-encode_header h rest v = λ i. record {
  remote_id = le_value-le_bytes4 h.remote_id v.remote_id_fits i;
  packet_id = le_value-le_bytes4 h.packet_id v.packet_id_fits i;
  len = le_value-le_bytes4 h.len v.len_fits i;
  version = h.version;
  packet_type = h.packet_type;
  spare = take-append_exact 2 h.spare rest v.spare_size i;
}
