-- ===== src/Tests/Formats.antt =====
-- Runs of the decoder, of the counter and of the structures.
use aaruremote.Common.{ℕ, ◌≡◌, ◌≢◌, refl, List, [], ◌∷◌, ◌++◌, arith}
use aaruremote.Hex.{hexs2bin, hex_byte, hexchr2bin}
use aaruremote.Hex.Decode.{to_hex, hexs2bin-to_hex}
use aaruremote.Protocol.Header.{
  AaruPacketHeader, IsHeader, encode_header, load_header, load_header-encode_header,
}

hexs2bin-to_hex_example : hexs2bin (to_hex (0 ∷ 127 ∷ 255 ∷ [])) ≡ 0 ∷ 127 ∷ 255 ∷ []
hexs2bin-to_hex_example =
    hexs2bin-to_hex (0 ∷ 127 ∷ 255 ∷ []) (omega arith, (omega arith, (omega arith, tt)))

abbrev digits : List ℕ
digits = b'4' ∷ b'f' ∷ b'D' ∷ b'0' ∷ []

digits_value : hexs2bin digits ≡ 79 ∷ 208 ∷ []
unfolding hexs2bin hex_byte hexchr2bin
digits_value = refl

digits_decode : hexs2bin digits ≢ []
digits_decode = rw digits_value (λ e. cc)

abbrev scsi_header : AaruPacketHeader
scsi_header = record {
  remote_id = 0x52434944;
  packet_id = 0x544B4350;
  len = 42;
  version = 1;
  packet_type = 5;
  spare = 0 ∷ 0 ∷ [];
}

scsi_header-IsHeader : IsHeader scsi_header
scsi_header-IsHeader = record {
  remote_id_fits = omega arith;
  packet_id_fits = omega arith;
  len_fits = omega arith;
  version_fits = omega arith;
  packet_type_fits = omega arith;
  spare_size = refl;
}

load_header-encode_header_example :
    load_header (encode_header scsi_header ++ (1 ∷ 2 ∷ [])) ≡ scsi_header
load_header-encode_header_example =
    load_header-encode_header scsi_header (1 ∷ 2 ∷ []) scsi_header-IsHeader
