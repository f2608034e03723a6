-- ===== src/Protocol.antt =====
-- aaruremote.h: the protocol's constants, and in the children its packed structures.
-- A structure is a record; `encode_…` is its memory image on a little-endian host, which is the
-- wire format, and `load_…` reads fields at their offsets. Signed fields are kept as bit patterns.
pub mod Types
pub mod Header
pub mod Structs
pub mod Layout
use aaruremote.Common.{ℕ}

abbrev pub remote_id_magic : ℕ
remote_id_magic = 0x52434944

abbrev pub packet_id_magic : ℕ
packet_id_magic = 0x544B4350

abbrev pub packet_version : ℕ
packet_version = 1
