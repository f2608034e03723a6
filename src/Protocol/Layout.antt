-- ===== src/Protocol/Layout.antt =====
-- aaruremote.h: the sizes of the memory images, for the `sizeof` expressions of the server.
use aaruremote.Common.{
  ℕ, ◌≡◌, List, ◌++◌, length, replicate, length-take, length-append, length-replicate, arith,
}
use aaruremote.Protocol.Header.{length-encode_header}
use aaruremote.Protocol.Structs.{
  array, AaruPacketHello, hello_size, encode_hello, AaruPacketNop, nop_size, encode_nop, DeviceInfo,
  device_info_size, encode_device_info, AaruPacketResScsi, encode_res_scsi, res_scsi_size,
}

pub length-array : (size : ℕ) (bytes : List ℕ) → length (array size bytes) ≡ size
unfolding array
length-array size bytes = omega (
  arith,
  length-take size (bytes ++ replicate size 0),
  length-append bytes (replicate size 0),
  length-replicate {A = ℕ} size 0,
)

-- The memory image of a hello packet whose header has its two spare bytes has the size of the
-- packed structure, whatever the texts are.
pub length-encode_hello :
    (p : AaruPacketHello) → length p.hdr.spare ≡ 2 → length (encode_hello p) ≡ hello_size
unfolding encode_hello
length-encode_hello p h =
    simp (length-append, length-array, length-encode_header p.hdr h) (omega arith)

-- The memory image of a NOP packet whose header has its two spare bytes has the size of the packed
-- structure, whatever the reason text is.
pub length-encode_nop :
    (p : AaruPacketNop) → length p.hdr.spare ≡ 2 → length (encode_nop p) ≡ nop_size
unfolding encode_nop
length-encode_nop p h =
    simp (length-append, length-array, length-encode_header p.hdr h) (omega arith)

pub length-encode_device_info : (d : DeviceInfo) → length (encode_device_info d) ≡ device_info_size
unfolding encode_device_info
length-encode_device_info d = simp (length-append, length-array) (omega arith)

pub length-encode_res_scsi :
    (p : AaruPacketResScsi) → length p.hdr.spare ≡ 2 → length (encode_res_scsi p) ≡ res_scsi_size
unfolding encode_res_scsi
length-encode_res_scsi p h = simp (length-append, length-encode_header p.hdr h) (omega arith)
