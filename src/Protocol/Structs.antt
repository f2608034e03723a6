-- ===== src/Protocol/Structs.antt =====
-- aaruremote.h: the packed structures that follow the header in requests and answers, and the
-- memory image of each. An array field is a list that has the array's size.
use aaruremote.Common.{ℕ, List, [], ◌∷◌, ◌++◌, take, drop, replicate, get_or}
use aaruremote.Common.Bytes.{le_bytes, le_value}
use aaruremote.Protocol.Header.{AaruPacketHeader, encode_header}

-- An array of `size` zeroed bytes after `bytes` was stored at its start.
unfoldable pub array : ℕ → List ℕ → List ℕ
array size bytes = take size (bytes ++ replicate size 0)

-- A 16-bit and a 32-bit field at an offset.
abbrev pub field16 : List ℕ → ℕ → ℕ
field16 b off = le_value (take 2 (drop off b))

abbrev pub field32 : List ℕ → ℕ → ℕ
field32 b off = le_value (take 4 (drop off b))

abbrev pub field64 : List ℕ → ℕ → ℕ
field64 b off = le_value (take 8 (drop off b))

pub record AaruPacketHello : Type 0 where
  pub hdr : AaruPacketHeader
  pub application : List ℕ
  pub version : List ℕ
  pub max_protocol : ℕ
  pub spare : List ℕ
  pub sysname : List ℕ
  pub release : List ℕ
  pub machine : List ℕ

abbrev pub hello_size : ℕ
hello_size = 980

unfoldable pub encode_hello : AaruPacketHello → List ℕ
encode_hello p =
    encode_header p.hdr
    ++ (array 128 p.application
        ++ (array 64 p.version
            ++ (p.max_protocol
                ∷ (array 3 p.spare
                    ++ (array 256 p.sysname ++ (array 256 p.release ++ array 256 p.machine))))))

pub record AaruPacketNop : Type 0 where
  pub hdr : AaruPacketHeader
  pub reason_code : ℕ
  pub spare : List ℕ
  pub reason : List ℕ
  pub error_no : ℕ

abbrev pub nop_size : ℕ
nop_size = 280

unfoldable pub encode_nop : AaruPacketNop → List ℕ
encode_nop p =
    encode_header p.hdr
    ++ (p.reason_code ∷ (array 3 p.spare ++ (array 256 p.reason ++ le_bytes 4 p.error_no)))

pub record DeviceInfo : Type 0 where
  pub path : List ℕ
  pub vendor : List ℕ
  pub model : List ℕ
  pub serial : List ℕ
  pub bus : List ℕ
  pub supported : ℕ

abbrev pub device_info_size : ℕ
device_info_size = 2052

unfoldable pub encode_device_info : DeviceInfo → List ℕ
encode_device_info d =
    array 1024 d.path
    ++ (array 256 d.vendor
        ++ (array 256 d.model
            ++ (array 256 d.serial ++ (array 256 d.bus ++ (d.supported ∷ replicate 3 0)))))

abbrev pub res_list_devs_size : ℕ
res_list_devs_size = 18

-- The fixed part of AaruPacketResListDevs; the devices follow.
unfoldable pub encode_res_list_devs : AaruPacketHeader → ℕ → List ℕ
encode_res_list_devs hdr devices = encode_header hdr ++ le_bytes 2 devices

abbrev pub cmd_open_path_offset : ℕ
cmd_open_path_offset = 16

pub record AaruPacketCmdScsi : Type 0 where
  pub cdb_len : ℕ
  pub buf_len : ℕ
  pub direction : ℕ
  pub timeout : ℕ

abbrev pub cmd_scsi_size : ℕ
cmd_scsi_size = 32

unfoldable pub load_cmd_scsi : List ℕ → AaruPacketCmdScsi
load_cmd_scsi b = record {
  cdb_len = field32 b 16;
  buf_len = field32 b 20;
  direction = field32 b 24;
  timeout = field32 b 28;
}

pub record AaruPacketResScsi : Type 0 where
  pub hdr : AaruPacketHeader
  pub sense_len : ℕ
  pub buf_len : ℕ
  pub duration : ℕ
  pub sense : ℕ
  pub error_no : ℕ

abbrev pub res_scsi_size : ℕ
res_scsi_size = 36

unfoldable pub encode_res_scsi : AaruPacketResScsi → List ℕ
encode_res_scsi p =
    encode_header p.hdr
    ++ (le_bytes 4 p.sense_len
        ++ (le_bytes 4 p.buf_len
            ++ (le_bytes 4 p.duration ++ (le_bytes 4 p.sense ++ le_bytes 4 p.error_no))))

-- AtaRegistersChs and AtaRegistersLba28: seven byte registers, in the order of the structures. The
-- low, middle and high address registers of the second stand in sector, cylinder_low and cylinder_high.
pub record AtaRegisters : Type 0 where
  pub feature : ℕ
  pub sector_count : ℕ
  pub sector : ℕ
  pub cylinder_low : ℕ
  pub cylinder_high : ℕ
  pub device_head : ℕ
  pub command : ℕ

-- AtaErrorRegistersChs and AtaErrorRegistersLba28.
pub record AtaErrorRegisters : Type 0 where
  pub status : ℕ
  pub error : ℕ
  pub sector_count : ℕ
  pub sector : ℕ
  pub cylinder_low : ℕ
  pub cylinder_high : ℕ
  pub device_head : ℕ

abbrev pub zero_error_registers : AtaErrorRegisters
zero_error_registers = record {
  status = 0;
  error = 0;
  sector_count = 0;
  sector = 0;
  cylinder_low = 0;
  cylinder_high = 0;
  device_head = 0;
}

unfoldable pub load_ata_registers : List ℕ → AtaRegisters
load_ata_registers b = record {
  feature = get_or b 0 0;
  sector_count = get_or b 1 0;
  sector = get_or b 2 0;
  cylinder_low = get_or b 3 0;
  cylinder_high = get_or b 4 0;
  device_head = get_or b 5 0;
  command = get_or b 6 0;
}

unfoldable pub encode_error_registers : AtaErrorRegisters → List ℕ
encode_error_registers r =
    r.status ∷ r.error ∷ r.sector_count ∷ r.sector ∷ r.cylinder_low ∷ r.cylinder_high
    ∷ r.device_head ∷ []

pub record AtaRegistersLba48 : Type 0 where
  pub feature : ℕ
  pub sector_count : ℕ
  pub lba_low_prev : ℕ
  pub lba_low_cur : ℕ
  pub lba_mid_prev : ℕ
  pub lba_mid_cur : ℕ
  pub lba_high_prev : ℕ
  pub lba_high_cur : ℕ
  pub device_head : ℕ
  pub command : ℕ

unfoldable pub load_ata_registers_lba48 : List ℕ → AtaRegistersLba48
load_ata_registers_lba48 b = record {
  feature = field16 b 0;
  sector_count = field16 b 2;
  lba_low_prev = get_or b 4 0;
  lba_low_cur = get_or b 5 0;
  lba_mid_prev = get_or b 6 0;
  lba_mid_cur = get_or b 7 0;
  lba_high_prev = get_or b 8 0;
  lba_high_cur = get_or b 9 0;
  device_head = get_or b 10 0;
  command = get_or b 11 0;
}

pub record AtaErrorRegistersLba48 : Type 0 where
  pub status : ℕ
  pub error : ℕ
  pub sector_count : ℕ
  pub lba_low_prev : ℕ
  pub lba_low_cur : ℕ
  pub lba_mid_prev : ℕ
  pub lba_mid_cur : ℕ
  pub lba_high_prev : ℕ
  pub lba_high_cur : ℕ
  pub device_head : ℕ

abbrev pub zero_error_registers_lba48 : AtaErrorRegistersLba48
zero_error_registers_lba48 = record {
  status = 0;
  error = 0;
  sector_count = 0;
  lba_low_prev = 0;
  lba_low_cur = 0;
  lba_mid_prev = 0;
  lba_mid_cur = 0;
  lba_high_prev = 0;
  lba_high_cur = 0;
  device_head = 0;
}

unfoldable pub encode_error_registers_lba48 : AtaErrorRegistersLba48 → List ℕ
encode_error_registers_lba48 r =
    r.status
    ∷ r.error
    ∷ (le_bytes 2 r.sector_count
        ++ (r.lba_low_prev ∷ r.lba_low_cur ∷ r.lba_mid_prev ∷ r.lba_mid_cur ∷ r.lba_high_prev
            ∷ r.lba_high_cur ∷ r.device_head ∷ []))
