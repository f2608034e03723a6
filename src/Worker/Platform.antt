-- ===== src/Worker/Platform.antt =====
-- The functions of aaruremote.h that each platform implements, as the worker calls them.
-- `C` is the state of the client's connection, `D` that of the devices, `H` that of the heap: a
-- device function touches no socket, and the allocator neither. A context pointer is a number,
-- NULL is 0. Signed results are kept as 32-bit patterns.
use aaruremote.Common.{ℕ, Bool, Option, List}
use aaruremote.Protocol.Structs.{
  DeviceInfo, AtaRegisters, AtaErrorRegisters, AtaRegistersLba48, AtaErrorRegistersLba48,
}

-- What `*sense_buffer` is after the call: not written, or set to NULL or to a block.
pub data SenseOut : Type 0 where
  untouched : SenseOut
  null_block : SenseOut
  block : List ℕ → SenseOut

pub record ScsiCall : Type 0 where
  pub cdb : Option (List ℕ)
  pub buffer : Option (List ℕ)
  pub timeout : ℕ
  pub direction : ℕ
  pub cdb_len : ℕ
  pub buf_len : ℕ

-- The buffer holds what the transfer left in it, and has its old size.
pub record ScsiResult : Type 0 where
  pub ret : ℕ
  pub buffer : Option (List ℕ)
  pub sense_buf : SenseOut
  pub duration : ℕ
  pub sense : ℕ
  pub buf_len : ℕ
  pub sense_len : ℕ

pub record AtaCall (R : Type 0) : Type 0 where
  pub registers : R
  pub protocol : ℕ
  pub transfer_register : ℕ
  pub buffer : Option (List ℕ)
  pub timeout : ℕ
  pub transfer_blocks : ℕ
  pub buf_len : ℕ

pub record AtaResult (E : Type 0) : Type 0 where
  pub ret : ℕ
  pub error_registers : E
  pub buffer : Option (List ℕ)
  pub duration : ℕ
  pub sense : ℕ
  pub buf_len : ℕ

pub record SdhciCall : Type 0 where
  pub command : ℕ
  pub write : ℕ
  pub application : ℕ
  pub flags : ℕ
  pub argument : ℕ
  pub block_size : ℕ
  pub blocks : ℕ
  pub buffer : Option (List ℕ)
  pub buf_len : ℕ
  pub timeout : ℕ

-- `response` is the array of four words.
pub record SdhciResult : Type 0 where
  pub ret : ℕ
  pub buffer : Option (List ℕ)
  pub response : List ℕ
  pub duration : ℕ
  pub sense : ℕ

-- MmcSingleCommand. `buffer` is the offset of the command's data in the received packet.
pub record MmcSingleCommand : Type 0 where
  pub argument : ℕ
  pub blocks : ℕ
  pub block_size : ℕ
  pub buf_len : ℕ
  pub buffer : ℕ
  pub command : ℕ
  pub flags : ℕ
  pub application : ℕ
  pub response : List ℕ
  pub write : ℕ

-- The commands come back with their responses, the packet with what was read into its buffers.
pub record MultiSdhciResult : Type 0 where
  pub ret : ℕ
  pub commands : List MmcSingleCommand
  pub packet : List ℕ
  pub duration : ℕ
  pub sense : ℕ

pub record SdhciRegisters : Type 0 where
  pub is_sdhci : ℕ
  pub csd : Option (List ℕ)
  pub cid : Option (List ℕ)
  pub ocr : Option (List ℕ)
  pub scr : Option (List ℕ)
  pub csd_len : ℕ
  pub cid_len : ℕ
  pub ocr_len : ℕ
  pub scr_len : ℕ

pub record UsbData : Type 0 where
  pub is_usb : ℕ
  pub desc_len : ℕ
  pub descriptors : List ℕ
  pub id_vendor : ℕ
  pub id_product : ℕ
  pub manufacturer : List ℕ
  pub product : List ℕ
  pub serial : List ℕ

pub record FireWireData : Type 0 where
  pub is_firewire : ℕ
  pub id_model : ℕ
  pub id_vendor : ℕ
  pub guid : ℕ
  pub vendor : List ℕ
  pub model : List ℕ

pub record PcmciaData : Type 0 where
  pub is_pcmcia : ℕ
  pub cis_len : ℕ
  pub cis : List ℕ

pub record ReopenResult : Type 0 where
  pub ret : ℕ
  pub close_failed : ℕ

pub record OsReadResult : Type 0 where
  pub ret : ℕ
  pub buffer : List ℕ
  pub duration : ℕ

pub record Platform (C D H : Type 0) : Type 0 where
  -- The bytes stored in the buffer, their number being the result; `none` is a negative result.
  -- The length is an `int32_t`, given as its pattern; the flag is MSG_PEEK.
  pub net_recv : C → ℕ → Bool → Option (List ℕ) × C
  -- The buffer and the number of bytes of it to send; the result is ignored by the worker.
  pub net_write : C → List ℕ → ℕ → C
  pub net_close : C → C
  -- The indeterminate content of the new block, or `none` for NULL.
  pub malloc : H → ℕ → Option (List ℕ) × H
  -- The list; NULL is the empty one.
  pub list_devices : D → List DeviceInfo × D
  -- The context and `errno` after the call.
  pub device_open : D → List ℕ → (ℕ × ℕ) × D
  pub device_close : D → ℕ → D
  pub get_device_type : D → ℕ → ℕ × D
  pub send_scsi_command : D → ℕ → ScsiCall → ScsiResult × D
  pub send_ata_chs_command : D → ℕ → AtaCall AtaRegisters → AtaResult AtaErrorRegisters × D
  pub send_ata_lba28_command : D → ℕ → AtaCall AtaRegisters → AtaResult AtaErrorRegisters × D
  pub send_ata_lba48_command :
      D → ℕ → AtaCall AtaRegistersLba48 → AtaResult AtaErrorRegistersLba48 × D
  pub send_sdhci_command : D → ℕ → SdhciCall → SdhciResult × D
  pub send_multi_sdhci_command : D → ℕ → List MmcSingleCommand → List ℕ → MultiSdhciResult × D
  pub get_sdhci_registers : D → ℕ → SdhciRegisters × D
  pub get_usb_data : D → ℕ → UsbData × D
  pub get_firewire_data : D → ℕ → FireWireData × D
  pub get_pcmcia_data : D → ℕ → PcmciaData × D
  pub am_i_root : D → ℕ × D
  pub reopen : D → ℕ → ReopenResult × D
  -- The context, the buffer, the offset and the length.
  pub os_read : D → ℕ → List ℕ → ℕ → ℕ → OsReadResult × D
