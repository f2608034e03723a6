-- ===== src/Freebsd/Ata.antt =====
-- freebsd/ata.c: the ATA commands with CHS and with 28-bit addresses over CAM. Those with 48-bit
-- addresses use fields that the structures do not have.
use aaruremote.Common.{
  ℕ, ◌^◌, ◌-◌, Bool, true, false, not, ◌||◌, Option, none, some, List, ◌==◌, if◌then◌else◌, bit_or,
  bit_and,
}
use aaruremote.Protocol.Structs.{AtaRegisters, AtaErrorRegisters}
use aaruremote.Worker.Platform.{AtaCall, AtaResult}
use aaruremote.Freebsd.{freed_dxfer_len}

-- `AtaProtocolToCamFlags`
pub data AtaDirection : Type 0 where
  dir_none dir_in dir_out no_flags : AtaDirection

unfoldable pub ata_protocol_to_cam_flags : ℕ → AtaDirection
ata_protocol_to_cam_flags protocol =
    if protocol == 8
      || (protocol == 9 || (protocol == 0 || (protocol == 3 || (protocol == 1 || protocol == 15))))
    then dir_none
    else if protocol == 4 || protocol == 10
    then dir_in
    else if protocol == 5 || protocol == 11
    then dir_out
    else no_flags

-- The fields of the CCB that the call sets.
pub record AtaCcb : Type 0 where
  pub direction : AtaDirection
  pub timeout : ℕ
  pub data_ptr : Option (List ℕ)
  pub dxfer_len : ℕ
  pub dma : Bool
  pub fpdma : Bool
  pub command : ℕ
  pub features : ℕ
  pub sector_count : ℕ
  pub lba_low : ℕ
  pub lba_mid : ℕ
  pub lba_high : ℕ
  pub device : ℕ

-- `status & CAM_STATUS_MASK`
pub data AtaStatus : Type 0 where
  ata_complete ata_status_error ata_other : AtaStatus

-- After `cam_send_ccb`.
pub record AtaReply : Type 0 where
  pub ret : Option ℕ
  pub errno : ℕ
  pub status : AtaStatus
  pub registers : AtaErrorRegisters
  pub data_ptr : Option (List ℕ)
  pub duration : ℕ

unfoldable pub ata_ccb : AtaCall AtaRegisters → AtaCcb
unfolding ata_protocol_to_cam_flags
ata_ccb c = record {
  direction = ata_protocol_to_cam_flags c.protocol;
  timeout = c.timeout;
  data_ptr = c.buffer;
  dxfer_len = c.buf_len;
  dma = c.protocol == 6 || (c.protocol == 7 || (c.protocol == 10 || c.protocol == 11));
  fpdma = c.protocol == 12;
  command = c.registers.command;
  features = c.registers.feature;
  sector_count = c.registers.sector_count;
  lba_low = c.registers.sector;
  lba_mid = c.registers.cylinder_low;
  lba_high = c.registers.cylinder_high;
  device = bit_or 0x40 c.registers.device_head;
}

unfoldable pub ata_failed : AtaStatus → Bool
ata_failed ata_complete = false
ata_failed ata_status_error = true
ata_failed ata_other = true

unfoldable pub cam_ata_error : AtaReply → ℕ
cam_ata_error r = elim r.status [
  | ata_other ↦ r.errno
  | ata_complete ↦ elim r.ret [ none ↦ r.errno | some e ↦ e ]
  | ata_status_error ↦ elim r.ret [ none ↦ r.errno | some e ↦ e ]
]

-- `*buf_len` is read from the CCB that was freed.
unfoldable pub cam_ata_result : AtaReply → Option (AtaResult AtaErrorRegisters)
unfolding ata_failed cam_ata_error
cam_ata_result r = elim freed_dxfer_len [
  | none ↦ none
  | some dxfer_len ↦ some record {
    ret = cam_ata_error r;
    error_registers = r.registers;
    buffer = r.data_ptr;
    duration = r.duration;
    sense =
        if ata_failed r.status
          || (not (r.registers.error == 0)
              || (not (bit_and r.registers.status 0xA5 == 0) || not (cam_ata_error r == 0)))
        then 1
        else 0;
    buf_len = dxfer_len;
  }
]

unfoldable pub cam_ata_failure :
    AtaErrorRegisters → AtaCall AtaRegisters → AtaResult AtaErrorRegisters
cam_ata_failure old c = record {
  ret = 2 ^ 32 - 1;
  error_registers = old;
  buffer = c.buffer;
  duration = 0;
  sense = 0;
  buf_len = c.buf_len;
}

module _ {D : Type 0} (has_device : ℕ → Bool) (has_ccb : Bool)
    (cam_send_ccb : D → ℕ → AtaCcb → AtaReply × D) where
  unfoldable pub cam_send_ata :
      AtaErrorRegisters → D → ℕ → AtaCall AtaRegisters → Option (AtaResult AtaErrorRegisters) × D
  unfolding ata_ccb cam_ata_result cam_ata_failure
  cam_send_ata old d ctx call =
      if ctx == 0 || (not (has_device ctx) || not has_ccb)
      then (some (cam_ata_failure old call), d)
      else (let (r, d') = cam_send_ccb d ctx (ata_ccb call) in (cam_ata_result r, d'))

  -- `SendAtaChsCommand`; the registers that are reported are as they were in `old` when -1 is
  -- returned.
  unfoldable pub cam_ata_chs_command :
      AtaErrorRegisters → D → ℕ → AtaCall AtaRegisters → Option (AtaResult AtaErrorRegisters) × D
  unfolding cam_send_ata
  cam_ata_chs_command = cam_send_ata

  -- `SendAtaLba28Command`, whose registers are those of CHS with other names.
  unfoldable pub cam_ata_lba28_command :
      AtaErrorRegisters → D → ℕ → AtaCall AtaRegisters → Option (AtaResult AtaErrorRegisters) × D
  unfolding cam_send_ata
  cam_ata_lba28_command = cam_send_ata
