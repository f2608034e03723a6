-- ===== src/Linux/Ata.antt =====
-- linux/ata.c: the ATA commands, sent as ATA PASS-THROUGH (16) commands through SendScsiCommand.
pub mod Cdb
use aaruremote.Common.{
  ℕ, ◌+◌, ◌-◌, ◌*◌, ◌/◌, ◌^◌, ◌%◌, Bool, true, false, not, ◌&&◌, ◌||◌, Option, none, some, List, [],
  ◌∷◌, get_or, ltb, ◌==◌, if◌then◌else◌, bit_and, bit_or,
}
use aaruremote.Common.Bytes.{read_at}
use aaruremote.Protocol.Structs.{
  AtaRegisters, AtaErrorRegisters, AtaRegistersLba48, AtaErrorRegistersLba48,
}
use aaruremote.Worker.Platform.{
  SenseOut, untouched, null_block, block, ScsiCall, ScsiResult, AtaCall, AtaResult,
}

-- `AtaProtocolToScsiDirection`; -1, UNSPECIFIED, is a 32-bit pattern.
unfoldable pub ata_protocol_to_scsi_direction : ℕ → ℕ
ata_protocol_to_scsi_direction protocol =
    if protocol == 8
      || (protocol == 9 || (protocol == 0 || (protocol == 3 || (protocol == 1 || protocol == 15))))
    then 0
    else if protocol == 4 || protocol == 10
    then 2
    else if protocol == 5 || protocol == 11
    then 1
    else 2 ^ 32 - 1

-- `cdb[1]`, the protocol.
unfoldable pub cdb_protocol : ℕ → ℕ
cdb_protocol protocol = bit_and (protocol * 2) 0x1E

-- `cdb[2]`: the direction, whether blocks are counted, and the register that holds the length.
unfoldable pub cdb_flags : ℕ → ℕ → ℕ → ℕ
cdb_flags protocol transfer_register transfer_blocks =
    if not (transfer_register == 0) && not (protocol == 3)
    then bit_or
        (bit_or (if protocol == 4 || protocol == 10 then 0x08 else 0)
          (if transfer_blocks == 0 then 0 else 0x04))
        (bit_and transfer_register 0x03)
    else 0

unfoldable pub cdb_chs : AtaCall AtaRegisters → List ℕ
cdb_chs c =
    let r = c.registers in
    0x85
    ∷ cdb_protocol c.protocol
    ∷ cdb_flags c.protocol c.transfer_register c.transfer_blocks
    ∷ 0
    ∷ r.feature
    ∷ 0
    ∷ r.sector_count
    ∷ 0
    ∷ r.sector
    ∷ 0
    ∷ r.cylinder_low
    ∷ 0
    ∷ r.cylinder_high
    ∷ r.device_head
    ∷ r.command
    ∷ 0
    ∷ []

unfoldable pub cdb_lba28 : AtaCall AtaRegisters → List ℕ
cdb_lba28 c =
    let r = c.registers in
    0x85
    ∷ cdb_protocol c.protocol
    ∷ bit_or (cdb_flags c.protocol c.transfer_register c.transfer_blocks) 0x20
    ∷ 0
    ∷ r.feature
    ∷ 0
    ∷ r.sector_count
    ∷ 0
    ∷ r.sector
    ∷ 0
    ∷ r.cylinder_low
    ∷ 0
    ∷ r.cylinder_high
    ∷ r.device_head
    ∷ r.command
    ∷ 0
    ∷ []

unfoldable pub cdb_lba48 : AtaCall AtaRegistersLba48 → List ℕ
cdb_lba48 c =
    let r = c.registers in
    0x85
    ∷ bit_or (cdb_protocol c.protocol) 0x01
    ∷ bit_or (cdb_flags c.protocol c.transfer_register c.transfer_blocks) 0x20
    ∷ r.feature / 256 % 256
    ∷ r.feature % 256
    ∷ r.sector_count / 256 % 256
    ∷ r.sector_count % 256
    ∷ r.lba_low_prev
    ∷ r.lba_low_cur
    ∷ r.lba_mid_prev
    ∷ r.lba_mid_cur
    ∷ r.lba_high_prev
    ∷ r.lba_high_cur
    ∷ r.device_head
    ∷ r.command
    ∷ 0
    ∷ []

-- The registers in the sense bytes, from byte 8 on the ATA status return descriptor.
unfoldable pub sense_registers : List ℕ → AtaErrorRegisters
sense_registers s = record {
  status = get_or s 21 0;
  error = get_or s 11 0;
  sector_count = get_or s 13 0;
  sector = get_or s 15 0;
  cylinder_low = get_or s 17 0;
  cylinder_high = get_or s 19 0;
  device_head = get_or s 20 0;
}

-- `(uint16_t)((sense_buf[12] << 8) + sense_buf[13])`, where both bytes are signed.
unfoldable pub sense_sector_count : ℕ → ℕ → ℕ
sense_sector_count high low =
    (high * 256 + (if ltb low 128 then low else low + (2 ^ 16 - 256))) % 2 ^ 16

unfoldable pub sense_registers_lba48 : List ℕ → AtaErrorRegistersLba48
sense_registers_lba48 s = record {
  status = get_or s 21 0;
  error = get_or s 11 0;
  sector_count = sense_sector_count (get_or s 12 0) (get_or s 13 0);
  lba_low_prev = get_or s 14 0;
  lba_low_cur = get_or s 15 0;
  lba_mid_prev = get_or s 16 0;
  lba_mid_cur = get_or s 17 0;
  lba_high_prev = get_or s 18 0;
  lba_high_cur = get_or s 19 0;
  device_head = get_or s 20 0;
}

-- `*sense`, from the error and the status.
unfoldable pub ata_sense : ℕ → ℕ → ℕ
ata_sense error status = if not (error == 0) || not (bit_and status 0xA5 == 0) then 1 else 0

-- The sense bytes hold no ATA status; the first two tests are joined by `&&` in the source.
unfoldable pub no_ata_status : List ℕ → Bool
no_ata_status s = not (get_or s 8 0 == 0x09) && not (get_or s 9 0 == 0x0C)

unfoldable pub ata_result : {E R : Type 0} → AtaCall R → ScsiResult → E → ℕ → AtaResult E
ata_result call r registers sense = record {
  ret = r.ret;
  error_registers = registers;
  buffer = r.buffer;
  duration = r.duration;
  sense = sense;
  buf_len = r.buf_len;
}

unfoldable pub ata_scsi_call : {R : Type 0} → AtaCall R → List ℕ → ScsiCall
ata_scsi_call call cdb = record {
  cdb = some cdb;
  buffer = call.buffer;
  timeout = call.timeout;
  direction = ata_protocol_to_scsi_direction call.protocol;
  cdb_len = 16;
  buf_len = call.buf_len;
}

-- The outputs when no device is open: the caller's registers and buffer are as they were.
unfoldable pub ata_failure : {E R : Type 0} → AtaCall R → E → AtaResult E
ata_failure call old = record {
  ret = 2 ^ 32 - 1;
  error_registers = old;
  buffer = call.buffer;
  duration = 0;
  sense = 0;
  buf_len = call.buf_len;
}

-- After `SendScsiCommand`, with the registers as they were before in `old`; `none` is a read through
-- the sense pointer that leaves its block, or that was NULL or not set.
unfoldable pub ata_reply :
    {E R : Type 0} → (List ℕ → E) → AtaCall R → E → ScsiResult → Option (AtaResult E)
ata_reply load call old r =
    if ltb r.sense_len 22 then some (ata_result call r old r.sense) else elim r.sense_buf [
      | untouched ↦ none
      | null_block ↦ none
      | block b ↦ elim (read_at b 0 22) [
        | none ↦ none
        | some s ↦ some (
            if no_ata_status s
            then ata_result call r old r.sense
            else ata_result call r (load s) (ata_sense (get_or s 11 0) (get_or s 21 0)))
      ]
    ]

-- `*duration` and `*sense` are 0 before the call.
module _ {D : Type 0} (send_scsi_command : ℕ × ℕ → D → ℕ → ScsiCall → ScsiResult × D) where
  unfoldable pub send_ata :
      {E R : Type 0}
      → (List ℕ → E)
      → (AtaCall R → List ℕ)
      → E
      → D
      → ℕ
      → AtaCall R
      → Option (AtaResult E) × D
  send_ata load cdb old d ctx call =
      if ctx == 0
      then (some (ata_failure call old), d)
      else (let (r, d') = send_scsi_command (0, 0) d ctx (ata_scsi_call call (cdb call)) in
          (ata_reply load call old r, d'))

  -- `SendAtaChsCommand`
  unfoldable pub send_ata_chs_command :
      AtaErrorRegisters → D → ℕ → AtaCall AtaRegisters → Option (AtaResult AtaErrorRegisters) × D
  unfolding send_ata
  send_ata_chs_command = send_ata sense_registers cdb_chs

  -- `SendAtaLba28Command`
  unfoldable pub send_ata_lba28_command :
      AtaErrorRegisters → D → ℕ → AtaCall AtaRegisters → Option (AtaResult AtaErrorRegisters) × D
  unfolding send_ata
  send_ata_lba28_command = send_ata sense_registers cdb_lba28

  -- `SendAtaLba48Command`
  unfoldable pub send_ata_lba48_command :
      AtaErrorRegistersLba48
      → D
      → ℕ
      → AtaCall AtaRegistersLba48
      → Option (AtaResult AtaErrorRegistersLba48) × D
  unfolding send_ata
  send_ata_lba48_command = send_ata sense_registers_lba48 cdb_lba48
