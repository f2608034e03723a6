-- ===== src/Linux/Ata/Cdb.antt =====
-- linux/ata.c: what the device gets of the registers, and what the caller gets of its answer.
use aaruremote.Common.{
  ℕ, ◌+◌, ◌*◌, ◌/◌, ◌^◌, ◌%◌, ◌≤◌, ◌<◌, ◌≡◌, refl, Option, some, List, length, get_or, take, ltb,
  Bool-cases, inl, inr, arith, ◌==◌,
}
use aaruremote.Common.Bytes.{IsByte, read_at_inside}
use aaruremote.Protocol.Structs.{AtaRegistersLba48, AtaErrorRegistersLba48}
use aaruremote.Worker.Platform.{block, ScsiResult, AtaCall, AtaResult}
use aaruremote.Worker.Transfers.Parts.{Holds}
use aaruremote.Linux.Scsi.{SgRequest, SgReply, send_scsi_command, sg_request, scsi_result}
use aaruremote.Linux.Scsi.Refines.{SgLaws}
use aaruremote.Linux.Ata.{
  cdb_lba48, sense_sector_count, ata_reply, ata_result, no_ata_status, send_ata,
  send_ata_lba48_command, ata_scsi_call, ata_sense, ata_failure,
}

-- The registers of an ATA PASS-THROUGH (16) command with 48-bit addresses: the extended registers
-- have their earlier byte in front.
abbrev pub pass_through_registers : List ℕ → AtaRegistersLba48
pass_through_registers b = record {
  feature = get_or b 3 0 * 256 + get_or b 4 0;
  sector_count = get_or b 5 0 * 256 + get_or b 6 0;
  lba_low_prev = get_or b 7 0;
  lba_low_cur = get_or b 8 0;
  lba_mid_prev = get_or b 9 0;
  lba_mid_cur = get_or b 10 0;
  lba_high_prev = get_or b 11 0;
  lba_high_cur = get_or b 12 0;
  device_head = get_or b 13 0;
  command = get_or b 14 0;
}

-- For 16-bit feature and sector count registers, reading the registers of the 16-byte pass-through
-- command that SendAtaLba48Command builds gives the registers of the call, and the command has 16
-- bytes.
pub cdb_lba48_registers :
    (c : AtaCall AtaRegistersLba48)
    → c.registers.feature < 2 ^ 16
    → c.registers.sector_count < 2 ^ 16
    → (pass_through_registers (cdb_lba48 c) ≡ c.registers) × (length (cdb_lba48 c) ≡ 16)
unfolding cdb_lba48
cdb_lba48_registers c hf hs =
    let r = c.registers in
    let f : r.feature / 256 % 256 * 256 + r.feature % 256 ≡ r.feature = omega arith in
    let n : r.sector_count / 256 % 256 * 256 + r.sector_count % 256 ≡ r.sector_count =
      omega arith in
    (
      λ i. record {
        feature = f i;
        sector_count = n i;
        lba_low_prev = r.lba_low_prev;
        lba_low_cur = r.lba_low_cur;
        lba_mid_prev = r.lba_mid_prev;
        lba_mid_cur = r.lba_mid_cur;
        lba_high_prev = r.lba_high_prev;
        lba_high_cur = r.lba_high_cur;
        device_head = r.device_head;
        command = r.command;
      },
      refl,
    )

-- For two byte values, the sector count that SendAtaLba48Command puts together from signed sense
-- bytes is high * 256 + low if low is below 128, and is 256 too small, modulo 2 ^ 16, if low is 128
-- or more.
pub sense_sector_count_borrows :
    (high low : ℕ)
    → IsByte high
    → IsByte low
    → (low < 128 → sense_sector_count high low ≡ high * 256 + low)
      × (128 ≤ low → (sense_sector_count high low + 256) % 2 ^ 16 ≡ high * 256 + low)
unfolding sense_sector_count
sense_sector_count_borrows high low h l = (λ small. ground arith, λ large. ground arith)

-- The block that the sense pointer is set to holds the sense bytes that are announced.
SenseBlock : ScsiResult → Type 0
SenseBlock r = (b : List ℕ) × (r.sense_buf ≡ block b) × (r.sense_len ≤ length b)

ata_reply_total :
    {E R : Type 0} (load : List ℕ → E) (call : AtaCall R) (old : E) (r : ScsiResult)
    → SenseBlock r
    → (a : AtaResult E) × (ata_reply load call old r ≡ some a)
      × (a.buffer ≡ r.buffer)
      × (a.buf_len ≡ r.buf_len)
unfolding ata_reply ata_result SenseBlock
ata_reply_total load call old r (b, e, long) = elim (Bool-cases (ltb r.sense_len 22)) [
  | inl short ↦ (ata_result call r old r.sense, rw short refl, refl, refl)
  | inr enough ↦
      let s = take 22 b in
      elim (Bool-cases (no_ata_status s)) [
        | inl bare ↦ (
          ata_result call r old r.sense,
          rw (enough, e, read_at_inside b 0 22 (ground arith), bare) refl,
          refl,
          refl,
        )
        | inr status ↦ (
          ata_result call r (load s) (ata_sense (get_or s 11 0) (get_or s 21 0)),
          rw (enough, e, read_at_inside b 0 22 (ground arith), status) refl,
          refl,
          refl,
        )
      ]
]

module _ {D : Type 0} {malloc : ℕ → Option (List ℕ)} {sg_io : D → ℕ → SgRequest → SgReply × D}
    (room : (n : ℕ) (b : List ℕ) → malloc n ≡ some b → length b ≡ n) (L : SgLaws sg_io) where
  pub send_ata_total :
      {E R : Type 0} (load : List ℕ → E) (cdb : AtaCall R → List ℕ) (old : E) (block_32 : List ℕ)
      → malloc 32 ≡ some block_32
      → (d : D) (ctx : ℕ) (call : AtaCall R) → Holds call.buffer call.buf_len
      → (a : AtaResult E) × ((send_ata (send_scsi_command malloc sg_io) load cdb old d ctx call).0
          ≡ some a)
        × Holds a.buffer a.buf_len
        × (a.buf_len ≤ call.buf_len)
  unfolding send_ata send_scsi_command scsi_result sg_request ata_scsi_call SenseBlock ata_failure
  send_ata_total load cdb old block_32 got d ctx call held = elim (Bool-cases (ctx == 0)) [
    | inl e ↦ (ata_failure call old, rw e refl, held, omega arith)
    | inr e ↦
        let q = sg_request (ata_scsi_call call (cdb call)) block_32 in
        let r = scsi_result (ata_scsi_call call (cdb call)) (sg_io d ctx q).0 in
        let kept = L.sense_kept d ctx q (omega (arith, room 32 block_32 got)) in
        let (a, runs, same, size) =
          ata_reply_total load call old r (_, refl, omega (arith, kept.0, kept.1)) in
        (a, rw (e, got) runs, rw (same, size) (L.buffer_kept d ctx q held), omega (arith, size))
  ]

  -- With an allocator whose blocks have the size that was asked for, and that has room for a sense
  -- block, and an SG_IO that meets SgLaws, for a call whose buffer holds the bytes that it
  -- announces: SendAtaLba48Command of Linux ends without an access outside the sense block, and its
  -- buffer holds the bytes that it announces, no more than it was given.
  pub send_ata_lba48_command_total :
      (old : AtaErrorRegistersLba48) (block_32 : List ℕ)
      → malloc 32 ≡ some block_32
      → (d : D) (ctx : ℕ) (call : AtaCall AtaRegistersLba48) → Holds call.buffer call.buf_len
      → (a : AtaResult AtaErrorRegistersLba48) × ((send_ata_lba48_command
            (send_scsi_command malloc sg_io)
            old
            d
            ctx
            call).0
          ≡ some a)
        × Holds a.buffer a.buf_len
        × (a.buf_len ≤ call.buf_len)
  unfolding send_ata_lba48_command
  send_ata_lba48_command_total = send_ata_total _ _
