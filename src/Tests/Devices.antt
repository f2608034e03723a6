-- ===== src/Tests/Devices.antt =====
-- Runs of the Linux device functions, of NetRecv and of the copying of SDHCI data, on an SG_IO that
-- reports eight sense bytes and on a connection that delivers at most two bytes at a time.
use aaruremote.Common.{
  ℕ, ◌≤◌, ◌≡◌, refl, sym, ap, ◌∙◌, Bool, true, Option, none, some, List, [], ◌∷◌, length, take,
  drop, min, replicate, length-replicate, arith,
}
use aaruremote.Protocol.Structs.{
  AtaRegistersLba48, AtaErrorRegistersLba48, zero_error_registers_lba48,
}
use aaruremote.Worker.Platform.{AtaCall, AtaResult}
use aaruremote.Worker.Transfers.Parts.{Holds}
use aaruremote.Worker.Transfers.Answers.{ScsiLaws}
use aaruremote.Worker.Platform.{MmcSingleCommand}
use aaruremote.Worker.Multi.{place_buffers, copy_buffers, total_buf_len}
use aaruremote.Worker.Multi.Buffers.{copy_buffers-place_buffers}
use aaruremote.Linux.Scsi.{SgRequest, SgReply, send_scsi_command}
use aaruremote.Linux.Scsi.Refines.{SgLaws, send_scsi_command-ScsiLaws}
use aaruremote.Linux.Ata.{cdb_lba48, send_ata_lba48_command}
use aaruremote.Linux.Ata.Cdb.{
  pass_through_registers, cdb_lba48_registers, send_ata_lba48_command_total,
}
use aaruremote.Network.{net_recv}
use aaruremote.Network.Streams.{RecvLaws, net_recv_lem}

abbrev zeroed : ℕ → Option (List ℕ)
zeroed n = some (replicate n 0)

abbrev size_of : Option (List ℕ) → ℕ
size_of none = 0
size_of (some b) = length b

zeroed_size : (n : ℕ) (b : List ℕ) → zeroed n ≡ some b → length b ≡ n
zeroed_size n b e = sym (ap size_of e) ∙ length-replicate {A = ℕ} n 0

abbrev sg_device : Unit {0} → ℕ → SgRequest → SgReply × Unit {0}
sg_device d fd q = (
  record {
    ret = 0;
    dxferp = q.dxferp;
    sbp = q.sbp;
    info_ok = true;
    duration = 5;
    sb_len_wr = min 8 q.mx_sb_len;
  },
  d,
)

sg_device-SgLaws : SgLaws sg_device
sg_device-SgLaws = record {
  sense_kept = λ d fd q whole. (omega arith, whole);
  buffer_kept = λ d fd q held. held;
}

send_scsi_command-ScsiLaws_example : ScsiLaws (send_scsi_command zeroed sg_device (0, 0))
send_scsi_command-ScsiLaws_example = send_scsi_command-ScsiLaws zeroed_size sg_device-SgLaws (0, 0)

-- READ DMA EXT of one sector.
abbrev read_sector : AtaCall AtaRegistersLba48
read_sector = record {
  registers = record {
    feature = 0x0102;
    sector_count = 0x0304;
    lba_low_prev = 0;
    lba_low_cur = 16;
    lba_mid_prev = 0;
    lba_mid_cur = 0;
    lba_high_prev = 0;
    lba_high_cur = 0;
    device_head = 0x40;
    command = 0x25;
  };
  protocol = 10;
  transfer_register = 2;
  buffer = some (replicate 4 0);
  timeout = 1000;
  transfer_blocks = 1;
  buf_len = 4;
}

cdb_lba48_registers_example :
    (pass_through_registers (cdb_lba48 read_sector) ≡ read_sector.registers)
    × (length (cdb_lba48 read_sector) ≡ 16)
cdb_lba48_registers_example = cdb_lba48_registers read_sector (omega arith) (omega arith)

send_ata_lba48_command_total_example :
    (a : AtaResult AtaErrorRegistersLba48) × ((send_ata_lba48_command
        (send_scsi_command zeroed sg_device)
        zero_error_registers_lba48
        tt
        1
        read_sector).0
      ≡ some a)
    × Holds a.buffer a.buf_len
    × (a.buf_len ≤ 4)
send_ata_lba48_command_total_example =
    send_ata_lba48_command_total zeroed_size sg_device-SgLaws zero_error_registers_lba48
      (replicate 32 0) refl tt 1 read_sector (omega arith)

abbrev two_by_two : List ℕ → ℕ → Bool → Option (List ℕ) × List ℕ
two_by_two c n peek = (some (take (min 2 (min n (length c))) c), drop (min 2 (min n (length c))) c)

abbrev two_by_two-RecvLaws : RecvLaws two_by_two
two_by_two-RecvLaws = record {
  pending = λ c. c;
  piece = λ c n. min 2 (min n (length c));
  piece_asked = λ c n. omega arith;
  piece_there = λ c n. omega arith;
  piece_some = λ c n asked there. omega arith;
  recv_bytes = λ c n. refl;
  recv_pending = λ c n. refl;
}

net_recv_lem_example :
    ((net_recv two_by_two (1 ∷ 2 ∷ 3 ∷ 4 ∷ 5 ∷ 6 ∷ []) 5 Bool.false).0
      ≡ some (1 ∷ 2 ∷ 3 ∷ 4 ∷ 5 ∷ []))
    × ((net_recv two_by_two (1 ∷ 2 ∷ 3 ∷ 4 ∷ 5 ∷ 6 ∷ []) 5 Bool.false).1 ≡ 6 ∷ [])
net_recv_lem_example = net_recv_lem two_by_two-RecvLaws (1 ∷ 2 ∷ 3 ∷ 4 ∷ 5 ∷ 6 ∷ []) 5 (omega arith)

abbrev read_block : MmcSingleCommand
read_block = record {
  argument = 0;
  blocks = 1;
  block_size = 2;
  buf_len = 2;
  buffer = 0;
  command = 17;
  flags = 0;
  application = 0;
  response = 0 ∷ 0 ∷ 0 ∷ 0 ∷ [];
  write = 0;
}

copy_buffers-place_buffers_example :
    (copy_buffers (9 ∷ 1 ∷ 2 ∷ 3 ∷ 4 ∷ []) 2 (place_buffers 1 (read_block ∷ read_block ∷ []))
      ≡ some (1 ∷ 2 ∷ 3 ∷ 4 ∷ []))
    × (total_buf_len (place_buffers 1 (read_block ∷ read_block ∷ [])) ≡ 4)
copy_buffers-place_buffers_example =
    copy_buffers-place_buffers (9 ∷ 1 ∷ 2 ∷ 3 ∷ 4 ∷ []) 2 1 (read_block ∷ read_block ∷ [])
      (refl, (refl, tt)) (omega arith)
