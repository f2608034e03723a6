-- ===== src/Linux/Scsi.antt =====
-- linux/scsi.c: SendScsiCommand over the SG_IO ioctl.
pub mod Refines
use aaruremote.Common.{
  ℕ, ◌-◌, ◌^◌, ◌%◌, Bool, true, false, Option, none, some, List, ◌==◌, ◌||◌, if◌then◌else◌,
}
use aaruremote.Worker.Platform.{SenseOut, untouched, null_block, block, ScsiCall, ScsiResult}

-- `dxfer_direction`.
pub data Transfer : Type 0 where
  no_transfer from_dev to_dev to_from_dev : Transfer

-- The fields of `sg_io_hdr_t` that are set before the call; the sense block has `mx_sb_len` bytes.
pub record SgRequest : Type 0 where
  pub interface_id : ℕ
  pub cmd_len : ℕ
  pub mx_sb_len : ℕ
  pub dxfer_direction : Transfer
  pub dxfer_len : ℕ
  pub dxferp : Option (List ℕ)
  pub cmdp : Option (List ℕ)
  pub sbp : List ℕ
  pub timeout : ℕ

-- The result of the ioctl, the two buffers and the fields of the header after it. `info_ok` is
-- `(info & SG_INFO_OK_MASK) == SG_INFO_OK`.
pub record SgReply : Type 0 where
  pub ret : ℕ
  pub dxferp : Option (List ℕ)
  pub sbp : List ℕ
  pub info_ok : Bool
  pub duration : ℕ
  pub sb_len_wr : ℕ

-- The switch over the direction, a 32-bit pattern; -1 is UNSPECIFIED.
unfoldable pub transfer_direction : ℕ → Transfer
transfer_direction direction =
    if direction == 2
    then from_dev
    else if direction == 1
    then to_dev
    else if direction == 3 || direction == 2 ^ 32 - 1
    then to_from_dev
    else no_transfer

-- The outputs when the function returns -1 before the ioctl; `stale` is what `*duration` and `*sense`
-- held before the call.
unfoldable pub scsi_failure : ℕ × ℕ → ScsiCall → SenseOut → ScsiResult
scsi_failure stale call out = record {
  ret = 2 ^ 32 - 1;
  buffer = call.buffer;
  sense_buf = out;
  duration = stale.0;
  sense = stale.1;
  buf_len = call.buf_len;
  sense_len = 32;
}

-- `cmd_len` is an `unsigned char`.
unfoldable pub sg_request : ScsiCall → List ℕ → SgRequest
sg_request call sense_block = record {
  interface_id = b'S';
  cmd_len = call.cdb_len % 256;
  mx_sb_len = 32;
  dxfer_direction = transfer_direction call.direction;
  dxfer_len = call.buf_len;
  dxferp = call.buffer;
  cmdp = call.cdb;
  sbp = sense_block;
  timeout = call.timeout;
}

unfoldable pub scsi_result : ScsiCall → SgReply → ScsiResult
scsi_result call r = record {
  ret = r.ret;
  buffer = r.dxferp;
  sense_buf = block r.sbp;
  duration = r.duration;
  sense = if r.info_ok then 0 else 1;
  buf_len = call.buf_len;
  sense_len = r.sb_len_wr;
}

module _ {D : Type 0} (malloc : ℕ → Option (List ℕ)) (sg_io : D → ℕ → SgRequest → SgReply × D) where
  -- `SendScsiCommand`
  unfoldable pub send_scsi_command : ℕ × ℕ → D → ℕ → ScsiCall → ScsiResult × D
  send_scsi_command stale d ctx call =
      if ctx == 0 then (scsi_failure stale call untouched, d) else elim (malloc 32) [
        | none ↦ (scsi_failure stale call null_block, d)
        | some sense_block ↦
            let (r, d') = sg_io d ctx (sg_request call sense_block) in (scsi_result call r, d')
      ]
