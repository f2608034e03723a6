-- ===== src/Worker/Transfers.antt =====
-- worker.c: the cases that pass a command and a data buffer to the device.
pub mod Parts
pub mod Answers
pub mod Ata
use aaruremote.Common.{
  ℕ, ◌+◌, ◌*◌, ◌%◌, ◌^◌, Bool, Option, none, some, List, [], ◌∷◌, ◌++◌, length, take, drop, get_or,
  map, leb, ltb, ◌==◌, if◌then◌else◌,
}
use aaruremote.Common.Bytes.{le_bytes, read_at}
use aaruremote.Protocol.Types.{
  type_response_scsi, type_response_ata_chs, type_response_ata_lba_28, type_response_ata_lba_48,
  type_response_sdhci,
}
use aaruremote.Protocol.Header.{encode_header, own_header}
use aaruremote.Protocol.Structs.{
  field16, field32, AaruPacketCmdScsi, load_cmd_scsi, cmd_scsi_size, res_scsi_size, encode_res_scsi,
  load_ata_registers, load_ata_registers_lba48, encode_error_registers,
  encode_error_registers_lba48,
}
use aaruremote.Worker.Platform.{
  Platform, SenseOut, untouched, null_block, block, AtaCall, AtaResult, ScsiResult,
}
use aaruremote.Worker.Session.{
  Session, M, ◌>>=◌, ◌>>◌, pure, access, get, malloc, net_write, device, with_packet, with_block,
}

-- The spare bytes of a header in a block that was not zeroed.
abbrev pub leftover_spare : List ℕ → List ℕ
leftover_spare raw = take 2 (drop 14 raw)

-- `len` bytes at offset `off` of the answer: the buffer's, or what the block held if it is NULL.
abbrev pub data_part : Option (List ℕ) → List ℕ → ℕ → ℕ → Option (List ℕ)
data_part none raw off len = some (take len (drop off raw))
data_part (some b) raw off len = read_at b 0 len

-- What the variable `sense_buf` points to when it is read: `some none` is NULL.
abbrev pub sense_block : SenseOut → Bool → Option (Option (List ℕ))
sense_block untouched is_null = if is_null then some none else none
sense_block null_block is_null = some none
sense_block (block b) is_null = some (some b)

-- Whether `sense_buf` holds NULL after the call and the `free` that follows it.
abbrev pub sense_null_after : SenseOut → Bool → Bool
sense_null_after untouched is_null = is_null
sense_null_after null_block is_null = Bool.true
sense_null_after (block b) is_null = Bool.false

-- What the ATA cases pass on, from the fixed part of the packet and the packet. `reg_size` is the
-- size of the register structure; the buffer is a pointer into the packet, behind the fixed part.
unfoldable pub ata_call : {R : Type 0} → (List ℕ → R) → ℕ → List ℕ → List ℕ → AtaCall R
ata_call load reg_size fixed in_buf = record {
  registers = load (drop 20 fixed);
  protocol = get_or fixed (20 + reg_size) 0;
  transfer_register = get_or fixed (21 + reg_size) 0;
  buffer = if ltb 0 (field32 fixed 16) then some (drop (28 + reg_size) in_buf) else none;
  timeout = field32 fixed (24 + reg_size);
  transfer_blocks = get_or fixed (22 + reg_size) 0;
  buf_len = field32 fixed 16;
}

module _ {C D H : Type 0} (P : Platform C D H) where
  -- A block with a copy of `n` bytes of the packet, or NULL if `n` is 0; the `malloc` is unchecked.
  unfoldable pub copy_out : List ℕ → ℕ → ℕ → M C D H (Option (List ℕ))
  copy_out in_buf off n s =
      if n == 0
      then some (none, s)
      else (do b ← malloc P n; access b; copied ← access (read_at in_buf off n); pure (some copied))
          s

  abbrev set_sense : SenseOut → M C D H (Unit {0})
  set_sense out s = some (tt, record s { sense_buf_null = sense_null_after out s.sense_buf_null })

  -- From the allocation of the answer on. `is_null` says whether `sense_buf` held NULL before the
  -- command was sent.
  unfoldable pub scsi_reply : ScsiResult → Bool → M C D H (Unit {0})
  scsi_reply r is_null = do
    let size = res_scsi_size + r.sense_len + r.buf_len
    with_block P size λ raw. do
      sense_buf ← access (sense_block r.sense_buf is_null)
      sense ← access (data_part sense_buf raw res_scsi_size r.sense_len)
      payload ← access (data_part r.buffer raw (res_scsi_size + r.sense_len) r.buf_len)
      let len = size % 2 ^ 32
      net_write P
          (encode_res_scsi (record {
            hdr = own_header type_response_scsi len (leftover_spare raw);
            sense_len = r.sense_len;
            buf_len = r.buf_len;
            duration = r.duration;
            sense = r.sense;
            error_no = r.ret;
          })
            ++ (sense ++ payload))
          len

  -- The command and the data are copied out of the packet and sent to the device.
  unfoldable pub scsi_request : List ℕ → AaruPacketCmdScsi → M C D H (Unit {0})
  scsi_request in_buf cmd = do
    cdb ← copy_out in_buf cmd_scsi_size cmd.cdb_len
    buffer ← copy_out in_buf (cmd.cdb_len + cmd_scsi_size) cmd.buf_len
    s ← get
    r ← device P (λ d. P.send_scsi_command d s.device_ctx (record {
      cdb = cdb;
      buffer = buffer;
      timeout = cmd.timeout;
      direction = cmd.direction;
      cdb_len = cmd.cdb_len;
      buf_len = cmd.buf_len;
    }))
    set_sense r.sense_buf
    scsi_reply r s.sense_buf_null

  -- `case AARUREMOTE_PACKET_TYPE_COMMAND_SCSI`
  unfoldable pub on_scsi : M C D H (Unit {0})
  on_scsi = with_packet P λ in_buf. do
    fixed ← access (read_at in_buf 0 cmd_scsi_size)
    scsi_request in_buf (load_cmd_scsi fixed)

  -- The end of the ATA, SDHCI and OSREAD cases: an answer with the fixed part `fields` behind its
  -- header, `fixed_size` bytes in all, and `buf_len` bytes of the buffer.
  unfoldable pub send_payload : ℕ → ℕ → List ℕ → Option (List ℕ) → ℕ → M C D H (Unit {0})
  send_payload packet_type fixed_size fields buffer buf_len = do
    let size = fixed_size + buf_len
    with_block P size λ raw. do
      payload ← access (data_part buffer raw fixed_size buf_len)
      let len = size % 2 ^ 32
      net_write P
          (encode_header (own_header packet_type len (leftover_spare raw)) ++ (fields ++ payload))
          len

  -- The three ATA cases; `err_size` is the size of the error registers.
  unfoldable pub on_ata :
      {R E : Type 0}
      → (packet_type reg_size err_size : ℕ) → (List ℕ → R)
      → (E → List ℕ)
      → (D → ℕ → AtaCall R → AtaResult E × D)
      → M C D H (Unit {0})
  on_ata packet_type reg_size err_size load encode send = with_packet P λ in_buf. do
    fixed ← access (read_at in_buf 0 (28 + reg_size))
    s ← get
    r ← device P (λ d. send d s.device_ctx (ata_call load reg_size fixed in_buf))
    send_payload packet_type (32 + err_size)
        (le_bytes 4 r.buf_len
          ++ (encode r.error_registers
              ++ (le_bytes 4 r.duration ++ (le_bytes 4 r.sense ++ le_bytes 4 r.ret))))
        r.buffer r.buf_len

  -- `case AARUREMOTE_PACKET_TYPE_COMMAND_ATA_CHS`
  unfoldable pub on_ata_chs : M C D H (Unit {0})
  on_ata_chs =
      on_ata type_response_ata_chs 7 7 load_ata_registers encode_error_registers
        P.send_ata_chs_command

  -- `case AARUREMOTE_PACKET_TYPE_COMMAND_ATA_LBA_28`
  unfoldable pub on_ata_lba28 : M C D H (Unit {0})
  on_ata_lba28 =
      on_ata type_response_ata_lba_28 7 7 load_ata_registers encode_error_registers
        P.send_ata_lba28_command

  -- `case AARUREMOTE_PACKET_TYPE_COMMAND_ATA_LBA_48`
  unfoldable pub on_ata_lba48 : M C D H (Unit {0})
  on_ata_lba48 =
      on_ata type_response_ata_lba_48 12 11 load_ata_registers_lba48 encode_error_registers_lba48
        P.send_ata_lba48_command

  -- `case AARUREMOTE_PACKET_TYPE_COMMAND_SDHCI`; the answer copies the command's `buf_len`.
  unfoldable pub on_sdhci : M C D H (Unit {0})
  on_sdhci = with_packet P λ in_buf. do
    fixed ← access (read_at in_buf 0 43)
    let buf_len = field32 fixed 35
    s ← get
    r ← device P (λ d. P.send_sdhci_command d s.device_ctx (record {
      command = get_or fixed 16 0;
      write = get_or fixed 17 0;
      application = get_or fixed 18 0;
      flags = field32 fixed 19;
      argument = field32 fixed 23;
      block_size = field32 fixed 27;
      blocks = field32 fixed 31;
      buffer = if ltb 0 buf_len then some (drop 43 in_buf) else none;
      buf_len = buf_len;
      timeout = field32 fixed 39;
    }))
    send_payload type_response_sdhci 48
        (le_bytes 4 buf_len
          ++ (le_bytes 4 (get_or r.response 0 0)
              ++ (le_bytes 4 (get_or r.response 1 0)
                  ++ (le_bytes 4 (get_or r.response 2 0)
                      ++ (le_bytes 4 (get_or r.response 3 0)
                          ++ (le_bytes 4 r.duration
                              ++ (le_bytes 4 r.sense ++ le_bytes 4 r.ret)))))))
        r.buffer buf_len
