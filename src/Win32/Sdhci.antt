-- ===== src/Win32/Sdhci.antt =====
-- win32/sdhci.c: SendSdhciCommand over IOCTL_SFFDISK_DEVICE_COMMAND. DeviceIoControl and the
-- allocation are parameters.
pub mod Buffers
pub mod Flags
pub mod Multi
pub mod Registers
use aaruremote.Common.{
  ℕ, ◌^◌, ◌-◌, ◌+◌, ◌%◌, Bool, true, false, not, ◌||◌, ◌&&◌, Option, none, some, List, [], ◌∷◌,
  ◌++◌, take, drop, length, ltb, ◌==◌, if◌then◌else◌, bit_and, bit_or,
}
use aaruremote.Common.Bytes.{read_at, overwrite}
use aaruremote.Worker.Platform.{SdhciCall, SdhciResult, MmcSingleCommand, MultiSdhciResult}

pub data TransferType : Type 0 where
  cmd_only single_block multi_block : TransferType

pub data ResponseType : Type 0 where
  no_response r1 r1b r2 r3 r4 r5 r6 : ResponseType

-- The fields of SFFDISK_DEVICE_COMMAND_DATA and SDCMD_DESCRIPTOR, and the data behind them.
pub record SffCommand : Type 0 where
  pub cmd : ℕ
  pub is_app_cmd : Bool
  pub is_write : Bool
  pub response_type : ResponseType
  pub transfer_type : TransferType
  pub data_buf : List ℕ

-- After DeviceIoControl: whether it succeeded, GetLastError, the time in milliseconds, the data.
pub record SffReply : Type 0 where
  pub ok : Bool
  pub last_error : ℕ
  pub duration : ℕ
  pub data_buf : List ℕ

-- What `flags & AARUREMOTE_MMC_RESPONSE_R1` stands for: the macros have no parentheses, so `&` only
-- takes the first flag of each.
unfoldable pub present_crc_opcode : ℕ → ℕ
present_crc_opcode flags = bit_or (bit_or (bit_and flags 1) 4) 16

unfoldable pub flags_r1b : ℕ → ℕ
unfolding present_crc_opcode
flags_r1b flags = bit_or (present_crc_opcode flags) 8

unfoldable pub flags_r2 : ℕ → ℕ
flags_r2 flags = bit_or (bit_or (bit_and flags 1) 2) 4

-- Likewise for the flags of SPI, where `more` is the second one, or 0.
unfoldable pub flags_spi : ℕ → ℕ → ℕ
flags_spi flags more = bit_or (bit_and flags 0x80) more

unfoldable pub is_set : ℕ → Bool
is_set n = not (n == 0)

-- The tests of the flags, each of which may replace the type.
unfoldable pub response_type : ℕ → ResponseType
unfolding present_crc_opcode flags_r1b flags_r2 flags_spi is_set
response_type flags =
    let t1 =
      if is_set (present_crc_opcode flags) || is_set (flags_spi flags 0) then r1 else no_response in
    let t1b = if is_set (flags_r1b flags) || is_set (flags_spi flags 0x400) then r1b else t1 in
    let t2 = if is_set (flags_r2 flags) || is_set (flags_spi flags 0x100) then r2 else t1b in
    let t3 = if is_set (bit_and flags 1) || is_set (flags_spi flags 0x200) then r3 else t2 in
    let t4 = if is_set (bit_and flags 1) || is_set (flags_spi flags 0x200) then r4 else t3 in
    let t5 =
      if is_set (present_crc_opcode flags) || is_set (flags_spi flags 0x100) then r5 else t4 in
    if is_set (present_crc_opcode flags) then r6 else t5

unfoldable pub transfer_type : ℕ → ℕ → TransferType
unfolding is_set
transfer_type flags command =
    if is_set (bit_and flags 0x20)
    then (if command == 18 then multi_block else single_block)
    else cmd_only

unfoldable pub sff_command : SdhciCall → List ℕ → SffCommand
unfolding response_type transfer_type
sff_command c data_buf = record {
  cmd = c.command;
  is_app_cmd = not (c.application == 0);
  is_write = not (c.write == 0);
  response_type = response_type c.flags;
  transfer_type = transfer_type c.flags c.command;
  data_buf = data_buf;
}

-- The data in front of the call; `none` is a read outside the buffer.
unfoldable pub sff_data : SdhciCall → Option (List ℕ)
sff_data c = elim c.buffer [
  | none ↦ if c.buf_len == 0 then some [] else none
  | some b ↦ read_at b 0 c.buf_len
]

-- The outputs when -1 is returned: none is written.
unfoldable pub sff_failure : SdhciResult → SdhciCall → SdhciResult
sff_failure before c = record before { ret = 2 ^ 32 - 1; buffer = c.buffer }

-- The response words are not written either.
unfoldable pub sff_result : SdhciResult → SdhciCall → SffReply → SdhciResult
sff_result before c r = record {
  ret = if r.ok then 0 else r.last_error;
  buffer = elim c.buffer [ none ↦ none | some b ↦ some (overwrite b (take c.buf_len r.data_buf)) ];
  response = before.response;
  duration = r.duration;
  sense = if r.ok then 0 else 1;
}

module _ {D : Type 0} (headers : ℕ) (room : ℕ → Bool)
    (device_io_control : D → ℕ → SffCommand → SffReply × D) where
  -- `SendSdhciCommand`; `before` is what the outputs held, and `headers` the size of the two
  -- structures. The size of the block wraps in 32 bits; `none` is a copy that leaves the smaller
  -- block or the buffer.
  unfoldable pub sff_sdhci_command : SdhciResult → D → ℕ → SdhciCall → Option (SdhciResult × D)
  unfolding sff_command sff_data sff_failure sff_result
  sff_sdhci_command before d ctx call =
      if ctx == 0 || not (room ((headers + call.buf_len) % 2 ^ 32))
      then some (sff_failure before call, d)
      else if not (ltb (headers + call.buf_len) (2 ^ 32))
      then none
      else elim (sff_data call) [
        | none ↦ none
        | some data_buf ↦
            let (r, d') = device_io_control d ctx (sff_command call data_buf) in
            some (sff_result before call r, d')
      ]
