-- ===== src/Linux/Sdhci.antt =====
-- linux/sdhci.c: commands to SD and MMC cards over the ioctls MMC_IOC_CMD and MMC_IOC_MULTI_CMD, and
-- the registers of a card, which sysfs shows as hexadecimal text.
pub mod Sense
pub mod Text
use aaruremote.Common.{
  ℕ, zero, suc, ◌-◌, ◌+◌, ◌*◌, ◌%◌, ◌^◌, Bool, true, false, not, ◌&&◌, Option, none, some, List, [],
  ◌∷◌, ◌++◌, take, drop, length, replicate, leb, ltb, ◌==◌, if◌then◌else◌, ◌||◌, ◌>>=◌,
}
use aaruremote.Common.Bytes.{codes, overwrite}
use aaruremote.Common.Text.{starts_with, before_first}
use aaruremote.Hex.{hexs2bin}
use aaruremote.Worker.Platform.{
  SdhciCall, SdhciResult, MmcSingleCommand, MultiSdhciResult, SdhciRegisters,
}
use aaruremote.Linux.Sysfs.{Files}

-- The fields of `struct mmc_ioc_cmd` that are set; the others are 0.
pub record MmcIocCmd (B : Type 0) : Type 0 where
  pub write_flag : ℕ
  pub is_acmd : ℕ
  pub opcode : ℕ
  pub arg : ℕ
  pub flags : ℕ
  pub blksz : ℕ
  pub blocks : ℕ
  pub data_timeout_ns : ℕ
  pub cmd_timeout_ms : ℕ
  pub data_ptr : B

-- After an ioctl: its result, negative for `none`; `errno`; the data, and the response words.
pub record MmcReply (B R : Type 0) : Type 0 where
  pub ret : Option ℕ
  pub errno : ℕ
  pub data_ptr : B
  pub response : R

-- `timeout * 1000000000` and `timeout * 1000` in 32 bits.
unfoldable pub timeout_ns : ℕ → ℕ
timeout_ns timeout = timeout * 1000000000 % 2 ^ 32

unfoldable pub timeout_ms : ℕ → ℕ
timeout_ms timeout = timeout * 1000 % 2 ^ 32

unfoldable pub mmc_command : SdhciCall → MmcIocCmd (Option (List ℕ))
unfolding timeout_ns timeout_ms
mmc_command c = record {
  write_flag = c.write;
  is_acmd = c.application;
  opcode = c.command;
  arg = c.argument;
  flags = c.flags;
  blksz = c.block_size;
  blocks = c.blocks;
  data_timeout_ns = if ltb 0 c.timeout then timeout_ns c.timeout else 0;
  cmd_timeout_ms = if ltb 0 c.timeout then timeout_ms c.timeout else 0;
  data_ptr = c.buffer;
}

-- `if(error < 0) error = errno;`
unfoldable pub mmc_error : {B R : Type 0} → MmcReply B R → ℕ
mmc_error r = elim r.ret [ none ↦ r.errno | some e ↦ e ]

-- `*sense = error < 0`, for a 32-bit pattern.
unfoldable pub mmc_sense : ℕ → ℕ
mmc_sense error = if leb (2 ^ 31) error then 1 else 0

module _ {D : Type 0}
    (ioctl : D → ℕ → MmcIocCmd (Option (List ℕ)) → MmcReply (Option (List ℕ)) (List ℕ) × D) where
  -- `SendSdhciCommand`; `response` is what the four words held before.
  unfoldable pub send_sdhci_command : List ℕ → D → ℕ → SdhciCall → SdhciResult × D
  unfolding mmc_command mmc_error mmc_sense
  send_sdhci_command response d ctx call =
      if ctx == 0
      then (
        record {
          ret = 2 ^ 32 - 1;
          buffer = call.buffer;
          response = response;
          duration = 0;
          sense = 0;
        },
        d,
      )
      else (let (r, d') = ioctl d ctx (mmc_command call) in
          (
            record {
              ret = mmc_error r;
              buffer = r.data_ptr;
              response = r.response;
              duration = 0;
              sense = mmc_sense (mmc_error r);
            },
            d',
          ))

-- A command of several; the data is at an offset of the packet.
unfoldable pub multi_command : MmcSingleCommand → MmcIocCmd ℕ
multi_command c = record {
  write_flag = c.write;
  is_acmd = c.application;
  opcode = c.command;
  arg = c.argument;
  flags = c.flags;
  blksz = c.block_size;
  blocks = c.blocks;
  data_timeout_ns = 0;
  cmd_timeout_ms = 0;
  data_ptr = c.buffer;
}

unfoldable pub multi_commands : List MmcSingleCommand → List (MmcIocCmd ℕ)
unfolding multi_command
multi_commands [] = []
multi_commands (c ∷ cs) = multi_command c ∷ multi_commands cs

-- The loop that copies the responses: a command that the system gave none for keeps its own.
unfoldable pub set_responses : List MmcSingleCommand → List (List ℕ) → List MmcSingleCommand
set_responses [] responses = []
set_responses (c ∷ cs) [] = c ∷ cs
set_responses (c ∷ cs) (r ∷ rs) = record c { response = r } ∷ set_responses cs rs

module _ {D : Type 0} (malloc : D → ℕ → Bool) (errno : D → ℕ)
    (ioctl_multi : D
      → ℕ
      → List (MmcIocCmd ℕ)
      → List ℕ
      → MmcReply (List ℕ) (List (List ℕ)) × D) where
  -- `SendMultiSdhciCommand`: `malloc` says whether there is room for the commands, 72 bytes each
  -- behind the 8 of their number.
  unfoldable pub send_multi_sdhci_command :
      D → ℕ → List MmcSingleCommand → List ℕ → MultiSdhciResult × D
  unfolding multi_commands mmc_error mmc_sense set_responses
  send_multi_sdhci_command d ctx commands packet =
      if ctx == 0
      then (
        record { ret = 2 ^ 32 - 1; commands = commands; packet = packet; duration = 0; sense = 0 },
        d,
      )
      else if not (malloc d (8 + 72 * length commands))
      then (
        record { ret = errno d; commands = commands; packet = packet; duration = 0; sense = 1 },
        d,
      )
      else (let (r, d') = ioctl_multi d ctx (multi_commands commands) packet in
          (
            record {
              ret = mmc_error r;
              commands = set_responses commands r.response;
              packet = r.data_ptr;
              duration = 0;
              sense = mmc_sense (mmc_error r);
            },
            d',
          ))

-- `getline`: the first line with its newline; `none` at the end of the file.
unfoldable pub first_line : List ℕ → List ℕ
first_line [] = []
first_line (c ∷ cs) = let rest = first_line cs in if c == 10 then c ∷ [] else c ∷ rest

-- The block for a register, and its length.
abbrev pub Register : Type 0
Register = Option (List ℕ) × ℕ

-- `Hexs2Bin` of a line: no block for the result 0.
unfoldable pub decode_register : List ℕ → Register
decode_register text = elim (hexs2bin text) [
  | [] ↦ (none, 0)
  | b ∷ bs ↦ (some (b ∷ bs), length (b ∷ bs))
]

-- The text at `tmp_string`, and whether `getline` has enlarged the block of 1024 bytes.
pub record TmpString : Type 0 where
  pub text : List ℕ
  pub grown : Bool

-- The text in front of the NUL that `Hexs2Bin` stops at, which is behind the line or in it.
unfoldable pub until_nul : List ℕ → List ℕ
until_nul line = elim (before_first 0 line) [ none ↦ line | some text ↦ text ]

-- `getline(&tmp_string, &n, file)` takes the block for one of `n = 1026` bytes until it enlarges
-- it: a line of 1024 or 1025 bytes leaves no room for its NUL, or for itself, in the 1024.
unfoldable pub overflows : Bool → ℕ → Bool
overflows grown size = not grown && (size == 1024 || size == 1025)

-- A register's file, if it was opened, and what is in `tmp_string` after it. At the end of the file
-- `getline` gives -1, which is not 0 as a `size_t`: the old text is decoded. `none` is an access
-- outside the block.
unfoldable pub opened_register : TmpString → Option (List ℕ) → Option (Register × TmpString)
unfolding first_line decode_register until_nul overflows
opened_register tmp_string none = some ((none, 0), tmp_string)
opened_register tmp_string (some []) = some (decode_register tmp_string.text, tmp_string)
opened_register tmp_string (some (c ∷ cs)) =
    let line = first_line (c ∷ cs) in
    let size = length line in
    let text = until_nul line in
    if overflows tmp_string.grown size
    then none
    else some
        (decode_register text, record { text = text; grown = tmp_string.grown || ltb 1025 size })

-- One of the four registers.
unfoldable pub read_register : Files → List ℕ → TmpString → Option (Register × TmpString)
unfolding opened_register
read_register files path tmp_string =
    if files.readable path
    then opened_register tmp_string (files.open_file path)
    else some ((none, 0), tmp_string)

-- `"/sys/block/%s/device/…"`, cut to the block of `strlen(device_path) + 19` bytes.
unfoldable pub register_path : ℕ → List ℕ → List ℕ → List ℕ
register_path size name register =
    take (size + 18) (codes "/sys/block/" ++ (name ++ (codes "/device/" ++ register)))

abbrev no_registers : ℕ → SdhciRegisters
no_registers ret = record {
  is_sdhci = ret;
  csd = none;
  cid = none;
  ocr = none;
  scr = none;
  csd_len = 0;
  cid_len = 0;
  ocr_len = 0;
  scr_len = 0;
}

-- The four registers, with the name of the device in `tmp_string`. The result compares the pointers
-- to the lengths with 0, so it is always 1.
unfoldable pub read_registers : Files → ℕ → List ℕ → Option SdhciRegisters
unfolding read_register register_path
read_registers files size name =
    let path = register_path size name in
    do
      (csd, t1) ← read_register files (path (codes "csd")) record { text = name; grown = false }
      (cid, t2) ← read_register files (path (codes "cid")) t1
      (scr, t3) ← read_register files (path (codes "scr")) t2
      (ocr, t4) ← read_register files (path (codes "ocr")) t3
      some record {
        is_sdhci = 1;
        csd = csd.0;
        cid = cid.0;
        ocr = ocr.0;
        scr = scr.0;
        csd_len = csd.1;
        cid_len = cid.1;
        ocr_len = ocr.1;
        scr_len = scr.1;
      }

-- `GetSdhciRegisters`, for the path of the open device. The first argument is what malloc left in
-- the 1024 bytes of `tmp_string`, where the name is copied without a NUL, or `none` if one of the
-- five blocks could not be allocated. The result `none` is an access outside `tmp_string`.
unfoldable pub get_sdhci_registers :
    Option (List ℕ) → Files → Option (List ℕ) → Option SdhciRegisters
unfolding read_registers
get_sdhci_registers raw files none = some (no_registers (2 ^ 32 - 1))
get_sdhci_registers raw files (some device_path) =
    if starts_with (codes "/dev/mmcblk") device_path
    then elim raw [
      | none ↦ some (no_registers 0)
      | some block ↦
          if ltb 1024 (length device_path - 5)
          then none
          else elim (before_first 0 (overwrite block (drop 5 device_path))) [
            | none ↦ none
            | some name ↦ read_registers files (length device_path) name
          ]
    ]
    else some (no_registers 0)
