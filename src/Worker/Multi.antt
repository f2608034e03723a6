-- ===== src/Worker/Multi.antt =====
-- worker.c: the case that passes several SD/MMC commands at once.
pub mod Buffers
use aaruremote.Common.{
  ℕ, zero, suc, ◌+◌, ◌-◌, ◌*◌, ◌%◌, ◌^◌, Option, none, some, List, [], ◌∷◌, ◌++◌, take, drop,
  get_or, leb, if◌then◌else◌,
}
use aaruremote.Common.Bytes.{le_bytes, read_at}
use aaruremote.Protocol.Types.{type_response_multi_sdhci}
use aaruremote.Protocol.Header.{encode_header, own_header}
use aaruremote.Protocol.Structs.{field32, field64}
use aaruremote.Worker.Platform.{Platform, MmcSingleCommand}
use aaruremote.Worker.Session.{
  M, ◌>>=◌, ◌>>◌, access, get, net_write, device, with_packet, with_block,
}
use aaruremote.Worker.Transfers.{leftover_spare}

-- sizeof AaruPacketMultiCmdSdhci, AaruCmdSdhci and AaruResSdhci. The answer's fixed part has the
-- request's size.
abbrev pub multi_fixed_size : ℕ
multi_fixed_size = 24

abbrev pub cmd_sdhci_size : ℕ
cmd_sdhci_size = 27

abbrev pub res_sdhci_size : ℕ
res_sdhci_size = 32

-- sizeof MmcSingleCommand with 8-byte pointers.
abbrev pub single_command_size : ℕ
single_command_size = 56

-- One round of the first loop: an AaruCmdSdhci copied to a zeroed MmcSingleCommand.
unfoldable pub load_command : List ℕ → MmcSingleCommand
load_command b = record {
  argument = field32 b 7;
  blocks = field32 b 15;
  block_size = field32 b 11;
  buf_len = field32 b 19;
  buffer = 0;
  command = get_or b 0 0;
  flags = field32 b 3;
  application = get_or b 2 0;
  response = 0 ∷ 0 ∷ 0 ∷ 0 ∷ [];
  write = get_or b 1 0;
}

-- The first loop, from offset `off` on, over the number of commands that are left.
unfoldable pub load_commands : List ℕ → ℕ → ℕ → Option (List MmcSingleCommand)
load_commands packet off zero = some []
load_commands packet off (suc n) =
    let rest = load_commands packet (off + cmd_sdhci_size) n in
    elim (read_at packet off cmd_sdhci_size) [
      | none ↦ none
      | some b ↦ elim rest [ none ↦ none | some cs ↦ some (load_command b ∷ cs) ]
    ]

-- The second loop: each command's data begins where that of the one before ends.
unfoldable pub place_buffers : ℕ → List MmcSingleCommand → List MmcSingleCommand
place_buffers off [] = []
place_buffers off (c ∷ cs) = record c { buffer = off } ∷ place_buffers (off + c.buf_len) cs

-- What the loop before `malloc(off)` adds up.
unfoldable pub total_buf_len : List MmcSingleCommand → ℕ
total_buf_len [] = 0
total_buf_len (c ∷ cs) = c.buf_len + total_buf_len cs

unfoldable pub encode_responses : ℕ → ℕ → ℕ → List MmcSingleCommand → List ℕ
encode_responses duration sense error_no [] = []
encode_responses duration sense error_no (c ∷ cs) =
    (le_bytes 4 c.buf_len
      ++ (le_bytes 4 (get_or c.response 0 0)
          ++ (le_bytes 4 (get_or c.response 1 0)
              ++ (le_bytes 4 (get_or c.response 2 0)
                  ++ (le_bytes 4 (get_or c.response 3 0)
                      ++ (le_bytes 4 duration ++ (le_bytes 4 sense ++ le_bytes 4 error_no)))))))
    ++ encode_responses duration sense error_no cs

-- The last loop. `multi_sdhci_commands->buf_len` is the length of the first command's data, and it
-- is the number of bytes copied for every command.
unfoldable pub copy_buffers : List ℕ → ℕ → List MmcSingleCommand → Option (List ℕ)
copy_buffers packet first_len [] = some []
copy_buffers packet first_len (c ∷ cs) =
    let rest = copy_buffers packet first_len cs in
    elim (read_at packet c.buffer first_len) [
      | none ↦ none
      | some b ↦ elim rest [ none ↦ none | some bs ↦ some (b ++ bs) ]
    ]

abbrev pub first_buf_len : List MmcSingleCommand → ℕ
first_buf_len [] = 0
first_buf_len (c ∷ cs) = c.buf_len

abbrev in_bounds : ℕ → ℕ → Option (Unit {0})
in_bounds n size = if leb n size then some tt else none

module _ {C D H : Type 0} (P : Platform C D H) where
  -- `case AARUREMOTE_PACKET_TYPE_MULTI_COMMAND_SDHCI`. The product for the first `malloc` wraps, and
  -- the loops then leave the block.
  unfoldable pub on_multi_sdhci : M C D H (Unit {0})
  on_multi_sdhci = with_packet P λ in_buf. do
    fixed ← access (read_at in_buf 0 multi_fixed_size)
    let count = field64 fixed 16
    let commands_size = single_command_size * count % 2 ^ 64
    with_block P commands_size λ _. do
      access (in_bounds (single_command_size * count) commands_size)
      loaded ← access (load_commands in_buf multi_fixed_size count)
      let commands = place_buffers (multi_fixed_size + cmd_sdhci_size * count) loaded
      s ← get
      r ← device P (λ d. P.send_multi_sdhci_command d s.device_ctx commands in_buf)
      let base = multi_fixed_size + res_sdhci_size * count
      let size = base + total_buf_len r.commands
      with_block P size λ raw. do
        copied ← access (copy_buffers r.packet (first_buf_len r.commands) r.commands)
        let end = base + first_buf_len r.commands * count
        access (in_bounds end size)
        let len = size % 2 ^ 32
        net_write P
            (encode_header (own_header type_response_multi_sdhci len (leftover_spare raw))
              ++ (le_bytes 8 count
                  ++ (encode_responses r.duration r.sense r.ret r.commands
                      ++ (copied ++ take (size - end) (drop end raw)))))
            len
