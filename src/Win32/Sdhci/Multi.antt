-- ===== src/Win32/Sdhci/Multi.antt =====
-- win32/sdhci.c: SendMultiSdhciCommand over SendSdhciCommand. The data of the commands is in the
-- packet that was received.
pub mod Inside
use aaruremote.Common.{
  ℕ, ◌^◌, ◌-◌, ◌+◌, ◌%◌, Bool, true, false, ◌&&◌, Option, none, some, List, [], ◌∷◌, ◌++◌, take,
  drop, ◌==◌, if◌then◌else◌,
}
use aaruremote.Worker.Platform.{SdhciCall, SdhciResult, MmcSingleCommand, MultiSdhciResult}
use aaruremote.Win32.Sdhci.{SffCommand, SffReply, sff_sdhci_command}

unfoldable pub single_call : MmcSingleCommand → List ℕ → SdhciCall
single_call c packet = record {
  command = c.command;
  write = c.write;
  application = c.application;
  flags = c.flags;
  argument = c.argument;
  block_size = c.block_size;
  blocks = c.blocks;
  buffer = some (drop c.buffer packet);
  buf_len = c.buf_len;
  timeout = 0;
}

-- The packet, with what the block at an offset has become.
unfoldable pub put_back : ℕ → List ℕ → Option (List ℕ) → List ℕ
put_back off packet none = packet
put_back off packet (some b) = take off packet ++ b

-- What one round of the loop adds up.
unfoldable pub after_command :
    MultiSdhciResult → MmcSingleCommand → SdhciResult → List ℕ → MultiSdhciResult
after_command acc c r packet = record {
  ret = if acc.ret == 0 then r.ret else acc.ret;
  commands = acc.commands ++ (record c { response = r.response } ∷ []);
  packet = packet;
  duration = (acc.duration + r.duration) % 2 ^ 32;
  sense = if r.sense == 0 then acc.sense else 1;
}

-- The command that is sent alone: SET_BLOCK_LEN, READ_MULTIPLE_BLOCK and STOP_TRANSMISSION are what
-- the driver does for the second one.
unfoldable pub block_read : List MmcSingleCommand → Option MmcSingleCommand
block_read [] = none
block_read (a ∷ []) = none
block_read (a ∷ b ∷ []) = none
block_read (a ∷ b ∷ c ∷ []) =
    if (a.command == 16) && ((b.command == 18) && (c.command == 12)) then some b else none
block_read (a ∷ b ∷ c ∷ d ∷ rest) = none

unfoldable pub set_second : List ℕ → List MmcSingleCommand → List MmcSingleCommand
set_second response [] = []
set_second response (a ∷ []) = a ∷ []
set_second response (a ∷ b ∷ rest) = a ∷ record b { response = response } ∷ rest

-- What is returned when the second command was sent alone.
unfoldable pub alone_result : List MmcSingleCommand → SdhciResult → List ℕ → MultiSdhciResult
unfolding set_second
alone_result commands r packet = record {
  ret = r.ret;
  commands = set_second r.response commands;
  packet = packet;
  duration = r.duration;
  sense = r.sense;
}

module _ {D : Type 0} (headers : ℕ) (room : ℕ → Bool)
    (device_io_control : D → ℕ → SffCommand → SffReply × D) where
  -- `SendSdhciCommand` for a command of the packet; the numbers are what `*duration` and `*sense`
  -- held before.
  unfoldable pub single_command :
      ℕ → ℕ → D → ℕ → MmcSingleCommand → List ℕ → Option ((SdhciResult × List ℕ) × D)
  unfolding single_call put_back
  single_command duration sense d ctx c packet =
      elim (sff_sdhci_command headers room device_io_control
        (record {
          ret = 0;
          buffer = none;
          response = c.response;
          duration = duration;
          sense = sense;
        })
        d ctx (single_call c packet)) [
          | none ↦ none
          | some x ↦ let (r, d') = x in some ((r, put_back c.buffer packet r.buffer), d')
        ]

  -- The loop; a command that fails before the device was called leaves the duration and the sense of
  -- the one before it.
  unfoldable pub each_command :
      ℕ → ℕ → MultiSdhciResult → D → ℕ → List MmcSingleCommand → Option (MultiSdhciResult × D)
  unfolding single_command after_command
  each_command duration sense acc d ctx [] = some (acc, d)
  each_command duration sense acc d ctx (c ∷ cs) =
      elim (single_command duration sense d ctx c acc.packet) [
        | none ↦ none
        | some x ↦
            let ((r, packet), d') = x in
            each_command r.duration r.sense (after_command acc c r packet) d' ctx cs
      ]

  -- `SendMultiSdhciCommand`; the first two numbers are what `single_duration` and `single_sense`
  -- hold at the start.
  unfoldable pub sff_multi_sdhci_command :
      ℕ → ℕ → D → ℕ → List MmcSingleCommand → List ℕ → Option (MultiSdhciResult × D)
  unfolding single_command each_command block_read alone_result
  sff_multi_sdhci_command duration sense d ctx commands packet =
      if ctx == 0
      then some (
        record { ret = 2 ^ 32 - 1; commands = commands; packet = packet; duration = 0; sense = 0 },
        d,
      )
      else elim (block_read commands) [
        | none ↦
            each_command duration sense
              (record { ret = 0; commands = []; packet = packet; duration = 0; sense = 0 }) d ctx
              commands
        | some c ↦ elim (single_command 0 0 d ctx c packet) [
          | none ↦ none
          | some x ↦ let ((r, p), d') = x in some (alone_result commands r p, d')
        ]
      ]
