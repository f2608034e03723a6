-- ===== src/Tests/Platforms.antt =====
-- Runs of the functions of Windows, on devices that accept everything.
use aaruremote.Common.{ℕ, ◌≡◌, refl, true, none, List, [], ◌∷◌, arith, replicate}
use aaruremote.Worker.Platform.{SdhciCall}
use aaruremote.Worker.Transfers.Answers.{ScsiLaws}
use aaruremote.Win32.{PassThrough, PassReply, pass_scsi_command}
use aaruremote.Win32.Refines.{PassLaws, pass_scsi_command-ScsiLaws}
use aaruremote.Win32.Sdhci.{r6, sff_command}
use aaruremote.Worker.Platform.{MmcSingleCommand}
use aaruremote.Win32.Sdhci.{SffCommand, SffReply}
use aaruremote.Win32.Sdhci.Multi.{sff_multi_sdhci_command}
use aaruremote.Win32.Sdhci.Multi.Inside.{KeepsLengths, sff_multi_sdhci_command-KeepsLengths}
use aaruremote.Common.{Returns, length}
use aaruremote.Win32.Sdhci.Flags.{sff_command_asks_r6}

abbrev io : Unit {0} → ℕ → PassThrough → PassReply × Unit {0}
io d ctx q = (
  record {
    ok = true;
    last_error = 0;
    duration = 3;
    scsi_status = 0;
    data_buffer = q.data_buffer;
    sense = replicate 32 0;
  },
  d,
)

io-PassLaws : PassLaws io
io-PassLaws = record { sense_kept = λ d ctx q. omega arith; buffer_kept = λ d ctx q held. held }

pass_scsi_command-ScsiLaws_example : ScsiLaws (pass_scsi_command (λ n. true) io 0)
pass_scsi_command-ScsiLaws_example = pass_scsi_command-ScsiLaws (λ n. true) io-PassLaws refl refl 0

abbrev get_status : SdhciCall
get_status = record {
  command = 13;
  write = 0;
  application = 0;
  flags = 0;
  argument = 0;
  block_size = 0;
  blocks = 0;
  buffer = none;
  buf_len = 0;
  timeout = 0;
}

sff_command_asks_r6_example : (sff_command get_status []).response_type ≡ r6
sff_command_asks_r6_example = sff_command_asks_r6 get_status []

-- A card that answers every command with ones.
abbrev card : Unit {0} → ℕ → SffCommand → SffReply × Unit {0}
card d ctx q = (
  record { ok = true; last_error = 0; duration = 2; data_buf = replicate (length q.data_buf) 1 },
  d,
)

abbrev block_command : ℕ → ℕ → ℕ → MmcSingleCommand
block_command command offset size = record {
  argument = 0;
  blocks = 1;
  block_size = 512;
  buf_len = size;
  buffer = offset;
  command = command;
  flags = 0;
  application = 0;
  response = 0 ∷ 0 ∷ 0 ∷ 0 ∷ [];
  write = 0;
}

abbrev two_commands : List MmcSingleCommand
two_commands = block_command 13 0 2 ∷ block_command 17 2 4 ∷ []

sff_multi_sdhci_command-KeepsLengths_example :
    Returns
      (KeepsLengths 6 2)
      (sff_multi_sdhci_command 40 (λ n. true) card 9 9 tt 1 two_commands (replicate 6 0))
sff_multi_sdhci_command-KeepsLengths_example =
    sff_multi_sdhci_command-KeepsLengths 40 (λ n. true) card 9 9 tt 1 two_commands (replicate 6 0)
      (omega arith, (omega arith, tt)) (omega arith)

-- The data of both commands comes back in the packet, and the times are added.
multi_run :
    Returns
      (λ x. (x.0.packet ≡ replicate 6 1) × (x.0.duration ≡ 4))
      (sff_multi_sdhci_command 40 (λ n. true) card 9 9 tt 1 two_commands (replicate 6 0))
unfolding sff_multi_sdhci_command aaruremote.Win32.Sdhci.sff_sdhci_command
multi_run = (refl, refl)
