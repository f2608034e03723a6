-- ===== src/Win32/Sdhci/Multi/Inside.antt =====
-- win32/sdhci.c: SendMultiSdhciCommand against the packet that holds the data of its commands.
use aaruremote.Common.{
  ℕ, ◌+◌, ◌^◌, ◌<◌, ◌≤◌, ◌≡◌, ◌∙◌, refl, Bool, ◌&&◌, Option, none, some, List, [], ◌∷◌, take, drop,
  length, All, ◌==◌, arith, length-append, length-take, length-drop, Returns, if_both, Meets,
  elim_option, bind_result,
}
use aaruremote.Worker.Platform.{SdhciResult, MmcSingleCommand, MultiSdhciResult}
use aaruremote.Win32.Sdhci.{SffCommand, SffReply}
use aaruremote.Win32.Sdhci.Buffers.{sff_keeps_buffer}
use aaruremote.Win32.Sdhci.Multi.{
  single_call, put_back, after_command, block_read, set_second, alone_result, single_command,
  each_command, sff_multi_sdhci_command,
}

-- The data of a command is in a packet of a length.
abbrev pub Inside : ℕ → MmcSingleCommand → Type 0
Inside n c = c.buffer + c.buf_len ≤ n

-- The packet and the list of the commands keep their lengths.
abbrev pub KeepsLengths : {D : Type 0} → ℕ → ℕ → MultiSdhciResult × D → Type 0
KeepsLengths n k x = (length x.0.packet ≡ n) × (length x.0.commands ≡ k)

length-set_second :
    (response : List ℕ) (cs : List MmcSingleCommand) → length (set_second response cs) ≡ length cs
unfolding set_second
length-set_second response [] = refl
length-set_second response (a ∷ []) = refl
length-set_second response (a ∷ b ∷ rest) = refl

block_read-Meets :
    (P : MmcSingleCommand → Type 0) (cs : List MmcSingleCommand)
    → All P cs
    → Meets P (block_read cs)
unfolding block_read
block_read-Meets P [] held = tt
block_read-Meets P (a ∷ []) held = tt
block_read-Meets P (a ∷ b ∷ []) held = tt
block_read-Meets P (a ∷ b ∷ c ∷ []) held =
    if_both (Meets P) ((a.command == 16) && ((b.command == 18) && (c.command == 12))) (some b) none
      held.1.0 tt
block_read-Meets P (a ∷ b ∷ c ∷ d ∷ rest) held = tt

length-put_back :
    (off : ℕ) (packet : List ℕ) (o : Option (List ℕ))
    → off ≤ length packet
    → Returns (λ b. length b ≡ length (drop off packet)) o
    → length (put_back off packet o) ≡ length packet
unfolding put_back
length-put_back off packet none inside same = absurd same
length-put_back off packet (some b) inside same =
    omega (
      arith,
      same,
      length-append (take off packet) b,
      length-take off packet,
      length-drop off packet,
    )

module _ {D : Type 0} (headers : ℕ) (room : ℕ → Bool)
    (device_io_control : D → ℕ → SffCommand → SffReply × D) where
  single_command-Returns :
      (duration sense : ℕ) (d : D) (ctx : ℕ) (c : MmcSingleCommand) (packet : List ℕ)
      → Inside (length packet) c
      → headers + length packet < 2 ^ 32
      → Returns
          (λ x. length x.0.1 ≡ length packet)
          (single_command headers room device_io_control duration sense d ctx c packet)
  unfolding single_command single_call
  single_command-Returns duration sense d ctx c packet inside small =
      bind_result (λ (x : (SdhciResult × List ℕ) × D). length x.0.1 ≡ length packet)
        (λ x. some ((x.0, put_back c.buffer packet x.0.buffer), x.1)) _
        (sff_keeps_buffer headers room device_io_control _ d ctx (single_call c packet)
          (drop c.buffer packet) (omega (arith, length-drop c.buffer packet)) (omega arith))
        λ x same. length-put_back c.buffer packet x.0.buffer (omega arith) same

  each_command-Returns :
      (duration sense : ℕ) (acc : MultiSdhciResult) (d : D) (ctx n k : ℕ)
      (cs : List MmcSingleCommand)
      → length acc.packet ≡ n
      → length acc.commands + length cs ≡ k
      → All (Inside n) cs
      → headers + n < 2 ^ 32
      → Returns
          (KeepsLengths n k)
          (each_command headers room device_io_control duration sense acc d ctx cs)
  unfolding each_command after_command
  each_command-Returns duration sense acc d ctx n k [] same total inside small =
      (same, omega (arith, total))
  each_command-Returns duration sense acc d ctx n k (c ∷ cs) same total (here, later) small =
      bind_result (KeepsLengths n k)
        (λ x.
          each_command headers room device_io_control x.0.0.duration x.0.0.sense
            (after_command acc c x.0.0 x.0.1) x.1 ctx cs)
        _
        (single_command-Returns duration sense d ctx c acc.packet (omega (arith, same, here))
          (omega (arith, same)))
        λ x kept.
          each_command-Returns x.0.0.duration x.0.0.sense (after_command acc c x.0.0 x.0.1) x.1 ctx
            n k cs (kept ∙ same)
            (omega (
              arith,
              total,
              length-append acc.commands (record c { response = x.0.0.response } ∷ []),
            ))
            later small

  -- If the data of every command is inside the packet, and the two headers in front of a command's
  -- data and the packet together have fewer than 2 ^ 32 bytes: SendMultiSdhciCommand of Windows
  -- returns, whatever the device does, and the packet and the list of the commands have the lengths
  -- that they had.
  pub sff_multi_sdhci_command-KeepsLengths :
      (duration sense : ℕ) (d : D) (ctx : ℕ) (commands : List MmcSingleCommand) (packet : List ℕ)
      → All (Inside (length packet)) commands
      → headers + length packet < 2 ^ 32
      → Returns (KeepsLengths (length packet) (length commands)) (
          sff_multi_sdhci_command headers room device_io_control duration sense d ctx commands
            packet)
  unfolding sff_multi_sdhci_command alone_result
  sff_multi_sdhci_command-KeepsLengths duration sense d ctx commands packet inside small =
      let start : MultiSdhciResult = record {
        ret = 0;
        commands = [];
        packet = packet;
        duration = 0;
        sense = 0;
      } in
      if_both (Returns (KeepsLengths (length packet) (length commands))) (ctx == 0) _ _ (refl, refl)
        (elim_option (Returns (KeepsLengths (length packet) (length commands)))
          (block_read commands) _ _ (block_read-Meets (Inside (length packet)) commands inside)
          (each_command-Returns duration sense start d ctx _ _ commands refl (omega arith) inside
            small)
          λ c here.
            bind_result (KeepsLengths {D = D} (length packet) (length commands))
              (λ (x : (SdhciResult × List ℕ) × D). some (alone_result commands x.0.0 x.0.1, x.1)) _
              (single_command-Returns 0 0 d ctx c packet here small)
              λ x kept. (kept, length-set_second x.0.0.response commands))
