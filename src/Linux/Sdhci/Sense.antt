-- ===== src/Linux/Sdhci/Sense.antt =====
-- linux/sdhci.c: what the worker gets of SendSdhciCommand and SendMultiSdhciCommand.
use aaruremote.Common.{
  ℕ, ◌*◌, ◌^◌, ◌≤◌, ◌<◌, ◌≡◌, refl, ap, false, Option, List, [], ◌∷◌, map, length, leb, ◌==◌,
  Bool-cases, inl, inr, arith,
}
use aaruremote.Worker.Platform.{SdhciCall, MmcSingleCommand}
use aaruremote.Worker.Transfers.Parts.{Holds}
use aaruremote.Worker.Transfers.Ata.{KeepsSdhciBuffer}
use aaruremote.Linux.Sdhci.{
  MmcIocCmd, MmcReply, timeout_ns, mmc_command, mmc_error, mmc_sense, send_sdhci_command,
  set_responses,
}

module _ {D : Type 0}
    (ioctl : D → ℕ → MmcIocCmd (Option (List ℕ)) → MmcReply (Option (List ℕ)) (List ℕ) × D) where
  -- If the ioctl keeps the size of the data, SendSdhciCommand of Linux meets KeepsSdhciBuffer,
  -- which the worker relies on.
  pub send_sdhci_command-KeepsSdhciBuffer :
      ((d : D) (ctx : ℕ) (q : MmcIocCmd (Option (List ℕ))) (len : ℕ)
        → Holds q.data_ptr len
        → Holds (ioctl d ctx q).0.data_ptr len)
      → (response : List ℕ) → KeepsSdhciBuffer (send_sdhci_command ioctl response)
  unfolding send_sdhci_command mmc_command
  send_sdhci_command-KeepsSdhciBuffer kept response d ctx call held = elim (Bool-cases (ctx == 0)) [
    | inl null ↦ rw null held
    | inr live ↦ rw live (kept d ctx (mmc_command call) call.buf_len held)
  ]

  -- If what SendSdhciCommand of Linux returns of an ioctl, its result or the error number, is below
  -- 2 ^ 31: it never reports sense, also where the command failed.
  pub send_sdhci_command_without_sense :
      ((d : D) (ctx : ℕ) (q : MmcIocCmd (Option (List ℕ))) → mmc_error (ioctl d ctx q).0 < 2 ^ 31)
      → (response : List ℕ) (d : D) (ctx : ℕ) (call : SdhciCall)
      → (send_sdhci_command ioctl response d ctx call).0.sense ≡ 0
  unfolding send_sdhci_command mmc_sense
  send_sdhci_command_without_sense positive response d ctx call = elim (Bool-cases (ctx == 0)) [
    | inl null ↦ rw null refl
    | inr live ↦
        let small : leb (2 ^ 31) (mmc_error (ioctl d ctx (mmc_command call)).0) ≡ false =
          ground (arith, positive d ctx (mmc_command call)) in
        rw (live, small) refl
  ]

-- A timeout of up to four seconds is given to the card in nanoseconds; a longer one wraps around,
-- and the card is given less time than was asked for.
pub timeout_ns_lem :
    (timeout : ℕ)
    → (timeout ≤ 4 → timeout_ns timeout ≡ timeout * 1000000000)
      × (4 < timeout → timeout_ns timeout < timeout * 1000000000)
unfolding timeout_ns
timeout_ns_lem timeout = (λ short. omega arith, λ long. omega arith)

abbrev pub without_response : MmcSingleCommand → MmcSingleCommand
without_response c = record c { response = [] }

-- For as many responses as commands, after the loop over the responses each command has the
-- response that the system gave for it, and nothing else of it has changed.
pub set_responses_lem :
    (commands : List MmcSingleCommand) (responses : List (List ℕ))
    → length responses ≡ length commands
    → (map (λ c. c.response) (set_responses commands responses) ≡ responses)
      × (map without_response (set_responses commands responses) ≡ map without_response commands)
unfolding set_responses
set_responses_lem [] [] same = (refl, refl)
set_responses_lem [] (r ∷ rs) same = absurd (omega (arith, same))
set_responses_lem (c ∷ cs) [] same = absurd (omega (arith, same))
set_responses_lem (c ∷ cs) (r ∷ rs) same =
    let (given, kept) = set_responses_lem cs rs (omega (arith, same)) in
    (ap (λ q. r ∷ q) given, ap (λ q. without_response c ∷ q) kept)
