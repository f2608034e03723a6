-- ===== src/Freebsd/Freed.antt =====
-- freebsd/scsi.c and freebsd/ata.c: what is left of the commands behind the freed CCB.
use aaruremote.Common.{
  ℕ, ◌^◌, ◌-◌, ◌≡◌, refl, Bool, not, ◌||◌, Option, List, ◌==◌, inl, inr, Bool-cases, Option-cases,
  Meets,
}
use aaruremote.Protocol.Structs.{AtaRegisters, AtaErrorRegisters}
use aaruremote.Worker.Platform.{ScsiCall, AtaCall, AtaResult}
use aaruremote.Freebsd.{ScsiCcb, CamReply, cam_failure, cam_result, cam_scsi_command}
use aaruremote.Freebsd.Ata.{
  AtaCcb, AtaReply, cam_ata_failure, cam_ata_result, cam_send_ata, cam_ata_chs_command,
  cam_ata_lba28_command,
}

-- The result -1, with the registers and the buffer as they were.
abbrev IsFailure : AtaErrorRegisters → AtaCall AtaRegisters → AtaResult AtaErrorRegisters → Type 0
IsFailure old call r = (r.ret ≡ 2 ^ 32 - 1) × (r.error_registers ≡ old) × (r.buffer ≡ call.buffer)

module _ {D : Type 0} (has_device : ℕ → Bool) (has_ccb : Bool) where
  -- Where the behaviour of SendScsiCommand of FreeBSD is defined, it returns -1, no sense bytes and
  -- the buffer as it was.
  cam_scsi_command_fails :
      (malloc : ℕ → Option (List ℕ)) (send : D → ℕ → ScsiCcb → CamReply × D) (d : D) (ctx : ℕ)
      (call : ScsiCall)
      → Meets
          (λ r. (r.ret ≡ 2 ^ 32 - 1) × (r.sense_len ≡ 0) × (r.buffer ≡ call.buffer))
          (cam_scsi_command has_device malloc has_ccb send d ctx call).0
  unfolding cam_scsi_command cam_failure cam_result
  cam_scsi_command_fails malloc send d ctx call =
      elim (Bool-cases (ctx == 0 || not (has_device ctx))) [
        | inl closed ↦ rw closed (refl, refl, refl)
        | inr open_device ↦ elim (Option-cases (malloc 32)) [
          | inl full ↦ rw (open_device, full) (refl, refl, refl)
          | inr (raw, got) ↦ elim (Bool-cases (not has_ccb)) [
            | inl no_ccb ↦ rw (open_device, got, no_ccb) (refl, refl, refl)
            | inr ccb ↦ rw (open_device, got, ccb) tt
          ]
        ]
      ]

  -- Where the behaviour of the ATA commands of FreeBSD is defined, they fail.
  cam_ata_commands_fail :
      (send : D → ℕ → AtaCcb → AtaReply × D) (old : AtaErrorRegisters) (d : D) (ctx : ℕ)
      (call : AtaCall AtaRegisters)
      → Meets (IsFailure old call) (cam_ata_chs_command has_device has_ccb send old d ctx call).0
        × Meets
            (IsFailure old call)
            (cam_ata_lba28_command has_device has_ccb send old d ctx call).0
  unfolding cam_ata_chs_command cam_ata_lba28_command cam_send_ata cam_ata_failure cam_ata_result
  cam_ata_commands_fail send old d ctx call =
      elim (Bool-cases (ctx == 0 || (not (has_device ctx) || not has_ccb))) [
        | inl failed ↦ rw failed ((refl, refl, refl), (refl, refl, refl))
        | inr runs ↦ rw runs (tt, tt)
      ]
