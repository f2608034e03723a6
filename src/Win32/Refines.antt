-- ===== src/Win32/Refines.antt =====
-- win32/scsi.c: SendScsiCommand against what the worker relies on.
use aaruremote.Common.{
  ℕ, ◌≤◌, ◌≡◌, Bool, true, length, ◌==◌, inl, inr, Bool-cases, ==→eq, arith, length-take,
}
use aaruremote.Worker.Transfers.Parts.{Holds}
use aaruremote.Worker.Transfers.Answers.{ScsiLaws}
use aaruremote.Win32.{
  PassThrough, PassReply, pass_through, pass_failure, pass_result, pass_scsi_command,
}

-- What the ioctl does: 32 sense bytes stand behind the structure, and the data keeps its size.
pub record PassLaws {D : Type 0} (io : D → ℕ → PassThrough → PassReply × D) : Type 0 where
  pub sense_kept : (d : D) (ctx : ℕ) (q : PassThrough) → 32 ≤ length (io d ctx q).0.sense
  pub buffer_kept :
      (d : D) (ctx : ℕ) (q : PassThrough)
      → Holds q.data_buffer q.data_transfer_length
      → Holds (io d ctx q).0.data_buffer q.data_transfer_length

module _ {D : Type 0} (room : ℕ → Bool) {io : D → ℕ → PassThrough → PassReply × D}
    (L : PassLaws io) where
  -- If there is room for the structure and for the sense bytes, and DeviceIoControl meets PassLaws:
  -- SendScsiCommand of Windows meets ScsiLaws, which the worker relies on, whatever *sense held
  -- before the call.
  pub pass_scsi_command-ScsiLaws :
      room 88 ≡ true → room 32 ≡ true → (sense : ℕ) → ScsiLaws (pass_scsi_command room io sense)
  unfolding pass_scsi_command pass_failure pass_result pass_through
  pass_scsi_command-ScsiLaws room_88 room_32 sense = record {
    sense_holds = λ d ctx call open_device. elim (Bool-cases (ctx == 0)) [
      | inl e ↦ absurd (open_device (==→eq ctx 0 e))
      | inr e ↦
          rw (e, room_88, room_32)
            (omega (
              arith,
              length-take 32 (io d ctx (pass_through call)).0.sense,
              L.sense_kept d ctx (pass_through call),
            ))
    ];
    sense_small = λ d ctx call. elim (Bool-cases (ctx == 0)) [
      | inl e ↦ rw e (omega arith)
      | inr e ↦ rw (e, room_88, room_32) (omega arith)
    ];
    buffer_holds = λ d ctx call held. elim (Bool-cases (ctx == 0)) [
      | inl e ↦ rw e (held, omega arith)
      | inr e ↦ rw (e, room_88, room_32) (L.buffer_kept d ctx (pass_through call) held, omega arith)
    ];
  }
