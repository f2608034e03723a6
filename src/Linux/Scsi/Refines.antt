-- ===== src/Linux/Scsi/Refines.antt =====
-- linux/scsi.c: SendScsiCommand against what the worker relies on.
use aaruremote.Common.{
  ℕ, ◌≤◌, ◌≡◌, Option, some, List, length, ◌==◌, inl, inr, Bool-cases, Option-cases, ==→eq, arith,
}
use aaruremote.Worker.Transfers.Parts.{Holds}
use aaruremote.Worker.Transfers.Answers.{ScsiLaws}
use aaruremote.Linux.Scsi.{
  SgRequest, SgReply, send_scsi_command, scsi_failure, scsi_result, sg_request,
}

-- What SG_IO does: both buffers keep their sizes, and no more sense bytes are reported than there
-- is room for.
pub record SgLaws {D : Type 0} (sg_io : D → ℕ → SgRequest → SgReply × D) : Type 0 where
  pub sense_kept :
      (d : D) (fd : ℕ) (q : SgRequest)
      → q.mx_sb_len ≤ length q.sbp
      → let r = (sg_io d fd q).0 in r.sb_len_wr ≤ q.mx_sb_len × (q.mx_sb_len ≤ length r.sbp)
  pub buffer_kept :
      (d : D) (fd : ℕ) (q : SgRequest)
      → Holds q.dxferp q.dxfer_len
      → Holds (sg_io d fd q).0.dxferp q.dxfer_len

module _ {D : Type 0} {malloc : ℕ → Option (List ℕ)} {sg_io : D → ℕ → SgRequest → SgReply × D}
    (room : (n : ℕ) (b : List ℕ) → malloc n ≡ some b → length b ≡ n) (L : SgLaws sg_io) where
  -- With an allocator whose blocks have the size that was asked for and an SG_IO that meets SgLaws,
  -- SendScsiCommand of Linux meets ScsiLaws, which the worker relies on, whatever its outputs held
  -- before the call.
  pub send_scsi_command-ScsiLaws : (stale : ℕ × ℕ) → ScsiLaws (send_scsi_command malloc sg_io stale)
  unfolding send_scsi_command scsi_failure scsi_result sg_request
  send_scsi_command-ScsiLaws stale = record {
    sense_holds = λ d ctx call open_device. elim (Bool-cases (ctx == 0)) [
      | inl e ↦ absurd (open_device (==→eq ctx 0 e))
      | inr e ↦ elim (Option-cases (malloc 32)) [
        | inl full ↦ rw (e, full) tt
        | inr (b, got) ↦
            let kept = L.sense_kept d ctx (sg_request call b) (omega (arith, room 32 b got)) in
            rw (e, got) (omega (arith, kept.0, kept.1))
      ]
    ];
    sense_small = λ d ctx call. elim (Bool-cases (ctx == 0)) [
      | inl e ↦ rw e (omega arith)
      | inr e ↦ elim (Option-cases (malloc 32)) [
        | inl full ↦ rw (e, full) (omega arith)
        | inr (b, got) ↦
            let kept = L.sense_kept d ctx (sg_request call b) (omega (arith, room 32 b got)) in
            rw (e, got) (omega (arith, kept.0))
      ]
    ];
    buffer_holds = λ d ctx call held. elim (Bool-cases (ctx == 0)) [
      | inl e ↦ rw e (held, omega arith)
      | inr e ↦ elim (Option-cases (malloc 32)) [
        | inl full ↦ rw (e, full) (held, omega arith)
        | inr (b, got) ↦ rw (e, got) (L.buffer_kept d ctx (sg_request call b) held, omega arith)
      ]
    ];
  }
