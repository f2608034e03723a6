-- ===== src/Win32/Sdhci/Buffers.antt =====
-- win32/sdhci.c: the data of SendSdhciCommand after the call.
use aaruremote.Common.{
  ℕ, ◌^◌, ◌+◌, ◌≤◌, ◌≡◌, refl, Bool, not, ◌||◌, Option, some, List, take, length, ◌==◌, ◌%◌, arith,
  length-take, lt→ltb, ◌<◌, Returns, if_both,
}
use aaruremote.Common.Bytes.{length-overwrite, read_at_inside}
use aaruremote.Worker.Platform.{SdhciCall, SdhciResult}
use aaruremote.Win32.Sdhci.{
  SffCommand, SffReply, sff_command, sff_data, sff_failure, sff_result, sff_sdhci_command,
}

module _ {D : Type 0} (headers : ℕ) (room : ℕ → Bool)
    (device_io_control : D → ℕ → SffCommand → SffReply × D) where
  pub sff_keeps_buffer :
      (before : SdhciResult) (d : D) (ctx : ℕ) (call : SdhciCall) (b : List ℕ)
      → 0 + call.buf_len ≤ length b
      → headers + call.buf_len < 2 ^ 32
      → Returns
          (λ x. Returns (λ after. length after ≡ length b) x.0.buffer)
          (sff_sdhci_command headers room device_io_control before d ctx
            (record call { buffer = some b }))
  unfolding sff_sdhci_command sff_data sff_failure sff_result
  sff_keeps_buffer before d ctx call b inside small =
      let got =
        (device_io_control d ctx
          (sff_command (record call { buffer = some b }) (take call.buf_len b))).0.data_buf in
      if_both
        (λ (o : Option (SdhciResult × D)).
          Returns (λ (x : SdhciResult × D). Returns (λ after. length after ≡ length b) x.0.buffer)
            o)
        (ctx == 0 || not (room ((headers + call.buf_len) % 2 ^ 32))) _ _ refl
        (rw (lt→ltb (headers + call.buf_len) (2 ^ 32) small, read_at_inside b 0 call.buf_len inside)
          (length-overwrite b (take call.buf_len got)
            (omega (arith, length-take call.buf_len got))))
