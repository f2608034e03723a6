-- ===== src/Worker/Transfers/Ata.antt =====
-- worker.c: the answers to the ATA and SDHCI commands.
use aaruremote.Common.{
  ℕ, ◌+◌, ◌^◌, ◌≤◌, ◌<◌, ◌≡◌, refl, List, ◌++◌, length, take, arith, length-append,
}
use aaruremote.Common.Bytes.{IsByte, le_bytes, read_at_inside}
use aaruremote.Protocol.Types.{
  type_response_ata_chs, type_response_ata_lba_28, type_response_ata_lba_48, type_response_sdhci,
}
use aaruremote.Protocol.Structs.{field32, encode_error_registers, encode_error_registers_lba48}
use aaruremote.Worker.Platform.{Platform, AtaCall, AtaResult, SdhciCall, SdhciResult}
use aaruremote.Worker.Session.{Session}
use aaruremote.Worker.Laws.{NetLaws, AllocLaws}
use aaruremote.Worker.Served.{Ensures, Served, Request, request_runs}
use aaruremote.Worker.Transfers.{ata_call, on_ata, on_ata_chs, on_ata_lba28, on_ata_lba48, on_sdhci}
use aaruremote.Worker.Transfers.Parts.{Holds, tail-Holds}
use aaruremote.Worker.Transfers.Answers.{send_payload-Served}

-- A device function that announces no more data than it was given room for.
abbrev pub KeepsBuffer : {D R E : Type 0} → (D → ℕ → AtaCall R → AtaResult E × D) → Type 0
KeepsBuffer {D} {R} {E} send =
    (d : D) (ctx : ℕ) (call : AtaCall R)
    → Holds call.buffer call.buf_len
    → let r = (send d ctx call).0 in Holds r.buffer r.buf_len × (r.buf_len ≤ call.buf_len)

abbrev pub KeepsSdhciBuffer : {D : Type 0} → (D → ℕ → SdhciCall → SdhciResult × D) → Type 0
KeepsSdhciBuffer {D} send =
    (d : D) (ctx : ℕ) (call : SdhciCall)
    → Holds call.buffer call.buf_len
    → Holds (send d ctx call).0.buffer call.buf_len

-- The request has its fixed part, of `size` bytes, and the data that it announces at offset `off`.
abbrev pub HoldsData : ℕ → ℕ → List ℕ → ℕ → Type 0
HoldsData size off p n = size + field32 (take size p) off ≤ n

length-ata_fields :
    (buf_len duration sense error_no : ℕ) (regs : List ℕ) (err_size : ℕ)
    → length regs ≡ err_size
    → length (
          le_bytes 4 buf_len
          ++ (regs ++ (le_bytes 4 duration ++ (le_bytes 4 sense ++ le_bytes 4 error_no))))
        + 16
      ≡ 32 + err_size
length-ata_fields buf_len duration sense error_no regs err_size h =
    omega
      (arith, length-append regs (le_bytes 4 duration ++ (le_bytes 4 sense ++ le_bytes 4 error_no)))

module _ {C D H : Type 0} {P : Platform C D H} (N : NetLaws P) (A : AllocLaws P) where
  on_ata-Served :
      {R E : Type 0} {s : Session C D H} {n : ℕ} {p rest : List ℕ}
      → (t reg_size err_size : ℕ) (load : List ℕ → R) (encode : E → List ℕ)
      → (send : D → ℕ → AtaCall R → AtaResult E × D) → KeepsBuffer send
      → ((e : E) → length (encode e) ≡ err_size)
      → IsByte t
      → err_size < 100
      → Request N s n p rest
      → HoldsData (28 + reg_size) 16 p n
      → n < 2 ^ 30
      → Ensures
          (λ _. Served N (N.sent s.conn) rest t)
          (on_ata P t reg_size err_size load encode send s)
  unfolding on_ata
  on_ata-Served {s} {n} {p} {rest} t reg_size err_size load encode send keeps sized byte small_regs
        req fits small =
      let fixed = take (28 + reg_size) p in
      let call = ata_call load reg_size fixed p in
      let r = (send s.devices s.device_ctx call).0 in
      let held : Holds call.buffer call.buf_len =
        unfold ata_call in
        tail-Holds p (28 + reg_size) (field32 fixed 16) (omega (arith, req.size)) in
      let (kept, shorter) = keeps s.devices s.device_ctx call held in
      let small_data : call.buf_len < 2 ^ 30 = unfold ata_call in omega arith in
      rw (request_runs N A req _, read_at_inside p 0 (28 + reg_size) (omega (arith, req.size)))
        (send_payload-Served N A req t (32 + err_size) _ _ _ _ refl refl refl refl refl byte
          (length-ata_fields r.buf_len r.duration r.sense r.ret (encode r.error_registers) err_size
            (sized r.error_registers))
          kept (omega arith))

  module _ {s : Session C D H} {n : ℕ} {p rest : List ℕ} (req : Request N s n p rest)
      (small : n < 2 ^ 30) where
    -- On a network and an allocator that meet NetLaws and AllocLaws, for a complete Request of
    -- fewer than 2 ^ 30 bytes that has its 35 fixed bytes and the data that it announces, if the
    -- device function keeps the size of its buffer: the ATA CHS case sends one well-formed response
    -- of its type and nothing else, and the request is off the connection.
    pub on_ata_chs-Served :
        KeepsBuffer P.send_ata_chs_command
        → HoldsData 35 16 p n
        → Ensures (λ _. Served N (N.sent s.conn) rest type_response_ata_chs) (on_ata_chs P s)
    unfolding on_ata_chs encode_error_registers
    on_ata_chs-Served keeps fits =
        on_ata-Served _ 7 7 _ _ P.send_ata_chs_command keeps (λ e. refl) (omega arith) (omega arith)
          req fits small

    -- On a network and an allocator that meet NetLaws and AllocLaws, for a complete Request of
    -- fewer than 2 ^ 30 bytes that has its 35 fixed bytes and the data that it announces, if the
    -- device function keeps the size of its buffer: the ATA LBA28 case sends one well-formed
    -- response of its type and nothing else, and the request is off the connection.
    pub on_ata_lba28-Served :
        KeepsBuffer P.send_ata_lba28_command
        → HoldsData 35 16 p n
        → Ensures (λ _. Served N (N.sent s.conn) rest type_response_ata_lba_28) (on_ata_lba28 P s)
    unfolding on_ata_lba28 encode_error_registers
    on_ata_lba28-Served keeps fits =
        on_ata-Served _ 7 7 _ _ P.send_ata_lba28_command keeps (λ e. refl) (omega arith)
          (omega arith) req fits small

    -- On a network and an allocator that meet NetLaws and AllocLaws, for a complete Request of
    -- fewer than 2 ^ 30 bytes that has its 40 fixed bytes and the data that it announces, if the
    -- device function keeps the size of its buffer: the ATA LBA48 case sends one well-formed
    -- response of its type and nothing else, and the request is off the connection.
    pub on_ata_lba48-Served :
        KeepsBuffer P.send_ata_lba48_command
        → HoldsData 40 16 p n
        → Ensures (λ _. Served N (N.sent s.conn) rest type_response_ata_lba_48) (on_ata_lba48 P s)
    unfolding on_ata_lba48 encode_error_registers_lba48
    on_ata_lba48-Served keeps fits =
        on_ata-Served _ 12 11 _ _ P.send_ata_lba48_command keeps (λ e. refl) (omega arith)
          (omega arith) req fits small

    -- On a network and an allocator that meet NetLaws and AllocLaws, for a complete Request of
    -- fewer than 2 ^ 30 bytes that has its 43 fixed bytes and the data that it announces, if the
    -- device function keeps the size of its buffer: the SDHCI case sends one well-formed response
    -- of its type and nothing else, and the request is off the connection.
    pub on_sdhci-Served :
        KeepsSdhciBuffer P.send_sdhci_command
        → HoldsData 43 35 p n
        → Ensures (λ _. Served N (N.sent s.conn) rest type_response_sdhci) (on_sdhci P s)
    unfolding on_sdhci
    on_sdhci-Served keeps fits =
        rw (request_runs N A req _, read_at_inside p 0 43 (omega (arith, req.size)))
          (let kept =
              keeps s.devices s.device_ctx _
                (tail-Holds p 43 (field32 (take 43 p) 35) (omega (arith, req.size))) in
            send_payload-Served N A req type_response_sdhci 48 _ _ _ _ refl refl refl refl refl
              (omega arith) refl kept (omega arith))
