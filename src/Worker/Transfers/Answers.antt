-- ===== src/Worker/Transfers/Answers.antt =====
-- worker.c: the answers to the SCSI command and to the other commands that carry data.
use aaruremote.Common.{
  ℕ, ◌+◌, ◌%◌, ◌^◌, ◌≤◌, ◌<◌, ◌≡◌, ◌≢◌, refl, Bool, false, Option, none, List, length, take, arith,
  append_assoc, length-append,
}
use aaruremote.Common.Bytes.{IsByte, read_at_inside}
use aaruremote.Protocol.Types.{type_response_scsi}
use aaruremote.Protocol.Structs.{
  load_cmd_scsi, cmd_scsi_size, res_scsi_size, encode_res_scsi, AaruPacketCmdScsi,
}
use aaruremote.Worker.Platform.{Platform, untouched, ScsiCall, ScsiResult}
use aaruremote.Worker.Session.{Session, ◌>>=◌}
use aaruremote.Worker.Laws.{NetLaws, AllocLaws, after_malloc, after_recv, with_block_runs}
use aaruremote.Worker.Served.{
  Ensures, Served, Request, Served-by_reply, request_runs, length-leftover_spare,
}
use aaruremote.Worker.Transfers.{on_scsi, scsi_reply, scsi_request, send_payload}
use aaruremote.Worker.Transfers.Parts.{
  Holds, SenseHolds, data_part_total, sense_block_total, copy_out_total,
}

-- What a platform's SendScsiCommand does: with an open device it sets the sense pointer to NULL or
-- to a block that holds the sense bytes it announces, fewer than 256, and it announces no more data
-- than it was given room for.
pub record ScsiLaws {D : Type 0} (send : D → ℕ → ScsiCall → ScsiResult × D) : Type 0 where
  pub sense_holds :
      (d : D) (ctx : ℕ) (call : ScsiCall)
      → ctx ≢ 0
      → let r = (send d ctx call).0 in SenseHolds r.sense_buf r.sense_len
  pub sense_small : (d : D) (ctx : ℕ) (call : ScsiCall) → (send d ctx call).0.sense_len < 256
  pub buffer_holds :
      (d : D) (ctx : ℕ) (call : ScsiCall)
      → Holds call.buffer call.buf_len
      → let r = (send d ctx call).0 in Holds r.buffer r.buf_len × (r.buf_len ≤ call.buf_len)

-- The request has the bytes of the command and of the data that it announces.
abbrev pub HoldsScsi : List ℕ → ℕ → Type 0
HoldsScsi p n =
    let cmd = load_cmd_scsi (take cmd_scsi_size p) in cmd_scsi_size + cmd.cdb_len + cmd.buf_len ≤ n

module _ {C D H : Type 0} {P : Platform C D H} (N : NetLaws P) (A : AllocLaws P) where
  scsi_reply-Served :
      {s : Session C D H} {n : ℕ} {p rest : List ℕ}
      → Request N s n p rest
      → (r : ScsiResult) (is_null : Bool) (s' : Session C D H)
      → s'.conn ≡ (P.net_recv s.conn n false).1
      → s'.client_live ≡ s.client_live
      → s'.skip_next_hdr ≡ s.skip_next_hdr
      → s'.pkt_nop ≡ s.pkt_nop
      → s'.pkt_hdr ≡ s.pkt_hdr
      → SenseHolds r.sense_buf r.sense_len
      → Holds r.buffer r.buf_len
      → r.sense_len < 256
      → r.buf_len < 2 ^ 30
      → Ensures (λ _. Served N (N.sent s.conn) rest type_response_scsi) (scsi_reply P r is_null s')
  unfolding scsi_reply encode_res_scsi
  scsi_reply-Served req r is_null s' conn live plain nop hdr sense_ok buffer_ok small_sense
        small_buf =
      let size = res_scsi_size + r.sense_len + r.buf_len in
      let raw = A.fresh s'.heap size in
      let room : length raw ≡ size = A.fresh_size s'.heap size in
      let (sense_buf, e₁, h₁) = sense_block_total r.sense_buf is_null r.sense_len sense_ok in
      let (sense, e₂, h₂) =
        data_part_total sense_buf raw res_scsi_size r.sense_len h₁ (omega arith) in
      let (payload, e₃, h₃) =
        data_part_total r.buffer raw (res_scsi_size + r.sense_len) r.buf_len buffer_ok
          (omega arith) in
      let no_wrap : size % 2 ^ 32 ≡ size = omega arith in
      rw (with_block_runs A size _ s', e₁, e₂, e₃, no_wrap, append_assoc)
        (Served-by_reply N req type_response_scsi size _ _ (after_malloc P size s') conn live plain
          nop hdr (omega arith) (omega arith) (length-leftover_spare raw (omega arith))
          (omega (arith, length-append sense payload)))

  scsi_request-Served :
      {s : Session C D H} {n : ℕ} {p rest : List ℕ}
      → ScsiLaws P.send_scsi_command
      → Request N s n p rest
      → s.device_ctx ≢ 0
      → (cmd : AaruPacketCmdScsi) → cmd_scsi_size + cmd.cdb_len + cmd.buf_len ≤ n
      → n < 2 ^ 30
      → Ensures
          (λ _. Served N (N.sent s.conn) rest type_response_scsi)
          (scsi_request P p cmd (after_recv P n (after_malloc P n s)))
  unfolding scsi_request
  scsi_request-Served {s} {n} {p} {rest} L req open_device cmd fits small =
      let s₁ = after_recv P n (after_malloc P n s) in
      let (cdb, h₁, e₁, _) =
        copy_out_total A p cmd_scsi_size cmd.cdb_len s₁ (omega (arith, req.size)) in
      let (buffer, h₂, e₂, held) =
        copy_out_total A p (cmd.cdb_len + cmd_scsi_size) cmd.buf_len (record s₁ { heap = h₁ })
          (omega (arith, req.size)) in
      let call : ScsiCall = record {
        cdb = cdb;
        buffer = buffer;
        timeout = cmd.timeout;
        direction = cmd.direction;
        cdb_len = cmd.cdb_len;
        buf_len = cmd.buf_len;
      } in
      let (kept, shorter) = L.buffer_holds s.devices s.device_ctx call held in
      rw (e₁, e₂, ◌>>=◌)
        (scsi_reply-Served req _ _ _ refl refl refl refl refl
          (L.sense_holds s.devices s.device_ctx call open_device) kept
          (L.sense_small s.devices s.device_ctx call) (omega arith))

  -- On a network and an allocator that meet NetLaws and AllocLaws, with a SendScsiCommand that
  -- meets ScsiLaws and an open device, for a complete Request of fewer than 2 ^ 30 bytes that holds
  -- the command and the data that it announces: the case sends one well-formed SCSI response and
  -- nothing else, and the request is off the connection.
  pub on_scsi-Served :
      {s : Session C D H} {n : ℕ} {p rest : List ℕ}
      → ScsiLaws P.send_scsi_command
      → Request N s n p rest
      → s.device_ctx ≢ 0
      → HoldsScsi p n
      → n < 2 ^ 30
      → Ensures (λ _. Served N (N.sent s.conn) rest type_response_scsi) (on_scsi P s)
  unfolding on_scsi
  on_scsi-Served {s} {n} {p} {rest} L req open_device fits small =
      rw (request_runs N A req _, read_at_inside p 0 cmd_scsi_size (omega (arith, req.size)))
        (scsi_request-Served L req open_device (load_cmd_scsi (take cmd_scsi_size p)) fits small)

  -- On a network and an allocator that meet NetLaws and AllocLaws, for a complete Request that
  -- holds the command and the data that it announces, if SendScsiCommand leaves the sense pointer
  -- as it was and the variable does not hold NULL: the SCSI case is undefined behaviour.
  pub on_scsi_untouched :
      {s : Session C D H} {n : ℕ} {p rest : List ℕ}
      → Request N s n p rest
      → HoldsScsi p n
      → s.sense_buf_null ≡ false
      → ((call : ScsiCall)
          → (P.send_scsi_command s.devices s.device_ctx call).0.sense_buf ≡ untouched)
      → on_scsi P s ≡ none
  unfolding on_scsi scsi_request scsi_reply
  on_scsi_untouched {s} {n} {p} {rest} req fits wild unset =
      let cmd = load_cmd_scsi (take cmd_scsi_size p) in
      let s₁ = after_recv P n (after_malloc P n s) in
      let (cdb, h₁, e₁, _) =
        copy_out_total A p cmd_scsi_size cmd.cdb_len s₁ (omega (arith, req.size)) in
      let (buffer, h₂, e₂, _) =
        copy_out_total A p (cmd.cdb_len + cmd_scsi_size) cmd.buf_len (record s₁ { heap = h₁ })
          (omega (arith, req.size)) in
      rw
        (
          request_runs N A req _,
          read_at_inside p 0 cmd_scsi_size (omega (arith, req.size)),
          e₁,
          e₂,
          ◌>>=◌,
          with_block_runs A _ _ _,
          unset _,
          wild,
        )
        refl

  pub send_payload-Served :
      {s : Session C D H} {n : ℕ} {p rest : List ℕ}
      → Request N s n p rest
      → (t fixed_size : ℕ) (fields : List ℕ) (buffer : Option (List ℕ)) (buf_len : ℕ)
        (s' : Session C D H)
      → s'.conn ≡ (P.net_recv s.conn n false).1
      → s'.client_live ≡ s.client_live
      → s'.skip_next_hdr ≡ s.skip_next_hdr
      → s'.pkt_nop ≡ s.pkt_nop
      → s'.pkt_hdr ≡ s.pkt_hdr
      → IsByte t
      → length fields + 16 ≡ fixed_size
      → Holds buffer buf_len
      → fixed_size + buf_len < 2 ^ 31
      → Ensures
          (λ _. Served N (N.sent s.conn) rest t)
          (send_payload P t fixed_size fields buffer buf_len s')
  unfolding send_payload
  send_payload-Served req t fixed_size fields buffer buf_len s' conn live plain nop hdr byte whole
        holds small =
      let size = fixed_size + buf_len in
      let raw = A.fresh s'.heap size in
      let room : length raw ≡ size = A.fresh_size s'.heap size in
      let (payload, e, h) = data_part_total buffer raw fixed_size buf_len holds (omega arith) in
      let no_wrap : size % 2 ^ 32 ≡ size = omega arith in
      rw (with_block_runs A size _ s', e, no_wrap)
        (Served-by_reply N req t size _ _ (after_malloc P size s') conn live plain nop hdr byte
          small (length-leftover_spare raw (omega arith))
          (omega (arith, length-append fields payload)))
