-- ===== src/Worker/Control/Answers.antt =====
-- worker.c: the cases that open, close and reopen the device, that read through the operating
-- system, and those that set a packet aside.
use aaruremote.Common.{
  ℕ, ◌^◌, ◌≤◌, ◌<◌, ◌≡◌, refl, ap, ◌∙◌, some, List, [], length, take, drop, replicate, arith,
  take_all, drop-append_exact, length-replicate, ◌==◌, if◌then◌else◌,
}
use aaruremote.Common.Bytes.{read_at_inside}
use aaruremote.Protocol.Types.{type_nop, type_response_osread, reason_open_ok, reason_open_error}
use aaruremote.Protocol.Structs.{AaruPacketNop, encode_nop, nop_size, field32, field64}
use aaruremote.Worker.Platform.{Platform, OsReadResult}
use aaruremote.Worker.Session.{Session, ◌>>◌, send_nop, set_skip}
use aaruremote.Worker.Laws.{NetLaws, AllocLaws, after_malloc, after_recv, with_block_runs}
use aaruremote.Worker.Served.{
  Ensures, Served, Quiet, Request, request_runs, Served-by_nop, nop-IsAnswer,
}
use aaruremote.Worker.Transfers.Answers.{send_payload-Served}
use aaruremote.Worker.Control.{
  c_string, on_open_device, on_close_device, on_reopen, on_osread, on_hello, on_response,
  on_unrecognized,
}

-- OsRead fills the buffer that it was given and does not resize it.
abbrev pub KeepsReadBuffer : {D : Type 0} → (D → ℕ → List ℕ → ℕ → ℕ → OsReadResult × D) → Type 0
KeepsReadBuffer {D} read =
    (d : D) (ctx : ℕ) (buffer : List ℕ) (offset len : ℕ)
    → len ≤ length buffer
    → len ≤ length (read d ctx buffer offset len).0.buffer

module _ {C D H : Type 0} {P : Platform C D H} (N : NetLaws P) (A : AllocLaws P) where
  -- On a network and an allocator that meet NetLaws and AllocLaws, for a complete Request whose
  -- path ends: the OPEN_DEVICE case sends one well-formed NOP packet and nothing else, the request
  -- is off the connection, and the current device context is the one that DeviceOpen returned for
  -- the path.
  pub on_open_device-Served :
      {s : Session C D H} {n : ℕ} {p rest path : List ℕ}
      → Request N s n p rest
      → c_string (drop 16 p) ≡ some path
      → Ensures
          (λ _ s'.
            Served N (N.sent s.conn) rest type_nop s'
            × (s'.device_ctx ≡ (P.device_open s.devices path).0.0))
          (on_open_device P s)
  unfolding on_open_device send_nop
  on_open_device-Served {s} {n} {p} {rest} {path} req e =
      let ((ctx, errno), devices) = P.device_open s.devices path in
      let s' : Session C D H = record (after_recv P n (after_malloc P n s)) {
        devices = devices;
        device_ctx = ctx;
        pkt_nop = record s.pkt_nop { error_no = errno };
      } in
      rw (request_runs N A req _, e)
        (
          unfold send_nop in
              Served-by_nop N req (if ctx == 0 then reason_open_error else reason_open_ok) [] s'
                refl refl refl refl refl,
          refl,
        )

  -- On a network and an allocator that meet NetLaws and AllocLaws, for a complete Request: the
  -- REOPEN case sends one well-formed NOP packet and nothing else, and the request is off the
  -- connection.
  pub on_reopen-Served :
      {s : Session C D H} {n : ℕ} {p rest : List ℕ}
      → Request N s n p rest
      → Ensures (λ _. Served N (N.sent s.conn) rest type_nop) (on_reopen P s)
  unfolding on_reopen
  on_reopen-Served req =
      rw (request_runs N A req _) (Served-by_nop N req _ _ _ refl refl refl refl refl)

  -- A packet that is answered by a NOP and set aside: nothing of it was received yet.
  set_aside :
      {s : Session C D H} {n : ℕ} {p rest : List ℕ}
      → Request N s n p rest
      → (code : ℕ) (text : List ℕ)
      → Ensures
          (λ _. Served N (N.sent s.conn) rest type_nop)
          ((send_nop P code text >> set_skip P) s)
  unfolding send_nop
  set_aside {s} {n} {p} {rest} req code text =
      let nop : AaruPacketNop = record s.pkt_nop { reason_code = code; reason = text } in
      let ok = nop-IsAnswer nop req.nop_ready in
      record {
        live = req.is_live;
        consumed = rw req.announced (
            ap (drop n) (N.write_pending s.conn (encode_nop nop) nop_size ∙ req.there)
            ∙ drop-append_exact n p rest req.size);
        answer = encode_nop nop;
        written =
            rw
              (
                N.write_sent s.conn (encode_nop nop) nop_size (omega (arith, ok.0)) (omega arith),
                take_all nop_size (encode_nop nop) (omega (arith, ok.0)),
              )
              refl;
        well_formed = ok.1;
        nop_kept = req.nop_ready;
        bounded = rw req.announced req.small;
      }

  -- On a network and an allocator that meet NetLaws and AllocLaws, for a complete Request: the
  -- HELLO case sends one well-formed NOP packet and nothing else, and sets the request aside, so
  -- that what comes behind it is left to be served.
  pub on_hello-Served :
      {s : Session C D H} {n : ℕ} {p rest : List ℕ}
      → Request N s n p rest
      → Ensures (λ _. Served N (N.sent s.conn) rest type_nop) (on_hello P s)
  unfolding on_hello
  on_hello-Served req = set_aside req _ _

  -- On a network and an allocator that meet NetLaws and AllocLaws, for a complete Request: the case
  -- of the response types sends one well-formed NOP packet and nothing else, and sets the request
  -- aside, so that what comes behind it is left to be served.
  pub on_response-Served :
      {s : Session C D H} {n : ℕ} {p rest : List ℕ}
      → Request N s n p rest
      → Ensures (λ _. Served N (N.sent s.conn) rest type_nop) (on_response P s)
  unfolding on_response
  on_response-Served req = set_aside req _ _

  -- On a network and an allocator that meet NetLaws and AllocLaws, for a complete Request: the
  -- default case sends one well-formed NOP packet and nothing else, and sets the request aside, so
  -- that what comes behind it is left to be served.
  pub on_unrecognized-Served :
      {s : Session C D H} {n : ℕ} {p rest : List ℕ}
      → Request N s n p rest
      → Ensures (λ _. Served N (N.sent s.conn) rest type_nop) (on_unrecognized P s)
  unfolding on_unrecognized
  on_unrecognized-Served req = set_aside req _ _

  -- On a network and an allocator that meet NetLaws and AllocLaws, for a complete Request: the
  -- CLOSE_DEVICE case sends nothing, calls DeviceClose on the current context and forgets it, and
  -- leaves what comes behind the request to be served.
  pub on_close_device-Quiet :
      {s : Session C D H} {n : ℕ} {p rest : List ℕ}
      → Request N s n p rest
      → Ensures
          (λ _ s'.
            Quiet N (N.sent s.conn) rest s'
            × (s'.device_ctx ≡ 0)
            × (s'.devices ≡ P.device_close s.devices s.device_ctx))
          (on_close_device P s)
  unfolding on_close_device
  on_close_device-Quiet {s} {n} {p} {rest} req = (
    record {
      live = req.is_live;
      consumed = rw (req.announced, req.there) (drop-append_exact n p rest req.size);
      unwritten = refl;
      nop_kept = req.nop_ready;
      bounded = rw req.announced req.small;
    },
    refl,
    refl,
  )

  -- On a network and an allocator that meet NetLaws and AllocLaws, for a complete Request of 28
  -- bytes or more that asks for fewer than 2 ^ 30 bytes, if OsRead keeps the size of the buffer:
  -- the OSREAD case sends one well-formed response and nothing else, and the request is off the
  -- connection.
  pub on_osread-Served :
      {s : Session C D H} {n : ℕ} {p rest : List ℕ}
      → KeepsReadBuffer P.os_read
      → Request N s n p rest
      → 28 ≤ n
      → field32 (take 28 p) 24 < 2 ^ 30
      → Ensures (λ _. Served N (N.sent s.conn) rest type_response_osread) (on_osread P s)
  unfolding on_osread
  on_osread-Served {s} {n} {p} {rest} keeps req whole small =
      let len = field32 (take 28 p) 24 in
      let off = field64 (take 28 p) 16 in
      rw
        (
          request_runs N A req _,
          read_at_inside p 0 28 (omega (arith, req.size)),
          with_block_runs A len _ _,
        )
        (send_payload-Served N A req type_response_osread 24 _ _ len _ refl refl refl refl refl
          (omega arith) refl
          (keeps s.devices s.device_ctx (replicate len 0) off len
            (omega (arith, length-replicate {A = ℕ} len 0)))
          (omega arith))
