-- ===== src/Worker/Control.antt =====
-- worker.c: the cases that open, close and reopen the device and that read through the operating
-- system, and those that only answer with a NOP packet.
pub mod Answers
use aaruremote.Common.{
  ℕ, ◌+◌, ◌-◌, ◌/◌, ◌%◌, ◌^◌, Bool, Option, none, some, List, [], ◌∷◌, ◌++◌, take, drop, replicate,
  ltb, ◌==◌, if◌then◌else◌,
}
use aaruremote.Common.Bytes.{le_bytes, read_at, codes}
use aaruremote.Protocol.Types.{
  type_response_osread, reason_ooo, reason_not_recognized, reason_open_ok, reason_open_error,
  reason_reopen_ok, reason_close_error,
}
use aaruremote.Protocol.Header.{encode_header, own_header}
use aaruremote.Protocol.Structs.{field32, field64}
use aaruremote.Worker.Platform.{Platform}
use aaruremote.Worker.Session.{
  Session, M, ◌>>=◌, ◌>>◌, access, get, net_write, device, with_packet, with_block, send_nop,
  set_error_no, set_skip, set_device, current_hdr,
}
use aaruremote.Worker.Transfers.{send_payload}

-- The C string at the start of a buffer; `none` if there is no NUL in it.
unfoldable pub c_string : List ℕ → Option (List ℕ)
c_string [] = none
c_string (c ∷ cs) =
    let rest = c_string cs in
    if c == 0 then some [] else elim rest [ none ↦ none | some t ↦ some (c ∷ t) ]

-- `%d` of an `int8_t`.
decimal : ℕ → List ℕ
decimal n =
    if ltb n 10
    then (b'0' + n) ∷ []
    else if ltb n 100
    then (b'0' + n / 10) ∷ (b'0' + n % 10) ∷ []
    else (b'0' + n / 100) ∷ (b'0' + n / 10 % 10) ∷ (b'0' + n % 10) ∷ []

unfoldable pub decimal_int8 : ℕ → List ℕ
unfolding decimal
decimal_int8 n = if ltb n 128 then decimal n else b'-' ∷ decimal (256 - n)

module _ {C D H : Type 0} (P : Platform C D H) where
  -- `case AARUREMOTE_PACKET_TYPE_HELLO`
  unfoldable pub on_hello : M C D H (Unit {0})
  on_hello = do
    send_nop P reason_ooo (codes "Received hello packet out of order, skipping...")
    set_skip P

  -- The cases of the response types.
  unfoldable pub on_response : M C D H (Unit {0})
  on_response = do
    send_nop P reason_ooo (codes "Received response packet?! You should certainly not do that...")
    set_skip P

  -- `default`
  unfoldable pub on_unrecognized : M C D H (Unit {0})
  on_unrecognized = do
    s ← get
    send_nop P reason_not_recognized (
        codes "Received unrecognized packet with type "
        ++ (decimal_int8 (current_hdr s).packet_type ++ codes ", skipping..."))
    set_skip P

  -- `case AARUREMOTE_PACKET_TYPE_COMMAND_OPEN_DEVICE`
  unfoldable pub on_open_device : M C D H (Unit {0})
  on_open_device = with_packet P λ in_buf. do
    path ← access (c_string (drop 16 in_buf))
    (ctx, errno) ← device P (λ d. P.device_open d path)
    set_device P ctx
    set_error_no P errno
    send_nop P (if ctx == 0 then reason_open_error else reason_open_ok) []

  -- `case AARUREMOTE_PACKET_TYPE_COMMAND_CLOSE_DEVICE`
  unfoldable pub on_close_device : M C D H (Unit {0})
  on_close_device = do
    s ← get
    device P (λ d. (tt, P.device_close d s.device_ctx))
    set_device P 0
    set_skip P

  -- `case AARUREMOTE_PACKET_TYPE_COMMAND_REOPEN`
  unfoldable pub on_reopen : M C D H (Unit {0})
  on_reopen = with_packet P λ _. do
    s ← get
    r ← device P (λ d. P.reopen d s.device_ctx)
    set_error_no P r.ret
    send_nop P
        (if r.ret == 0
          then reason_reopen_ok
          else if r.close_failed == 0
          then reason_open_error
          else reason_close_error)
        []

  -- `case AARUREMOTE_PACKET_TYPE_COMMAND_OSREAD`
  unfoldable pub on_osread : M C D H (Unit {0})
  on_osread = with_packet P λ in_buf. do
    fixed ← access (read_at in_buf 0 28)
    let offset = field64 fixed 16
    let length = field32 fixed 24
    with_block P length λ _. do
      s ← get
      r ← device P (λ d. P.os_read d s.device_ctx (replicate length 0) offset length)
      send_payload P type_response_osread 24 (le_bytes 4 r.ret ++ le_bytes 4 r.duration)
          (some r.buffer) length
