-- ===== src/Worker/Queries/Listing.antt =====
-- worker.c: the answer to LIST_DEVICES.
use aaruremote.Common.{
  ℕ, ◌+◌, ◌*◌, ◌^◌, ◌<◌, ◌≡◌, refl, ap, false, List, [], ◌∷◌, length, take, drop, length-append,
  arith, le→leb, append_assoc,
}
use aaruremote.Protocol.Types.{type_response_list_devices, type_nop, reason_error_list_devices}
use aaruremote.Protocol.Structs.{
  AaruPacketNop, DeviceInfo, device_info_size, encode_device_info, res_list_devs_size,
  encode_res_list_devs,
}
use aaruremote.Protocol.Layout.{length-encode_device_info}
use aaruremote.Devices.{device_info_list_count, device_info_list_count-length}
use aaruremote.Worker.Platform.{Platform}
use aaruremote.Worker.Session.{Session}
use aaruremote.Worker.Laws.{NetLaws, AllocLaws, with_packet_runs}
use aaruremote.Worker.Served.{
  Ensures, Served, Request, Served-by_reply, Served-by_nop, length-leftover_spare,
}
use aaruremote.Worker.Queries.{on_list_devices, encode_devices, send_devices, answer_list}

length-encode_devices :
    (ds : List DeviceInfo) → length (encode_devices ds) ≡ length ds * device_info_size
unfolding encode_devices
length-encode_devices [] = refl
length-encode_devices (d ∷ ds) = omega (
  arith,
  length-append (encode_device_info d) (encode_devices ds),
  length-encode_device_info d,
  length-encode_devices ds,
)

-- The response type for a list of devices; an empty list is the failure that a NOP packet reports.
abbrev pub list_answer_type : List DeviceInfo → ℕ
list_answer_type [] = type_nop
list_answer_type (d ∷ ds) = type_response_list_devices

module _ {C D H : Type 0} {P : Platform C D H} (N : NetLaws P) (A : AllocLaws P) where
  send_devices-Served :
      {s : Session C D H} {n : ℕ} {p rest : List ℕ}
      → Request N s n p rest
      → (ds : List DeviceInfo) (s' : Session C D H) → s'.conn ≡ (P.net_recv s.conn n false).1
      → s'.client_live ≡ s.client_live
      → s'.skip_next_hdr ≡ s.skip_next_hdr
      → s'.pkt_nop ≡ s.pkt_nop
      → s'.pkt_hdr ≡ s.pkt_hdr
      → length ds < 2 ^ 16
      → Ensures
          (λ _. Served N (N.sent s.conn) rest type_response_list_devices)
          (send_devices P ds s')
  unfolding send_devices encode_res_list_devs
  send_devices-Served req ds s' conn live plain nop hdr short =
      let count : device_info_list_count ds ≡ length ds =
        omega (arith, device_info_list_count-length ds) in
      let size = res_list_devs_size + length ds * device_info_size in
      let heap = (P.malloc s'.heap res_list_devs_size).1 in
      let spare : length (take 2 (drop 14 (A.fresh heap size))) ≡ 2 =
        length-leftover_spare (A.fresh heap size) (omega (arith, A.fresh_size heap size)) in
      rw
        (
          A.malloc_succeeds s'.heap _,
          A.malloc_succeeds _ _,
          count,
          le→leb size size (omega arith),
          append_assoc,
        )
        (Served-by_reply N req type_response_list_devices size _ _
          (record s' { heap = (P.malloc heap size).1 }) conn live plain nop hdr (omega arith)
          (omega arith) spare (omega (arith, length-encode_devices ds)))

  list_devices_answer :
      {s : Session C D H} {n : ℕ} {p rest : List ℕ}
      → Request N s n p rest
      → (ds : List DeviceInfo) (s' : Session C D H) → s'.conn ≡ (P.net_recv s.conn n false).1
      → s'.client_live ≡ s.client_live
      → s'.skip_next_hdr ≡ s.skip_next_hdr
      → s'.pkt_nop ≡ s.pkt_nop
      → s'.pkt_hdr ≡ s.pkt_hdr
      → length ds < 2 ^ 16
      → Ensures (λ _. Served N (N.sent s.conn) rest (list_answer_type ds)) (answer_list P ds s')
  unfolding answer_list
  list_devices_answer req [] s' conn live plain nop hdr short =
      Served-by_nop N req reason_error_list_devices _ s' conn live plain
        (ap (λ (q : AaruPacketNop). q.hdr) nop) hdr
  list_devices_answer req (d ∷ ds) s' conn live plain nop hdr short =
      send_devices-Served req (d ∷ ds) s' conn live plain nop hdr short

  -- On a network and an allocator that meet NetLaws and AllocLaws, for a complete Request, if there
  -- are fewer than 2 ^ 16 devices: the LIST_DEVICES case sends one well-formed packet and nothing
  -- else, a NOP packet if there is no list and a list otherwise, and the request is off the
  -- connection.
  pub on_list_devices-Served :
      {s : Session C D H} {n : ℕ} {p rest : List ℕ}
      → Request N s n p rest
      → length (P.list_devices s.devices).0 < 2 ^ 16
      → Ensures
          (λ _. Served N (N.sent s.conn) rest (list_answer_type (P.list_devices s.devices).0))
          (on_list_devices P s)
  unfolding on_list_devices
  on_list_devices-Served {s} {n} {p} {rest} req short =
      let (ds, devices) = P.list_devices s.devices in
      rw
        (with_packet_runs N A _ (record s { devices = devices }) n p rest req.announced req.there
          req.size req.small)
        (list_devices_answer req ds _ refl refl refl refl refl short)
