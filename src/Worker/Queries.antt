-- ===== src/Worker/Queries.antt =====
-- worker.c: the cases whose request is only a header: the device list, the kind of device, the
-- registers and descriptors of the bus it is on, and whether the server runs as root.
pub mod Answers
pub mod Listing
pub mod Registers
use aaruremote.Common.{
  ℕ, ◌+◌, ◌*◌, ◌%◌, ◌^◌, Bool, ◌&&◌, Option, none, some, List, [], ◌∷◌, ◌++◌, length, take, drop,
  leb, ltb, min, if◌then◌else◌,
}
use aaruremote.Common.Bytes.{le_bytes, read_at, codes}
use aaruremote.Protocol.Types.{
  type_response_list_devices, type_response_get_devtype, type_response_get_sdhci_registers,
  type_response_get_usb_data, type_response_get_firewire_data, type_response_get_pcmcia_data,
  type_response_am_i_root, reason_error_list_devices,
}
use aaruremote.Protocol.Header.{encode_header, own_header}
use aaruremote.Protocol.Structs.{
  array, DeviceInfo, device_info_size, encode_device_info, res_list_devs_size, encode_res_list_devs,
}
use aaruremote.Devices.{device_info_list_count}
use aaruremote.Worker.Platform.{Platform, SdhciRegisters, UsbData, FireWireData, PcmciaData}
use aaruremote.Worker.Session.{
  M, ◌>>=◌, ◌>>◌, access, get, malloc, net_write, device, with_packet, with_block, send_nop,
}

-- The header that an answer in a zeroed block gets.
abbrev zeroed_header : ℕ → ℕ → List ℕ
zeroed_header packet_type len = encode_header (own_header packet_type len (0 ∷ 0 ∷ []))

unfoldable pub encode_devices : List DeviceInfo → List ℕ
encode_devices [] = []
encode_devices (d ∷ ds) = encode_device_info d ++ encode_devices ds

abbrev pub firewire_size : ℕ
firewire_size = 545

abbrev pub usb_size : ℕ
usb_size = 66327

abbrev pub pcmcia_size : ℕ
pcmcia_size = 65555

abbrev pub sdhci_registers_size : ℕ
sdhci_registers_size = 77

-- One register of the answer: the length sent and the zeroed field with the copy in it. The copy
-- reads `len` bytes of the block, at most the field's size.
unfoldable pub register_field : ℕ → ℕ → Option (List ℕ) → Option (ℕ × List ℕ)
register_field size len none = some (len, array size [])
register_field size len (some reg) =
    if ltb 0 len
    then (elim (read_at reg 0 (min len size)) [
      | none ↦ none
      | some copied ↦ some (min len size, array size copied)
    ])
    else some (len, array size [])

unfoldable pub encode_usb : UsbData → List ℕ
encode_usb u =
    zeroed_header type_response_get_usb_data usb_size
    ++ (u.is_usb
        ∷ (le_bytes 2 u.desc_len
            ++ (array 65536 u.descriptors
                ++ (le_bytes 2 u.id_vendor
                    ++ (le_bytes 2 u.id_product
                        ++ (array 256 u.manufacturer
                            ++ (array 256 u.product ++ array 256 u.serial)))))))

unfoldable pub encode_firewire : FireWireData → List ℕ
encode_firewire f =
    zeroed_header type_response_get_firewire_data firewire_size
    ++ (f.is_firewire
        ∷ (le_bytes 4 f.id_model
            ++ (le_bytes 4 f.id_vendor
                ++ (le_bytes 8 f.guid ++ (array 256 f.vendor ++ array 256 f.model)))))

unfoldable pub encode_pcmcia : PcmciaData → List ℕ
encode_pcmcia p =
    zeroed_header type_response_get_pcmcia_data pcmcia_size
    ++ (p.is_pcmcia ∷ (le_bytes 2 p.cis_len ++ array 65536 p.cis))

module _ {C D H : Type 0} (P : Platform C D H) where
  -- The answer to a list that is not empty. The first block only carries the count, and its
  -- `malloc` is not checked, nor is that of the answer.
  unfoldable pub send_devices : List DeviceInfo → M C D H (Unit {0})
  send_devices devices = do
    counted ← malloc P res_list_devs_size
    access counted
    let count = device_info_list_count devices
    let n = res_list_devs_size + count * device_info_size
    b ← malloc P n
    raw ← access b
    access
        (if leb (res_list_devs_size + length devices * device_info_size) n then some tt else none)
    net_write P
        (encode_res_list_devs (own_header type_response_list_devices n (take 2 (drop 14 raw))) count
          ++ encode_devices devices)
        n

  -- What is sent once the request was received: NULL is reported by a NOP packet.
  unfoldable pub answer_list : List DeviceInfo → M C D H (Unit {0})
  answer_list [] =
      send_nop P reason_error_list_devices (codes "Could not get device list, continuing...")
  answer_list (d ∷ ds) = send_devices (d ∷ ds)

  -- `case AARUREMOTE_PACKET_TYPE_COMMAND_LIST_DEVICES`
  unfoldable pub on_list_devices : M C D H (Unit {0})
  on_list_devices = do devices ← device P P.list_devices; with_packet P (λ _. answer_list devices)

  -- `case AARUREMOTE_PACKET_TYPE_COMMAND_GET_DEVTYPE`
  unfoldable pub on_get_devtype : M C D H (Unit {0})
  on_get_devtype = with_packet P λ _. with_block P 20 λ _. do
    s ← get
    t ← device P (λ d. P.get_device_type d s.device_ctx)
    net_write P (zeroed_header type_response_get_devtype 20 ++ le_bytes 4 t) 20

  -- `case AARUREMOTE_PACKET_TYPE_COMMAND_GET_SDHCI_REGISTERS`
  unfoldable pub on_get_sdhci_registers : M C D H (Unit {0})
  on_get_sdhci_registers = with_packet P λ _. with_block P sdhci_registers_size λ _. do
    s ← get
    r ← device P (λ d. P.get_sdhci_registers d s.device_ctx)
    csd ← access (register_field 16 r.csd_len r.csd)
    cid ← access (register_field 16 r.cid_len r.cid)
    ocr ← access (register_field 4 r.ocr_len r.ocr)
    scr ← access (register_field 8 r.scr_len r.scr)
    net_write P
        (zeroed_header type_response_get_sdhci_registers sdhci_registers_size
          ++ (r.is_sdhci % 256
              ∷ (csd.1
                  ++ (cid.1
                      ++ (ocr.1
                          ++ (scr.1
                              ++ (le_bytes 4 csd.0
                                  ++ (le_bytes 4 cid.0
                                      ++ (le_bytes 4 ocr.0 ++ le_bytes 4 scr.0)))))))))
        sdhci_registers_size

  -- `case AARUREMOTE_PACKET_TYPE_COMMAND_GET_USB_DATA`
  unfoldable pub on_get_usb_data : M C D H (Unit {0})
  on_get_usb_data = with_packet P λ _. with_block P usb_size λ _. do
    s ← get
    u ← device P (λ d. P.get_usb_data d s.device_ctx)
    net_write P (encode_usb u) usb_size

  -- `case AARUREMOTE_PACKET_TYPE_COMMAND_GET_FIREWIRE_DATA`
  unfoldable pub on_get_firewire_data : M C D H (Unit {0})
  on_get_firewire_data = with_packet P λ _. with_block P firewire_size λ _. do
    s ← get
    f ← device P (λ d. P.get_firewire_data d s.device_ctx)
    net_write P (encode_firewire f) firewire_size

  -- `case AARUREMOTE_PACKET_TYPE_COMMAND_GET_PCMCIA_DATA`
  unfoldable pub on_get_pcmcia_data : M C D H (Unit {0})
  on_get_pcmcia_data = with_packet P λ _. with_block P pcmcia_size λ _. do
    s ← get
    p ← device P (λ d. P.get_pcmcia_data d s.device_ctx)
    net_write P (encode_pcmcia p) pcmcia_size

  -- `case AARUREMOTE_PACKET_TYPE_COMMAND_AM_I_ROOT`
  unfoldable pub on_am_i_root : M C D H (Unit {0})
  on_am_i_root = with_packet P λ _. with_block P 20 λ _. do
    r ← device P P.am_i_root
    net_write P (zeroed_header type_response_am_i_root 20 ++ le_bytes 4 r) 20
