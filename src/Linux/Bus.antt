-- ===== src/Linux/Bus.antt =====
-- linux/usb.c, linux/ieee1394.c and linux/pcmcia.c: what a device's bus says of it, in sysfs.
pub mod Bounds
use aaruremote.Common.{
  ℕ, suc, ◌+◌, ◌%◌, ◌^◌, Bool, true, false, ◌&&◌, not, Option, none, some, List, [], ◌∷◌, ◌++◌,
  take, length, ◌==◌, if◌then◌else◌,
}
use aaruremote.Common.Bytes.{codes}
use aaruremote.Common.Text.{contains}
use aaruremote.Worker.Platform.{UsbData, FireWireData, PcmciaData}
use aaruremote.Linux.Sysfs.{
  Files, child, fread_one, scan_hex, Visit, go_on, leave, walk_up, block_directory,
}

-- A file that is read if `access` and `fopen` succeed.
abbrev pub readable_file : Files → List ℕ → Option (List ℕ)
readable_file files path = if files.readable path then files.open_file path else none

-- The number in a file; what the variable held, 0, if there is none.
abbrev pub hex_file : Files → ℕ → ℕ → List ℕ → ℕ
hex_file files bits width path = elim (readable_file files path) [
  | none ↦ 0
  | some content ↦ elim (scan_hex bits width content) [ none ↦ 0 | some v ↦ v ]
]

-- The bytes that `fread(buffer, 256, 1, file)` stores of a file.
abbrev pub text_file : Files → List ℕ → List ℕ
text_file files path = elim (readable_file files path) [
  | none ↦ []
  | some content ↦ (fread_one 256 content).0
]

-- The outputs of GetUsbData before the loop.
abbrev pub no_usb : ℕ → UsbData
no_usb is_usb = record {
  is_usb = is_usb;
  desc_len = 0;
  descriptors = [];
  id_vendor = 0;
  id_product = 0;
  manufacturer = [];
  product = [];
  serial = [];
}

-- One round of the loop in GetUsbData; `return *desc_len != 0` follows it.
unfoldable pub usb_round : Files → List ℕ → Visit UsbData
usb_round files dir =
    if files.readable (child dir (codes "descriptors"))
      && (files.readable (child dir (codes "idProduct"))
          && files.readable (child dir (codes "idVendor")))
    then elim (files.open_file (child dir (codes "descriptors"))) [
      | none ↦ leave (no_usb 0)
      | some content ↦
          let (descriptors, desc_len) = fread_one 4096 content in
          leave (record {
            is_usb = if desc_len == 0 then 0 else 1;
            desc_len = desc_len;
            descriptors = descriptors;
            id_vendor = hex_file files 16 4 (child dir (codes "idVendor"));
            id_product = hex_file files 16 4 (child dir (codes "idProduct"));
            manufacturer = text_file files (child dir (codes "manufacturer"));
            product = text_file files (child dir (codes "product"));
            serial = text_file files (child dir (codes "serial"));
          })
    ]
    else go_on

-- `GetUsbData` for the path of the open device; with none, -1 as a byte.
unfoldable pub get_usb_data : Files → Option (List ℕ) → Option UsbData
get_usb_data files none = some (no_usb 255)
get_usb_data files (some device_path) = elim (block_directory files device_path) [
  | none ↦ some (no_usb 0)
  | some dir ↦ walk_up (contains (codes "usb")) (usb_round files) (no_usb 0) (suc (length dir)) dir
]

abbrev pub no_firewire : FireWireData
no_firewire = record {
  is_firewire = 0;
  id_model = 0;
  id_vendor = 0;
  guid = 0;
  vendor = [];
  model = [];
}

-- One round of the loop in GetFireWireData.
unfoldable pub firewire_round : Files → List ℕ → Visit FireWireData
firewire_round files dir =
    if files.readable (child dir (codes "model"))
      && (files.readable (child dir (codes "vendor")) && files.readable (child dir (codes "guid")))
    then leave (record {
      is_firewire = 1;
      id_model = hex_file files 32 8 (child dir (codes "model"));
      id_vendor = hex_file files 32 8 (child dir (codes "vendor"));
      guid = hex_file files 64 16 (child dir (codes "guid"));
      vendor = text_file files (child dir (codes "vendor_name"));
      model = text_file files (child dir (codes "model_name"));
    })
    else go_on

-- `GetFireWireData`
unfoldable pub get_firewire_data : Files → Option (List ℕ) → Option FireWireData
get_firewire_data files none = some no_firewire
get_firewire_data files (some device_path) = elim (block_directory files device_path) [
  | none ↦ some no_firewire
  | some dir ↦
      walk_up (contains (codes "firewire")) (firewire_round files) no_firewire (suc (length dir))
        dir
]

abbrev pub no_pcmcia : PcmciaData
no_pcmcia = record { is_pcmcia = 0; cis_len = 0; cis = [] }

-- The loop over `readdir`: the first entry that is a directory.
unfoldable pub first_directory : List (List ℕ × Bool) → Option (List ℕ)
first_directory [] = none
first_directory ((name, is_dir) ∷ entries) =
    let rest = first_directory entries in if is_dir then some name else rest

-- The end of a round in GetPcmciaData, from the entry on.
unfoldable pub pcmcia_card : Files → List ℕ → List ℕ → Visit PcmciaData
pcmcia_card files dir name =
    let cis_path = child dir (codes "pcmcia_socket/" ++ (name ++ codes "/cis")) in
    if files.readable cis_path
    then elim (files.open_file cis_path) [
      | none ↦ leave no_pcmcia
      | some content ↦
          let (cis, cis_len) = fread_one 65536 content in
          leave (record { is_pcmcia = 1; cis_len = cis_len; cis = cis })
    ]
    else go_on

-- One round of the loop in GetPcmciaData.
unfoldable pub pcmcia_round : Files → List ℕ → Visit PcmciaData
pcmcia_round files dir =
    let socket = child dir (codes "pcmcia_socket") in
    if files.readable socket
    then elim (files.open_directory socket) [
      | none ↦ go_on
      | some entries ↦ elim (first_directory entries) [
        | none ↦ go_on
        | some name ↦ pcmcia_card files dir name
      ]
    ]
    else go_on

-- `GetPcmciaData`
unfoldable pub get_pcmcia_data : Files → Option (List ℕ) → Option PcmciaData
get_pcmcia_data files none = some no_pcmcia
get_pcmcia_data files (some device_path) = elim (block_directory files device_path) [
  | none ↦ some no_pcmcia
  | some dir ↦
      walk_up (contains (codes "/sys/devices")) (pcmcia_round files) no_pcmcia (suc (length dir))
        dir
]
