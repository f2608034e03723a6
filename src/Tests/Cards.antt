-- ===== src/Tests/Cards.antt =====
-- A file system with a card, a disk on FireWire and one on USB, and what the Linux functions make
-- of it.
use aaruremote.Common.{
  ℕ, ◌^◌, ◌≤◌, ◌<◌, ◌≡◌, refl, ap, Bool, true, Option, none, some, List, [], ◌∷◌, ◌++◌, map, length,
  drop, arith, Returns, All, replicate, subst,
}
use aaruremote.Common.Bytes.{codes, overwrite}
use aaruremote.Common.Text.{starts_with, before_first}
use aaruremote.Worker.Platform.{SdhciCall, MmcSingleCommand, UsbData}
use aaruremote.Linux.Sysfs.{Files}
use aaruremote.Linux.Bus.{get_usb_data}
use aaruremote.Linux.Bus.Bounds.{get_usb_data_ends}
use aaruremote.Linux.DeviceType.{get_device_type}
use aaruremote.Linux.Sdhci.{MmcIocCmd, MmcReply, mmc_error, first_line, get_sdhci_registers}
use aaruremote.Linux.Sdhci.Text.{IsShortLine, OfLines, get_sdhci_registers-OfLines}
use aaruremote.Linux.Listing.{sysfs_bus, is_hidden, list_devices}
use aaruremote.Linux.Listing.Buses.{listed, device_path, list_devices-listed}
use aaruremote.Hello.{Utsname}

-- Every file is there and is the line `ab`, every link leads to a USB device.
abbrev files : Files
unfolding codes
files = record {
  readable = λ path. true;
  present = λ path. true;
  is_directory = λ path. true;
  readlink = λ path. some (codes "../devices/usb1/1-1/host2/target2:0:0/2:0:0:0/block/sda");
  open_file = λ path. some (codes "ab" ++ 10 ∷ []);
  open_directory =
      λ path. some ((codes "sda", true) ∷ (codes ".", true) ∷ (codes "mmcblk0", true) ∷ []);
}

get_usb_data_ends_example :
    (u : UsbData) × (get_usb_data files (some (codes "/dev/sda")) ≡ some u) × (u.desc_len ≤ 1)
get_usb_data_ends_example = get_usb_data_ends files (some (codes "/dev/sda"))

-- An ioctl that fails with EIO.
abbrev broken :
    Unit {0} → ℕ → MmcIocCmd (Option (List ℕ)) → MmcReply (Option (List ℕ)) (List ℕ) × Unit {0}
broken d ctx q =
    (record { ret = none; errno = 5; data_ptr = q.data_ptr; response = 0 ∷ 0 ∷ 0 ∷ 0 ∷ [] }, d)

abbrev read_block : SdhciCall
read_block = record {
  command = 17;
  write = 0;
  application = 0;
  flags = 0xB5;
  argument = 0;
  block_size = 2;
  blocks = 1;
  buffer = some (0 ∷ 0 ∷ []);
  buf_len = 2;
  timeout = 5;
}

broken_error :
    (d : Unit {0}) (ctx : ℕ) (q : MmcIocCmd (Option (List ℕ)))
    → mmc_error (broken d ctx q).0 < 2 ^ 31
unfolding mmc_error
broken_error d ctx q = omega arith

abbrev first_command : MmcSingleCommand
first_command = record {
  argument = 0;
  blocks = 1;
  block_size = 512;
  buf_len = 2;
  buffer = 40;
  command = 17;
  flags = 0;
  application = 0;
  response = [];
  write = 0;
}

-- What malloc leaves in tmp_string: zeros.
abbrev raw_block : List ℕ
raw_block = replicate 1024 0

card_name :
    before_first 0 (overwrite raw_block (drop 5 (codes "/dev/mmcblk0"))) ≡ some (codes "mmcblk0")
unfolding codes
card_name = refl

card_short : length (codes "/dev/mmcblk0") ≤ 1029
unfolding codes
card_short = omega arith

is_card : starts_with (codes "/dev/mmcblk") (codes "/dev/mmcblk0") ≡ true
unfolding codes
is_card = refl

abbrev content_of : Option (List ℕ) → List ℕ
content_of none = []
content_of (some c) = c

files-OfLines : OfLines files
unfolding codes first_line
files-OfLines path content e =
    let shown : codes "ab" ++ 10 ∷ [] ≡ content = ap content_of e in
    subst IsShortLine shown (codes "ab", refl, refl, omega arith)

get_sdhci_registers-OfLines_example :
    Returns
      (λ r. (r.is_sdhci ≡ 1) × (r.csd ≡ none) × (r.cid ≡ none) × (r.ocr ≡ none) × (r.scr ≡ none))
      (get_sdhci_registers (some raw_block) files (some (codes "/dev/mmcblk0")))
get_sdhci_registers-OfLines_example =
    get_sdhci_registers-OfLines raw_block files (codes "/dev/mmcblk0") (codes "mmcblk0")
      files-OfLines is_card card_short card_name

abbrev this_host : Utsname
this_host = record { sysname = codes "Linux"; release = codes "6.1"; machine = codes "x86_64" }

-- A disk on FireWire.
abbrev firewire_files : Files
unfolding codes
firewire_files = record files {
  readlink = λ path. some (codes "../../../2:0:0:0");
  open_file = λ path. some (codes "sbp2" ++ 10 ∷ []);
}

firewire_bus : sysfs_bus firewire_files (codes "sda") ≡ some (codes "FireWire")
unfolding codes sysfs_bus get_device_type
firewire_bus = refl

abbrev entries : List (List ℕ × Bool)
entries = (codes "sda", true) ∷ (codes ".", true) ∷ (codes "mmcblk0", true) ∷ []

card_bus : sysfs_bus firewire_files (codes "mmcblk0") ≡ some (codes "MMC/SD")
unfolding codes sysfs_bus get_device_type
card_bus = refl

buses_known :
    All (λ name. (bus : List ℕ) × (sysfs_bus firewire_files name ≡ some bus)) (listed entries)
unfolding is_hidden codes
buses_known = ((codes "FireWire", firewire_bus), ((codes "MMC/SD", card_bus), tt))

list_devices-listed_example :
    Returns
      (λ ds. map (λ d. d.path) ds ≡ map device_path (listed entries))
      (list_devices firewire_files)
unfolding firewire_files
list_devices-listed_example = list_devices-listed firewire_files entries refl buses_known
