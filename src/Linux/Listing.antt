-- ===== src/Linux/Listing.antt =====
-- linux/list_devices.c: ListDevices without udev. A field is a text without its NUL: lines of 256
-- characters and more, which leave a field without one, and link targets of 1024 and more are not
-- modelled.
pub mod Buses
use aaruremote.Common.{
  ℕ, ◌-◌, ◌+◌, not, Bool, true, false, ◌&&◌, ◌||◌, Option, none, some, List, [], ◌∷◌, ◌++◌, take,
  drop, length, leb, ltb, ◌==◌, if◌then◌else◌,
}
use aaruremote.Common.Bytes.{codes}
use aaruremote.Common.Text.{starts_with, contains, before_first, after_last}
use aaruremote.Protocol.Structs.{DeviceInfo}
use aaruremote.Linux.Sysfs.{Files, path_4096}
use aaruremote.Linux.Sdhci.{first_line}
use aaruremote.Linux.DeviceType.{
  device_type_ata, device_type_atapi, device_type_scsi, device_type_secure_digital, device_type_mmc,
  device_type_nvme, get_device_type,
}

-- `snprintf(text, 1024, …)`
abbrev path_1024 : List ℕ → List ℕ
path_1024 text = take 1023 text

abbrev block_path : List ℕ → List ℕ → List ℕ
block_path name rest = path_1024 (codes "/sys/block/" ++ (name ++ rest))

-- The host in the target of a `device` link: what stands between the first `:` and the last `/` in
-- front of it. The walk back stops at the first character without looking at it, and then has left
-- the last one out. `none` is a walk from in front of the text, or from NULL.
unfoldable pub link_host : List ℕ → Option (List ℕ)
link_host link = elim (before_first b':' link) [
  | none ↦ none
  | some [] ↦ none
  | some (c ∷ cs) ↦ elim (after_last b'/' cs) [
    | some host ↦ some host
    | none ↦ some (take (length cs) (c ∷ cs))
  ]
]

-- The bus by the driver of the host.
unfoldable pub driver_bus : Option (List ℕ) → List ℕ
unfolding codes
driver_bus none = codes "SCSI"
driver_bus (some line) =
    if starts_with (codes "sbp2") line
    then codes "FireWire"
    else if starts_with (codes "usb-storage") line
    then codes "USB"
    else codes "SCSI"

-- The bus of a SCSI device, by its `device` link. The -1 of a `readlink` that fails is kept as an
-- unsigned number, so the empty text is searched and a pointer is taken from NULL: `none`.
unfoldable pub scsi_bus : Files → Option (List ℕ) → Option (List ℕ)
unfolding link_host driver_bus
scsi_bus files none = none
scsi_bus files (some []) = some (codes "SCSI")
scsi_bus files (some (c ∷ cs)) = elim (link_host (c ∷ cs)) [
  | none ↦ none
  | some host ↦ some (
      driver_bus (
        files.open_file
          (path_1024 (codes "/sys/class/scsi_host/host" ++ (host ++ codes "/proc_name")))))
]

-- The switch over the type of the device.
unfoldable pub type_bus : Files → List ℕ → ℕ → Option (List ℕ)
unfolding scsi_bus
type_bus files name t =
    if t == device_type_ata
    then some (codes "ATA")
    else if t == device_type_atapi
    then some (codes "ATAPI")
    else if t == device_type_mmc || t == device_type_secure_digital
    then some (codes "MMC/SD")
    else if t == device_type_nvme
    then some (codes "NVMe")
    else if t == device_type_scsi
    then scsi_bus files (files.readlink (block_path name (codes "/device")))
    else some []

unfoldable pub sysfs_bus : Files → List ℕ → Option (List ℕ)
unfolding type_bus
sysfs_bus files name =
    if contains (codes "loop") name
    then some []
    else type_bus files name (get_device_type files (path_4096 (codes "/dev/" ++ name)))

-- The loop from the last of the 256 characters: line ends and spaces at the end go.
unfoldable pub trim_end : List ℕ → List ℕ
trim_end [] = []
trim_end (c ∷ cs) =
    let rest = trim_end cs in
    elim rest [ [] ↦ if c == 10 || (c == 13 || c == 32) then [] else c ∷ [] | d ∷ ds ↦ c ∷ d ∷ ds ]

-- A text of the device in sysfs, or else `other`. At the end of the file `getline` leaves the line
-- empty.
unfoldable pub sysfs_text : Files → List ℕ → List ℕ → List ℕ → List ℕ
unfolding trim_end first_line
sysfs_text files name file other =
    let path = block_path name file in
    if files.readable path
    then elim (files.open_file path) [
      | none ↦ []
      | some content ↦ trim_end (take 256 (first_line content))
    ]
    else other

-- `Linux` for a loop device.
unfoldable pub loop_text : List ℕ → List ℕ
loop_text name = if starts_with (codes "loop") name then codes "Linux" else []

-- Where the vendor is unknown or ATA, it is the model's first word.
unfoldable pub split_model : List ℕ → List ℕ → List ℕ × List ℕ
split_model vendor model =
    if length vendor == 0 || starts_with (codes "ATA") vendor
    then elim (before_first b' ' model) [
      | none ↦ (vendor, model)
      | some word ↦ (word, drop (length word + 1) model)
    ]
    else (vendor, model)

-- `toupper`
unfoldable pub upper : ℕ → ℕ
upper c = if leb b'a' c && leb c b'z' then c - 32 else c

unfoldable pub upper_text : List ℕ → List ℕ
unfolding upper
upper_text [] = []
upper_text (c ∷ cs) = upper c ∷ upper_text cs

-- The bus as it is listed: by the name where it is not known, else in capitals.
unfoldable pub final_bus : List ℕ → List ℕ → List ℕ
unfolding upper_text codes
final_bus name [] =
    if starts_with (codes "loop") name
    then codes "loop"
    else if starts_with (codes "nvme") name
    then codes "NVMe"
    else if starts_with (codes "mmc") name
    then codes "MMC/SD"
    else []
final_bus name (c ∷ cs) = upper_text (c ∷ cs)

-- `supported`, from the listed bus.
unfoldable pub bus_supported : List ℕ → ℕ
unfolding codes
bus_supported bus =
    if starts_with (codes "ATA") bus
      || (starts_with (codes "ATAPI") bus
          || (starts_with (codes "SCSI") bus
              || (starts_with (codes "USB") bus
                  || (starts_with (codes "PCMCIA") bus
                      || (starts_with (codes "FireWire") bus
                          || starts_with (codes "MMC/SD") bus)))))
    then 1
    else 0

-- One entry of the list, from its bus.
unfoldable pub describe : Files → List ℕ → List ℕ → DeviceInfo
unfolding sysfs_text loop_text split_model final_bus bus_supported
describe files name raw_bus =
    let vendor = sysfs_text files name (codes "/device/vendor") (loop_text name) in
    let model = sysfs_text files name (codes "/device/model") (loop_text name) in
    let (vendor', model') = split_model vendor model in
    let bus = final_bus name raw_bus in
    record {
      path = path_1024 (codes "/dev/" ++ name);
      vendor = vendor';
      model = model';
      serial = sysfs_text files name (codes "/device/serial") [];
      bus = bus;
      supported = bus_supported bus;
    }

-- One entry of the list; `none` is an access outside a text.
unfoldable pub device_entry : Files → List ℕ → Option DeviceInfo
unfolding sysfs_bus describe
device_entry files name = elim (sysfs_bus files name) [
  | none ↦ none
  | some raw_bus ↦ some (describe files name raw_bus)
]

-- `d_name[0] == '.'`
unfoldable pub is_hidden : List ℕ → Bool
is_hidden [] = false
is_hidden (c ∷ cs) = c == b'.'

-- The loop over `readdir`; the flag of an entry says whether it is a directory or a link.
unfoldable pub list_entries : Files → List (List ℕ × Bool) → Option (List DeviceInfo)
unfolding device_entry is_hidden
list_entries files [] = some []
list_entries files ((name, is_dir_or_link) ∷ entries) =
    let rest = list_entries files entries in
    if not is_dir_or_link || is_hidden name then rest else elim (device_entry files name) [
      | none ↦ none
      | some d ↦ elim rest [ none ↦ none | some ds ↦ some (d ∷ ds) ]
    ]

-- `ListDevices`; the empty list is NULL.
unfoldable pub list_devices : Files → Option (List DeviceInfo)
unfolding list_entries
list_devices files = elim (files.open_directory (codes "/sys/block")) [
  | none ↦ some []
  | some entries ↦ list_entries files entries
]
