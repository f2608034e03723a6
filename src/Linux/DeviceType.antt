-- ===== src/Linux/DeviceType.antt =====
-- linux/device.c: GetDeviceType, with udev and without it. A type is a 32-bit pattern.
use aaruremote.Common.{
  ℕ, ◌-◌, ◌^◌, Bool, ◌&&◌, ◌||◌, Option, none, some, List, [], ◌∷◌, ◌++◌, take, drop, length, leb,
  ◌==◌, if◌then◌else◌, ◌>>=◌,
}
use aaruremote.Common.Bytes.{codes}
use aaruremote.Common.Text.{starts_with, contains, before_first, after_last}
use aaruremote.Linux.Sysfs.{Files, path_4096}

abbrev pub device_type_unknown : ℕ
device_type_unknown = 2 ^ 32 - 1

abbrev pub device_type_ata : ℕ
device_type_ata = 1

abbrev pub device_type_atapi : ℕ
device_type_atapi = 2

abbrev pub device_type_scsi : ℕ
device_type_scsi = 3

abbrev pub device_type_secure_digital : ℕ
device_type_secure_digital = 4

abbrev pub device_type_mmc : ℕ
device_type_mmc = 5

abbrev pub device_type_nvme : ℕ
device_type_nvme = 6

-- `"/sys/block/%s/device/scr"`
unfoldable pub scr_path : List ℕ → List ℕ
scr_path name = codes "/sys/block/" ++ (name ++ codes "/device/scr")

-- The host of the device, from the target of its `device` link: what is in front of the first `.`,
-- or else of the first `:`, of the last name.
unfoldable pub host_of : List ℕ → Option (List ℕ)
host_of link =
    let name : List ℕ = elim (after_last b'/' link) [ none ↦ link | some n ↦ n ] in
    elim (before_first b'.' name) [ none ↦ before_first b':' name | some host ↦ some host ]

-- `"/sys/class/%s/host%s"`
unfoldable pub host_path : List ℕ → List ℕ → List ℕ
host_path kind host = path_4096 (codes "/sys/class/" ++ (kind ++ (codes "/host" ++ host)))

-- The driver of a host that is one of ATA.
unfoldable pub is_ata_driver : List ℕ → Bool
is_ata_driver line =
    starts_with (codes "ata") line
    || (starts_with (codes "sata") line || starts_with (codes "ahci") line)

-- The removable flag of the device tells ATAPI from ATA.
unfoldable pub ata_type : Files → List ℕ → ℕ
ata_type files name =
    elim (files.open_file (path_4096 (codes "/sys/block/" ++ (name ++ codes "/removable")))) [
      | none ↦ device_type_ata
      | some [] ↦ device_type_ata
      | some (c ∷ cs) ↦ if c == b'1' then device_type_atapi else device_type_ata
    ]

-- A host of the SCSI layer, by its driver. `getline` fails on an empty file.
unfoldable pub host_type : Files → List ℕ → List ℕ → ℕ
unfolding is_ata_driver ata_type
host_type files name host =
    let path = path_4096 (codes "/sys/class/scsi_host/host" ++ (host ++ codes "/proc_name")) in
    if files.present path
    then elim (files.open_file path) [
      | none ↦ device_type_scsi
      | some content ↦ if is_ata_driver content then ata_type files name else device_type_scsi
    ]
    else device_type_scsi

-- From the target of the `device` link on.
unfoldable pub link_type : Files → List ℕ → List ℕ → ℕ
unfolding host_of host_path host_type
link_type files name link = elim (host_of link) [
  | none ↦ device_type_unknown
  | some host ↦
      if files.present (host_path (codes "spi_host") host)
        || (files.present (host_path (codes "fc_host") host)
            || (files.present (host_path (codes "sas_host") host)
                || files.present (host_path (codes "iscsi_host") host)))
      then device_type_scsi
      else if files.present (host_path (codes "scsi_host") host)
      then host_type files name host
      else device_type_unknown
]

-- `GetDeviceType` without udev, for the path of the context.
unfoldable pub get_device_type : Files → List ℕ → ℕ
unfolding link_type scr_path
get_device_type files device_path =
    let name = drop 5 device_path in
    if leb (length device_path) 5
    then device_type_unknown
    else if contains (codes "nvme") device_path
    then device_type_nvme
    else if contains (codes "mmcblk") device_path
    then (if files.present (path_4096 (scr_path name))
        then device_type_secure_digital
        else device_type_mmc)
    else elim (files.readlink (path_4096 (codes "/sys/block/" ++ (name ++ codes "/device")))) [
      | none ↦ device_type_unknown
      | some [] ↦ device_type_unknown
      | some (c ∷ cs) ↦ link_type files name (c ∷ cs)
    ]

-- The properties of a block device, by its name and the property's.
abbrev pub Udev : Type 0
Udev = List ℕ → Option (List ℕ → Option (List ℕ))

-- `free((void*)tmp_string)` of a property's text. It belongs to udev and is no block of malloc's:
-- undefined behaviour.
abbrev pub free_property : Option (Unit {0})
free_property = none

-- The type by the ID_TYPE of a device on an ATA bus, and of one on a SCSI bus.
unfoldable pub udev_ata : Option (List ℕ) → Option ℕ
udev_ata none = some device_type_ata
udev_ata (some t) = do
  freed ← free_property
  some (if starts_with (codes "cd") t then device_type_atapi else device_type_ata)

unfoldable pub udev_scsi : Option (List ℕ) → Option ℕ
udev_scsi none = some device_type_unknown
udev_scsi (some t) = do
  freed ← free_property
  some (
      if starts_with (codes "cd") t
        || (starts_with (codes "disk") t || starts_with (codes "optical") t)
      then device_type_scsi
      else device_type_unknown)

-- The type by ID_BUS, with whether malloc has the 1024 bytes for the path of the SCR.
unfoldable pub udev_bus : Bool → Files → List ℕ → (List ℕ → Option (List ℕ)) → List ℕ → Option ℕ
unfolding scr_path udev_ata udev_scsi
udev_bus room files name property bus =
    if starts_with (codes "ata") bus
    then (do freed ← free_property; udev_ata (property (codes "ID_TYPE")))
    else if starts_with (codes "mmc") bus
    then (do
      freed ← free_property
      some (
          if room && files.readable (take 1023 (scr_path name))
          then device_type_secure_digital
          else device_type_mmc))
    else if starts_with (codes "scsi") bus
        || (starts_with (codes "ieee1394") bus || starts_with (codes "usb") bus)
    then (do freed ← free_property; udev_scsi (property (codes "ID_TYPE")))
    else if starts_with (codes "nvme") bus
    then (do freed ← free_property; some device_type_nvme)
    else some device_type_unknown

-- `GetDeviceType` with a udev, for the path of the context; `none` is undefined behaviour.
unfoldable pub get_device_type_udev : Udev → Bool → Files → List ℕ → Option ℕ
unfolding udev_bus
get_device_type_udev udev room files device_path = elim (after_last b'/' device_path) [
  | none ↦ some device_type_unknown
  | some name ↦ elim (udev name) [
    | none ↦ some device_type_unknown
    | some property ↦ elim (property (codes "ID_BUS")) [
      | none ↦ some device_type_unknown
      | some bus ↦ udev_bus room files name property bus
    ]
  ]
]
