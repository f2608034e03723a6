-- ===== src/Win32/Listing.antt =====
-- win32/list_devices.c: ListDevices over the names of QueryDosDevice and the answers to
-- IOCTL_STORAGE_QUERY_PROPERTY. A text is without its NUL, and of at most 255 characters in a field;
-- the chain of `next` pointers is the list itself.
pub mod Models
use aaruremote.Common.{
  ℕ, suc, get_or, ◌-◌, Bool, true, false, not, ◌&&◌, ◌||◌, Option, none, some, List, [], ◌∷◌, ◌++◌,
  take, drop, length, ltb, leb, ◌==◌, if◌then◌else◌,
}
use aaruremote.Common.Bytes.{codes}
use aaruremote.Common.Text.{starts_with, before_first}
use aaruremote.Protocol.Structs.{DeviceInfo}

-- The fields of STORAGE_DEVICE_DESCRIPTOR that are read; a text is `none` where its offset is 0.
pub record StorageDescriptor : Type 0 where
  pub bus_type : ℕ
  pub vendor_id : Option (List ℕ)
  pub product_id : Option (List ℕ)
  pub serial_number : Option (List ℕ)

-- A name, whether its device can be opened, what the request gives or its GetLastError, and whether
-- there is room for the node and for the copy of the model.
pub record DosDevice : Type 0 where
  pub name : List ℕ
  pub opens : Bool
  pub descriptor : Option StorageDescriptor
  pub last_error : ℕ
  pub node_room : Bool
  pub copy_room : Bool

unfoldable pub is_storage_name : List ℕ → Bool
unfolding codes
is_storage_name name =
    starts_with (codes "PhysicalDrive") name
    || (starts_with (codes "CdRom") name || starts_with (codes "Tape") name)

-- The names of the bus types from 1 on, in the order of their numbers.
unfoldable pub bus_names : List (List ℕ)
unfolding codes
bus_names =
    codes "SCSI"
    ∷ codes "ATAPI"
    ∷ codes "ATA"
    ∷ codes "FireWire"
    ∷ codes "SSA"
    ∷ codes "Fibre"
    ∷ codes "USB"
    ∷ codes "RAID"
    ∷ codes "iSCSI"
    ∷ codes "SAS"
    ∷ codes "SATA"
    ∷ codes "SecureDigital"
    ∷ codes "MultiMediaCard"
    ∷ codes "Virtual"
    ∷ codes "FileBackedVirtual"
    ∷ codes "Spaces"
    ∷ codes "NVMe"
    ∷ codes "SCM"
    ∷ codes "UFS"
    ∷ []

-- The switch over the bus type for the name; the default copies four characters.
unfoldable pub bus_name : ℕ → List ℕ
unfolding codes bus_names
bus_name bus_type =
    if bus_type == 0
    then take 4 (codes "Unknown")
    else get_or bus_names (bus_type - 1) (take 4 (codes "Unknown"))

-- The switch for `supported`.
unfoldable pub is_supported_bus : ℕ → ℕ
is_supported_bus bus_type =
    if (leb 1 bus_type && leb bus_type 7) || (leb 9 bus_type && leb bus_type 13) then 1 else 0

abbrev field : Option (List ℕ) → List ℕ
field none = []
field (some text) = take 256 text

-- The vendor and the model, of which the vendor is the first word when there is none or it is ATA.
unfoldable pub split_model : Bool → List ℕ → List ℕ → List ℕ × List ℕ
unfolding codes
split_model room vendor model =
    if (length vendor == 0 || starts_with (codes "ATA") vendor) && ltb 0 (length model) && room
    then elim (before_first 32 model) [
      | none ↦ (vendor, model)
      | some first ↦ (first, take (256 - length first) (drop (suc (length first)) model))
    ]
    else (vendor, model)

unfoldable pub device_of : DosDevice → StorageDescriptor → DeviceInfo
unfolding bus_name is_supported_bus split_model codes
device_of d s =
    let names = split_model d.copy_room (field s.vendor_id) (field s.product_id) in
    record {
      path = take 1024 (codes "\\\\.\\" ++ d.name);
      vendor = names.0;
      model = names.1;
      serial = field s.serial_number;
      bus = bus_name s.bus_type;
      supported = is_supported_bus s.bus_type;
    }

-- What is behind a request that fails without an error number: the cleared buffer.
unfoldable pub answered : DosDevice → Option StorageDescriptor
answered d = elim d.descriptor [
  | some s ↦ some s
  | none ↦
      if d.last_error == 0
      then some (record { bus_type = 0; vendor_id = none; product_id = none; serial_number = none })
      else none
]

-- The loop over the names; a node without room is written to before it is tested.
unfoldable pub list_names : List DosDevice → Option (List DeviceInfo)
unfolding device_of answered is_storage_name
list_names [] = some []
list_names (d ∷ ds) =
    let rest = list_names ds in
    if is_storage_name d.name && d.opens
    then elim (answered d) [
      | none ↦ rest
      | some s ↦
          if d.node_room
          then elim rest [ none ↦ none | some infos ↦ some (device_of d s ∷ infos) ]
          else none
    ]
    else rest

-- ListDevices, with whether there is room for the buffer and for the names.
unfoldable pub dos_list_devices : Bool → Bool → List DosDevice → Option (List DeviceInfo)
unfolding list_names
dos_list_devices buffer_room names_room ds =
    if buffer_room && names_room then list_names ds else some []
