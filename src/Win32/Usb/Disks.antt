-- ===== src/Win32/Usb/Disks.antt =====
-- win32/usb.c: from the path of a device to its place in the tree, and GetUsbData. A path that is
-- changed is a result.
pub mod Answers
use aaruremote.Common.{
  ℕ, zero, suc, ◌+◌, ◌-◌, ◌*◌, ◌%◌, ◌^◌, Bool, true, false, ◌&&◌, Option, none, some, List, [], ◌∷◌,
  take, length, ltb, ◌==◌, if◌then◌else◌,
}
use aaruremote.Common.Bytes.{codes}
use aaruremote.Common.Text.{starts_with}
use aaruremote.Worker.Platform.{UsbData}
use aaruremote.Common.{◌>>=◌}
use aaruremote.Win32.Usb.{
  UsbDevice, UsbDeviceDescriptor, InterfaceDetail, InterfaceClass, UsbSystem, instance_block,
  detail_block, guids_block, floppy, cdrom, disk, tape,
}
use aaruremote.Win32.Usb.Tree.{find_device_by_instance_id}

-- GetDeviceNumberWithHandle
unfoldable pub get_device_number_with_handle : UsbSystem → List ℕ → ℕ
get_device_number_with_handle m path = elim (m.storage_device_number path) [
  | none ↦ 2 ^ 32 - 1
  | some (device_type, device_number) ↦ (device_type * 256 + device_number) % 2 ^ 32
]

-- The path without a backslash at its end; `none` for the empty path, whose last character is
-- outside of it.
unfoldable pub trimmed : List ℕ → Option (List ℕ)
trimmed [] = none
trimmed (c ∷ []) = some (if c == 92 then [] else c ∷ [])
trimmed (c ∷ (d ∷ cs)) = do rest ← trimmed (d ∷ cs); some (c ∷ rest)

unfoldable pub get_device_number : UsbSystem → List ℕ → Option (ℕ × List ℕ)
unfolding trimmed get_device_number_with_handle
get_device_number m device_path = do
  path ← trimmed device_path
  some ((if m.opens_for_query path then get_device_number_with_handle m path else 2 ^ 32 - 1), path)

-- The instance identifier behind the loop of FindDeviceNumber: that of the parent of the last
-- interface whose device has the number.
unfoldable pub instance_of :
    UsbSystem → ℕ → List ℕ → List (Option InterfaceDetail) → Option (List ℕ)
unfolding get_device_number
instance_of m dev_num id [] = some id
instance_of m dev_num id (none ∷ ds) =
    if m.room detail_block then instance_of m dev_num id ds else none
instance_of m dev_num id (some d ∷ ds) =
    if m.room detail_block
    then (do
      (number, path) ← get_device_number m d.device_path
      instance_of m dev_num (if number == dev_num then d.parent_id else id) ds)
    else none

-- `memset` on the result of an allocation.
abbrev cleared : Bool → Option (List ℕ)
cleared true = some []
cleared false = none

-- FindDeviceNumber, with its test of the allocation, which leaves when there is a block.
unfoldable pub find_device_number : UsbSystem → ℕ → ℕ → InterfaceClass → Option (Option UsbDevice)
unfolding instance_of find_device_by_instance_id codes
find_device_number m fuel dev_num class = if m.room instance_block then some none else (do
  empty ← cleared (m.room instance_block)
  id ← elim (m.interfaces class) [ none ↦ some empty | some ds ↦ instance_of m dev_num empty ds ]
  (if ltb 0 (length id) && starts_with (codes "USB") id
      then find_device_by_instance_id m fuel id
      else some none))

-- FindDrivePath: a device number is unsigned and so never below 0.
unfoldable pub find_drive_path :
    UsbSystem → ℕ → List ℕ → InterfaceClass → Option (Option UsbDevice × List ℕ)
unfolding get_device_number find_device_number
find_drive_path m fuel device_path class = do
  (dev_num, path) ← get_device_number m device_path
  device ← find_device_number m fuel dev_num class
  some (device, path)

-- The loop of GetUsbData over the classes.
unfoldable pub find_in_classes :
    UsbSystem → ℕ → List ℕ → List InterfaceClass → Option (Option UsbDevice × List ℕ)
unfolding find_drive_path
find_in_classes m fuel device_path [] = some (none, device_path)
find_in_classes m fuel device_path (class ∷ classes) = do
  (device, path) ← find_drive_path m fuel device_path class
  elim device [ none ↦ find_in_classes m fuel path classes | some d ↦ some (some d, path) ]

unfoldable pub usb_data_of : UsbDevice → UsbData
usb_data_of d = record {
  is_usb = 1;
  desc_len = d.binary_device_descriptors_length % 2 ^ 16;
  descriptors = take d.binary_device_descriptors_length d.binary_device_descriptors;
  id_vendor = d.device_descriptor.id_vendor;
  id_product = d.device_descriptor.id_product;
  manufacturer = take 256 d.manufacturer;
  product = take 256 d.product;
  serial = take 256 d.serial_number;
}

-- GetUsbData of a context with its device path, where `before` is what the outputs held. The block
-- for the classes is written without a test.
unfoldable pub get_usb_data :
    UsbSystem → ℕ → Option (List ℕ) → UsbData → Option (UsbData × Option (List ℕ))
unfolding find_in_classes usb_data_of
get_usb_data m fuel ctx before =
    if m.room guids_block
    then elim ctx [
      | none ↦ some (record before { is_usb = 255 }, none)
      | some device_path ↦ do
        (device, path) ← find_in_classes m fuel device_path (floppy ∷ cdrom ∷ disk ∷ tape ∷ [])
        some (
          elim device [ none ↦ record before { is_usb = 0 } | some d ↦ usb_data_of d ],
          some path,
        )
    ]
    else none
