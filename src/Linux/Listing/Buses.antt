-- ===== src/Linux/Listing/Buses.antt =====
-- linux/list_devices.c: which devices are listed, and how their bus is shown.
use aaruremote.Common.{
  ℕ, ◌≡◌, refl, ap, Bool, not, ◌||◌, Option, none, some, List, [], ◌∷◌, ◌++◌, map, take, inl, inr,
  Bool-cases, Returns, if◌then◌else◌, All,
}
use aaruremote.Common.Bytes.{codes}
use aaruremote.Protocol.Structs.{DeviceInfo}
use aaruremote.Linux.Sysfs.{Files}
use aaruremote.Linux.Listing.{
  upper, upper_text, final_bus, bus_supported, sysfs_bus, describe, device_entry, is_hidden,
  list_entries, list_devices,
}

-- ListDevices of Linux without udev lists a device on a FireWire bus with the bus in capitals and
-- as not supported, though FireWire is among the supported buses.
pub device_entry_of_firewire :
    (files : Files) (name : List ℕ)
    → sysfs_bus files name ≡ some (codes "FireWire")
    → Returns (λ d. (d.bus ≡ codes "FIREWIRE") × (d.supported ≡ 0)) (device_entry files name)
      × (bus_supported (codes "FireWire") ≡ 1)
unfolding device_entry describe final_bus upper_text upper bus_supported codes
device_entry_of_firewire files name bus = (rw (device_entry, bus) (refl, refl), refl)

-- The names of the entries that are listed: directories and links that are not hidden.
abbrev pub listed : List (List ℕ × Bool) → List (List ℕ)
listed [] = []
listed ((name, is_dir_or_link) ∷ entries) =
    if not is_dir_or_link || is_hidden name then listed entries else name ∷ listed entries

abbrev pub device_path : List ℕ → List ℕ
device_path name = take 1023 (codes "/dev/" ++ name)

entry_lem :
    (files : Files) (name bus : List ℕ)
    → sysfs_bus files name ≡ some bus
    → device_entry files name ≡ some (describe files name bus)
unfolding device_entry
entry_lem files name bus e = rw (device_entry, e) refl

abbrev Listed : Files → List (List ℕ) → List DeviceInfo → Type 0
Listed files names ds = map (λ d. d.path) ds ≡ map device_path names

-- With the entry in front.
cons-Listed :
    (files : Files) (name bus : List ℕ) (names : List (List ℕ)) (rest : Option (List DeviceInfo))
    → Returns (Listed files names) rest
    → Returns
        (Listed files (name ∷ names))
        (elim rest [ none ↦ none | some ds ↦ some (describe files name bus ∷ ds) ])
unfolding describe
cons-Listed files name bus names none r = absurd r
cons-Listed files name bus names (some ds) r = ap (λ q. device_path name ∷ q) r

list_entries-Listed :
    (files : Files) (entries : List (List ℕ × Bool))
    → All (λ name. (bus : List ℕ) × (sysfs_bus files name ≡ some bus)) (listed entries)
    → Returns (Listed files (listed entries)) (list_entries files entries)
unfolding list_entries
list_entries-Listed files [] found = refl
list_entries-Listed files ((name, is_dir_or_link) ∷ entries) found =
    elim (Bool-cases (not is_dir_or_link || is_hidden name)) [
      | inl skipped ↦
          rw (list_entries, skipped) (list_entries-Listed files entries (rw skipped at found))
      | inr shown ↦
          let ((bus, on), others) = rw shown at found in
          rw (list_entries, shown, entry_lem files name bus on)
            (cons-Listed files name bus (listed entries) (list_entries files entries)
              (list_entries-Listed files entries others))
    ]

-- If the bus of every listed name can be read, and the directory of the block devices: ListDevices
-- of Linux without udev returns one device for each directory or link that is not hidden, in the
-- directory's order, with its name under /dev as the path.
pub list_devices-listed :
    (files : Files) (entries : List (List ℕ × Bool))
    → files.open_directory (codes "/sys/block") ≡ some entries
    → All (λ name. (bus : List ℕ) × (sysfs_bus files name ≡ some bus)) (listed entries)
    → Returns (λ ds. map (λ d. d.path) ds ≡ map device_path (listed entries)) (list_devices files)
unfolding list_devices
list_devices-listed files entries there found =
    rw (list_devices, there) (list_entries-Listed files entries found)
