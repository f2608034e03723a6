-- ===== src/Win32/Usb/Disks/Answers.antt =====
-- win32/usb.c: what GetUsbData answers.
use aaruremote.Common.{
  ℕ, ◌≡◌, refl, true, false, none, some, List, [], ◌∷◌, ◌++◌, ◌==◌, if◌then◌else◌, Bool-cases, inl,
  inr,
}
use aaruremote.Worker.Platform.{UsbData}
use aaruremote.Win32.Usb.{
  InterfaceClass, UsbSystem, instance_block, guids_block, floppy, cdrom, disk, tape,
}
use aaruremote.Win32.Usb.Disks.{
  trimmed, get_device_number, find_device_number, find_drive_path, find_in_classes, get_usb_data,
}

-- A path that does not end in a backslash is kept.
trimmed_keeps :
    (front : List ℕ) (c : ℕ)
    → (c == 92) ≡ false
    → trimmed (front ++ c ∷ []) ≡ some (front ++ c ∷ [])
unfolding trimmed
trimmed_keeps [] c other = rw other refl
trimmed_keeps (d ∷ []) c other = rw other refl
trimmed_keeps (d ∷ (b ∷ front)) c other = rw (trimmed_keeps (b ∷ front) c other) refl

module _ (m : UsbSystem) (fuel : ℕ) (path : List ℕ) (kept : trimmed path ≡ some path) where
  find_in_classes_nothing :
      (classes : List InterfaceClass)
      → m.room instance_block ≡ true
      → find_in_classes m fuel path classes ≡ some (none, path)
  unfolding find_in_classes find_drive_path get_device_number find_device_number
  find_in_classes_nothing [] room = refl
  find_in_classes_nothing (class ∷ classes) room =
      rw (kept, room) (find_in_classes_nothing classes room)

  find_in_classes_faults :
      (class : InterfaceClass) (classes : List InterfaceClass)
      → m.room instance_block ≡ false
      → find_in_classes m fuel path (class ∷ classes) ≡ none
  unfolding find_in_classes find_drive_path get_device_number find_device_number
  find_in_classes_faults class classes full = rw (kept, full) refl

-- For an open context whose path does not end in a backslash, if there is room for the block of the
-- classes: GetUsbData of win32/usb.c answers that the device is not a USB device, with its other
-- outputs as they were, if there is room for the instance identifier, and is undefined behaviour if
-- there is none.
pub get_usb_data_lem :
    (m : UsbSystem) (fuel : ℕ) (front : List ℕ) (c : ℕ) (before : UsbData)
    → (c == 92) ≡ false
    → m.room guids_block ≡ true
    → get_usb_data m fuel (some (front ++ c ∷ [])) before ≡ (
        if m.room instance_block
        then some (record before { is_usb = 0 }, some (front ++ c ∷ []))
        else none)
unfolding get_usb_data
get_usb_data_lem m fuel front c before other guids =
    let kept = trimmed_keeps front c other in
    elim (Bool-cases (m.room instance_block)) [
      | inl room ↦
          let nothing =
            find_in_classes_nothing m fuel (front ++ c ∷ []) kept
              (floppy ∷ cdrom ∷ disk ∷ tape ∷ []) room in
          rw (guids, nothing, room) refl
      | inr full ↦
          let faults =
            find_in_classes_faults m fuel (front ++ c ∷ []) kept floppy (cdrom ∷ disk ∷ tape ∷ [])
              full in
          rw (guids, faults, full) refl
    ]
