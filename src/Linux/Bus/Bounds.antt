-- ===== src/Linux/Bus/Bounds.antt =====
-- linux/usb.c, linux/ieee1394.c and linux/pcmcia.c: the loops end, and what the lengths can be.
use aaruremote.Common.{
  ℕ, suc, ◌≤◌, ◌≡◌, refl, subst, ◌++◌, inl, inr, Bool, Option, none, some, List, length, arith,
  ◌&&◌, Bool-cases, Option-cases,
}
use aaruremote.Common.Bytes.{codes}
use aaruremote.Common.Text.{contains}
use aaruremote.Worker.Platform.{UsbData, FireWireData, PcmciaData}
use aaruremote.Linux.Sysfs.{Files, child, fread_one, Visit, go_on, leave, walk_up, block_directory}
use aaruremote.Linux.Sysfs.Walk.{walk_up-Found}
use aaruremote.Linux.Bus.{
  usb_round, get_usb_data, no_usb, firewire_round, get_firewire_data, no_firewire, pcmcia_round,
  pcmcia_card, get_pcmcia_data, no_pcmcia, first_directory,
}

-- What holds of the default and of whatever a visit leaves with, holds of the walk's result.
walk_up_all :
    {A : Type 0} (Q : A → Type 0) (test : List ℕ → Bool) (visit : List ℕ → Visit A) (default : A)
    (path : List ℕ)
    → Q default
    → ((up : List ℕ) (a : A) → visit up ≡ leave a → Q a)
    → (a : A) × (walk_up test visit default (suc (length path)) path ≡ some a) × Q a
walk_up_all Q test visit default path base kept =
    let (a, runs, found) =
      walk_up-Found test visit default (suc (length path)) path (omega arith) in
    (a, runs, elim found [ inl e ↦ rw e base | inr (up, above, v) ↦ kept up a v ])

fread_small : (size : ℕ) (content : List ℕ) → (fread_one size content).1 ≤ 1
fread_small size content = ground arith

-- What a visit leaves with.
Leaves : {A : Type 0} → (A → Type 0) → Visit A → Type 0
Leaves Q go_on = Unit
Leaves Q (leave a) = Q a

Leaves-leave : {A : Type 0} (Q : A → Type 0) (v : Visit A) (a : A) → v ≡ leave a → Leaves Q v → Q a
unfolding Leaves
Leaves-leave Q v a e held = subst (Leaves Q) e held

usb_small : (files : Files) (up : List ℕ) → Leaves (λ u. u.desc_len ≤ 1) (usb_round files up)
unfolding usb_round Leaves
usb_small files up =
    elim (Bool-cases (
      files.readable (child up (codes "descriptors"))
      && (files.readable (child up (codes "idProduct"))
          && files.readable (child up (codes "idVendor"))))) [
            | inr e ↦ rw (usb_round, e) tt
            | inl e ↦ elim (Option-cases (files.open_file (child up (codes "descriptors")))) [
              | inl gone ↦ rw (usb_round, e, gone) (omega arith)
              | inr (content, there) ↦ rw (usb_round, e, there) (fread_small 4096 content)
            ]
          ]

card_small :
    (files : Files) (up name : List ℕ) → Leaves (λ u. u.cis_len ≤ 1) (pcmcia_card files up name)
unfolding pcmcia_card Leaves
card_small files up name =
    let path = child up (codes "pcmcia_socket/" ++ (name ++ codes "/cis")) in
    elim (Bool-cases (files.readable path)) [
      | inr e ↦ rw (pcmcia_card, e) tt
      | inl e ↦ elim (Option-cases (files.open_file path)) [
        | inl gone ↦ rw (pcmcia_card, e, gone) (omega arith)
        | inr (content, there) ↦ rw (pcmcia_card, e, there) (fread_small 65536 content)
      ]
    ]

pcmcia_small : (files : Files) (up : List ℕ) → Leaves (λ u. u.cis_len ≤ 1) (pcmcia_round files up)
unfolding pcmcia_round Leaves
pcmcia_small files up =
    let path = child up (codes "pcmcia_socket") in
    elim (Bool-cases (files.readable path)) [
      | inr e ↦ rw (pcmcia_round, e) tt
      | inl e ↦ elim (Option-cases (files.open_directory path)) [
        | inl gone ↦ rw (pcmcia_round, e, gone) tt
        | inr (entries, there) ↦ elim (Option-cases (first_directory entries)) [
          | inl empty ↦ rw (pcmcia_round, e, there, empty) tt
          | inr (name, is) ↦ rw (pcmcia_round, e, there, is) (card_small files up name)
        ]
      ]
    ]

firewire_flag :
    (files : Files) (up : List ℕ) → Leaves (λ u. u.is_firewire ≤ 1) (firewire_round files up)
unfolding firewire_round Leaves
firewire_flag files up =
    elim (Bool-cases (
      files.readable (child up (codes "model"))
      && (files.readable (child up (codes "vendor"))
          && files.readable (child up (codes "guid"))))) [
            | inr e ↦ rw (firewire_round, e) tt
            | inl e ↦ rw (firewire_round, e) (omega arith)
          ]

-- Each of the three functions is this, with its own loop.
Ends : {A : Type 0} → (A → Type 0) → Option A → Type 0
Ends {A} Q r = (a : A) × (r ≡ some a) × Q a

search-Ends :
    {A : Type 0} (Q : A → Type 0) (test : List ℕ → Bool) (visit : List ℕ → Visit A) (default : A)
    (start : Option (List ℕ))
    → Q default
    → ((up : List ℕ) → Leaves Q (visit up))
    → Ends Q (elim start [
      | none ↦ some default
      | some dir ↦ walk_up test visit default (suc (length dir)) dir
    ])
unfolding Ends
search-Ends Q test visit default none base kept = (default, refl, base)
search-Ends Q test visit default (some dir) base kept =
    walk_up_all Q test visit default dir base (λ up a e. Leaves-leave Q (visit up) a e (kept up))

-- Whatever the file system holds, GetUsbData of Linux ends, and announces no more than one byte of
-- descriptors.
pub get_usb_data_ends :
    (files : Files) (device : Option (List ℕ))
    → (u : UsbData) × (get_usb_data files device ≡ some u) × (u.desc_len ≤ 1)
unfolding get_usb_data Ends
get_usb_data_ends files none = (no_usb 255, refl, omega arith)
get_usb_data_ends files (some path) =
    search-Ends (λ u. u.desc_len ≤ 1) (contains (codes "usb")) (usb_round files) (no_usb 0)
      (block_directory files path) (omega arith) (usb_small files)

-- Whatever the file system holds, GetPcmciaData of Linux ends, and announces no more than one byte
-- of the card's information structure.
pub get_pcmcia_data_ends :
    (files : Files) (device : Option (List ℕ))
    → (u : PcmciaData) × (get_pcmcia_data files device ≡ some u) × (u.cis_len ≤ 1)
unfolding get_pcmcia_data Ends
get_pcmcia_data_ends files none = (no_pcmcia, refl, omega arith)
get_pcmcia_data_ends files (some path) =
    search-Ends (λ u. u.cis_len ≤ 1) (contains (codes "/sys/devices")) (pcmcia_round files)
      no_pcmcia (block_directory files path) (omega arith) (pcmcia_small files)

-- GetFireWireData of Linux ends too.
get_firewire_data_ends :
    (files : Files) (device : Option (List ℕ))
    → (u : FireWireData) × (get_firewire_data files device ≡ some u) × (u.is_firewire ≤ 1)
unfolding get_firewire_data Ends
get_firewire_data_ends files none = (no_firewire, refl, omega arith)
get_firewire_data_ends files (some path) =
    search-Ends (λ u. u.is_firewire ≤ 1) (contains (codes "firewire")) (firewire_round files)
      no_firewire (block_directory files path) (omega arith) (firewire_flag files)
