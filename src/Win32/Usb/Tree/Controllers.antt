-- ===== src/Win32/Usb/Tree/Controllers.antt =====
-- win32/usb.c: how many host controllers there is room for.
use aaruremote.Common.{
  ℕ, suc, ◌+◌, ◌<◌, ◌≤◌, ◌≡◌, refl, true, Option, none, some, List, [], ◌∷◌, length, lt→ltb,
  le→ltb_false, arith, ltb, Bool-cases, inl, inr, if◌then◌else◌,
}
use aaruremote.Win32.Usb.{
  InterfaceDetail, UsbSystem, UsbController, detail_block, controllers_block, host_controller,
}
use aaruremote.Win32.Usb.Tree.{controllers_from, get_host_controllers, controller_at}

-- The controllers of the interfaces, numbered from `i` on.
unfoldable pub numbered : ℕ → List (Option InterfaceDetail) → List UsbController
numbered i [] = []
numbered i (d ∷ ds) = controller_at i d ∷ numbered (suc i) ds

controllers_from_few :
    (m : UsbSystem) (i : ℕ) (ds : List (Option InterfaceDetail))
    → m.room detail_block ≡ true
    → i + length ds < 64
    → controllers_from m i ds ≡ some (numbered i ds)
unfolding controllers_from numbered
controllers_from_few m i [] room few = rw (lt→ltb i 64 (omega arith)) refl
controllers_from_few m i (d ∷ ds) room few =
    rw (lt→ltb i 64 (omega arith), room, controllers_from_few m (suc i) ds room (omega arith)) refl

controllers_from_many :
    (m : UsbSystem) (i : ℕ) (ds : List (Option InterfaceDetail))
    → m.room detail_block ≡ true
    → 64 ≤ i + length ds
    → controllers_from m i ds ≡ none
unfolding controllers_from
controllers_from_many m i [] room many = rw (le→ltb_false i 64 (omega arith)) refl
controllers_from_many m i (d ∷ ds) room many = elim (Bool-cases (ltb i 64)) [
  | inl inside ↦ rw (inside, room, controllers_from_many m (suc i) ds room (omega arith)) refl
  | inr outside ↦ rw outside refl
]

-- If there is room for its blocks and the host controllers can be enumerated: GetHostControllers
-- gives the controllers, numbered in their order, if there are fewer than 64, and writes outside of
-- its block if there are 64 or more.
pub get_host_controllers_lem :
    (m : UsbSystem) (ds : List (Option InterfaceDetail))
    → m.room detail_block ≡ true
    → m.room controllers_block ≡ true
    → m.interfaces host_controller ≡ some ds
    → get_host_controllers m ≡ (if ltb (length ds) 64 then some (some (numbered 0 ds)) else none)
unfolding get_host_controllers
get_host_controllers_lem m ds details list asked = elim (Bool-cases (ltb (length ds) 64)) [
  | inl few ↦
      let known = controllers_from_few m 0 ds details (ground (arith, few)) in
      rw (list, asked, known, few) refl
  | inr many ↦
      let outside = controllers_from_many m 0 ds details (ground (arith, many)) in
      rw (list, asked, outside, many) refl
]
