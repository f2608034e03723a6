-- ===== src/Tests/Handles.antt =====
-- A system with three calls' worth of descriptors, and what linux/device.c does on it.
use aaruremote.Common.{
  ℕ, ◌+◌, ◌≡◌, ◌≢◌, refl, ◌∙◌, sym, ap, Bool, true, false, not, ◌&&◌, ◌||◌, Option, none, some,
  List, [], ◌∷◌, length, take, ◌==◌, ltb, arith, Bool-cases, inl, inr, if◌then◌else◌, eq→==, ==→eq,
  length-take, lt→ltb, le→ltb_false, ◌<◌, ◌≤◌,
}
use aaruremote.Common.Bytes.{codes}
use aaruremote.Linux.Device.{
  Calls, DeviceContext, Devices, find_context, device_open, reopen, open_device,
}
use aaruremote.Linux.Device.Owned.{Owned}
use aaruremote.Linux.Device.Steps.{
  FdLaws, ClosesCleanly, Reachable, starting, stepping, opening, reopening, Reachable-Owned,
}

-- The next descriptor, and which of the earlier ones are open.
record System : Type 0 where
  pub next : ℕ
  pub opened : ℕ → Bool

abbrev holds : Option ℕ → System → Bool
holds none o = false
holds (some f) o = o.opened f && ltb f o.next

abbrev shut : Option ℕ → System → System
shut none o = o
shut (some f) o = record o { opened = λ g. o.opened g && not (g == f) }

abbrev calls : Calls System
calls = record {
  errno = λ o. 9;
  realpath = λ o path. (none, o);
  new_context = λ o. (4096 + o.next, o);
  open_path = λ o path mode.
      (some o.next, record { next = o.next + 1; opened = λ g. g == o.next || o.opened g });
  close = λ o fd. (holds fd o, shut fd o);
  lseek = λ o fd offset. (holds fd o, o);
  read = λ o fd n. (if holds fd o then some (take n (1 ∷ 2 ∷ [])) else none, o);
}

abbrev bytes_of : Option (List ℕ) → List ℕ
bytes_of none = []
bytes_of (some b) = b

abbrev got : Option ℕ → ℕ
got none = 0
got (some f) = f

both : (a b : Bool) → a ≡ true → b ≡ true → (a && b) ≡ true
both a b p q = ground (arith, p, q)

left_of : (a b : Bool) → (a && b) ≡ true → a ≡ true
left_of true b e = refl
left_of false b e = absurd (ground (arith, e))

right_of : (a b : Bool) → (a && b) ≡ true → b ≡ true
right_of true b e = e
right_of false b e = absurd (ground (arith, e))

never : (a : Bool) → (a && false) ≡ false
never true = refl
never false = refl

whole : (a : Bool) → (a && true) ≡ a
whole true = refl
whole false = refl

other : (a : Bool) (f g : ℕ) → f ≢ g → (a && not (g == f)) ≡ a
other a f g apart = elim (Bool-cases (g == f)) [
  | inl same ↦ absurd (apart (sym (==→eq g f same)))
  | inr differ ↦ rw differ (whole a)
]

kept :
    (o : System) (fd : Option ℕ) (g : ℕ)
    → fd ≢ some g
    → holds (some g) (shut fd o) ≡ holds (some g) o
kept o none g apart = refl
kept o (some f) g apart =
    ap (λ b. b && ltb g o.next) (other (o.opened g) f g (λ e. apart (ap some e)))

at_right : (a b : Bool) → b ≡ true → (a || b) ≡ true
at_right true b e = refl
at_right false b e = e

ltb_grows : (g n : ℕ) → ltb g n ≡ true → g < n + 1
ltb_grows g n e = ground (arith, e)

calls-FdLaws : FdLaws calls
calls-FdLaws = record {
  is_open = λ o g. holds (some g) o;
  realpath_keeps = λ o path g. refl;
  new_keeps = λ o g. refl;
  open_fresh = λ o path mode f e.
      let same : o.next ≡ f = ap got e in
      rw (← same) (
        ap (λ b. o.opened o.next && b) (le→ltb_false o.next o.next (omega arith))
        ∙ never (o.opened o.next));
  open_opens = λ o path mode f e.
      let same : o.next ≡ f = ap got e in
      rw (← same) (
        both _ _ (ap (λ b. b || o.opened o.next) (eq→== o.next o.next refl))
          (lt→ltb o.next (o.next + 1) (omega arith)));
  open_keeps = λ o path mode g was.
      both _ _ (at_right (g == o.next) (o.opened g) (left_of _ _ was))
        (lt→ltb g (o.next + 1) (ltb_grows g o.next (right_of _ _ was)));
  open_fails = λ o path mode g e. absurd (ground (arith, e));
  close_keeps = λ o fd g apart. kept o fd g apart;
  lseek_keeps = λ o fd n g. refl;
  read_keeps = λ o fd n g. refl;
}

abbrev empty : Devices System
empty = record { os = record { next = 3; opened = λ g. false }; contexts = [] }

-- A device that was opened and read, and opened again.
abbrev after_open : Devices System
after_open = (device_open calls empty (codes "/dev/sda")).1

abbrev reopened : Devices System
reopened = record {
  os = record { next = 5; opened = λ g. g == 4 || ((g == 3 || false) && not (g == 3)) };
  contexts = record { address = 4099; fd = some 4; device_path = codes "/dev/sda" } ∷ [];
}

reopened-Reachable : Reachable calls reopened
unfolding device_open reopen codes ClosesCleanly
reopened-Reachable =
    stepping after_open reopened
      (stepping empty after_open (starting _) (opening empty (codes "/dev/sda")))
      (reopening after_open reopened 4099 (record { ret = 0; close_failed = 0 }) refl
        (λ c found. inr refl))

Reachable-Owned_example : Owned (calls-FdLaws.is_open reopened.os) reopened.contexts
Reachable-Owned_example = Reachable-Owned calls-FdLaws reopened reopened-Reachable

abbrev disk : DeviceContext
disk = record { address = 4099; fd = some 4; device_path = codes "/dev/sda" }

found_disk : find_context 4099 reopened.contexts ≡ some disk
unfolding find_context
found_disk = refl

-- A read gives two bytes at most.
short_reads :
    (o : System) (fd : Option ℕ) (n : ℕ) (bytes : List ℕ)
    → (calls.read o fd n).0 ≡ some bytes
    → length bytes ≤ n
short_reads o fd n bytes e = elim (Bool-cases (holds fd o)) [
  | inl live ↦
      let same : take n (1 ∷ 2 ∷ []) ≡ bytes = ap bytes_of (rw live at e) in
      rw (← same) (omega (arith, length-take {A = ℕ} n (1 ∷ 2 ∷ [])))
  | inr dead ↦ absurd (ground (arith, rw dead at e))
]

-- The disk was pulled out: nothing can be opened any more.
abbrev pulled : Calls System
pulled = record calls { open_path = λ o path mode. (none, o) }

not_reopened : (open_device pulled (shut (some 4) reopened.os) (codes "/dev/sda")).0 ≡ none
unfolding open_device
not_reopened = refl
