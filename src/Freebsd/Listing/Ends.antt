-- ===== src/Freebsd/Listing/Ends.antt =====
-- freebsd/list_devices.c: which lists ListDevices gives, when the first or the last entry that it
-- looks at cannot be listed.
use aaruremote.Common.{
  ◌≡◌, refl, sym, ap, ◌∙◌, Bool, true, false, Option, none, some, List, [], ◌∷◌, ◌++◌, append-nil,
  append_assoc, All, subst, if◌then◌else◌, Bool-cases, Option-cases, Meets, inl, inr, arith,
}
use aaruremote.Common.Bytes.{codes}
use aaruremote.Common.Text.{starts_with}
use aaruremote.Protocol.Structs.{DeviceInfo}
use aaruremote.Freebsd.Listing.{
  DevEntry, Chain, write, link_current, first_of, entry_info, list_entry, list_entries, read_chain,
  freed_entry, kept_entry, cam_list_devices,
}
use aaruremote.Freebsd.Listing.Segments.{Seg, Tail, Good, Lost, Good-read, Lost-read}
use aaruremote.Freebsd.Listing.Growing.{Grown, list_entry-Grown, list_entry-Lost}

-- What is listed of the entries that are looked at, one after the other.
unfoldable pub looked_at : List DevEntry → List (Option DeviceInfo)
unfolding codes
looked_at [] = []
looked_at (e ∷ es) =
    let rest = looked_at es in
    if starts_with (codes "pass") e.name then entry_info e ∷ rest else rest

unfoldable pub listed : List (Option DeviceInfo) → List DeviceInfo
listed [] = []
listed (none ∷ os) = listed os
listed (some d ∷ os) = d ∷ listed os

-- Whether the last one is listed; the argument says so of what is in front.
unfoldable pub last_listed : Bool → List (Option DeviceInfo) → Bool
last_listed before [] = before
last_listed before (none ∷ os) = last_listed false os
last_listed before (some d ∷ os) = last_listed true os

-- Whether the first and the last one are listed, or there is none.
unfoldable pub ends_listed : List (Option DeviceInfo) → Bool
unfolding last_listed
ends_listed [] = true
ends_listed (none ∷ os) = false
ends_listed (some d ∷ os) = last_listed true os

abbrev pub HasRoom : DevEntry → Type 0
HasRoom e = e.room ≡ true

-- What the caller reads when the entries have been looked at.
list_result : List DevEntry → Chain → Option (List DeviceInfo)
list_result es s = elim (list_entries es s) [
  | none ↦ none
  | some s' ↦ read_chain s'.store s'.fresh s'.list_start
]

list_result-Lost : (es : List DevEntry) (s : Chain) → Lost s → list_result es s ≡ none
unfolding list_result list_entries
list_result-Lost [] s lost = Lost-read s s.fresh lost
list_result-Lost (e ∷ es) s lost = elim (Bool-cases (starts_with (codes "pass") e.name)) [
  | inr other ↦ rw (list_result, other) (list_result-Lost es s lost)
  | inl pass ↦ elim (Option-cases (list_entry e s)) [
    | inl stop ↦ rw (list_result, pass, stop) refl
    | inr (s', run) ↦
        rw (list_result, pass, run)
          (list_result-Lost es s' (subst (Meets Lost) run (list_entry-Lost e s lost)))
  ]
]

-- A list of the entries that are listed, if the last one is.
reads : List DeviceInfo → Bool → List (Option DeviceInfo) → Option (List DeviceInfo)
reads ds ends os = if last_listed ends os then some (ds ++ listed os) else none

list_result-Good :
    (es : List DevEntry) (s : Chain) (ds : List DeviceInfo) (ends : Bool)
    → All HasRoom es
    → Good s ds ends
    → list_result es s ≡ reads ds ends (looked_at es)
unfolding list_result list_entries reads looked_at last_listed listed Grown
list_result-Good [] s ds ends room good =
    Good-read s ds ends good ∙ ap (λ q. if ends then some q else none) (sym (append-nil ds))
list_result-Good (e ∷ es) s ds ends (room, rooms) good =
    elim (Bool-cases (starts_with (codes "pass") e.name)) [
      | inr other ↦ rw (list_result, looked_at, other) (list_result-Good es s ds ends rooms good)
      | inl pass ↦
          let (s', run, grown) = list_entry-Grown e s ds ends room good in
          elim (Option-cases (entry_info e)) [
            | inl skipped ↦
                let good' = subst (λ o. Grown ds o s') skipped grown in
                rw (list_result, pass, run, skipped) (list_result-Good es s' ds false rooms good')
            | inr (d, known) ↦
                let good' = subst (λ o. Grown ds o s') known grown in
                rw (list_result, pass, run, known)
                  (list_result-Good es s' (ds ++ d ∷ []) true rooms good'
                    ∙ ap (λ q. if last_listed true (looked_at es) then some q else none)
                        (append_assoc ds (d ∷ []) (listed (looked_at es))))
          ]
    ]

abbrev no_chain : Chain
no_chain = record { store = λ a. none; fresh = 0; list_start = none; list_current = none }

first_kept-Good : (d : DeviceInfo) → Good (kept_entry no_chain.store d no_chain) (d ∷ []) true
unfolding Good Tail kept_entry first_of write Seg
first_kept-Good d = (0, [], d, none, refl, refl, omega arith, omega arith, refl, refl, refl)

first_freed-Lost : Lost (freed_entry no_chain.store no_chain)
unfolding Lost freed_entry first_of write
first_freed-Lost = (0, refl, refl, omega arith)

first_freed :
    (e : DevEntry)
    → e.room ≡ true
    → entry_info e ≡ none
    → list_entry e no_chain ≡ some (freed_entry no_chain.store no_chain)
unfolding list_entry link_current
first_freed e room skipped = rw (list_entry, room, skipped) refl

first_kept :
    (e : DevEntry) (d : DeviceInfo)
    → e.room ≡ true
    → entry_info e ≡ some d
    → list_entry e no_chain ≡ some (kept_entry no_chain.store d no_chain)
unfolding list_entry link_current
first_kept e d room known = rw (list_entry, room, known) refl

list_result-looked_at :
    (es : List DevEntry)
    → All HasRoom es
    → list_result es no_chain
      ≡ (if ends_listed (looked_at es) then some (listed (looked_at es)) else none)
unfolding list_result list_entries looked_at listed ends_listed read_chain reads
list_result-looked_at [] room = refl
list_result-looked_at (e ∷ es) (room, rooms) =
    elim (Bool-cases (starts_with (codes "pass") e.name)) [
      | inr other ↦ rw (list_result, looked_at, other) (list_result-looked_at es rooms)
      | inl pass ↦ elim (Option-cases (entry_info e)) [
        | inl skipped ↦
            rw (list_result, pass, first_freed e room skipped, skipped)
              (list_result-Lost es (freed_entry no_chain.store no_chain) first_freed-Lost)
        | inr (d, known) ↦
            rw (list_result, pass, first_kept e d room known, known)
              (list_result-Good es (kept_entry no_chain.store d no_chain) (d ∷ []) true rooms
                (first_kept-Good d))
      ]
    ]

-- If there is room for the nodes: the list that the caller of ListDevices of FreeBSD reads is that
-- of the entries of /dev that can be listed, in their order, if the first and the last of the
-- entries whose names start with pass are listed, or there is none; otherwise it runs into a node
-- that was freed.
pub cam_list_devices_ends :
    (es : List DevEntry)
    → All HasRoom es
    → cam_list_devices (some es)
      ≡ (if ends_listed (looked_at es) then some (listed (looked_at es)) else none)
unfolding cam_list_devices list_result
cam_list_devices_ends es room = list_result-looked_at es room
