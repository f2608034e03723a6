-- ===== src/Freebsd/Listing.antt =====
-- freebsd/list_devices.c: ListDevices over the entries of /dev and the answers of CAM, with its
-- linked list in a store whose addresses are not used again. A text is without its NUL; the function
-- that uses a block that is not allocated gives `none`.
pub mod Segments
pub mod Growing
pub mod Ends
use aaruremote.Common.{
  ℕ, zero, suc, Bool, true, false, not, ◌||◌, Option, none, some, List, [], ◌∷◌, ◌++◌, take, drop,
  length, leb, ◌==◌, if◌then◌else◌,
}
use aaruremote.Common.Bytes.{codes}
use aaruremote.Common.Text.{starts_with}
use aaruremote.Protocol.Structs.{DeviceInfo}
use aaruremote.Freebsd.{
  CamProtocol, proto_ata, proto_satapm, proto_atapi, proto_scsi, proto_nvme, proto_mmcsd,
  proto_other,
}

-- What the cam_device and the answer to XPT_GDEV_TYPE hold.
pub record CamListing : Type 0 where
  pub protocol : CamProtocol
  pub serial_num : List ℕ
  pub serial_num_len : ℕ
  pub sim_name : List ℕ
  pub ident_model : List ℕ
  pub ident_serial : List ℕ
  pub inq_vendor : List ℕ
  pub inq_product : List ℕ

-- An entry of /dev: whether there is room for a node, and what CAM answers; `none` where the device
-- cannot be opened, there is no CCB or the request fails.
pub record DevEntry : Type 0 where
  pub name : List ℕ
  pub room : Bool
  pub answer : Option CamListing

-- `strncpy(old, text, n)` into an array that holds `old`.
abbrev copy_over : ℕ → List ℕ → List ℕ → List ℕ
copy_over n text old = if leb n (length text) then take n text ++ drop n old else text

-- The character at a place, the NUL behind the end.
abbrev char_at : ℕ → List ℕ → ℕ
char_at i [] = 0
char_at zero (c ∷ cs) = c
char_at (suc i) (c ∷ cs) = char_at i cs

-- The loop that trims spaces, from place `i` down.
unfoldable pub trim_spaces : ℕ → List ℕ → List ℕ
trim_spaces zero model = model
trim_spaces (suc i) model =
    let rest = trim_spaces i (take (suc i) model) in
    if char_at (suc i) model == 32 then rest else model

abbrev starts : List ℕ → CamListing → Bool
starts prefix a = starts_with prefix a.sim_name

unfoldable pub ata_fields : CamListing → DeviceInfo → DeviceInfo
unfolding trim_spaces codes
ata_fields a d = record d {
  vendor = codes "ATA";
  model = trim_spaces 40 (copy_over 40 a.ident_model d.model);
  serial = copy_over 20 a.ident_serial d.serial;
  bus = if starts (codes "ahcich") a then codes "SATA" else codes "ATA";
  supported = 1;
}

unfoldable pub scsi_fields : CamListing → DeviceInfo → DeviceInfo
unfolding codes
scsi_fields a d = record d {
  vendor = copy_over 8 a.inq_vendor d.vendor;
  model = copy_over 16 a.inq_product d.model;
  bus =
      if starts (codes "ata") a || starts (codes "ahcich") a
      then copy_over 5 (codes "ATAPI") d.bus
      else copy_over 4 (codes "SCSI") d.bus;
  supported = 1;
}

-- The switch over the protocol; `none` for its default case.
unfoldable pub protocol_fields : CamListing → CamProtocol → DeviceInfo → Option DeviceInfo
unfolding ata_fields scsi_fields codes
protocol_fields a proto_ata d = some (ata_fields a d)
protocol_fields a proto_satapm d = some (ata_fields a d)
protocol_fields a proto_atapi d = some (scsi_fields a (ata_fields a d))
protocol_fields a proto_scsi d = some (scsi_fields a d)
protocol_fields a proto_nvme d = some (record d { bus = codes "NVMe"; supported = 0 })
protocol_fields a proto_mmcsd d = some (record d { bus = codes "MMC/SD"; supported = 0 })
protocol_fields a proto_other d = none

-- The node of an entry, from a zeroed block.
unfoldable pub entry_path : List ℕ → DeviceInfo
unfolding codes
entry_path name = record {
  path = take 1023 (codes "/dev/" ++ name);
  vendor = [];
  model = [];
  serial = [];
  bus = [];
  supported = 0;
}

-- What is listed of an entry, if it is.
unfoldable pub entry_info : DevEntry → Option DeviceInfo
unfolding protocol_fields entry_path
entry_info e = elim e.answer [
  | none ↦ none
  | some a ↦
      protocol_fields a a.protocol
        (record (entry_path e.name) { serial = take a.serial_num_len a.serial_num })
]

pub record Node : Type 0 where
  pub info : DeviceInfo
  pub next : Option ℕ

-- The store, from a first unused address on, and the variables `list_start` and `list_current`.
pub record Chain : Type 0 where
  pub store : ℕ → Option Node
  pub fresh : ℕ
  pub list_start : Option ℕ
  pub list_current : Option ℕ

unfoldable pub write : (ℕ → Option Node) → ℕ → Option Node → ℕ → Option Node
write store at n a = if a == at then n else store a

-- `if(list_current) list_current->next = list_next;`
unfoldable pub link_current : Option ℕ → ℕ → (ℕ → Option Node) → Option (ℕ → Option Node)
unfolding write
link_current none next store = some store
link_current (some c) next store = elim (store c) [
  | none ↦ none
  | some n ↦ some (write store c (some (record n { next = some next })))
]

-- `if(!list_start) list_start = list_next;`
unfoldable pub first_of : Option ℕ → ℕ → Option ℕ
first_of none next = some next
first_of (some a) next = some a

-- The state behind an entry whose node was freed, and behind one that is listed, where `store` is
-- the store with the node linked.
unfoldable pub freed_entry : (ℕ → Option Node) → Chain → Chain
unfolding write first_of
freed_entry store s = record {
  store = write store s.fresh none;
  fresh = suc s.fresh;
  list_start = first_of s.list_start s.fresh;
  list_current = s.list_current;
}

unfoldable pub kept_entry : (ℕ → Option Node) → DeviceInfo → Chain → Chain
unfolding write first_of
kept_entry store info s = record {
  store = write store s.fresh (some (record { info = info; next = none }));
  fresh = suc s.fresh;
  list_start = first_of s.list_start s.fresh;
  list_current = some s.fresh;
}

-- The loop body for an entry: the node is linked before the device is asked, and is freed without
-- being taken out of the list when it is not listed.
unfoldable pub list_entry : DevEntry → Chain → Option Chain
unfolding entry_info link_current freed_entry kept_entry
list_entry e s =
    if e.room
    then elim (link_current s.list_current s.fresh s.store) [
      | none ↦ none
      | some store ↦ elim (entry_info e) [
        | none ↦ some (freed_entry store s)
        | some info ↦ some (kept_entry store info s)
      ]
    ]
    else none

unfoldable pub list_entries : List DevEntry → Chain → Option Chain
unfolding list_entry codes
list_entries [] s = some s
list_entries (e ∷ es) s =
    if starts_with (codes "pass") e.name
    then elim (list_entry e s) [ none ↦ none | some s' ↦ list_entries es s' ]
    else list_entries es s

-- A list from a pointer on, as its reader sees it, over at most as many nodes as the fuel.
unfoldable pub read_chain : (ℕ → Option Node) → ℕ → Option ℕ → Option (List DeviceInfo)
read_chain store fuel none = some []
read_chain store zero (some a) = none
read_chain store (suc fuel) (some a) = elim (store a) [
  | none ↦ none
  | some n ↦ elim (read_chain store fuel n.next) [ none ↦ none | some ds ↦ some (n.info ∷ ds) ]
]

-- ListDevices on the entries of /dev, `none` where it cannot be opened, and what its caller reads.
unfoldable pub cam_list_devices : Option (List DevEntry) → Option (List DeviceInfo)
unfolding list_entries read_chain
cam_list_devices none = some []
cam_list_devices (some es) =
    elim (list_entries es
      (record { store = λ a. none; fresh = 0; list_start = none; list_current = none })) [
        | none ↦ none
        | some s ↦ read_chain s.store s.fresh s.list_start
      ]
