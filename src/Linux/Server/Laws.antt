-- ===== src/Linux/Server/Laws.antt =====
-- linux/: the platform of Linux against what the worker relies on.
use aaruremote.Common.{
  ℕ, suc, ◌^◌, ◌≤◌, ◌<◌, ◌≡◌, Bool, not, ◌||◌, Option, none, some, List, [], ◌∷◌, length, ◌==◌,
  Bool-cases, Option-cases, inl, inr, arith, Meets, Returns, if_both,
}
use aaruremote.Common.Bytes.{codes}
use aaruremote.Protocol.Structs.{DeviceInfo}
use aaruremote.Worker.Platform.{Platform, AtaCall, AtaResult}
use aaruremote.Worker.Transfers.Parts.{Holds, AllHold}
use aaruremote.Worker.Transfers.Ata.{KeepsBuffer}
use aaruremote.Worker.Loop.Dispatch.{PlatformLaws}
use aaruremote.Linux.Scsi.Refines.{SgLaws, send_scsi_command-ScsiLaws}
use aaruremote.Linux.Sdhci.Sense.{send_sdhci_command-KeepsSdhciBuffer}
use aaruremote.Linux.Sdhci.Text.{get_sdhci_registers-AllHold}
use aaruremote.Linux.Sysfs.{Files}
use aaruremote.Linux.Device.{Devices, find_context, os_read}
use aaruremote.Linux.Listing.{list_devices, list_entries, device_entry, is_hidden}
use aaruremote.Linux.Device.Reads.{os_read_keeps_buffer}
use aaruremote.Linux.Scsi.{send_scsi_command}
use aaruremote.Linux.Ata.{
  send_ata, send_ata_chs_command, send_ata_lba28_command, send_ata_lba48_command,
}
use aaruremote.Linux.Ata.Cdb.{send_ata_total}
use aaruremote.Linux.Sdhci.{MmcIocCmd, get_sdhci_registers}
use aaruremote.Linux.Server.{Machine, device_path_of, on_path, on_linux, or_else}

or_else_holds :
    {A : Type 0} (Q : A → Type 0) (o : Option A) (a : A) → Meets Q o → Q a → Q (or_else o a)
unfolding or_else
or_else_holds Q none a held other = other
or_else_holds Q (some b) a held other = held

on_path_holds :
    {A : Type 0} (Q : A → Type 0) (path : Option (Option (List ℕ))) (f : Option (List ℕ) → Option A)
    (a : A)
    → ((p : Option (List ℕ)) → Meets Q (f p))
    → Q a
    → Q (on_path path f a)
unfolding on_path
on_path_holds Q none f a held other = other
on_path_holds Q (some p) f a held other = or_else_holds Q (f p) a (held p) other

abbrev AtMost : {A : Type 0} → ℕ → Option (List A) → Type 0
AtMost n o = Meets (λ ds. length ds ≤ n) o

one_more : {A : Type 0} (n : ℕ) (rest : Option (List A)) → AtMost n rest → AtMost (suc n) rest
one_more n none held = tt
one_more n (some ds) held = omega arith

with_entry :
    (n : ℕ) (entry : Option DeviceInfo) (rest : Option (List DeviceInfo))
    → AtMost n rest
    → AtMost
        (suc n)
        (elim entry [ none ↦ none | some d ↦ elim rest [ none ↦ none | some ds ↦ some (d ∷ ds) ] ])
with_entry n none rest held = tt
with_entry n (some d) none held = tt
with_entry n (some d) (some ds) held = omega arith

list_entries_short :
    (files : Files) (entries : List (List ℕ × Bool))
    → AtMost (length entries) (list_entries files entries)
unfolding list_entries
list_entries_short files [] = omega arith
list_entries_short files ((name, shown) ∷ entries) =
    let n = length entries in
    let rest = list_entries files entries in
    if_both (AtMost (suc n)) (not shown || is_hidden name) rest _
      (one_more n rest (list_entries_short files entries))
      (with_entry n (device_entry files name) rest (list_entries_short files entries))

below_limit :
    {A : Type 0} (n k : ℕ) (o : Option (List A))
    → n < k
    → AtMost n o
    → Meets (λ ds. length ds < k) o
below_limit n k none below held = tt
below_limit n k (some ds) below held = omega arith

list_devices_short :
    (files : Files)
    → ((entries : List (List ℕ × Bool))
        → files.open_directory (codes "/sys/block") ≡ some entries
        → length entries < 2 ^ 16)
    → Meets (λ ds. length ds < 2 ^ 16) (list_devices files)
unfolding list_devices
list_devices_short files short = elim (Option-cases (files.open_directory (codes "/sys/block"))) [
  | inl closed ↦ rw (list_devices, closed) (omega arith)
  | inr (entries, there) ↦
      rw (list_devices, there)
        (below_limit (length entries) (2 ^ 16) (list_entries files entries) (short entries there)
          (list_entries_short files entries))
]

weaken_result :
    {A : Type 0} (Q R : A → Type 0) (o : Option A) → Returns Q o → ((a : A) → Q a → R a) → Meets R o
weaken_result Q R none held weaker = tt
weaken_result Q R (some a) held weaker = weaker a held

-- What the machine does: its allocations give what was asked for, and there is room for a sense
-- block; SG_IO meets SgLaws, the ioctl of the cards keeps the size of the data, read gives no more
-- bytes than it is asked for, and the directory of the block devices has fewer than 2 ^ 16 entries.
pub record MachineLaws {O : Type 0} (M : Machine O) : Type 0 where
  pub room : (n : ℕ) (b : List ℕ) → M.malloc n ≡ some b → length b ≡ n
  pub sense_room : (b : List ℕ) × (M.malloc 32 ≡ some b)
  pub sg : SgLaws M.sg_io
  pub mmc_kept :
      (d : Devices O) (ctx : ℕ) (q : MmcIocCmd (Option (List ℕ))) (len : ℕ)
      → Holds q.data_ptr len
      → Holds (M.mmc d ctx q).0.data_ptr len
  pub read_short :
      (os : O) (fd : Option ℕ) (n : ℕ) (bytes : List ℕ)
      → (M.calls.read os fd n).0 ≡ some bytes
      → length bytes ≤ n
  pub directories :
      (os : O) (entries : List (List ℕ × Bool))
      → (M.files os).open_directory (codes "/sys/block") ≡ some entries
      → length entries < 2 ^ 16

module _ {O : Type 0} {M : Machine O} (L : MachineLaws M) where
  os_read_room :
      (d : Devices O) (ctx : ℕ) (buffer : List ℕ) (offset len : ℕ)
      → len ≤ length buffer
      → Meets (λ x. len ≤ length x.0.buffer) (os_read M.calls d ctx buffer offset len)
  unfolding os_read
  os_read_room d ctx buffer offset len room = elim (Bool-cases (ctx == 0)) [
    | inl null ↦ rw (os_read, null) room
    | inr live ↦ elim (Option-cases (find_context ctx d.contexts)) [
      | inl stray ↦ rw (os_read, live, stray) tt
      | inr (c, found) ↦
          weaken_result (λ x. length x.0.buffer ≡ length buffer) (λ x. len ≤ length x.0.buffer)
            (os_read M.calls d ctx buffer offset len)
            (os_read_keeps_buffer M.calls (λ os fd n bytes. L.read_short os fd n bytes) d ctx c
              buffer offset len found room)
            (λ x same. omega (arith, same))
    ]
  ]

  ata-KeepsBuffer :
      {E R : Type 0} (load : List ℕ → E) (cdb : AtaCall R → List ℕ) (old : E)
      (other : Devices O → ℕ → AtaCall R → AtaResult E)
      → KeepsBuffer λ (d : Devices O) ctx (call : AtaCall R).
        let (r, d') = send_ata (send_scsi_command M.malloc M.sg_io) load cdb old d ctx call in
        (or_else r (other d ctx call), d')
  unfolding or_else
  ata-KeepsBuffer load cdb old other d ctx call held =
      let (b, got) = L.sense_room in
      let (a, runs, keeps, size) =
        send_ata_total (λ n b'. L.room n b') L.sg load cdb old b got d ctx call held in
      rw (runs, or_else) (keeps, size)

  module _ {C H : Type 0} where
    registers_hold :
        (P : Platform C (Devices O) H)
        → PlatformLaws P
        → (d : Devices O) (ctx : ℕ) → AllHold ((on_linux M P).get_sdhci_registers d ctx).0
    unfolding on_linux
    registers_hold P U d ctx =
        let U' = U.registers in
        on_path_holds AllHold (device_path_of d ctx)
          (get_sdhci_registers M.raw_block (M.files d.os)) (P.get_sdhci_registers d ctx).0
          (get_sdhci_registers-AllHold M.raw_block (M.files d.os))
          (U'.csd_holds d ctx, U'.cid_holds d ctx, U'.ocr_holds d ctx, U'.scr_holds d ctx)

    -- On a machine that meets MachineLaws: the device functions of Linux meet PlatformLaws, which
    -- the worker relies on, if what is done instead meets them where their behaviour is undefined.
    pub on_linux-PlatformLaws :
        (P : Platform C (Devices O) H) → PlatformLaws P → PlatformLaws (on_linux M P)
    unfolding on_linux send_ata_chs_command send_ata_lba28_command send_ata_lba48_command
    on_linux-PlatformLaws P U =
        let all_hold = registers_hold P U in
        record {
          lists_short = λ d.
              or_else_holds (λ ds. length ds < 2 ^ 16) (list_devices (M.files d.os))
                (P.list_devices d).0
                (list_devices_short (M.files d.os) (λ entries. L.directories d.os entries))
                (U.lists_short d);
          registers = record {
            csd_holds = λ d ctx. (all_hold d ctx).0;
            cid_holds = λ d ctx. (all_hold d ctx).1;
            ocr_holds = λ d ctx. (all_hold d ctx).2;
            scr_holds = λ d ctx. (all_hold d ctx).3;
          };
          scsi = send_scsi_command-ScsiLaws (λ n b. L.room n b) L.sg M.stale_scsi;
          ata_chs = ata-KeepsBuffer _ _ _ λ d ctx call. (P.send_ata_chs_command d ctx call).0;
          ata_lba28 = ata-KeepsBuffer _ _ _ λ d ctx call. (P.send_ata_lba28_command d ctx call).0;
          ata_lba48 = ata-KeepsBuffer _ _ _ λ d ctx call. (P.send_ata_lba48_command d ctx call).0;
          sdhci =
              send_sdhci_command-KeepsSdhciBuffer M.mmc (λ d ctx q len. L.mmc_kept d ctx q len)
                M.stale_response;
          os_read = λ d ctx buffer offset len room.
              or_else_holds (λ x. len ≤ length x.0.buffer) (os_read M.calls d ctx buffer offset len)
                (P.os_read d ctx buffer offset len) (os_read_room d ctx buffer offset len room)
                (U.os_read d ctx buffer offset len room);
        }
