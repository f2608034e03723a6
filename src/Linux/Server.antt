-- ===== src/Linux/Server.antt =====
-- linux/ and unix/unix.c: the device functions of Linux as the platform that worker.c is linked to.
pub mod Laws
pub mod Whole
use aaruremote.Common.{ℕ, Bool, Option, none, some, List, ◌==◌, if◌then◌else◌}
use aaruremote.Protocol.Structs.{AtaErrorRegisters, AtaErrorRegistersLba48}
use aaruremote.Worker.Platform.{Platform, AtaCall, AtaResult}
use aaruremote.Linux.Sysfs.{Files}
use aaruremote.Linux.Scsi.{SgRequest, SgReply, send_scsi_command}
use aaruremote.Linux.Ata.{send_ata_chs_command, send_ata_lba28_command, send_ata_lba48_command}
use aaruremote.Linux.Sdhci.{
  MmcIocCmd, MmcReply, send_sdhci_command, send_multi_sdhci_command, get_sdhci_registers,
}
use aaruremote.Linux.Bus.{get_usb_data, get_firewire_data, get_pcmcia_data}
use aaruremote.Linux.Device.{
  Calls, DeviceContext, Devices, find_context, device_open, device_close, reopen, os_read,
}
use aaruremote.Linux.DeviceType.{device_type_unknown, get_device_type}
use aaruremote.Linux.Listing.{list_devices}

-- The machine: the system calls, the file system that they show, the allocations of the device
-- functions, and what is in memory that they do not write.
pub record Machine (O : Type 0) : Type 0 where
  pub calls : Calls O
  pub files : O → Files
  pub malloc : ℕ → Option (List ℕ)
  pub multi_room : Devices O → ℕ → Bool
  pub sg_io : Devices O → ℕ → SgRequest → SgReply × Devices O
  pub mmc :
      Devices O → ℕ → MmcIocCmd (Option (List ℕ)) → MmcReply (Option (List ℕ)) (List ℕ) × Devices O
  pub mmc_multi :
      Devices O → ℕ → List (MmcIocCmd ℕ) → List ℕ → MmcReply (List ℕ) (List (List ℕ)) × Devices O
  pub geteuid : O → ℕ
  -- What the variables and blocks held that the functions leave alone or read too soon.
  pub stale_scsi : ℕ × ℕ
  pub stale_registers : AtaErrorRegisters
  pub stale_registers_lba48 : AtaErrorRegistersLba48
  pub stale_response : List ℕ
  pub raw_block : Option (List ℕ)

-- `AmIRoot`
unfoldable pub is_root : ℕ → ℕ
is_root uid = if uid == 0 then 1 else 0

-- `GetDeviceType` with its test for NULL.
unfoldable pub type_of_path : Files → Option (List ℕ) → Option ℕ
type_of_path files none = some device_type_unknown
type_of_path files (some path) = some (get_device_type files path)

-- The path in a context: none for NULL, and undefined for a context that is not there.
unfoldable pub device_path_of : {O : Type 0} → Devices O → ℕ → Option (Option (List ℕ))
device_path_of d ctx =
    if ctx == 0
    then some none
    else elim (find_context ctx d.contexts) [ none ↦ none | some c ↦ some (some c.device_path) ]

unfoldable pub or_else : {A : Type 0} → Option A → A → A
or_else none other = other
or_else (some a) other = a

-- A function of the path of the open device, and what is done where it is undefined.
unfoldable pub on_path :
    {A : Type 0} → Option (Option (List ℕ)) → (Option (List ℕ) → Option A) → A → A
unfolding or_else
on_path none f other = other
on_path (some p) f other = or_else (f p) other

module _ {C O H : Type 0} (M : Machine O) where
  -- The platform with the device functions of Linux, without udev. Where the behaviour of one of
  -- them is undefined, it does whatever `P` does.
  unfoldable pub on_linux : Platform C (Devices O) H → Platform C (Devices O) H
  unfolding device_path_of on_path type_of_path or_else is_root
  on_linux P = record P {
    list_devices = λ d. (or_else (list_devices (M.files d.os)) (P.list_devices d).0, d);
    device_open = λ d path.
        let (address, d') = device_open M.calls d path in ((address, M.calls.errno d'.os), d');
    device_close = λ d ctx. or_else (device_close M.calls d ctx) (P.device_close d ctx);
    get_device_type = λ d ctx. (
      on_path (device_path_of d ctx) (type_of_path (M.files d.os)) (P.get_device_type d ctx).0,
      d,
    );
    send_scsi_command = send_scsi_command M.malloc M.sg_io M.stale_scsi;
    send_ata_chs_command = λ d ctx call.
        let (r, d') =
          send_ata_chs_command (send_scsi_command M.malloc M.sg_io) M.stale_registers d ctx call in
        (or_else r (P.send_ata_chs_command d ctx call).0, d');
    send_ata_lba28_command = λ d ctx call.
        let (r, d') =
          send_ata_lba28_command (send_scsi_command M.malloc M.sg_io) M.stale_registers d ctx
            call in
        (or_else r (P.send_ata_lba28_command d ctx call).0, d');
    send_ata_lba48_command = λ d ctx call.
        let (r, d') =
          send_ata_lba48_command (send_scsi_command M.malloc M.sg_io) M.stale_registers_lba48 d ctx
            call in
        (or_else r (P.send_ata_lba48_command d ctx call).0, d');
    send_sdhci_command = send_sdhci_command M.mmc M.stale_response;
    send_multi_sdhci_command =
        send_multi_sdhci_command M.multi_room (λ d. M.calls.errno d.os) M.mmc_multi;
    get_sdhci_registers = λ d ctx. (
      on_path (device_path_of d ctx) (get_sdhci_registers M.raw_block (M.files d.os))
          (P.get_sdhci_registers d ctx).0,
      d,
    );
    get_usb_data = λ d ctx.
        (on_path (device_path_of d ctx) (get_usb_data (M.files d.os)) (P.get_usb_data d ctx).0, d);
    get_firewire_data = λ d ctx. (
      on_path (device_path_of d ctx) (get_firewire_data (M.files d.os))
          (P.get_firewire_data d ctx).0,
      d,
    );
    get_pcmcia_data = λ d ctx. (
      on_path (device_path_of d ctx) (get_pcmcia_data (M.files d.os)) (P.get_pcmcia_data d ctx).0,
      d,
    );
    am_i_root = λ d. (is_root (M.geteuid d.os), d);
    reopen = λ d ctx. or_else (reopen M.calls d ctx) (P.reopen d ctx);
    os_read = λ d ctx buffer offset len.
        or_else (os_read M.calls d ctx buffer offset len) (P.os_read d ctx buffer offset len);
  }
