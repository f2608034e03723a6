-- ===== src/Tests/Examples.antt =====
-- Runs of the cases of the switch, one for each kind of request.
use aaruremote.Common.{◌≡◌, refl, some, [], ◌∷◌, drop, arith}
use aaruremote.Protocol.Header.{load_header}
use aaruremote.Protocol.Structs.{load_cmd_scsi}
use aaruremote.Worker.Session.{initial_nop}
use aaruremote.Worker.Control.{c_string, on_close_device}
use aaruremote.Worker.Control.Answers.{on_close_device-Quiet}
use aaruremote.Worker.Transfers.{on_scsi}
use aaruremote.Worker.Transfers.Answers.{on_scsi-Served}
use aaruremote.Worker.Served.{Ensures, Served, Quiet, Request}
use aaruremote.Tests.Setup.{
  test_platform, test_net, test_alloc, test_scsi, waiting, list_devices_packet, open_packet,
  scsi_packet, ata_chs_packet, ata_lba28_packet, ata_lba48_packet, sdhci_packet, get_devtype_packet,
  get_sdhci_registers_packet, get_usb_data_packet, get_firewire_data_packet, get_pcmcia_data_packet,
  close_packet, am_i_root_packet, reopen_packet, second_hello_packet, response_packet,
  unknown_packet, osread_packet,
}

list_devices_request : Request test_net (waiting list_devices_packet) 16 list_devices_packet []
unfolding load_header initial_nop
list_devices_request = record {
  announced = refl;
  there = refl;
  size = refl;
  small = omega arith;
  is_live = refl;
  not_skipping = refl;
  nop_ready = refl;
}

open_request : Request test_net (waiting open_packet) 25 open_packet []
unfolding load_header initial_nop
open_request = record {
  announced = refl;
  there = refl;
  size = refl;
  small = omega arith;
  is_live = refl;
  not_skipping = refl;
  nop_ready = refl;
}

scsi_request : Request test_net (waiting scsi_packet) 42 scsi_packet []
unfolding load_header initial_nop
scsi_request = record {
  announced = refl;
  there = refl;
  size = refl;
  small = omega arith;
  is_live = refl;
  not_skipping = refl;
  nop_ready = refl;
}

ata_chs_request : Request test_net (waiting ata_chs_packet) 39 ata_chs_packet []
unfolding load_header initial_nop
ata_chs_request = record {
  announced = refl;
  there = refl;
  size = refl;
  small = omega arith;
  is_live = refl;
  not_skipping = refl;
  nop_ready = refl;
}

ata_lba28_request : Request test_net (waiting ata_lba28_packet) 39 ata_lba28_packet []
unfolding load_header initial_nop
ata_lba28_request = record {
  announced = refl;
  there = refl;
  size = refl;
  small = omega arith;
  is_live = refl;
  not_skipping = refl;
  nop_ready = refl;
}

ata_lba48_request : Request test_net (waiting ata_lba48_packet) 44 ata_lba48_packet []
unfolding load_header initial_nop
ata_lba48_request = record {
  announced = refl;
  there = refl;
  size = refl;
  small = omega arith;
  is_live = refl;
  not_skipping = refl;
  nop_ready = refl;
}

sdhci_request : Request test_net (waiting sdhci_packet) 47 sdhci_packet []
unfolding load_header initial_nop
sdhci_request = record {
  announced = refl;
  there = refl;
  size = refl;
  small = omega arith;
  is_live = refl;
  not_skipping = refl;
  nop_ready = refl;
}

get_devtype_request : Request test_net (waiting get_devtype_packet) 16 get_devtype_packet []
unfolding load_header initial_nop
get_devtype_request = record {
  announced = refl;
  there = refl;
  size = refl;
  small = omega arith;
  is_live = refl;
  not_skipping = refl;
  nop_ready = refl;
}

get_sdhci_registers_request :
    Request test_net (waiting get_sdhci_registers_packet) 16 get_sdhci_registers_packet []
unfolding load_header initial_nop
get_sdhci_registers_request = record {
  announced = refl;
  there = refl;
  size = refl;
  small = omega arith;
  is_live = refl;
  not_skipping = refl;
  nop_ready = refl;
}

get_usb_data_request : Request test_net (waiting get_usb_data_packet) 16 get_usb_data_packet []
unfolding load_header initial_nop
get_usb_data_request = record {
  announced = refl;
  there = refl;
  size = refl;
  small = omega arith;
  is_live = refl;
  not_skipping = refl;
  nop_ready = refl;
}

get_firewire_data_request :
    Request test_net (waiting get_firewire_data_packet) 16 get_firewire_data_packet []
unfolding load_header initial_nop
get_firewire_data_request = record {
  announced = refl;
  there = refl;
  size = refl;
  small = omega arith;
  is_live = refl;
  not_skipping = refl;
  nop_ready = refl;
}

get_pcmcia_data_request :
    Request test_net (waiting get_pcmcia_data_packet) 16 get_pcmcia_data_packet []
unfolding load_header initial_nop
get_pcmcia_data_request = record {
  announced = refl;
  there = refl;
  size = refl;
  small = omega arith;
  is_live = refl;
  not_skipping = refl;
  nop_ready = refl;
}

close_request : Request test_net (waiting close_packet) 16 close_packet []
unfolding load_header initial_nop
close_request = record {
  announced = refl;
  there = refl;
  size = refl;
  small = omega arith;
  is_live = refl;
  not_skipping = refl;
  nop_ready = refl;
}

am_i_root_request : Request test_net (waiting am_i_root_packet) 16 am_i_root_packet []
unfolding load_header initial_nop
am_i_root_request = record {
  announced = refl;
  there = refl;
  size = refl;
  small = omega arith;
  is_live = refl;
  not_skipping = refl;
  nop_ready = refl;
}

reopen_request : Request test_net (waiting reopen_packet) 16 reopen_packet []
unfolding load_header initial_nop
reopen_request = record {
  announced = refl;
  there = refl;
  size = refl;
  small = omega arith;
  is_live = refl;
  not_skipping = refl;
  nop_ready = refl;
}

second_hello_request : Request test_net (waiting second_hello_packet) 16 second_hello_packet []
unfolding load_header initial_nop
second_hello_request = record {
  announced = refl;
  there = refl;
  size = refl;
  small = omega arith;
  is_live = refl;
  not_skipping = refl;
  nop_ready = refl;
}

response_request : Request test_net (waiting response_packet) 16 response_packet []
unfolding load_header initial_nop
response_request = record {
  announced = refl;
  there = refl;
  size = refl;
  small = omega arith;
  is_live = refl;
  not_skipping = refl;
  nop_ready = refl;
}

unknown_request : Request test_net (waiting unknown_packet) 16 unknown_packet []
unfolding load_header initial_nop
unknown_request = record {
  announced = refl;
  there = refl;
  size = refl;
  small = omega arith;
  is_live = refl;
  not_skipping = refl;
  nop_ready = refl;
}

osread_request : Request test_net (waiting osread_packet) 28 osread_packet []
unfolding load_header initial_nop
osread_request = record {
  announced = refl;
  there = refl;
  size = refl;
  small = omega arith;
  is_live = refl;
  not_skipping = refl;
  nop_ready = refl;
}

on_scsi-Served_example :
    Ensures (λ _. Served test_net [] [] 6) (on_scsi test_platform (waiting scsi_packet))
unfolding load_cmd_scsi
on_scsi-Served_example =
    on_scsi-Served test_net test_alloc test_scsi scsi_request (λ e. absurd (omega (arith, e)))
      (omega arith) (omega arith)

open_path :
    c_string (drop 16 open_packet)
    ≡ some (b'/' ∷ b'd' ∷ b'e' ∷ b'v' ∷ b'/' ∷ b's' ∷ b'r' ∷ b'0' ∷ [])
unfolding c_string
open_path = refl

on_close_device-Quiet_example :
    Ensures
      (λ _ s'. Quiet test_net [] [] s' × (s'.device_ctx ≡ 0) × (s'.devices ≡ tt))
      (on_close_device test_platform (waiting close_packet))
on_close_device-Quiet_example = on_close_device-Quiet test_net test_alloc close_request
