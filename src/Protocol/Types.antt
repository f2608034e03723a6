-- ===== src/Protocol/Types.antt =====
-- aaruremote.h: packet types (`int8_t`, as the byte on the wire) and reasons of the NOP packet.
use aaruremote.Common.{ℕ}

abbrev pub type_nop : ℕ
type_nop = 255

abbrev pub type_hello : ℕ
type_hello = 1

abbrev pub type_command_list_devices : ℕ
type_command_list_devices = 2

abbrev pub type_response_list_devices : ℕ
type_response_list_devices = 3

abbrev pub type_command_open_device : ℕ
type_command_open_device = 4

abbrev pub type_command_scsi : ℕ
type_command_scsi = 5

abbrev pub type_response_scsi : ℕ
type_response_scsi = 6

abbrev pub type_command_ata_chs : ℕ
type_command_ata_chs = 7

abbrev pub type_response_ata_chs : ℕ
type_response_ata_chs = 8

abbrev pub type_command_ata_lba_28 : ℕ
type_command_ata_lba_28 = 9

abbrev pub type_response_ata_lba_28 : ℕ
type_response_ata_lba_28 = 10

abbrev pub type_command_ata_lba_48 : ℕ
type_command_ata_lba_48 = 11

abbrev pub type_response_ata_lba_48 : ℕ
type_response_ata_lba_48 = 12

abbrev pub type_command_sdhci : ℕ
type_command_sdhci = 13

abbrev pub type_response_sdhci : ℕ
type_response_sdhci = 14

abbrev pub type_command_get_devtype : ℕ
type_command_get_devtype = 15

abbrev pub type_response_get_devtype : ℕ
type_response_get_devtype = 16

abbrev pub type_command_get_sdhci_registers : ℕ
type_command_get_sdhci_registers = 17

abbrev pub type_response_get_sdhci_registers : ℕ
type_response_get_sdhci_registers = 18

abbrev pub type_command_get_usb_data : ℕ
type_command_get_usb_data = 19

abbrev pub type_response_get_usb_data : ℕ
type_response_get_usb_data = 20

abbrev pub type_command_get_firewire_data : ℕ
type_command_get_firewire_data = 21

abbrev pub type_response_get_firewire_data : ℕ
type_response_get_firewire_data = 22

abbrev pub type_command_get_pcmcia_data : ℕ
type_command_get_pcmcia_data = 23

abbrev pub type_response_get_pcmcia_data : ℕ
type_response_get_pcmcia_data = 24

abbrev pub type_command_close_device : ℕ
type_command_close_device = 25

abbrev pub type_command_am_i_root : ℕ
type_command_am_i_root = 26

abbrev pub type_response_am_i_root : ℕ
type_response_am_i_root = 27

abbrev pub type_multi_command_sdhci : ℕ
type_multi_command_sdhci = 28

abbrev pub type_response_multi_sdhci : ℕ
type_response_multi_sdhci = 29

abbrev pub type_command_reopen : ℕ
type_command_reopen = 30

abbrev pub type_command_osread : ℕ
type_command_osread = 31

abbrev pub type_response_osread : ℕ
type_response_osread = 32

abbrev pub reason_ooo : ℕ
reason_ooo = 0

abbrev pub reason_not_implemented : ℕ
reason_not_implemented = 1

abbrev pub reason_not_recognized : ℕ
reason_not_recognized = 2

abbrev pub reason_error_list_devices : ℕ
reason_error_list_devices = 3

abbrev pub reason_open_ok : ℕ
reason_open_ok = 4

abbrev pub reason_open_error : ℕ
reason_open_error = 5

abbrev pub reason_reopen_ok : ℕ
reason_reopen_ok = 6

abbrev pub reason_close_error : ℕ
reason_close_error = 5
