-- ===== src/Tests/Setup.antt =====
-- The connection, the allocator and the device functions that the examples run on, and packets.
use aaruremote.Common.{
  ℕ, zero, suc, ◌≢◌, ◌≡◌, refl, Bool, none, some, List, [], ◌∷◌, ◌++◌, take, drop, replicate,
  if◌then◌else◌, arith, length-replicate,
}
use aaruremote.Protocol.Structs.{DeviceInfo, zero_error_registers, zero_error_registers_lba48}
use aaruremote.Worker.Platform.{Platform, untouched, null_block}
use aaruremote.Worker.Session.{Session, initial_nop}
use aaruremote.Worker.Laws.{NetLaws, AllocLaws}
use aaruremote.Worker.Queries.Registers.{RegistersLaws}
use aaruremote.Worker.Transfers.Parts.{SenseHolds}
use aaruremote.Worker.Transfers.Answers.{ScsiLaws}
use aaruremote.Worker.Loop.Dispatch.{PlatformLaws}

pub record Wire : Type 0 where
  pub to_receive : List ℕ
  pub written : List (List ℕ)

abbrev pub drive : DeviceInfo
drive = record {
  path = b'/' ∷ b's' ∷ b'r' ∷ b'0' ∷ [];
  vendor = [];
  model = [];
  serial = [];
  bus = [];
  supported = 1;
}

-- A SCSI device that leaves the caller's sense pointer as it was when no device is open, and a
-- connection on which nothing happens.
abbrev pub bare_platform : {C D : Type 0} → Platform C D (Unit {0})
bare_platform = record {
  net_recv = λ c n peek. (none, c);
  net_write = λ c b n. c;
  net_close = λ c. c;
  malloc = λ h n. (some (replicate n 0), h);
  list_devices = λ d. (drive ∷ [], d);
  device_open = λ d path. ((1, 0), d);
  device_close = λ d ctx. d;
  get_device_type = λ d ctx. (2, d);
  send_scsi_command = λ d ctx call. (
    record {
      ret = 0;
      buffer = call.buffer;
      sense_buf = elim ctx [ zero ↦ untouched | suc k ↦ null_block ];
      duration = 5;
      sense = 0;
      buf_len = call.buf_len;
      sense_len = 0;
    },
    d,
  );
  send_ata_chs_command = λ d ctx call. (
    record {
      ret = 0;
      error_registers = zero_error_registers;
      buffer = call.buffer;
      duration = 5;
      sense = 0;
      buf_len = call.buf_len;
    },
    d,
  );
  send_ata_lba28_command = λ d ctx call. (
    record {
      ret = 0;
      error_registers = zero_error_registers;
      buffer = call.buffer;
      duration = 5;
      sense = 0;
      buf_len = call.buf_len;
    },
    d,
  );
  send_ata_lba48_command = λ d ctx call. (
    record {
      ret = 0;
      error_registers = zero_error_registers_lba48;
      buffer = call.buffer;
      duration = 5;
      sense = 0;
      buf_len = call.buf_len;
    },
    d,
  );
  send_sdhci_command = λ d ctx call. (
    record {
      ret = 0;
      buffer = call.buffer;
      response = 0 ∷ 0 ∷ 0 ∷ 0 ∷ [];
      duration = 5;
      sense = 0;
    },
    d,
  );
  send_multi_sdhci_command = λ d ctx commands packet.
      (record { ret = 0; commands = commands; packet = packet; duration = 5; sense = 0 }, d);
  get_sdhci_registers = λ d ctx. (
    record {
      is_sdhci = 1;
      csd = some (replicate 16 7);
      cid = none;
      ocr = none;
      scr = none;
      csd_len = 16;
      cid_len = 0;
      ocr_len = 0;
      scr_len = 0;
    },
    d,
  );
  get_usb_data = λ d ctx. (
    record {
      is_usb = 0;
      desc_len = 0;
      descriptors = [];
      id_vendor = 0;
      id_product = 0;
      manufacturer = [];
      product = [];
      serial = [];
    },
    d,
  );
  get_firewire_data = λ d ctx. (
    record { is_firewire = 0; id_model = 0; id_vendor = 0; guid = 0; vendor = []; model = [] },
    d,
  );
  get_pcmcia_data = λ d ctx. (record { is_pcmcia = 0; cis_len = 0; cis = [] }, d);
  am_i_root = λ d. (1, d);
  reopen = λ d ctx. (record { ret = 0; close_failed = 0 }, d);
  os_read = λ d ctx buffer offset len. (record { ret = 0; buffer = buffer; duration = 5 }, d);
}

abbrev pub test_platform : Platform Wire (Unit {0}) (Unit {0})
test_platform = record bare_platform {
  net_recv = λ c n peek. (
    some (take n c.to_receive),
    if peek then c else record c { to_receive = drop n c.to_receive },
  );
  net_write = λ c b n. record c { written = c.written ++ take n b ∷ [] };
  net_close = λ c. c;
}

pub recv_keeps :
    (c : Wire) (n : ℕ) (peek : Bool) → (test_platform.net_recv c n peek).1.written ≡ c.written
recv_keeps c n Bool.true = refl
recv_keeps c n Bool.false = refl

abbrev pub test_net : NetLaws test_platform
test_net = record {
  pending = λ c. c.to_receive;
  sent = λ c. c.written;
  recv_bytes = λ c n small. refl;
  peek_bytes = λ c n small whole. refl;
  recv_pending = λ c n small. refl;
  peek_pending = λ c n small. refl;
  recv_sent = λ c n peek. recv_keeps c n peek;
  write_pending = λ c b n. refl;
  write_sent = λ c b n whole small. refl;
  close_sent = λ c. refl;
}

abbrev pub bare_alloc : {C D : Type 0} → AllocLaws (bare_platform {C = C} {D = D})
bare_alloc = record {
  fresh = λ h n. replicate n 0;
  fresh_size = λ h n. length-replicate {A = ℕ} n 0;
  malloc_succeeds = λ h n. refl;
}

abbrev pub test_alloc : AllocLaws test_platform
test_alloc = record {
  fresh = λ h n. replicate n 0;
  fresh_size = λ h n. length-replicate {A = ℕ} n 0;
  malloc_succeeds = λ h n. refl;
}

sense_kept : (ctx : ℕ) → ctx ≢ 0 → SenseHolds (elim ctx [ zero ↦ untouched | suc k ↦ null_block ]) 0
sense_kept zero h = h refl
sense_kept (suc k) h = tt

pub test_scsi : ScsiLaws test_platform.send_scsi_command
test_scsi = record {
  sense_holds = λ d ctx call open_device. sense_kept ctx open_device;
  sense_small = λ d ctx call. omega arith;
  buffer_holds = λ d ctx call h. (h, omega arith);
}

pub test_registers : RegistersLaws test_platform
test_registers = record {
  csd_holds = λ d ctx. omega arith;
  cid_holds = λ d ctx. tt;
  ocr_holds = λ d ctx. tt;
  scr_holds = λ d ctx. tt;
}

pub bare_laws : {C D : Type 0} → PlatformLaws (bare_platform {C = C} {D = D})
bare_laws = record {
  lists_short = λ d. omega arith;
  registers = record {
    csd_holds = λ d ctx. omega arith;
    cid_holds = λ d ctx. tt;
    ocr_holds = λ d ctx. tt;
    scr_holds = λ d ctx. tt;
  };
  scsi = record {
    sense_holds = λ d ctx call open_device. sense_kept ctx open_device;
    sense_small = λ d ctx call. omega arith;
    buffer_holds = λ d ctx call h. (h, omega arith);
  };
  ata_chs = λ d ctx call h. (h, omega arith);
  ata_lba28 = λ d ctx call h. (h, omega arith);
  ata_lba48 = λ d ctx call h. (h, omega arith);
  sdhci = λ d ctx call h. h;
  os_read = λ d ctx buffer offset len h. h;
}

pub test_laws : PlatformLaws test_platform
test_laws = record {
  lists_short = λ d. omega arith;
  registers = test_registers;
  scsi = test_scsi;
  ata_chs = λ d ctx call h. (h, omega arith);
  ata_lba28 = λ d ctx call h. (h, omega arith);
  ata_lba48 = λ d ctx call h. (h, omega arith);
  sdhci = λ d ctx call h. h;
  os_read = λ d ctx buffer offset len h. h;
}

-- The state with these bytes to come from the client, in front of the loop.
abbrev pub waiting : List ℕ → Session Wire (Unit {0}) (Unit {0})
waiting bytes = record {
  conn = record { to_receive = bytes; written = [] };
  devices = tt;
  heap = tt;
  pkt_hdr = take 16 bytes;
  client_live = Bool.true;
  device_ctx = 1;
  pkt_nop = initial_nop;
  skip_next_hdr = Bool.false;
  sense_buf_null = Bool.false;
}

abbrev pub list_devices_packet : List ℕ
list_devices_packet = 68 ∷ 73 ∷ 67 ∷ 82 ∷ 80 ∷ 67 ∷ 75 ∷ 84 ∷ 16 ∷ 0 ∷ 0 ∷ 0 ∷ 1 ∷ 2 ∷ 0 ∷ 0 ∷ []

abbrev pub open_packet : List ℕ
open_packet =
    68 ∷ 73 ∷ 67 ∷ 82 ∷ 80 ∷ 67 ∷ 75 ∷ 84 ∷ 25 ∷ 0 ∷ 0 ∷ 0 ∷ 1 ∷ 4 ∷ 0 ∷ 0 ∷ 47 ∷ 100 ∷ 101 ∷ 118
    ∷ 47 ∷ 115 ∷ 114 ∷ 48 ∷ 0 ∷ []

abbrev pub scsi_packet : List ℕ
scsi_packet =
    68 ∷ 73 ∷ 67 ∷ 82 ∷ 80 ∷ 67 ∷ 75 ∷ 84 ∷ 42 ∷ 0 ∷ 0 ∷ 0 ∷ 1 ∷ 5 ∷ 0 ∷ 0 ∷ 6 ∷ 0 ∷ 0 ∷ 0 ∷ 4 ∷ 0
    ∷ 0 ∷ 0 ∷ 2 ∷ 0 ∷ 0 ∷ 0 ∷ 232 ∷ 3 ∷ 0 ∷ 0 ∷ 18 ∷ 0 ∷ 0 ∷ 0 ∷ 4 ∷ 0 ∷ 1 ∷ 2 ∷ 3 ∷ 4 ∷ []

abbrev pub ata_chs_packet : List ℕ
ata_chs_packet =
    68 ∷ 73 ∷ 67 ∷ 82 ∷ 80 ∷ 67 ∷ 75 ∷ 84 ∷ 39 ∷ 0 ∷ 0 ∷ 0 ∷ 1 ∷ 7 ∷ 0 ∷ 0 ∷ 4 ∷ 0 ∷ 0 ∷ 0 ∷ 0 ∷ 0
    ∷ 0 ∷ 0 ∷ 0 ∷ 0 ∷ 0 ∷ 0 ∷ 0 ∷ 0 ∷ 0 ∷ 0 ∷ 0 ∷ 0 ∷ 0 ∷ 1 ∷ 2 ∷ 3 ∷ 4 ∷ []

abbrev pub ata_lba28_packet : List ℕ
ata_lba28_packet =
    68 ∷ 73 ∷ 67 ∷ 82 ∷ 80 ∷ 67 ∷ 75 ∷ 84 ∷ 39 ∷ 0 ∷ 0 ∷ 0 ∷ 1 ∷ 9 ∷ 0 ∷ 0 ∷ 4 ∷ 0 ∷ 0 ∷ 0 ∷ 0 ∷ 0
    ∷ 0 ∷ 0 ∷ 0 ∷ 0 ∷ 0 ∷ 0 ∷ 0 ∷ 0 ∷ 0 ∷ 0 ∷ 0 ∷ 0 ∷ 0 ∷ 1 ∷ 2 ∷ 3 ∷ 4 ∷ []

abbrev pub ata_lba48_packet : List ℕ
ata_lba48_packet =
    68 ∷ 73 ∷ 67 ∷ 82 ∷ 80 ∷ 67 ∷ 75 ∷ 84 ∷ 44 ∷ 0 ∷ 0 ∷ 0 ∷ 1 ∷ 11 ∷ 0 ∷ 0 ∷ 4 ∷ 0 ∷ 0 ∷ 0 ∷ 0 ∷ 0
    ∷ 0 ∷ 0 ∷ 0 ∷ 0 ∷ 0 ∷ 0 ∷ 0 ∷ 0 ∷ 0 ∷ 0 ∷ 0 ∷ 0 ∷ 0 ∷ 0 ∷ 0 ∷ 0 ∷ 0 ∷ 0 ∷ 1 ∷ 2 ∷ 3 ∷ 4 ∷ []

abbrev pub sdhci_packet : List ℕ
sdhci_packet =
    68 ∷ 73 ∷ 67 ∷ 82 ∷ 80 ∷ 67 ∷ 75 ∷ 84 ∷ 47 ∷ 0 ∷ 0 ∷ 0 ∷ 1 ∷ 13 ∷ 0 ∷ 0 ∷ 17 ∷ 0 ∷ 0 ∷ 0 ∷ 0 ∷ 0
    ∷ 0 ∷ 0 ∷ 0 ∷ 0 ∷ 0 ∷ 0 ∷ 0 ∷ 0 ∷ 0 ∷ 0 ∷ 0 ∷ 0 ∷ 0 ∷ 4 ∷ 0 ∷ 0 ∷ 0 ∷ 0 ∷ 0 ∷ 0 ∷ 0 ∷ 1 ∷ 2 ∷ 3
    ∷ 4 ∷ []

abbrev pub get_devtype_packet : List ℕ
get_devtype_packet = 68 ∷ 73 ∷ 67 ∷ 82 ∷ 80 ∷ 67 ∷ 75 ∷ 84 ∷ 16 ∷ 0 ∷ 0 ∷ 0 ∷ 1 ∷ 15 ∷ 0 ∷ 0 ∷ []

abbrev pub get_sdhci_registers_packet : List ℕ
get_sdhci_registers_packet =
    68 ∷ 73 ∷ 67 ∷ 82 ∷ 80 ∷ 67 ∷ 75 ∷ 84 ∷ 16 ∷ 0 ∷ 0 ∷ 0 ∷ 1 ∷ 17 ∷ 0 ∷ 0 ∷ []

abbrev pub get_usb_data_packet : List ℕ
get_usb_data_packet = 68 ∷ 73 ∷ 67 ∷ 82 ∷ 80 ∷ 67 ∷ 75 ∷ 84 ∷ 16 ∷ 0 ∷ 0 ∷ 0 ∷ 1 ∷ 19 ∷ 0 ∷ 0 ∷ []

abbrev pub get_firewire_data_packet : List ℕ
get_firewire_data_packet =
    68 ∷ 73 ∷ 67 ∷ 82 ∷ 80 ∷ 67 ∷ 75 ∷ 84 ∷ 16 ∷ 0 ∷ 0 ∷ 0 ∷ 1 ∷ 21 ∷ 0 ∷ 0 ∷ []

abbrev pub get_pcmcia_data_packet : List ℕ
get_pcmcia_data_packet =
    68 ∷ 73 ∷ 67 ∷ 82 ∷ 80 ∷ 67 ∷ 75 ∷ 84 ∷ 16 ∷ 0 ∷ 0 ∷ 0 ∷ 1 ∷ 23 ∷ 0 ∷ 0 ∷ []

abbrev pub close_packet : List ℕ
close_packet = 68 ∷ 73 ∷ 67 ∷ 82 ∷ 80 ∷ 67 ∷ 75 ∷ 84 ∷ 16 ∷ 0 ∷ 0 ∷ 0 ∷ 1 ∷ 25 ∷ 0 ∷ 0 ∷ []

abbrev pub am_i_root_packet : List ℕ
am_i_root_packet = 68 ∷ 73 ∷ 67 ∷ 82 ∷ 80 ∷ 67 ∷ 75 ∷ 84 ∷ 16 ∷ 0 ∷ 0 ∷ 0 ∷ 1 ∷ 26 ∷ 0 ∷ 0 ∷ []

abbrev pub reopen_packet : List ℕ
reopen_packet = 68 ∷ 73 ∷ 67 ∷ 82 ∷ 80 ∷ 67 ∷ 75 ∷ 84 ∷ 16 ∷ 0 ∷ 0 ∷ 0 ∷ 1 ∷ 30 ∷ 0 ∷ 0 ∷ []

abbrev pub second_hello_packet : List ℕ
second_hello_packet = 68 ∷ 73 ∷ 67 ∷ 82 ∷ 80 ∷ 67 ∷ 75 ∷ 84 ∷ 16 ∷ 0 ∷ 0 ∷ 0 ∷ 1 ∷ 1 ∷ 0 ∷ 0 ∷ []

abbrev pub response_packet : List ℕ
response_packet = 68 ∷ 73 ∷ 67 ∷ 82 ∷ 80 ∷ 67 ∷ 75 ∷ 84 ∷ 16 ∷ 0 ∷ 0 ∷ 0 ∷ 1 ∷ 6 ∷ 0 ∷ 0 ∷ []

abbrev pub unknown_packet : List ℕ
unknown_packet = 68 ∷ 73 ∷ 67 ∷ 82 ∷ 80 ∷ 67 ∷ 75 ∷ 84 ∷ 16 ∷ 0 ∷ 0 ∷ 0 ∷ 1 ∷ 100 ∷ 0 ∷ 0 ∷ []

abbrev pub osread_packet : List ℕ
osread_packet =
    68 ∷ 73 ∷ 67 ∷ 82 ∷ 80 ∷ 67 ∷ 75 ∷ 84 ∷ 28 ∷ 0 ∷ 0 ∷ 0 ∷ 1 ∷ 31 ∷ 0 ∷ 0 ∷ 0 ∷ 8 ∷ 0 ∷ 0 ∷ 0 ∷ 0
    ∷ 0 ∷ 0 ∷ 8 ∷ 0 ∷ 0 ∷ 0 ∷ []

abbrev pub old_version_packet : List ℕ
old_version_packet = 68 ∷ 73 ∷ 67 ∷ 82 ∷ 80 ∷ 67 ∷ 75 ∷ 84 ∷ 16 ∷ 0 ∷ 0 ∷ 0 ∷ 0 ∷ 26 ∷ 0 ∷ 0 ∷ []

abbrev pub foreign_packet : List ℕ
foreign_packet = 68 ∷ 51 ∷ 34 ∷ 17 ∷ 80 ∷ 67 ∷ 75 ∷ 84 ∷ 16 ∷ 0 ∷ 0 ∷ 0 ∷ 1 ∷ 26 ∷ 0 ∷ 0 ∷ []

abbrev pub hello_packet : List ℕ
hello_packet =
    68 ∷ 73 ∷ 67 ∷ 82 ∷ 80 ∷ 67 ∷ 75 ∷ 84 ∷ 212 ∷ 3 ∷ 0 ∷ 0 ∷ 1 ∷ 1 ∷ 0 ∷ 0 ∷ replicate 964 0
