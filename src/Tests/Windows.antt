-- ===== src/Tests/Windows.antt =====
-- Runs of GetHello and GetUsbData of Windows and of ListDevices of FreeBSD.
use aaruremote.Common.{
  ◌≡◌, refl, true, false, none, some, [], ◌∷◌, arith, length, Returns, if◌then◌else◌, ◌==◌, ◌++◌,
}
use aaruremote.Common.Bytes.{codes}
use aaruremote.Protocol.Structs.{AaruPacketHello, encode_hello, hello_size}
use aaruremote.Worker.Platform.{UsbData}
use aaruremote.Worker.Loop.Greeting.{IsHello}
use aaruremote.Freebsd.{proto_scsi}
use aaruremote.Freebsd.Listing.{DevEntry, entry_info, protocol_fields, cam_list_devices}
use aaruremote.Freebsd.Listing.Ends.{
  looked_at, listed, last_listed, ends_listed, cam_list_devices_ends,
}
use aaruremote.Win32.Hello.{Windows, greeted, windows_hello, fill_windows, kernel_version}
use aaruremote.Win32.Hello.Packet.{windows_hello-IsHello}
use aaruremote.Win32.Hello.Names.{ten, sold_as, Tells, Holds, code_flag, fill_windows-Named}
use aaruremote.Win32.Usb.{UsbHub, UsbSystem, UsbDeviceDescriptor}
use aaruremote.Win32.Usb.Tree.{get_host_controllers}
use aaruremote.Win32.Usb.Tree.Search.{search_hub_nothing}
use aaruremote.Win32.Usb.Tree.{search_hub}
use aaruremote.Win32.Listing.{split_model}
use aaruremote.Win32.Listing.Models.{split_model-joins}
use aaruremote.Win32.Usb.Tree.Controllers.{numbered, get_host_controllers_lem}
use aaruremote.Win32.Usb.Disks.{get_usb_data}
use aaruremote.Win32.Usb.Disks.Answers.{get_usb_data_lem}

-- A workstation of version 10.0.19041, which GetVersionEx takes for 6.2.
abbrev workstation : Windows
workstation = record {
  version = record { platform_id = 2; major = 6; minor = 2; build = 9200; csd_version = [] };
  product_type = 1;
  suite_mask = 256;
  architecture = 9;
  server_r2 = 0;
  version_size = 1984;
  version_room = true;
  file_version = some (record { product_ms = 655360; product_ls = 1247870976 });
}

windows_hello-IsHello_example :
    (p : AaruPacketHello) × (windows_hello workstation true ≡ greeted p)
    × (length (encode_hello p) ≡ hello_size)
    × IsHello (encode_hello p)
windows_hello-IsHello_example = windows_hello-IsHello workstation (omega arith)

fill_windows-Named_example :
    Returns (λ p. p.sysname ≡ codes "Windows Server 2016") (fill_windows workstation)
unfolding codes sold_as Tells kernel_version Holds code_flag
fill_windows-Named_example =
    fill_windows-Named workstation ten refl refl (refl, (_, refl, refl)) (omega arith)

abbrev some_hub : UsbHub
some_hub = record {
  hub_is_root_hub = false;
  hub_device_desc = [];
  hub_device_path = [];
  hub_is_bus_powered = false;
  hub_port_count = 0;
  instance_id = [];
  manufacturer = [];
  product = [];
  serial_number = [];
  driver_key = [];
}

-- Two host controllers and two disks that cannot be looked at.
abbrev bare_windows : UsbSystem
bare_windows = record {
  room = λ b. true;
  interfaces = λ class. some (none ∷ none ∷ []);
  opens = λ path. false;
  opens_for_query = λ path. true;
  storage_device_number = λ path. some (7, 1);
  root_hub_name = λ path. false;
  node_information = λ path. none;
  node_connection = λ path i. none;
  node_connection_name = λ path i. none;
  descriptor = λ path i request. none;
  stale_hub = some_hub;
  wide = λ text. text;
}

abbrev no_data : UsbData
no_data = record {
  is_usb = 0;
  desc_len = 0;
  descriptors = [];
  id_vendor = 0;
  id_product = 0;
  manufacturer = [];
  product = [];
  serial = [];
}

get_usb_data_lem_example :
    get_usb_data bare_windows 3 (some (92 ∷ 65 ∷ [])) no_data ≡ some (no_data, some (92 ∷ 65 ∷ []))
get_usb_data_lem_example = get_usb_data_lem bare_windows 3 (92 ∷ []) 65 no_data refl refl

get_host_controllers_lem_example :
    get_host_controllers bare_windows ≡ some (some (numbered 0 (none ∷ none ∷ [])))
get_host_controllers_lem_example =
    get_host_controllers_lem bare_windows (none ∷ none ∷ []) refl refl refl

-- A SCSI disk, and an entry that cannot be opened.
abbrev pass0 : DevEntry
unfolding codes
pass0 = record {
  name = codes "pass0";
  room = true;
  answer = some (record {
    protocol = proto_scsi;
    serial_num = codes "S1";
    serial_num_len = 2;
    sim_name = codes "umass-sim";
    ident_model = [];
    ident_serial = [];
    inq_vendor = codes "ACME";
    inq_product = codes "Disk";
  });
}

abbrev pass1 : DevEntry
unfolding codes
pass1 = record { name = codes "pass1"; room = true; answer = none }

cam_list_devices_ends_example : cam_list_devices (some (pass0 ∷ pass1 ∷ pass0 ∷ [])) ≡ (
    if ends_listed (looked_at (pass0 ∷ pass1 ∷ pass0 ∷ []))
    then some (listed (looked_at (pass0 ∷ pass1 ∷ pass0 ∷ [])))
    else none)
unfolding pass0 pass1
cam_list_devices_ends_example =
    cam_list_devices_ends (pass0 ∷ pass1 ∷ pass0 ∷ []) (refl, (refl, (refl, tt)))

-- The two disks are listed, and the entry between them is not.
two_disks_listed :
    ends_listed (looked_at (pass0 ∷ pass1 ∷ pass0 ∷ [])) ≡ true
    × (length (listed (looked_at (pass0 ∷ pass1 ∷ pass0 ∷ []))) ≡ 2)
unfolding ends_listed looked_at last_listed listed entry_info protocol_fields codes
two_disks_listed = (refl, refl)

-- A hub that can be opened, with another hub at its first port and a device at its second.
abbrev blank_descriptor : UsbDeviceDescriptor
blank_descriptor = record {
  b_length = 0;
  b_descriptor_type = 0;
  bcd_usb = 0;
  b_device_class = 0;
  b_device_sub_class = 0;
  b_device_protocol = 0;
  b_max_packet_size0 = 0;
  id_vendor = 0;
  id_product = 0;
  bcd_device = 0;
  i_manufacturer = 0;
  i_product = 0;
  i_serial_number = 0;
  b_num_configurations = 0;
}

abbrev windows_with_hub : UsbSystem
windows_with_hub = record bare_windows {
  opens = λ path. true;
  node_connection = λ path i. some record {
    device_descriptor = blank_descriptor;
    speed = 2;
    device_is_hub = i == 1;
    connection_status = 1;
  };
}

abbrev two_ports : UsbHub
two_ports = record some_hub { hub_port_count = 2 }

search_hub_nothing_example : search_hub windows_with_hub (codes "USB") 2 two_ports ≡ some none
search_hub_nothing_example = search_hub_nothing windows_with_hub (codes "USB") 1 two_ports

split_model-joins_example :
    let q = split_model true [] (codes "SanDisk Ultra USB") in
    q.0 ++ 32 ∷ q.1 ≡ codes "SanDisk Ultra USB"
unfolding codes
split_model-joins_example =
    split_model-joins (codes "SanDisk Ultra USB") (codes "SanDisk") (omega arith) refl
