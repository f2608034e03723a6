-- ===== src/Win32/Usb.antt =====
-- win32/usb.h: the structures of the USB tree, and what win32/usb.c asks Windows for. A function that
-- reads or writes outside an object gives `none`; a NULL pointer is `none` inside of that.
pub mod Tree
pub mod Disks
use aaruremote.Common.{ℕ, Bool, Option, none, some, List}

-- The blocks that are allocated.
pub data Block : Type 0 where
  detail_block controllers_block hub_block hub_name_block ports_block : Block
  device_block request_block node_name_block instance_block guids_block : Block

pub record UsbController : Type 0 where
  pub controller_index : ℕ
  pub controller_device_path : List ℕ
  pub controller_device_desc : List ℕ
  pub controller_driver_key_name : List ℕ

pub record UsbHub : Type 0 where
  pub hub_is_root_hub : Bool
  pub hub_device_desc : List ℕ
  pub hub_device_path : List ℕ
  pub hub_is_bus_powered : Bool
  pub hub_port_count : ℕ
  pub instance_id : List ℕ
  pub manufacturer : List ℕ
  pub product : List ℕ
  pub serial_number : List ℕ
  pub driver_key : List ℕ

pub record UsbDeviceDescriptor : Type 0 where
  pub b_length : ℕ
  pub b_descriptor_type : ℕ
  pub bcd_usb : ℕ
  pub b_device_class : ℕ
  pub b_device_sub_class : ℕ
  pub b_device_protocol : ℕ
  pub b_max_packet_size0 : ℕ
  pub id_vendor : ℕ
  pub id_product : ℕ
  pub bcd_device : ℕ
  pub i_manufacturer : ℕ
  pub i_product : ℕ
  pub i_serial_number : ℕ
  pub b_num_configurations : ℕ

pub record UsbDevice : Type 0 where
  pub instance_id : List ℕ
  pub manufacturer : List ℕ
  pub product : List ℕ
  pub serial_number : List ℕ
  pub driver_key : List ℕ
  pub port_number : ℕ
  pub device_descriptor : UsbDeviceDescriptor
  pub hub_device_path : List ℕ
  pub binary_device_descriptors : List ℕ
  pub binary_device_descriptors_length : ℕ

pub record UsbPort : Type 0 where
  pub port_number : ℕ
  pub port_hub_device_path : List ℕ
  pub port_status : ℕ
  pub port_speed : ℕ
  pub port_is_device_connected : Bool
  pub port_is_hub : Bool
  pub port_device_descriptor : UsbDeviceDescriptor

-- The fields of USB_NODE_CONNECTION_INFORMATION_EX that are read.
pub record NodeConnection : Type 0 where
  pub device_descriptor : UsbDeviceDescriptor
  pub speed : ℕ
  pub device_is_hub : Bool
  pub connection_status : ℕ

-- The fields of USB_HUB_INFORMATION that are read.
pub record HubInformation : Type 0 where
  pub hub_is_bus_powered : Bool
  pub b_number_of_ports : ℕ

-- What SetupDiGetDeviceInterfaceDetail, SetupDiGetDeviceRegistryProperty and CM_Get_Device_ID of the
-- parent give for an interface.
pub record InterfaceDetail : Type 0 where
  pub device_path : List ℕ
  pub device_desc : Option (List ℕ)
  pub driver : Option (List ℕ)
  pub parent_id : List ℕ

-- The classes of devices that are enumerated.
pub data InterfaceClass : Type 0 where
  host_controller floppy cdrom disk tape : InterfaceClass

-- Windows: `interfaces` is SetupDiGetClassDevs with SetupDiEnumDeviceInterfaces, `none` for
-- INVALID_HANDLE_VALUE, the rest are CreateFile and the requests of DeviceIoControl on a path.
-- `stale_hub` is what a fresh block for a hub holds; `wide` is what `%ws` prints of the memory from
-- there on.
pub record UsbSystem : Type 0 where
  pub room : Block → Bool
  pub interfaces : InterfaceClass → Option (List (Option InterfaceDetail))
  pub opens : List ℕ → Bool
  pub opens_for_query : List ℕ → Bool
  pub storage_device_number : List ℕ → Option (ℕ × ℕ)
  pub root_hub_name : List ℕ → Bool
  pub node_information : List ℕ → Option HubInformation
  pub node_connection : List ℕ → ℕ → Option NodeConnection
  pub node_connection_name : List ℕ → ℕ → Option (List ℕ)
  pub descriptor : List ℕ → ℕ → ℕ → Option (List ℕ × ℕ)
  pub stale_hub : UsbHub
  pub wide : List ℕ → List ℕ
