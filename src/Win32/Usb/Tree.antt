-- ===== src/Win32/Usb/Tree.antt =====
-- win32/usb.c: the tree of host controllers, hubs and ports, and the search in it.
pub mod Search
pub mod Controllers
use aaruremote.Common.{
  ℕ, zero, suc, ◌+◌, ◌*◌, Bool, true, false, not, ◌||◌, ◌&&◌, Option, none, some, List, [], ◌∷◌,
  ◌++◌, take, drop, length, ltb, ◌==◌, if◌then◌else◌, min,
}
use aaruremote.Common.Bytes.{codes, read_at}
use aaruremote.Common.{◌>>=◌}
use aaruremote.Win32.Usb.{
  Block, detail_block, controllers_block, hub_block, hub_name_block, ports_block, device_block,
  request_block, node_name_block, UsbController, UsbHub, UsbDevice, UsbPort, NodeConnection,
  HubInformation, InterfaceDetail, UsbSystem, host_controller,
}

-- USB_BUFFER_SIZE
abbrev usb_buffer_size : ℕ
usb_buffer_size = 2048

-- A text that is copied into a zeroed array of USB_BUFFER_SIZE.
abbrev copied : List ℕ → List ℕ
copied text = take usb_buffer_size text

-- `\\.\%ws`
abbrev device_name : List ℕ → List ℕ
unfolding codes
device_name text = codes "\\\\.\\" ++ text

-- `strncmp(a, b, USB_BUFFER_SIZE) == 0`
abbrev same_text : List ℕ → List ℕ → Bool
same_text [] [] = true
same_text [] (c ∷ cs) = false
same_text (c ∷ cs) [] = false
same_text (a ∷ xs) (b ∷ ys) = a == b && same_text xs ys

-- One controller of GetHostControllers, from a zeroed structure.
unfoldable pub controller_at : ℕ → Option InterfaceDetail → UsbController
controller_at i none = record {
  controller_index = i;
  controller_device_path = [];
  controller_device_desc = [];
  controller_driver_key_name = [];
}
controller_at i (some d) = record {
  controller_index = i;
  controller_device_path = copied d.device_path;
  controller_device_desc = elim d.device_desc [ none ↦ [] | some t ↦ copied t ];
  controller_driver_key_name = elim d.driver [ none ↦ [] | some t ↦ copied t ];
}

-- The loop of GetHostControllers from index `i` on: each round clears `hostlist[i]`, of 64, before it
-- asks whether there is an interface.
unfoldable pub controllers_from :
    UsbSystem → ℕ → List (Option InterfaceDetail) → Option (List UsbController)
unfolding controller_at
controllers_from m i [] = if ltb i 64 then some [] else none
controllers_from m i (d ∷ ds) =
    let rest = controllers_from m (suc i) ds in
    if ltb i 64
    then (if m.room detail_block then (do cs ← rest; some (controller_at i d ∷ cs)) else none)
    else none

unfoldable pub get_host_controllers : UsbSystem → Option (Option (List UsbController))
unfolding controllers_from
get_host_controllers m =
    if m.room controllers_block
    then elim (m.interfaces host_controller) [
      | none ↦ some none
      | some ds ↦ do cs ← controllers_from m 0 ds; some (some cs)
    ]
    else some none

-- The part of GetRootHub and GetPortHub that asks the hub itself.
unfoldable pub with_node_information : UsbSystem → UsbHub → UsbHub
with_node_information m hub =
    if m.opens hub.hub_device_path
    then elim (m.node_information hub.hub_device_path) [
      | none ↦ hub
      | some info ↦ record hub {
        hub_is_bus_powered = info.hub_is_bus_powered;
        hub_port_count = info.b_number_of_ports;
      }
    ]
    else hub

-- GetRootHub. A request for the name that succeeds has been given the address of the pointer and not
-- of the block, so that it writes over the variables of the function.
unfoldable pub get_root_hub : UsbSystem → UsbController → Option (Option UsbHub)
unfolding with_node_information codes
get_root_hub m controller =
    let root = record m.stale_hub {
      hub_is_root_hub = true;
      hub_device_desc = codes "Root Hub" ++ drop 8 m.stale_hub.hub_device_desc;
    } in
    if m.room hub_block
    then (if m.opens controller.controller_device_path
        then (if m.room hub_name_block
            then (if m.root_hub_name controller.controller_device_path
                then none
                else some (some (with_node_information m root)))
            else none)
        else some (some root))
    else some none

unfoldable pub port_at : UsbHub → ℕ → NodeConnection → UsbPort
port_at hub i c = record {
  port_number = i;
  port_hub_device_path = copied hub.hub_device_path;
  port_status = c.connection_status;
  port_speed = c.speed;
  port_is_device_connected = c.connection_status == 1;
  port_is_hub = c.device_is_hub;
  port_device_descriptor = c.device_descriptor;
}

-- The loop of GetHubPorts, `k` ports from number `i` on.
unfoldable pub ports_from : UsbSystem → UsbHub → ℕ → ℕ → List UsbPort
unfolding port_at
ports_from m hub zero i = []
ports_from m hub (suc k) i =
    let rest = ports_from m hub k (suc i) in
    elim (m.node_connection hub.hub_device_path i) [ none ↦ rest | some c ↦ port_at hub i c ∷ rest ]

unfoldable pub get_hub_ports : UsbSystem → UsbHub → Option (List UsbPort)
unfolding ports_from
get_hub_ports m hub =
    if m.opens hub.hub_device_path
    then (if m.room ports_block then some (ports_from m hub hub.hub_port_count 1) else none)
    else none

-- A string of GetPortDevice: a request block of 12 bytes and 2052 behind them, of which the pointer
-- arithmetic skips 12 times 12, and the two bytes in front of the string.
unfoldable pub string_descriptor : UsbSystem → UsbPort → ℕ → Option (List ℕ)
string_descriptor m port index =
    if index == 0
    then some []
    else if m.room request_block
    then elim (m.descriptor port.port_hub_device_path port.port_number (3 * 256 + index)) [
      | none ↦ some []
      | some (block, returned) ↦ some (m.wide (drop 146 block))
    ]
    else none

-- The copy of the descriptors, as many bytes as were returned, from the same place.
unfoldable pub binary_descriptors : UsbSystem → UsbPort → Option (List ℕ × ℕ)
binary_descriptors m port =
    if m.room request_block
    then elim (m.descriptor port.port_hub_device_path port.port_number (3 * 256)) [
      | none ↦ some ([], 0)
      | some (block, returned) ↦ do
        bytes ← read_at block 144 (min returned usb_buffer_size)
        some (bytes, min returned usb_buffer_size)
    ]
    else none

unfoldable pub get_port_device : UsbSystem → UsbPort → Option (Option UsbDevice)
unfolding string_descriptor binary_descriptors
get_port_device m port =
    let device : UsbDevice = record {
      instance_id = [];
      manufacturer = [];
      product = [];
      serial_number = [];
      driver_key = [];
      port_number = port.port_number;
      device_descriptor = port.port_device_descriptor;
      hub_device_path = copied port.port_hub_device_path;
      binary_device_descriptors = [];
      binary_device_descriptors_length = 0;
    } in
    if port.port_is_device_connected
    then some none
    else if m.room device_block
    then (if m.opens port.port_hub_device_path
        then (do
          manufacturer ← string_descriptor m port port.port_device_descriptor.i_manufacturer
          product ← string_descriptor m port port.port_device_descriptor.i_product
          serial_number ← string_descriptor m port port.port_device_descriptor.i_serial_number
          (bytes, size) ← binary_descriptors m port
          some (
              some (record device {
                manufacturer = manufacturer;
                product = product;
                serial_number = serial_number;
                binary_device_descriptors = bytes;
                binary_device_descriptors_length = size;
              })))
        else some (some device))
    else some none

-- The texts of GetPortHub that are those of the device on the port.
unfoldable pub with_device : UsbHub → Option UsbDevice → UsbHub
with_device hub none = hub
with_device hub (some d) = record hub {
  instance_id = d.instance_id;
  manufacturer = d.manufacturer;
  product = d.product;
  serial_number = d.serial_number;
  driver_key = d.driver_key;
}

unfoldable pub get_port_hub : UsbSystem → UsbPort → Option (Option UsbHub)
unfolding with_node_information get_port_device with_device codes
get_port_hub m port =
    let hub = record m.stale_hub {
      hub_is_root_hub = false;
      hub_device_desc = codes "External Hub" ++ drop 12 m.stale_hub.hub_device_desc;
    } in
    if port.port_is_hub || not (m.room node_name_block)
    then some none
    else if m.room hub_block
    then (if m.opens port.port_hub_device_path
        then (do
          device ← get_port_device m port
          some (
              some (
                with_device
                  (with_node_information m
                    (elim (m.node_connection_name port.port_hub_device_path port.port_number) [
                      | none ↦ hub
                      | some name ↦ record hub { hub_device_path = device_name name }
                    ]))
                  device)))
        else some (some hub))
    else some none

-- The loop of SearchHubInstanceId over the ports, where `search` is the call on a child hub. A child
-- hub sets what was found anew, and the loop goes on behind it.
unfoldable pub search_ports :
    UsbSystem
    → (UsbHub → Option (Option UsbDevice))
    → List ℕ
    → Option UsbDevice
    → List UsbPort
    → Option (Option UsbDevice)
unfolding get_port_hub get_port_device
search_ports m search id found [] = some found
search_ports m search id found (port ∷ ports) =
    if port.port_is_hub
    then (do
      child ← get_port_hub m port
      elim child [
        | none ↦ search_ports m search id found ports
        | some hub ↦ do below ← search hub; search_ports m search id below ports
      ])
    else if not port.port_is_device_connected
    then search_ports m search id found ports
    else (do
      device ← get_port_device m port
      elim device [
        | none ↦ search_ports m search id found ports
        | some d ↦
            if same_text d.instance_id id
            then some (some d)
            else search_ports m search id found ports
      ])

-- SearchHubInstanceId, where the fuel is the depth of the tree of hubs.
unfoldable pub search_hub : UsbSystem → List ℕ → ℕ → UsbHub → Option (Option UsbDevice)
unfolding get_hub_ports search_ports
search_hub m id zero hub = none
search_hub m id (suc fuel) hub = elim (get_hub_ports m hub) [
  | none ↦ some none
  | some ports ↦ search_ports m (search_hub m id fuel) id none ports
]

-- The loop of FindDeviceByInstanceId. A hub that is NULL has nothing in it.
unfoldable pub search_controllers :
    UsbSystem → List ℕ → ℕ → List UsbController → Option (Option UsbDevice)
unfolding search_hub get_root_hub
search_controllers m id fuel [] = some none
search_controllers m id fuel (c ∷ cs) =
    let rest = search_controllers m id fuel cs in
    do
      root ← get_root_hub m c
      found ← elim root [ none ↦ some none | some hub ↦ search_hub m id fuel hub ]
      elim found [ none ↦ rest | some d ↦ some (some d) ]

unfoldable pub find_device_by_instance_id : UsbSystem → ℕ → List ℕ → Option (Option UsbDevice)
unfolding search_controllers get_host_controllers
find_device_by_instance_id m fuel id = do
  controllers ← get_host_controllers m
  elim controllers [ none ↦ some none | some cs ↦ search_controllers m id fuel cs ]
