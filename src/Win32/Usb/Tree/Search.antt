-- ===== src/Win32/Usb/Tree/Search.antt =====
-- win32/usb.c: what the search for a device in the tree of hubs finds.
use aaruremote.Common.{
  ℕ, suc, ◌≡◌, refl, Option, none, some, List, [], ◌∷◌, Bool-cases, Meets, inl, inr, Option-cases,
  elim_both,
}
use aaruremote.Win32.Usb.{UsbHub, UsbDevice, UsbPort, UsbController, UsbSystem}
use aaruremote.Win32.Usb.Tree.{
  get_port_hub, get_port_device, get_hub_ports, search_ports, search_hub, search_controllers,
  get_root_hub, get_host_controllers, find_device_by_instance_id,
}

-- GetPortHub gives nothing on a port that is a hub, and GetPortDevice on one that a device is
-- connected to, which are the ports that they are called for.
search_ports_nothing :
    (m : UsbSystem) (child_search : UsbHub → Option (Option UsbDevice)) (id : List ℕ)
    (found : Option UsbDevice) (ports : List UsbPort)
    → search_ports m child_search id found ports ≡ some found
unfolding search_ports get_port_hub get_port_device
search_ports_nothing m child_search id found [] = refl
search_ports_nothing m child_search id found (port ∷ ports) =
    let rest = search_ports_nothing m child_search id found ports in
    elim (Bool-cases port.port_is_hub) [
      | inl hub ↦ rw hub rest
      | inr device ↦ elim (Bool-cases port.port_is_device_connected) [
        | inl connected ↦ rw (device, connected) rest
        | inr empty ↦ rw (device, empty) rest
      ]
    ]

-- Whatever is connected to a hub, and with any fuel above 0: SearchHubInstanceId ends without
-- undefined behaviour and finds no device.
pub search_hub_nothing :
    (m : UsbSystem) (id : List ℕ) (fuel : ℕ) (hub : UsbHub)
    → search_hub m id (suc fuel) hub ≡ some none
unfolding search_hub
search_hub_nothing m id fuel hub = elim (Option-cases (get_hub_ports m hub)) [
  | inl closed ↦ rw (search_hub, closed) refl
  | inr (ports, e) ↦
      rw (search_hub, e) (search_ports_nothing m (search_hub m id fuel) id none ports)
]

search_controllers_nothing :
    (m : UsbSystem) (id : List ℕ) (fuel : ℕ) (cs : List UsbController)
    → Meets (λ d. d ≡ none) (search_controllers m id (suc fuel) cs)
unfolding search_controllers
search_controllers_nothing m id fuel [] = refl
search_controllers_nothing m id fuel (c ∷ cs) =
    elim_both (Meets (λ d. d ≡ none)) (get_root_hub m c) none _ tt (λ root.
      elim (Option-cases root) [
        | inl e ↦ rw e (search_controllers_nothing m id fuel cs)
        | inr (hub, e) ↦
            rw (e, search_hub_nothing m id fuel hub) (search_controllers_nothing m id fuel cs)
      ])

pub find_device_by_instance_id_nothing :
    (m : UsbSystem) (fuel : ℕ) (id : List ℕ)
    → Meets (λ d. d ≡ none) (find_device_by_instance_id m (suc fuel) id)
unfolding find_device_by_instance_id
find_device_by_instance_id_nothing m fuel id =
    elim_both (Meets (λ d. d ≡ none)) (get_host_controllers m) none _ tt (λ cs.
      elim_both (Meets (λ d. d ≡ none)) cs (some none) _ refl
        (λ known. search_controllers_nothing m id fuel known))
