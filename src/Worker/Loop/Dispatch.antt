-- ===== src/Worker/Loop/Dispatch.antt =====
-- worker.c: the switch of the inner loop, which requests are answered, and by what.
use aaruremote.Common.{
  sym, ap, ◌∙◌, Bool-cases, ==→eq, ℕ, ◌^◌, ◌≤◌, ◌<◌, ◌≡◌, refl, ◌⊎◌, inl, inr, true, false, some,
  List, [], ◌∷◌, length, take, drop, ◌==◌, if◌then◌else◌, arith,
}
use aaruremote.Protocol.Types
use aaruremote.Protocol.Types.{type_nop}
use aaruremote.Protocol.Structs.{DeviceInfo, field32}
use aaruremote.Worker.Platform.{Platform}
use aaruremote.Worker.Session.{Session}
use aaruremote.Worker.Laws.{NetLaws, AllocLaws}
use aaruremote.Worker.Served.{Ensures, Ensures-map, Served, Quiet, Request}
use aaruremote.Worker.Queries.Answers.{
  on_get_devtype-Served, on_am_i_root-Served, on_get_usb_data-Served, on_get_firewire_data-Served,
  on_get_pcmcia_data-Served,
}
use aaruremote.Worker.Queries.Listing.{list_answer_type, on_list_devices-Served}
use aaruremote.Worker.Queries.Registers.{RegistersLaws, on_get_sdhci_registers-Served}
use aaruremote.Worker.Transfers.Ata.{
  KeepsBuffer, KeepsSdhciBuffer, HoldsData, on_ata_chs-Served, on_ata_lba28-Served,
  on_ata_lba48-Served, on_sdhci-Served,
}
use aaruremote.Worker.Transfers.Answers.{ScsiLaws}
use aaruremote.Worker.Control.{c_string, on_response, on_unrecognized}
use aaruremote.Worker.Control.Answers.{
  KeepsReadBuffer, on_open_device-Served, on_reopen-Served, on_hello-Served, on_response-Served,
  on_unrecognized-Served, on_close_device-Quiet, on_osread-Served,
}
use aaruremote.Worker.Loop.{is_listed_response, dispatch}

-- What the worker relies on in the device functions.
pub record PlatformLaws {C D H : Type 0} (P : Platform C D H) : Type 0 where
  pub lists_short : (d : D) → length (P.list_devices d).0 < 2 ^ 16
  pub registers : RegistersLaws P
  pub scsi : ScsiLaws P.send_scsi_command
  pub ata_chs : KeepsBuffer P.send_ata_chs_command
  pub ata_lba28 : KeepsBuffer P.send_ata_lba28_command
  pub ata_lba48 : KeepsBuffer P.send_ata_lba48_command
  pub sdhci : KeepsSdhciBuffer P.send_sdhci_command
  pub os_read : KeepsReadBuffer P.os_read

-- The protocol: the type of the answer to each command. All else is answered by a NOP packet.
unfoldable pub answer_type : ℕ → ℕ
answer_type t =
    if t == Types.type_command_list_devices
    then Types.type_response_list_devices
    else if t == Types.type_command_scsi
    then Types.type_response_scsi
    else if t == Types.type_command_ata_chs
    then Types.type_response_ata_chs
    else if t == Types.type_command_ata_lba_28
    then Types.type_response_ata_lba_28
    else if t == Types.type_command_ata_lba_48
    then Types.type_response_ata_lba_48
    else if t == Types.type_command_sdhci
    then Types.type_response_sdhci
    else if t == Types.type_command_get_devtype
    then Types.type_response_get_devtype
    else if t == Types.type_command_get_sdhci_registers
    then Types.type_response_get_sdhci_registers
    else if t == Types.type_command_get_usb_data
    then Types.type_response_get_usb_data
    else if t == Types.type_command_get_firewire_data
    then Types.type_response_get_firewire_data
    else if t == Types.type_command_get_pcmcia_data
    then Types.type_response_get_pcmcia_data
    else if t == Types.type_command_am_i_root
    then Types.type_response_am_i_root
    else if t == Types.type_command_osread
    then Types.type_response_osread
    else type_nop

-- A packet of type `t`, `p`, that the server answers whatever was sent before: its data is there
-- and its path ends. SCSI commands need an open device, and the multiple SDHCI command more.
pub data Servable (p : List ℕ) (t : ℕ) : Type 0 where
  hello : t ≡ Types.type_hello → Servable p t
  list_devices : t ≡ Types.type_command_list_devices → Servable p t
  response : is_listed_response t ≡ true → Servable p t
  open_device :
      t ≡ Types.type_command_open_device
      → (path : List ℕ) → c_string (drop 16 p) ≡ some path
      → Servable p t
  get_devtype : t ≡ Types.type_command_get_devtype → Servable p t
  get_sdhci_registers : t ≡ Types.type_command_get_sdhci_registers → Servable p t
  get_usb_data : t ≡ Types.type_command_get_usb_data → Servable p t
  get_firewire_data : t ≡ Types.type_command_get_firewire_data → Servable p t
  get_pcmcia_data : t ≡ Types.type_command_get_pcmcia_data → Servable p t
  ata_chs : t ≡ Types.type_command_ata_chs → HoldsData 35 16 p (length p) → Servable p t
  ata_lba28 : t ≡ Types.type_command_ata_lba_28 → HoldsData 35 16 p (length p) → Servable p t
  ata_lba48 : t ≡ Types.type_command_ata_lba_48 → HoldsData 40 16 p (length p) → Servable p t
  sdhci : t ≡ Types.type_command_sdhci → HoldsData 43 35 p (length p) → Servable p t
  close_device : t ≡ Types.type_command_close_device → Servable p t
  am_i_root : t ≡ Types.type_command_am_i_root → Servable p t
  reopen : t ≡ Types.type_command_reopen → Servable p t
  osread :
      t ≡ Types.type_command_osread → 28 ≤ length p → field32 (take 28 p) 24 < 2 ^ 30 → Servable p t
  unrecognized : Types.type_response_osread < t → Servable p t

-- A listed response type is no other type.
not_listed :
    (t k : ℕ) → is_listed_response t ≡ true → is_listed_response k ≡ false → (t == k) ≡ false
not_listed t k listed other = elim (Bool-cases (t == k)) [
  | inl e ↦ rw e (sym listed ∙ ap is_listed_response (==→eq t k e) ∙ other)
  | inr e ↦ e
]

above : (t k : ℕ) → k < t → (t == k) ≡ false
above t k h = ground arith

listed-answer_type : (t : ℕ) → is_listed_response t ≡ true → answer_type t ≡ type_nop
unfolding answer_type is_listed_response
listed-answer_type t e =
    rw
      (
        not_listed t Types.type_command_list_devices e refl,
        not_listed t Types.type_command_scsi e refl,
        not_listed t Types.type_command_ata_chs e refl,
        not_listed t Types.type_command_ata_lba_28 e refl,
        not_listed t Types.type_command_ata_lba_48 e refl,
        not_listed t Types.type_command_sdhci e refl,
        not_listed t Types.type_command_get_devtype e refl,
        not_listed t Types.type_command_get_sdhci_registers e refl,
        not_listed t Types.type_command_get_usb_data e refl,
        not_listed t Types.type_command_get_firewire_data e refl,
        not_listed t Types.type_command_get_pcmcia_data e refl,
        not_listed t Types.type_command_am_i_root e refl,
        not_listed t Types.type_command_osread e refl,
      )
      refl

above-answer_type : (t : ℕ) → Types.type_response_osread < t → answer_type t ≡ type_nop
unfolding answer_type
above-answer_type t e =
    rw
      (
        above t Types.type_command_list_devices (omega (arith, e)),
        above t Types.type_command_scsi (omega (arith, e)),
        above t Types.type_command_ata_chs (omega (arith, e)),
        above t Types.type_command_ata_lba_28 (omega (arith, e)),
        above t Types.type_command_ata_lba_48 (omega (arith, e)),
        above t Types.type_command_sdhci (omega (arith, e)),
        above t Types.type_command_get_devtype (omega (arith, e)),
        above t Types.type_command_get_sdhci_registers (omega (arith, e)),
        above t Types.type_command_get_usb_data (omega (arith, e)),
        above t Types.type_command_get_firewire_data (omega (arith, e)),
        above t Types.type_command_get_pcmcia_data (omega (arith, e)),
        above t Types.type_command_am_i_root (omega (arith, e)),
        above t Types.type_command_osread (omega (arith, e)),
      )
      refl

module _ {C D H : Type 0} (P : Platform C D H) where
  dispatch_listed : (t : ℕ) → is_listed_response t ≡ true → dispatch P t ≡ on_response P
  unfolding dispatch is_listed_response
  dispatch_listed t e =
      rw
        (
          not_listed t Types.type_hello e refl,
          not_listed t Types.type_command_list_devices e refl,
          e,
        )
        refl

  dispatch_above : (t : ℕ) → Types.type_response_osread < t → dispatch P t ≡ on_unrecognized P
  unfolding dispatch is_listed_response
  dispatch_above t e =
      rw
        (
          above t Types.type_hello (omega (arith, e)),
          above t Types.type_command_list_devices (omega (arith, e)),
          above t Types.type_command_close_device (omega (arith, e)),
          above t Types.type_command_scsi (omega (arith, e)),
          above t Types.type_command_ata_chs (omega (arith, e)),
          above t Types.type_command_ata_lba_28 (omega (arith, e)),
          above t Types.type_command_ata_lba_48 (omega (arith, e)),
          above t Types.type_command_sdhci (omega (arith, e)),
          above t Types.type_command_get_devtype (omega (arith, e)),
          above t Types.type_command_get_sdhci_registers (omega (arith, e)),
          above t Types.type_command_get_usb_data (omega (arith, e)),
          above t Types.type_command_get_firewire_data (omega (arith, e)),
          above t Types.type_command_get_pcmcia_data (omega (arith, e)),
          above t Types.type_command_am_i_root (omega (arith, e)),
          above t Types.type_command_osread (omega (arith, e)),
          above t Types.type_command_open_device (omega (arith, e)),
          above t Types.type_multi_command_sdhci (omega (arith, e)),
          above t Types.type_command_reopen (omega (arith, e)),
          above t Types.type_response_get_sdhci_registers (omega (arith, e)),
          above t Types.type_response_list_devices (omega (arith, e)),
          above t Types.type_response_scsi (omega (arith, e)),
          above t Types.type_response_ata_chs (omega (arith, e)),
          above t Types.type_response_ata_lba_28 (omega (arith, e)),
          above t Types.type_response_ata_lba_48 (omega (arith, e)),
          above t Types.type_response_sdhci (omega (arith, e)),
          above t Types.type_response_get_devtype (omega (arith, e)),
          above t Types.type_response_get_usb_data (omega (arith, e)),
          above t Types.type_response_get_firewire_data (omega (arith, e)),
          above t Types.type_response_get_pcmcia_data (omega (arith, e)),
        )
        refl

module _ {C D H : Type 0} {P : Platform C D H} (N : NetLaws P) (A : AllocLaws P) where
  -- A packet of type `t` was dealt with: CLOSE_DEVICE without an answer, LIST_DEVICES with its
  -- response or a NOP packet, and any other with the answer of its type.
  unfoldable pub Handled : ℕ → List (List ℕ) → List ℕ → Session C D H → Type 0
  Handled t before rest s =
      if t == Types.type_command_close_device
      then Quiet N before rest s
      else if t == Types.type_command_list_devices
      then (Served N before rest (answer_type t) s ⊎ Served N before rest type_nop s)
      else Served N before rest (answer_type t) s

  list_cases :
      {before : List (List ℕ)} {rest : List ℕ}
      → (ds : List DeviceInfo) (s : Session C D H) → Served N before rest (list_answer_type ds) s
      → Served N before rest Types.type_response_list_devices s ⊎ Served N before rest type_nop s
  list_cases [] s q = inr q
  list_cases (d ∷ ds) s q = inl q

  Handled-nop :
      {before : List (List ℕ)} {rest : List ℕ}
      → (t : ℕ) (s : Session C D H) → (t == Types.type_command_close_device) ≡ false
      → (t == Types.type_command_list_devices) ≡ false
      → answer_type t ≡ type_nop
      → Served N before rest type_nop s
      → Handled t before rest s
  unfolding Handled
  Handled-nop t s no_close no_list nop q = rw (no_close, no_list, nop) q

  -- On a network and an allocator that meet NetLaws and AllocLaws, with device functions that meet
  -- PlatformLaws, for a complete Request of fewer than 2 ^ 30 bytes that is Servable as type t: the
  -- switch ends without undefined behaviour and has dealt with the packet as Handled says for t.
  pub dispatch-Handled :
      {s : Session C D H} {p rest : List ℕ}
      → PlatformLaws P
      → (t : ℕ) → Servable p t
      → Request N s (length p) p rest
      → length p < 2 ^ 30
      → Ensures (λ _. Handled t (N.sent s.conn) rest) (dispatch P t s)
  unfolding dispatch Handled answer_type is_listed_response
  dispatch-Handled L t (hello e) req small = rw e (on_hello-Served N A req)
  dispatch-Handled L t (list_devices e) req small =
      rw e
        (Ensures-map (λ _ s'. list_cases _ s') _ (on_list_devices-Served N A req (L.lists_short _)))
  dispatch-Handled L t (response e) req small = rw (dispatch_listed P t e) (
      Ensures-map
        (λ _ s'.
          Handled-nop t s' (not_listed t Types.type_command_close_device e refl)
            (not_listed t Types.type_command_list_devices e refl) (listed-answer_type t e))
        _ (on_response-Served N A req))
  dispatch-Handled {s} {p} {rest} L t (open_device e path q) req small = rw e (
      Ensures-map
        {Q = λ _ s'.
          Served N (N.sent s.conn) rest type_nop s'
          × (s'.device_ctx ≡ (P.device_open s.devices path).0.0)}
        (λ _ s' q. q.0) _ (on_open_device-Served N A req q))
  dispatch-Handled L t (get_devtype e) req small = rw e (on_get_devtype-Served N A req)
  dispatch-Handled L t (get_sdhci_registers e) req small =
      rw e (on_get_sdhci_registers-Served N A L.registers req)
  dispatch-Handled L t (get_usb_data e) req small = rw e (on_get_usb_data-Served N A req)
  dispatch-Handled L t (get_firewire_data e) req small = rw e (on_get_firewire_data-Served N A req)
  dispatch-Handled L t (get_pcmcia_data e) req small = rw e (on_get_pcmcia_data-Served N A req)
  dispatch-Handled L t (ata_chs e q) req small = rw e (on_ata_chs-Served N A req small L.ata_chs q)
  dispatch-Handled L t (ata_lba28 e q) req small =
      rw e (on_ata_lba28-Served N A req small L.ata_lba28 q)
  dispatch-Handled L t (ata_lba48 e q) req small =
      rw e (on_ata_lba48-Served N A req small L.ata_lba48 q)
  dispatch-Handled L t (sdhci e q) req small = rw e (on_sdhci-Served N A req small L.sdhci q)
  dispatch-Handled {s} {p} {rest} L t (close_device e) req small = rw e (
      Ensures-map
        {Q = λ _ s'.
          Quiet N (N.sent s.conn) rest s'
          × (s'.device_ctx ≡ 0)
          × (s'.devices ≡ P.device_close s.devices s.device_ctx)}
        (λ _ s' q. q.0) _ (on_close_device-Quiet N A req))
  dispatch-Handled L t (am_i_root e) req small = rw e (on_am_i_root-Served N A req)
  dispatch-Handled L t (reopen e) req small = rw e (on_reopen-Served N A req)
  dispatch-Handled L t (osread e q r) req small = rw e (on_osread-Served N A L.os_read req q r)
  dispatch-Handled L t (unrecognized e) req small = rw (dispatch_above P t e) (
      Ensures-map
        (λ _ s'.
          Handled-nop t s' (above t Types.type_command_close_device (omega (arith, e)))
            (above t Types.type_command_list_devices (omega (arith, e))) (above-answer_type t e))
        _ (on_unrecognized-Served N A req))
