-- ===== src/Worker/Loop/Faults.antt =====
-- worker.c: what follows when a case of the switch finds no memory for the packet.
use aaruremote.Common.{
  ℕ, suc, ◌≡◌, refl, ap, ◌∙◌, Bool, true, false, Option, none, some, List, length, if◌then◌else◌,
  ◌==◌, arith,
}
use aaruremote.Common.Bytes.{overwrite}
use aaruremote.Protocol.Types
use aaruremote.Protocol.Header.{AaruPacketHeader, load_header, has_magic, header_size}
use aaruremote.Protocol.{packet_version}
use aaruremote.Worker.Platform.{Platform}
use aaruremote.Worker.Session.{
  Session, M, ◌>>=◌, ◌>>◌, pure, with_packet, release_client, current_hdr,
}
use aaruremote.Worker.Queries.{
  on_list_devices, on_get_devtype, on_get_sdhci_registers, on_get_usb_data, on_get_firewire_data,
  on_get_pcmcia_data, on_am_i_root,
}
use aaruremote.Worker.Transfers.{on_scsi, on_ata, on_ata_chs, on_ata_lba28, on_ata_lba48, on_sdhci}
use aaruremote.Worker.Multi.{on_multi_sdhci}
use aaruremote.Worker.Control.{on_open_device, on_reopen, on_osread}
use aaruremote.Worker.Loop.Rounds.{guarded, bind_runs}
use aaruremote.Worker.Loop.Header.{load_header-append}
use aaruremote.Worker.Loop.{
  Run, closed, is_listed_response, dispatch, skip_packet, peek_header, serve_header, serve_next,
  step, run,
}

-- The commands whose cases allocate a block for the packet.
pub data Command : Type 0 where
  list_devices open_device get_devtype scsi get_sdhci_registers get_usb_data : Command
  get_firewire_data get_pcmcia_data ata_chs ata_lba_28 ata_lba_48 sdhci : Command
  am_i_root multi_sdhci reopen osread : Command

unfoldable pub packet_type_of : Command → ℕ
packet_type_of list_devices = Types.type_command_list_devices
packet_type_of open_device = Types.type_command_open_device
packet_type_of get_devtype = Types.type_command_get_devtype
packet_type_of scsi = Types.type_command_scsi
packet_type_of get_sdhci_registers = Types.type_command_get_sdhci_registers
packet_type_of get_usb_data = Types.type_command_get_usb_data
packet_type_of get_firewire_data = Types.type_command_get_firewire_data
packet_type_of get_pcmcia_data = Types.type_command_get_pcmcia_data
packet_type_of ata_chs = Types.type_command_ata_chs
packet_type_of ata_lba_28 = Types.type_command_ata_lba_28
packet_type_of ata_lba_48 = Types.type_command_ata_lba_48
packet_type_of sdhci = Types.type_command_sdhci
packet_type_of am_i_root = Types.type_command_am_i_root
packet_type_of multi_sdhci = Types.type_multi_command_sdhci
packet_type_of reopen = Types.type_command_reopen
packet_type_of osread = Types.type_command_osread

module _ {C D H : Type 0} (P : Platform C D H) where
  without_client : (b : Bool) → b ≡ false → (if b then some (tt {0}) else none) ≡ none
  without_client true e = cc
  without_client false e = refl

  step_released : (s : Session C D H) → s.client_live ≡ false → step P s ≡ none
  unfolding step
  step_released s e = rw (◌>>=◌, without_client s.client_live e) refl

  -- The computation goes on with the client released.
  abbrev Releases : M C D H (Unit {0}) → Session C D H → Type 0
  Releases m s = (s' : Session C D H) × (m s ≡ some (tt, s')) × (s'.client_live ≡ false)

  without_memory : Session C D H → Session C D H
  without_memory s = record s {
    heap = (P.malloc s.heap (current_hdr s).len).1;
    conn = P.net_close s.conn;
    client_live = false;
  }

  with_packet-Releases :
      (k : List ℕ → M C D H (Unit {0})) (s : Session C D H)
      → (P.malloc s.heap (current_hdr s).len).0 ≡ none
      → Releases (with_packet P k) s
  unfolding with_packet release_client without_memory
  with_packet-Releases k s e = (without_memory s, rw e refl, refl)

  dispatch-Releases :
      (c : Command) (s : Session C D H)
      → (P.malloc s.heap (current_hdr s).len).0 ≡ none
      → Releases (dispatch P (packet_type_of c)) s
  unfolding dispatch packet_type_of on_list_devices on_open_device on_get_devtype on_scsi
      on_get_sdhci_registers on_get_usb_data on_get_firewire_data on_get_pcmcia_data on_ata_chs
      on_ata_lba28 on_ata_lba48 on_ata on_sdhci on_am_i_root on_multi_sdhci on_reopen on_osread
      is_listed_response
  dispatch-Releases list_devices s e =
      with_packet-Releases _ (record s { devices = (P.list_devices s.devices).1 }) e
  dispatch-Releases open_device s e = with_packet-Releases _ s e
  dispatch-Releases get_devtype s e = with_packet-Releases _ s e
  dispatch-Releases scsi s e = with_packet-Releases _ s e
  dispatch-Releases get_sdhci_registers s e = with_packet-Releases _ s e
  dispatch-Releases get_usb_data s e = with_packet-Releases _ s e
  dispatch-Releases get_firewire_data s e = with_packet-Releases _ s e
  dispatch-Releases get_pcmcia_data s e = with_packet-Releases _ s e
  dispatch-Releases ata_chs s e = with_packet-Releases _ s e
  dispatch-Releases ata_lba_28 s e = with_packet-Releases _ s e
  dispatch-Releases ata_lba_48 s e = with_packet-Releases _ s e
  dispatch-Releases sdhci s e = with_packet-Releases _ s e
  dispatch-Releases am_i_root s e = with_packet-Releases _ s e
  dispatch-Releases multi_sdhci s e = with_packet-Releases _ s e
  dispatch-Releases reopen s e = with_packet-Releases _ s e
  dispatch-Releases osread s e = with_packet-Releases _ s e

  -- A header of the server's own kind, for a command whose packet finds no memory.
  abbrev pub Starved : Command → H → AaruPacketHeader → Type 0
  Starved c heap h =
      (has_magic h ≡ true)
      × ((h.version == packet_version) ≡ true)
      × (h.packet_type ≡ packet_type_of c)
      × ((P.malloc heap h.len).0 ≡ none)

  serve_header-Starved :
      (c : Command) (s : Session C D H)
      → Starved c s.heap (current_hdr s)
      → (s' : Session C D H) × (serve_header P s ≡ some (true, s')) × (s'.client_live ≡ false)
  unfolding serve_header
  serve_header-Starved c s (magic, ours, kind, full) =
      let (s', done, released) = dispatch-Releases c s full in
      (
        s',
        rw (magic, ours, kind) (bind_runs (dispatch P (packet_type_of c)) _ s tt s' done),
        released,
      )

  nothing_aside : (s : Session C D H) → s.skip_next_hdr ≡ false → skip_packet P s ≡ some (true, s)
  unfolding skip_packet
  nothing_aside s plain = simp plain refl

  serve_next-Starved :
      (c : Command) (s : Session C D H) (got : List ℕ)
      → (P.net_recv s.conn header_size true).0 ≡ some got
      → length got ≡ header_size
      → Starved c s.heap (load_header got)
      → (s' : Session C D H) × (serve_next P s ≡ some (true, s')) × (s'.client_live ≡ false)
  unfolding serve_next peek_header
  serve_next-Starved c s got peek whole starved =
      let same : load_header (overwrite s.pkt_hdr got) ≡ load_header got =
        load_header-append got _ (omega (arith, whole)) in
      let s1 = record s {
        conn = (P.net_recv s.conn header_size true).1;
        pkt_hdr = overwrite s.pkt_hdr got;
      } in
      let some_bytes : (length got == 0) ≡ false = rw whole refl in
      let peeks : peek_header P s ≡ some (some (length got), s1) = rw (peek_header, peek) refl in
      let (s', done, released) = serve_header-Starved c s1 (rw same starved) in
      (
        s',
        bind_runs (peek_header P) _ s (some (length got)) s1 peeks
            ∙ (ap (λ b. (if b then release_client P >> pure false else serve_header P) s1)
                  some_bytes
                ∙ done),
        released,
      )

  step-Starved :
      (c : Command) (s : Session C D H) (got : List ℕ)
      → s.client_live ≡ true
      → s.skip_next_hdr ≡ false
      → (P.net_recv s.conn header_size true).0 ≡ some got
      → length got ≡ header_size
      → Starved c s.heap (load_header got)
      → (s' : Session C D H) × (step P s ≡ some (true, s')) × (s'.client_live ≡ false)
  unfolding step
  step-Starved c s got live plain peek whole starved =
      let serve : Bool → M C D H Bool = λ go_on. if go_on then serve_next P else pure true in
      let (s', done, released) = serve_next-Starved c s got peek whole starved in
      (
        s',
        guarded s.client_live (skip_packet P >>= serve) s live
            ∙ (bind_runs (skip_packet P) serve s true s (nothing_aside s plain) ∙ done),
        released,
      )

  -- For each of the sixteen commands whose case allocates a block for the packet: if the client is
  -- there, no packet is set aside, the peek gives a whole header of that command with the magic and
  -- the version of the server, and malloc of the length that it announces fails, the inner loop,
  -- given two rounds or more, is undefined behaviour.
  pub run_without_memory :
      (c : Command) (s : Session C D H) (got : List ℕ)
      → s.client_live ≡ true
      → s.skip_next_hdr ≡ false
      → (P.net_recv s.conn header_size true).0 ≡ some got
      → length got ≡ header_size
      → Starved c s.heap (load_header got)
      → (fuel : ℕ) → run P (suc (suc fuel)) s ≡ none
  unfolding run
  run_without_memory c s got live plain peeked whole starved fuel =
      let (s', done, released) = step-Starved c s got live plain peeked whole starved in
      bind_runs (step P) _ s true s' done
      ∙ ap
          (λ o. elim o as (λ x. Option (Run × Session C D H)) [
            | none ↦ none
            | some (more, t) ↦
                (elim more as (λ x. M C D H Run) [ true ↦ run P fuel | false ↦ pure closed ]) t
          ])
          (step_released s' released)
