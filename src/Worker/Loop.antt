-- ===== src/Worker/Loop.antt =====
-- worker.c: the handshake with a client and the loop over its packets.
pub mod Header
pub mod Dispatch
pub mod Rounds
pub mod Conversation
pub mod Greeting
pub mod Faults
use aaruremote.Common.{
  ℕ, zero, suc, Bool, true, false, not, ◌||◌, Option, none, some, List, [], ◌∷◌, length, drop, ltb,
  ◌==◌, if◌then◌else◌,
}
use aaruremote.Common.Bytes.{overwrite, read_at}
use aaruremote.Protocol.{packet_version}
use aaruremote.Protocol.Types
use aaruremote.Protocol.Header.{header_size, has_magic}
use aaruremote.Protocol.Structs.{hello_size}
use aaruremote.Worker.Platform.{Platform}
use aaruremote.Worker.Session.{
  Session, M, ◌>>=◌, ◌>>◌, pure, access, get, malloc, recv_into, net_write, release_client,
  set_skip, current_hdr,
}
use aaruremote.Worker.Queries.{
  on_list_devices, on_get_devtype, on_get_sdhci_registers, on_get_usb_data, on_get_firewire_data,
  on_get_pcmcia_data, on_am_i_root,
}
use aaruremote.Worker.Transfers.{on_scsi, on_ata_chs, on_ata_lba28, on_ata_lba48, on_sdhci}
use aaruremote.Worker.Multi.{on_multi_sdhci}
use aaruremote.Worker.Control.{
  c_string, on_hello, on_response, on_unrecognized, on_open_device, on_close_device, on_reopen,
  on_osread,
}

-- The response types that have a case; the answers to AM_I_ROOT, to the multiple SDHCI command and
-- to OSREAD have none.
unfoldable pub is_listed_response : ℕ → Bool
is_listed_response t =
    t == Types.type_response_get_sdhci_registers
    || (t == Types.type_response_list_devices
        || (t == Types.type_response_scsi
            || (t == Types.type_response_ata_chs
                || (t == Types.type_response_ata_lba_28
                    || (t == Types.type_response_ata_lba_48
                        || (t == Types.type_response_sdhci
                            || (t == Types.type_response_get_devtype
                                || (t == Types.type_response_get_usb_data
                                    || (t == Types.type_response_get_firewire_data
                                        || t == Types.type_response_get_pcmcia_data)))))))))

-- How the part before the inner loop ends: go on, wait for another client, or leave the function.
pub data Handshake : Type 0 where
  served refused stopped : Handshake

-- How the inner loop stands: left by `break`, or still running when the fuel is used up.
pub data Run : Type 0 where
  closed running : Run

module _ {C D H : Type 0} (P : Platform C D H) where
  -- `switch(pkt_hdr->packet_type)`
  unfoldable pub dispatch : ℕ → M C D H (Unit {0})
  dispatch t =
      if t == Types.type_hello
      then on_hello P
      else if t == Types.type_command_list_devices
      then on_list_devices P
      else if is_listed_response t
      then on_response P
      else if t == Types.type_command_open_device
      then on_open_device P
      else if t == Types.type_command_get_devtype
      then on_get_devtype P
      else if t == Types.type_command_scsi
      then on_scsi P
      else if t == Types.type_command_get_sdhci_registers
      then on_get_sdhci_registers P
      else if t == Types.type_command_get_usb_data
      then on_get_usb_data P
      else if t == Types.type_command_get_firewire_data
      then on_get_firewire_data P
      else if t == Types.type_command_get_pcmcia_data
      then on_get_pcmcia_data P
      else if t == Types.type_command_ata_chs
      then on_ata_chs P
      else if t == Types.type_command_ata_lba_28
      then on_ata_lba28 P
      else if t == Types.type_command_ata_lba_48
      then on_ata_lba48 P
      else if t == Types.type_command_sdhci
      then on_sdhci P
      else if t == Types.type_command_close_device
      then on_close_device P
      else if t == Types.type_command_am_i_root
      then on_am_i_root P
      else if t == Types.type_multi_command_sdhci
      then on_multi_sdhci P
      else if t == Types.type_command_reopen
      then on_reopen P
      else if t == Types.type_command_osread
      then on_osread P
      else on_unrecognized P

  -- `NetRecv(cli_ctx, pkt_hdr, sizeof(AaruPacketHeader), MSG_PEEK)`: its result, `none` if negative.
  unfoldable pub peek_header : M C D H (Option ℕ)
  peek_header s =
      let (r, c) = P.net_recv s.conn header_size true in
      elim r [
        | none ↦ some (none, record s { conn = c })
        | some got ↦
            some (some (length got), record s { conn = c; pkt_hdr = overwrite s.pkt_hdr got })
      ]

  abbrev pub clear_skip : M C D H (Unit {0})
  clear_skip s = some (tt, record s { skip_next_hdr = false })

  -- The head of the loop: the packet that was set aside is read and dropped. `false` is the
  -- `continue` after a failed `malloc`.
  unfoldable pub skip_packet : M C D H Bool
  skip_packet = do
    s ← get
    let len = (current_hdr s).len
    elim s.skip_next_hdr [
      | false ↦ pure true
      | true ↦ do
        b ← malloc P len
        elim b [
          | none ↦ release_client P >> pure false
          | some raw ↦ do recv_into P raw len; clear_skip; pure true
        ]
    ]

  -- The tests on the header that was peeked, and the switch. `false` is `break`.
  unfoldable pub serve_header : M C D H Bool
  serve_header = do
    s ← get
    let hdr = current_hdr s
    if not (has_magic hdr)
        then release_client P >> pure false
        else if not (hdr.version == packet_version)
        then set_skip P >> pure true
        else dispatch hdr.packet_type >> pure true

  unfoldable pub serve_next : M C D H Bool
  serve_next = do
    recv_size ← peek_header
    elim recv_size [
      | none ↦ release_client P >> pure false
      | some n ↦ if n == 0 then release_client P >> pure false else serve_header
    ]

  -- One round of the inner loop. Every path through it uses `pkt_hdr` and `cli_ctx` first.
  unfoldable pub step : M C D H Bool
  step = do
    s ← get
    access (if s.client_live then some tt else none)
    go_on ← skip_packet
    if go_on then serve_next else pure true

  -- The inner loop with a bound on its rounds.
  unfoldable pub run : ℕ → M C D H Run
  run zero = pure running
  run (suc fuel) = do more ← step; elim more [ true ↦ run fuel | false ↦ pure closed ]

  abbrev new_client : List ℕ → M C D H (Unit {0})
  new_client raw s = some (tt, record s { pkt_hdr = raw; client_live = true })

  -- What `printf` reads of the client's hello packet.
  abbrev printed_hello : List ℕ → M C D H (Unit {0})
  printed_hello b = do
    access (c_string (drop 16 b))
    access (c_string (drop 144 b))
    access (c_string (drop 212 b))
    access (c_string (drop 468 b))
    access (c_string (drop 724 b))
    access (read_at b 208 1)
    pure tt

  -- `NetRecv` of the client's hello packet into a block of `len` bytes; a short packet is refused.
  unfoldable pub receive_hello : List ℕ → ℕ → M C D H Handshake
  receive_hello raw len s =
      let (r, c) = P.net_recv s.conn len false in
      let s' = record s { conn = c } in
      elim r [
        | none ↦ (release_client P >> pure refused) s'
        | some got ↦
            if length got == len
            then (printed_hello (overwrite raw got) >> pure served) s'
            else (release_client P >> pure refused) s'
      ]

  unfoldable pub expect_hello : M C D H Handshake
  expect_hello = do
    s ← get
    let hdr = current_hdr s
    if not (has_magic hdr)
        then release_client P >> pure refused
        else if not (hdr.version == packet_version)
        then release_client P >> pure refused
        else if not (hdr.packet_type == Types.type_hello)
        then release_client P >> pure refused
        else (do
          b ← malloc P hdr.len
          elim b [ none ↦ release_client P >> pure refused | some raw ↦ receive_hello raw hdr.len ])

  -- From the accepted connection to the inner loop: the server's hello packet goes out, and the
  -- client's must come in.
  unfoldable pub handshake : List ℕ → M C D H Handshake
  handshake server_hello = do
    net_write P server_hello hello_size
    b ← malloc P header_size
    elim b [
      | none ↦ release_client P >> pure stopped
      | some raw ↦ do
        new_client raw
        recv_size ← peek_header
        elim recv_size [
          | none ↦ release_client P >> pure refused
          | some n ↦ if n == 0 then release_client P >> pure refused else expect_hello
        ]
    ]

  -- One client, from its connection on; `none` when the inner loop is not reached.
  unfoldable pub serve_client : List ℕ → ℕ → M C D H (Option Run)
  serve_client server_hello fuel = do
    h ← handshake server_hello
    elim h [
      | served ↦ do clear_skip; r ← run fuel; pure (some r)
      | refused ↦ pure none
      | stopped ↦ pure none
    ]
