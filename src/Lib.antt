-- ===== src/Lib.antt =====
-- Aaru Remote Server: a server that lets a client on the network work with the storage devices of
-- this machine. A client connects, hello packets are exchanged, and then each packet that it sends
-- is a command: list or open a device, ask what it is, send it SCSI, ATA or SDHCI commands, read it.
-- The program's parts and the files for them:
--
--   aaruremote.h       The protocol: Protocol.antt (identifiers), Protocol/Types.antt (packet types
--                      and reasons), Protocol/Header.antt (AaruPacketHeader), Protocol/Structs.antt
--                      (the other packed structures), Protocol/Layout.antt (their sizes). The
--                      functions that each platform implements are the record Worker/Platform.antt.
--   worker.c           WorkingLoop. Worker/Session.antt has its variables as one state and the steps
--                      that its cases share (with_packet, send_nop); Worker/Queries.antt,
--                      Worker/Transfers.antt, Worker/Multi.antt and Worker/Control.antt have a
--                      function for each case of the switch, named on_ and the command's name;
--                      Worker/Loop.antt has the handshake, the skipping of packets, the tests on a
--                      header, the switch (dispatch), one round of the inner loop (step) and the
--                      loop (run); Worker/Serving.antt has the start of WorkingLoop and its loop
--                      over the clients.
--   hex2bin.c          Hex.antt.
--   list_devices.c     Devices.antt, DeviceInfoListCount.
--   unix/network.c     Network.antt, NetRecv over the system call recv; Network/Contexts.antt, the
--                      functions on a NetworkContext.
--   linux/scsi.c       Linux/Scsi.antt, SendScsiCommand over the ioctl SG_IO.
--   linux/ata.c        Linux/Ata.antt, the ATA commands over SendScsiCommand.
--   linux/sdhci.c      Linux/Sdhci.antt, the SDHCI commands and the registers of a card.
--   linux/device.c     Linux/Device.antt, opening, closing and reading a device, over the system
--                      calls as a record; Linux/DeviceType.antt, GetDeviceType.
--   linux/usb.c, linux/ieee1394.c, linux/pcmcia.c
--                      Linux/Bus.antt, and Linux/Sysfs.antt for the file system as a record and the
--                      walk up a path that the three share.
--   linux/list_devices.c
--                      Linux/Listing.antt, ListDevices without udev.
--   aaruremote.h, the prototypes, and unix/unix.c
--                      Linux/Server.antt, the functions above as the platform of the worker.
--   freebsd/list_devices.c
--                      Freebsd/Listing.antt, with the nodes of the list in a store;
--                      Freebsd/Listing/Segments.antt, Growing.antt and Ends.antt.
--   win32/hello.c, win32/win32.h
--                      Win32/Hello.antt, GetHello, with what Windows tells of itself as a record;
--                      Win32/Hello/Packet.antt and Win32/Hello/Names.antt.
--   win32/list_devices.c
--                      Win32/Listing.antt, with what a device answers as a record;
--                      Win32/Listing/Models.antt.
--   win32/usb.c, win32/usb.h
--                      Win32/Usb.antt, the structures; Win32/Usb/Tree.antt, the tree of host
--                      controllers and hubs; Win32/Usb/Disks.antt, GetUsbData. SearchHubInstanceId
--                      has as fuel the depth of the tree.
--   win32/scsi.c, win32/device.c, win32/sdhci.c
--                      Win32.antt, SendScsiCommand and GetDeviceType; Win32/Sdhci.antt,
--                      SendSdhciCommand; Win32/Sdhci/Multi.antt and Win32/Sdhci/Registers.antt, the
--                      other functions of sdhci.c.
--   freebsd/           Freebsd.antt, SendScsiCommand, GetDeviceType and the functions that do
--                      nothing; Freebsd/Ata.antt, two of the ATA commands;
--                      Freebsd/Freed.antt.
--   unix/hello.c       Hello.antt, GetHello; the tests of main.c too.
--
-- The worker calls the network, the allocator and the device functions through the record Platform,
-- whose three state types stand for the connection, the devices and the heap. What the proofs rely
-- on is stated as records of laws: NetLaws and AllocLaws in Worker/Laws.antt, PlatformLaws in
-- Worker/Loop/Dispatch.antt, RegistersLaws and ScsiLaws beside the cases that need them. The laws
-- have an instance in Tests/Setup.antt, on which the examples of Tests run. Linux/Server.antt makes
-- the platform of the Linux server, over records of system calls; where one of its functions is
-- undefined, as for a context that is not there, that platform does whatever another one does.
-- NetRecv peeks with the flags of its caller, so NetLaws is sure of a peek only where all the bytes
-- that are asked for are to come, or none; StreamLaws takes such a peek to show all of them at once.
--
-- Bytes are natural numbers, buffers lists of them; signed integers are kept as bit patterns, and
-- the wrap-around of 32-bit lengths is written out. The computations of the worker are functions
-- from its state to an optional result: no result is undefined behaviour, such as an access outside
-- a block, through a wild pointer, or to a block after it was freed. Structures are memory images
-- on a little-endian host with 8-byte pointers.
--
-- The words of the results. A complete Request is a packet that is the next thing on the
-- connection, as long as its header announces, with a live client, no packet set aside and the NOP
-- packet's header as it was prepared (Worker/Served.antt). A packet is well formed when it starts
-- with the server's identifiers and version, the type that is due and the packet's real length
-- (IsAnswer). A state is Ready when the client is live, what is unread of the connection apart from
-- a packet that was set aside is known, and the header last seen announces fewer than 2 ^ 31 bytes
-- (Worker/Loop/Rounds.antt). Servable lists the packets that are answered whatever was sent before;
-- the SCSI command, which needs an open device, and the multiple SDHCI command are not among them.
--
-- The inner loop has no bound in the program; run takes fuel, one unit for a round, and a unit more
-- than there are packets is enough, the last one for the end of the connection. The loop of NetRecv
-- takes as many rounds as bytes are asked for at most, since each round that goes on received one.
--
-- The loop over the clients takes fuel too, a unit more than there are clients being enough. The
-- walk up a path in sysfs takes a unit more than the path has characters, since each round cuts some
-- off.
--
-- Not modelled: what the program prints; the outputs that a case frees at its end, since no later
-- step reads them, except the sense buffer; what udev adds to a list of devices; the allocations
-- that fail in linux/list_devices.c and in GetDeviceType of linux/device.c without udev; the rest
-- of freebsd and win32, and wii, which implement the same functions over other systems;
-- PlatformLoop, which passes on one call, PrintNetworkAddresses, which prints, and the build.
pub mod Common
pub mod Protocol
pub mod Hex
pub mod Devices
pub mod Network
pub mod Worker
pub mod Linux
pub mod Win32
pub mod Freebsd
pub mod Hello
pub mod Tests
