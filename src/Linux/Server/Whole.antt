-- ===== src/Linux/Server/Whole.antt =====
-- worker.c linked with unix/ and linux/: the whole server over the system calls.
use aaruremote.Common.{subst, ℕ, ◌≡◌, ◌<◌, true, List, length, All}
use aaruremote.Protocol.Structs.{hello_size}
use aaruremote.Worker.Platform.{Platform}
use aaruremote.Worker.Session.{Session}
use aaruremote.Worker.Laws.{NetLaws, AllocLaws}
use aaruremote.Worker.Served.{Ensures}
use aaruremote.Worker.Loop.Dispatch.{PlatformLaws}
use aaruremote.Worker.Serving.{Listener, no_client, working_loop}
use aaruremote.Worker.Serving.Clients.{Script, IsScript, Arrivals, Answered, working_loop-Answered}
use aaruremote.Network.Contexts.{Sockets, Connection, on_sockets}
use aaruremote.Network.Contexts.Streaming.{StreamLaws, on_sockets-NetLaws}
use aaruremote.Linux.Device.{Devices}
use aaruremote.Linux.Server.{Machine, on_linux}
use aaruremote.Linux.Server.Laws.{MachineLaws, on_linux-PlatformLaws}

module _ {N D H : Type 0} (S : Sockets N) {P : Platform (Connection N) D H} where
  on_sockets-PlatformLaws : PlatformLaws P → PlatformLaws (on_sockets S P)
  on_sockets-PlatformLaws U = record {
    lists_short = λ d. U.lists_short d;
    registers = record {
      csd_holds = λ d ctx. U.registers.csd_holds d ctx;
      cid_holds = λ d ctx. U.registers.cid_holds d ctx;
      ocr_holds = λ d ctx. U.registers.ocr_holds d ctx;
      scr_holds = λ d ctx. U.registers.scr_holds d ctx;
    };
    scsi = U.scsi;
    ata_chs = U.ata_chs;
    ata_lba28 = U.ata_lba28;
    ata_lba48 = U.ata_lba48;
    sdhci = U.sdhci;
    os_read = U.os_read;
  }

  on_sockets-AllocLaws : AllocLaws P → AllocLaws (on_sockets S P)
  on_sockets-AllocLaws A = record {
    fresh = λ h n. A.fresh h n;
    fresh_size = λ h n. A.fresh_size h n;
    malloc_succeeds = λ h n. A.malloc_succeeds h n;
  }

on_linux-AllocLaws :
    {C O H : Type 0} (M : Machine O) {P : Platform C (Devices O) H}
    → AllocLaws P
    → AllocLaws (on_linux M P)
unfolding on_linux
on_linux-AllocLaws M A = record {
  fresh = λ h n. A.fresh h n;
  fresh_size = λ h n. A.fresh_size h n;
  malloc_succeeds = λ h n. A.malloc_succeeds h n;
}

-- The platform of the Linux server; `P` has its allocator, and what is done where the behaviour of a
-- device function is undefined.
unfoldable pub linux_server :
    {N O H : Type 0}
    → Sockets N
    → Machine O
    → Platform (Connection N) (Devices O) H
    → Platform (Connection N) (Devices O) H
unfolding on_linux
linux_server S M P = on_sockets S (on_linux M P)

module _ {N O H : Type 0} {S : Sockets N} {M : Machine O} (streams : StreamLaws S)
    (machine : MachineLaws M) (P : Platform (Connection N) (Devices O) H) where
  pub linux_server-NetLaws :
      (N : NetLaws (linux_server S M P)) × (N.pending
        ≡ (λ c. (streams.receives c.fd).pending c.net))
      × (N.sent ≡ (λ c. streams.sent c.net.os c.fd))
  unfolding linux_server
  linux_server-NetLaws = on_sockets-NetLaws streams (on_linux M P)

  linux_server-AllocLaws : AllocLaws P → AllocLaws (linux_server S M P)
  unfolding linux_server
  linux_server-AllocLaws A = on_sockets-AllocLaws S (on_linux-AllocLaws M A)

  linux_server-PlatformLaws : PlatformLaws P → PlatformLaws (linux_server S M P)
  unfolding linux_server
  linux_server-PlatformLaws U = on_sockets-PlatformLaws S (on_linux-PlatformLaws machine P U)

  -- For a worker that is linked with the network functions of unix and the device functions of
  -- Linux, on system calls that meet StreamLaws and MachineLaws and an allocator that meets
  -- AllocLaws, where what is done instead of undefined behaviour meets PlatformLaws: if the
  -- server's socket can be opened, bound and listened on, and there is room for the NOP packet,
  -- then for clients that arrive one after the other, each sending a hello packet that meets
  -- IsHello and then packets that meet IsRequest, fewer than there are rounds, and then an accept
  -- that fails, WorkingLoop with more fuel than clients ends there, and each client was sent the
  -- server's hello packet, of hello_size bytes, followed by the answers that Answers allows for its
  -- packets.
  pub linux_server-Answered :
      {L : Type 0} (listener : Listener L (Connection N)) (qs : List Script) (server_hello : List ℕ)
      (fuel rounds : ℕ) (l : L) (s : Session (Connection N) (Devices O) H)
      → AllocLaws P
      → PlatformLaws P
      → length server_hello ≡ hello_size
      → All (IsScript rounds) qs
      → length qs < fuel
      → (listener.net_socket l).0 ≡ true
      → let l1 = (listener.net_socket l).1 in
        (listener.net_bind l1).0 ≡ true
        → let l2 = (listener.net_bind l1).1 in
          (listener.net_listen l2).0 ≡ true
          → let l3 = (listener.net_listen l2).1 in
            (listener.nop_block l3).0 ≡ true
            → Arrivals listener linux_server-NetLaws.0 (listener.nop_block l3).1 qs
            → Ensures
                (λ r s'.
                  (r.0 ≡ no_client)
                  × Answered (λ c. streams.sent c.net.os c.fd) server_hello r.1 qs)
                (working_loop (linux_server S M P) listener fuel server_hello rounds l s)
  linux_server-Answered listener qs server_hello fuel rounds l s A U size ok enough opened bound
        listening room arrive =
      let (net, _, same_sent) = linux_server-NetLaws in
      subst
        (λ (sent : Connection N → List (List ℕ)).
          Ensures (λ r s'. (r.0 ≡ no_client) × Answered sent server_hello r.1 qs)
            (working_loop (linux_server S M P) listener fuel server_hello rounds l s))
        same_sent
        (working_loop-Answered listener net (linux_server-AllocLaws A) qs server_hello fuel rounds l
          s (linux_server-PlatformLaws U) size ok enough opened bound listening room arrive)
