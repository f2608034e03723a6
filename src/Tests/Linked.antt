-- ===== src/Tests/Linked.antt =====
-- The Linux server on sockets that cut up what arrives, and on a machine without devices.
use aaruremote.Common.{
  ℕ, ◌+◌, ◌≡◌, ◌≤◌, refl, sym, ap, ◌∙◌, Bool, true, false, Option, none, some, List, [], ◌∷◌, ◌++◌,
  take, drop, length, replicate, min, arith, ◌<◌, ◌^◌, length-replicate, Returns,
}
use aaruremote.Worker.Served.{Ensures}
use aaruremote.Worker.Platform.{Platform}
use aaruremote.Worker.Laws.{NetLaws}
use aaruremote.Worker.Loop.Conversation.{wire}
use aaruremote.Worker.Loop.Dispatch.{PlatformLaws}
use aaruremote.Worker.Session.{Session, initial_nop}
use aaruremote.Worker.Serving.{Listener, no_client, working_loop}
use aaruremote.Worker.Serving.Clients.{Script, Arrivals, no_more, arrival, Answered}
use aaruremote.Network.{net_recv}
use aaruremote.Network.Peeks.{net_recv_peek_full}
use aaruremote.Network.Contexts.{
  Sockets, Net, Connection, recv_on, net_socket, net_accept, context_close, on_sockets,
}
use aaruremote.Network.Contexts.Blocks.{held, context_close_returns_block}
use aaruremote.Network.Contexts.Streaming.{StreamLaws, on_sockets-NetLaws}
use aaruremote.Protocol.Structs.{zero_error_registers, zero_error_registers_lba48}
use aaruremote.Linux.Sysfs.{Files}
use aaruremote.Linux.Device.{Calls, Devices}
use aaruremote.Linux.Server.{Machine, on_linux}
use aaruremote.Linux.Server.Laws.{MachineLaws, on_linux-PlatformLaws}
use aaruremote.Linux.Server.Whole.{linux_server, linux_server-NetLaws, linux_server-Answered}
use aaruremote.Tests.Setup.{Wire, bare_platform, bare_alloc, bare_laws, hello_packet}
use aaruremote.Tests.Rounds.{hello, script, script_requests}

-- What arrives comes in pieces of three bytes, except to a peek.
abbrev piece_of : Bool → ℕ → List ℕ → ℕ
piece_of true n p = min n (length p)
piece_of false n p = min 3 (min n (length p))

abbrev after_piece : Bool → ℕ → Wire → Wire
after_piece true n w = w
after_piece false n w = record w { to_receive = drop (piece_of false n w.to_receive) w.to_receive }

abbrev wires : Sockets Wire
wires = record {
  malloc = λ o. (true, o);
  socket = λ o. (some 3, o);
  bind = λ o fd. (some 0, o);
  listen = λ o fd backlog. (some 0, o);
  accept = λ o fd. (some 4, o);
  recv = λ o fd n peek.
      (some (take (piece_of peek n o.to_receive) o.to_receive), after_piece peek n o);
  write = λ o fd b n. (some n, record o { written = o.written ++ take n b ∷ [] });
  close = λ o fd. (some 0, o);
}

after_piece_written : (peek : Bool) (n : ℕ) (w : Wire) → (after_piece peek n w).written ≡ w.written
after_piece_written true n w = refl
after_piece_written false n w = refl

abbrev wires-StreamLaws : StreamLaws wires
wires-StreamLaws = record {
  receives = λ fd. record {
    pending = λ n. n.os.to_receive;
    piece = λ n len. piece_of false len n.os.to_receive;
    piece_asked = λ n len. omega arith;
    piece_there = λ n len. omega arith;
    piece_some = λ n len asked there. omega arith;
    recv_bytes = λ n len. refl;
    recv_pending = λ n len. refl;
  };
  peeks = λ fd. record {
    arrived = λ n len. piece_of true len n.os.to_receive;
    arrived_asked = λ n len. omega arith;
    arrived_there = λ n len. omega arith;
    arrived_some = λ n len asked there. omega arith;
    shown = λ n len. refl;
    left = λ n len. refl;
  };
  prompt = λ fd n len there. omega arith;
  sent = λ o fd. o.written;
  recv_sent = λ o fd len peek. after_piece_written peek len o;
  write_pending = λ n fd b size. refl;
  write_sent = λ o fd b size fits small. refl;
  close_sent = λ o fd. refl;
}

abbrev no_files : Files
no_files = record {
  readable = λ path. false;
  present = λ path. false;
  is_directory = λ path. false;
  readlink = λ path. none;
  open_file = λ path. none;
  open_directory = λ path. none;
}

abbrev no_calls : Calls (Unit {0})
no_calls = record {
  errno = λ o. 2;
  realpath = λ o path. (none, o);
  new_context = λ o. (4096, o);
  open_path = λ o path mode. (none, o);
  close = λ o fd. (false, o);
  lseek = λ o fd offset. (false, o);
  read = λ o fd n. (none, o);
}

abbrev zeroed : ℕ → Option (List ℕ)
zeroed n = some (replicate n 0)

abbrev size_of : Option (List ℕ) → ℕ
size_of none = 0
size_of (some b) = length b

zeroed_size : (n : ℕ) (b : List ℕ) → zeroed n ≡ some b → length b ≡ n
zeroed_size n b e = sym (ap size_of e) ∙ length-replicate {A = ℕ} n 0

abbrev machine : Machine (Unit {0})
machine = record {
  calls = no_calls;
  files = λ o. no_files;
  malloc = zeroed;
  multi_room = λ d n. true;
  sg_io = λ d fd q. (
    record { ret = 0; dxferp = q.dxferp; sbp = q.sbp; info_ok = true; duration = 5; sb_len_wr = 0 },
    d,
  );
  mmc = λ d fd q. (record { ret = some 0; errno = 0; data_ptr = q.data_ptr; response = [] }, d);
  mmc_multi =
      λ d fd qs packet. (record { ret = some 0; errno = 0; data_ptr = packet; response = [] }, d);
  geteuid = λ o. 1000;
  stale_scsi = (0, 0);
  stale_registers = zero_error_registers;
  stale_registers_lba48 = zero_error_registers_lba48;
  stale_response = [];
  raw_block = some (replicate 1024 0);
}

no_bytes : (bytes : List ℕ) (n : ℕ) → none ≡ some bytes → length bytes ≤ n
no_bytes bytes n e = absurd (ground (arith, e))

no_entries : (entries : List (List ℕ × Bool)) → none ≡ some entries → length entries < 2 ^ 16
no_entries entries e = absurd (ground (arith, e))

machine-MachineLaws : MachineLaws machine
machine-MachineLaws = record {
  room = λ n b e. zeroed_size n b e;
  sense_room = (replicate 32 0, refl);
  sg = record {
    sense_kept = λ d fd q whole. (omega arith, whole);
    buffer_kept = λ d fd q held. held;
  };
  mmc_kept = λ d ctx q len held. held;
  read_short = λ o fd n bytes e. no_bytes bytes n e;
  directories = λ o entries e. no_entries entries e;
}

abbrev base : Platform (Connection Wire) (Devices (Unit {0})) (Unit {0})
base = bare_platform

on_linux-PlatformLaws_example : PlatformLaws (on_linux machine base)
on_linux-PlatformLaws_example = on_linux-PlatformLaws machine-MachineLaws base bare_laws

on_sockets-NetLaws_example :
    (N : NetLaws (on_sockets wires base)) × (N.pending ≡ (λ c. c.net.os.to_receive))
    × (N.sent ≡ (λ c. c.net.os.written))
on_sockets-NetLaws_example = on_sockets-NetLaws wires-StreamLaws base

-- A header of which five bytes have come is shown as sixteen.
abbrev five_bytes : Net Wire
five_bytes = record {
  os = record { to_receive = 1 ∷ 2 ∷ 3 ∷ 4 ∷ 5 ∷ []; written = [] };
  blocks = 1;
}

net_recv_peek_full_example :
    Returns (λ got. length got ≡ 16) (net_recv (recv_on wires 4) five_bytes 16 true).0
    × ((net_recv (recv_on wires 4) five_bytes 16 true).1.os.to_receive ≡ 1 ∷ 2 ∷ 3 ∷ 4 ∷ 5 ∷ [])
net_recv_peek_full_example =
    net_recv_peek_full (wires-StreamLaws.peeks 4) five_bytes 16 (omega arith) (omega arith)

context_close_returns_block_example :
    let r = net_socket wires five_bytes in
    let a = net_accept wires five_bytes (some 3) in
    (r.1.blocks ≡ 1 + held r.0)
    × ((context_close wires r.1 r.0).1.blocks ≡ 1)
    × (a.1.blocks ≡ 1 + held a.0)
    × ((context_close wires a.1 a.0).1.blocks ≡ 1)
context_close_returns_block_example = context_close_returns_block wires five_bytes (some 3)

abbrev queue : Listener (List (Connection Wire)) (Connection Wire)
queue = record {
  net_socket = λ l. (true, l);
  net_bind = λ l. (true, l);
  net_listen = λ l. (true, l);
  net_accept = λ l. elim l [ [] ↦ (none, []) | c ∷ cs ↦ (some c, cs) ];
  net_close = λ l. l;
  nop_block = λ l. (true, l);
}

abbrev asker : Script
asker = record { hello = hello_packet; requests = script }

abbrev dialled : Connection Wire
dialled = record {
  net = record {
    os = record { to_receive = hello_packet ++ wire script; written = [] };
    blocks = 2;
  };
  fd = 4;
}

asker-Arrivals :
    Arrivals queue
      (linux_server-NetLaws wires-StreamLaws machine-MachineLaws base).0
      (dialled ∷ [])
      (asker ∷ [])
asker-Arrivals =
    let (net, same_pending, same_sent) =
      linux_server-NetLaws wires-StreamLaws machine-MachineLaws base in
    arrival (dialled ∷ []) dialled asker [] refl (ap (λ f. f dialled) same_pending)
      (ap (λ f. f dialled) same_sent) (no_more [] refl)

abbrev before_clients : Session (Connection Wire) (Devices (Unit {0})) (Unit {0})
before_clients = record {
  conn = dialled;
  devices = record { os = tt; contexts = [] };
  heap = tt;
  pkt_hdr = [];
  client_live = false;
  device_ctx = 0;
  pkt_nop = initial_nop;
  skip_next_hdr = false;
  sense_buf_null = false;
}

linux_server-Answered_example :
    Ensures
      (λ r s'. (r.0 ≡ no_client) × Answered (λ c. c.net.os.written) hello_packet r.1 (asker ∷ []))
      (working_loop
        (linux_server wires machine base)
        queue
        2
        hello_packet
        4
        (dialled ∷ [])
        before_clients)
linux_server-Answered_example =
    linux_server-Answered wires-StreamLaws machine-MachineLaws base queue (asker ∷ []) hello_packet
      2 4 (dialled ∷ []) before_clients bare_alloc bare_laws refl
      (record { greets = hello; asks = script_requests; enough = omega arith }, tt) (omega arith)
      refl refl refl refl asker-Arrivals
