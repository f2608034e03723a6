-- ===== src/Hello.antt =====
-- unix/hello.c: GetHello, and main.c. The system call uname, the allocation and the interfaces are
-- parameters.
pub mod Packet
use aaruremote.Common.{
  ℕ, zero, suc, Bool, true, false, Option, none, some, List, [], ◌∷◌, take, length,
}
use aaruremote.Common.Bytes.{codes}
use aaruremote.Protocol.Types.{type_hello}
use aaruremote.Protocol.Header.{own_header}
use aaruremote.Protocol.Structs.{AaruPacketHello, hello_size}

-- What uname gives, texts without their NUL.
pub record Utsname : Type 0 where
  pub sysname : List ℕ
  pub release : List ℕ
  pub machine : List ℕ

unfoldable pub aaruremote_name : List ℕ
unfolding codes
aaruremote_name = codes "Aaru Remote Server"

unfoldable pub aaruremote_version : List ℕ
unfolding codes
aaruremote_version = codes "0.99.195"

abbrev pub protocol_max : ℕ
protocol_max = 2

-- The packet with its three last texts, from a zeroed block.
unfoldable pub server_hello : List ℕ → List ℕ → List ℕ → AaruPacketHello
unfolding aaruremote_name aaruremote_version own_header
server_hello sysname release machine = record {
  hdr = own_header type_hello hello_size (0 ∷ 0 ∷ []);
  application = aaruremote_name;
  version = aaruremote_version;
  max_protocol = protocol_max;
  spare = [];
  sysname = sysname;
  release = release;
  machine = machine;
}

unfoldable pub fill_hello : Utsname → AaruPacketHello
unfolding server_hello
fill_hello u = server_hello (take 255 u.sysname) (take 255 u.release) (take 255 u.machine)

-- `GetHello`: `none` is NULL. The second argument says whether there is room for the packet.
unfoldable pub get_hello : Option Utsname → Bool → Option AaruPacketHello
unfolding fill_hello
get_hello none room = none
get_hello (some u) false = none
get_hello (some u) true = some (fill_hello u)

-- How `main` ends, when it is not with the loop of the platform: with the exit status 1.
pub data Started (A : Type 0) : Type 0 where
  exit_1 : Started A
  looped : A → Started A

-- `main`, with the result of PrintNetworkAddresses, a 32-bit pattern, and `PlatformLoop`.
unfoldable pub main_program :
    {A : Type 0} → Option AaruPacketHello → ℕ → (AaruPacketHello → A) → Started A
main_program none addresses platform_loop = exit_1
main_program (some hello) zero platform_loop = looped (platform_loop hello)
main_program (some hello) (suc n) platform_loop = exit_1
