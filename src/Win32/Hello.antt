-- ===== src/Win32/Hello.antt =====
-- win32/hello.c: the hello packet of a Windows host. What GetVersionEx, GetSystemInfo,
-- GetSystemMetrics and the version resource of kernel32.dll give is a parameter, and so are the two
-- fields of OSVERSIONINFOEX behind those of OSVERSIONINFO: `dwOSVersionInfoSize` is the size of the
-- smaller structure, so they hold what was on the stack.
pub mod Names
pub mod Packet
use aaruremote.Common.{
  ℕ, zero, suc, ◌+◌, ◌-◌, ◌*◌, ◌/◌, ◌%◌, ◌^◌, bit_and, Bool, true, false, ◌&&◌, ◌||◌, Option, none,
  some, List, [], ◌∷◌, ◌++◌, take, length, ltb, leb, ◌==◌, if◌then◌else◌, ◌>>=◌,
}
use aaruremote.Common.Bytes.{codes}
use aaruremote.Protocol.Structs.{AaruPacketHello}
use aaruremote.Hello.{server_hello}

-- What GetVersionEx fills of `osvi`; the text without its NUL.
pub record OsVersion : Type 0 where
  pub platform_id : ℕ
  pub major : ℕ
  pub minor : ℕ
  pub build : ℕ
  pub csd_version : List ℕ

-- dwProductVersionMS and dwProductVersionLS of VS_FIXEDFILEINFO.
pub record FileVersion : Type 0 where
  pub product_ms : ℕ
  pub product_ls : ℕ

pub record Windows : Type 0 where
  pub version : OsVersion
  pub product_type : ℕ
  pub suite_mask : ℕ
  pub architecture : ℕ
  pub server_r2 : ℕ
  -- GetFileVersionInfoSizeA, the allocation, GetFileVersionInfoA with VerQueryValueA
  pub version_size : ℕ
  pub version_room : Bool
  pub file_version : Option FileVersion

-- The decimal digits of a number below `10 ^ suc k`.
unfoldable pub digits : ℕ → ℕ → List ℕ
digits zero n = (48 + n % 10) ∷ []
digits (suc k) n =
    let front = digits k (n / 10) in if ltb n 10 then (48 + n) ∷ [] else front ++ (48 + n % 10) ∷ []

-- `%d` of a 32-bit pattern
unfoldable pub print_int : ℕ → List ℕ
unfolding digits codes
print_int n = if ltb n (2 ^ 31) then digits 9 n else codes "-" ++ digits 9 (2 ^ 32 - n)

-- `%02d`
unfoldable pub print_int_02 : ℕ → List ℕ
unfolding print_int
print_int_02 n = if ltb (length (print_int n)) 2 then 48 ∷ print_int n else print_int n

-- `sprintf_s` into 255 bytes, which ends the program when the text and its NUL do not fit.
abbrev pub sprintf_s : List ℕ → Option (List ℕ)
sprintf_s text = if ltb (length text) 255 then some text else none

unfoldable pub release_3x : OsVersion → List ℕ
unfolding print_int_02
release_3x v = print_int v.major ++ (codes "." ++ print_int_02 v.minor)

unfoldable pub release_9x : OsVersion → List ℕ
unfolding release_3x
release_9x v = release_3x v ++ (codes "." ++ print_int (v.build % 2 ^ 16))

unfoldable pub release_nt : OsVersion → List ℕ
unfolding print_int
release_nt v =
    let numbers =
      print_int v.major
      ++ (codes "." ++ (print_int (v.minor * 10 % 2 ^ 32) ++ (codes "." ++ print_int v.build))) in
    if ltb 0 (length v.csd_version)
    then numbers ++ (codes " (" ++ (v.csd_version ++ codes ")"))
    else numbers

-- The switch over the minor version of Windows 9x.
unfoldable pub sysname_9x : OsVersion → List ℕ
unfolding codes
sysname_9x v =
    let serviced = ltb 0 (length v.csd_version) in
    if v.minor == 0
    then (if serviced then codes "Windows 95 OSR2" else codes "Windows 95")
    else if v.minor == 10
    then (if serviced then codes "Windows 98 SE" else codes "Windows 98")
    else if v.minor == 90
    then codes "Windows Me"
    else codes "Windows"

-- The switch over the architecture, `PROCESSOR_ARCHITECTURE_` in win32.h.
unfoldable pub machine_name : ℕ → List ℕ
unfolding codes
machine_name a =
    if a == 10 || a == 14 || a == 0
    then codes "x86"
    else if a == 1
    then codes "mips"
    else if a == 2 || a == 7
    then codes "axp"
    else if a == 3
    then codes "ppc"
    else if a == 4
    then codes "sh"
    else if a == 13 || a == 5
    then codes "arm"
    else if a == 6
    then codes "ia64"
    else if a == 8
    then codes "msil"
    else if a == 9
    then codes "x64"
    else if a == 12
    then codes "aarch64"
    else codes "unknown"

-- VER_NT_WORKSTATION
abbrev pub is_workstation : Windows → Bool
is_workstation w = w.product_type == 1

-- `osvi.dwMajorVersion == 5`
unfoldable pub sysname_five : Windows → List ℕ
unfolding codes
sysname_five w =
    if w.version.minor == 0
    then codes "Windows 2000"
    else if w.version.minor == 1
    then codes "Windows XP"
    else if is_workstation w && w.architecture == 9
    then codes "Windows XP"
    else if ltb 0 (bit_and w.suite_mask (2 ^ 15))
    then codes "Windows Home Server"
    else if w.server_r2 == 0
    then codes "Windows Server 2003"
    else codes "Windows Server 2003 R2"

-- The version that kernel32.dll has, if it can be read, for the one that GetVersionEx tells.
unfoldable pub kernel_version : Windows → Option OsVersion
kernel_version w =
    if ltb 0 w.version_size && w.version_room
    then elim w.file_version [
      | none ↦ none
      | some f ↦ some (record w.version {
        major = f.product_ms / 2 ^ 16;
        minor = f.product_ms % 2 ^ 16;
        build = f.product_ls / 2 ^ 16;
      })
    ]
    else none

-- The tests behind the look at kernel32.dll, with the version that holds then.
unfoldable pub sysname_by_kernel : Windows → OsVersion → List ℕ
unfolding codes
sysname_by_kernel w v =
    if v.major == 6 && v.minor == 2
    then (if is_workstation w then codes "Windows Server 2012" else codes "Windows 8")
    else if v.major == 6 && v.minor == 3
    then (if is_workstation w then codes "Windows Server 2012 R2" else codes "Windows 8.1")
    else if v.major == 10
    then (if is_workstation w then codes "Windows Server 2016" else codes "Windows 10")
    else codes "Windows NT"

-- `osvi.dwMajorVersion == 6`: the name, and the release that is printed again, if it is.
unfoldable pub named_six : Windows → List ℕ → Option (List ℕ × List ℕ)
unfolding sysname_by_kernel kernel_version release_nt
named_six w release =
    if w.version.minor == 0
    then some
        ((if is_workstation w then codes "Windows Vista" else codes "Windows Server 2008"), release)
    else if w.version.minor == 1
    then some
        ((if is_workstation w then codes "Windows 7" else codes "Windows Server 2008 R2"), release)
    else if w.version.minor == 2
    then elim (kernel_version w) [
      | none ↦ some (sysname_by_kernel w w.version, release)
      | some v ↦ do again ← sprintf_s (release_nt v); some (sysname_by_kernel w v, again)
    ]
    else some (codes "Windows NT", release)

unfoldable pub named_nt : Windows → List ℕ → Option (List ℕ × List ℕ)
unfolding named_six sysname_five
named_nt w release =
    if ltb w.version.major 5
    then some (codes "Windows NT", release)
    else if w.version.major == 5
    then some (sysname_five w, release)
    else if w.version.major == 6
    then named_six w release
    else some (codes "Windows NT", release)

-- The packet; `none` when a `sprintf_s` ends the program.
unfoldable pub fill_windows : Windows → Option AaruPacketHello
unfolding release_3x release_9x release_nt sysname_9x machine_name named_nt server_hello codes
fill_windows w =
    if w.version.platform_id == 0
    then (do
      release ← sprintf_s (release_3x w.version)
      some (server_hello (codes "Windows") release (codes "x86")))
    else if w.version.platform_id == 1
    then (do
      release ← sprintf_s (release_9x w.version)
      some (server_hello (sysname_9x w.version) release (codes "x86")))
    else (do
      release ← sprintf_s (release_nt w.version)
      (sysname, last) ← named_nt w release
      some (server_hello sysname last (machine_name w.architecture)))

-- How GetHello ends: with NULL, with the end of the program, or with the packet.
pub data Greeted : Type 0 where
  no_room aborted : Greeted
  greeted : AaruPacketHello → Greeted

unfoldable pub windows_hello : Windows → Bool → Greeted
unfolding fill_windows
windows_hello w false = no_room
windows_hello w true = elim (fill_windows w) [ none ↦ aborted | some p ↦ greeted p ]
