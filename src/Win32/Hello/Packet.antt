-- ===== src/Win32/Hello/Packet.antt =====
-- win32/hello.c: every text that GetHello writes fits in its field of the packet.
use aaruremote.Common.{
  ℕ, zero, suc, ◌+◌, ◌-◌, ◌*◌, ◌/◌, ◌%◌, ◌^◌, ◌≤◌, ◌<◌, ◌≡◌, refl, Bool, true, ◌&&◌, Option, none,
  some, List, [], ◌∷◌, ◌++◌, length, length-append, ltb, ◌==◌, lt→ltb, if◌then◌else◌, if_both,
  elim_both, Returns, Meets, elim_option, subst, arith, inl, inr, Option-cases, Bool-cases, ◌>>=◌,
}
use aaruremote.Common.Bytes.{codes}
use aaruremote.Protocol.Structs.{AaruPacketHello, encode_hello, hello_size}
use aaruremote.Worker.Loop.Greeting.{IsHello}
use aaruremote.Hello.{server_hello}
use aaruremote.Hello.Packet.{server_hello-IsHello}
use aaruremote.Win32.Hello.{
  OsVersion, Windows, greeted, digits, print_int, print_int_02, sprintf_s, release_3x, release_9x,
  release_nt, sysname_9x, sysname_five, sysname_by_kernel, kernel_version, named_six, named_nt,
  machine_name, fill_windows, windows_hello,
}

-- A text of at most `n` characters.
pub record Fits (n : ℕ) (t : List ℕ) : Type 0 where
  pub at_most : length t ≤ n

if_Fits : {n : ℕ} (b : Bool) (x y : List ℕ) → Fits n x → Fits n y → Fits n (if b then x else y)
if_Fits {n} b x y p q = if_both (Fits n) b x y p q

short : (n : ℕ) (t : List ℕ) → length t ≤ n → Fits n t
short n t h = record { at_most = h }

-- Two parts that are printed one after the other.
printed : {n m : ℕ} {a b : List ℕ} → Fits n a → Fits m b → (k : ℕ) → n + m ≤ k → Fits k (a ++ b)
printed {n} {m} {a} {b} p q k room = record {
  at_most = omega (arith, length-append a b, p.at_most, q.at_most);
}

digits-Fits : (k n : ℕ) → Fits (suc k) (digits k n)
unfolding digits
digits-Fits zero n = short 1 _ (omega arith)
digits-Fits (suc k) n =
    let rest = digits-Fits k (n / 10) in
    if_Fits (ltb n 10) ((48 + n) ∷ []) (digits k (n / 10) ++ (48 + n % 10) ∷ [])
      (short _ _ (omega arith))
      (printed rest (short 1 ((48 + n % 10) ∷ []) (omega arith)) (suc (suc k)) (omega arith))

print_int-Fits : (n : ℕ) → Fits 11 (print_int n)
unfolding print_int codes
print_int-Fits n =
    if_Fits (ltb n (2 ^ 31)) (digits 9 n) (codes "-" ++ digits 9 (2 ^ 32 - n))
      (short 11 _ (omega (arith, (digits-Fits 9 n).at_most)))
      (printed (short 1 (codes "-") (omega arith)) (digits-Fits 9 (2 ^ 32 - n)) 11 (omega arith))

print_int_02-Fits : (n : ℕ) → Fits 12 (print_int_02 n)
unfolding print_int_02
print_int_02-Fits n =
    if_Fits (ltb (length (print_int n)) 2) (48 ∷ print_int n) (print_int n)
      (short 12 _ (omega (arith, (print_int-Fits n).at_most)))
      (short 12 _ (omega (arith, (print_int-Fits n).at_most)))

dot-Fits : Fits 1 (codes ".")
unfolding codes
dot-Fits = short 1 _ (omega arith)

release_3x-Fits : (v : OsVersion) → Fits 24 (release_3x v)
unfolding release_3x
release_3x-Fits v =
    let minor = printed dot-Fits (print_int_02-Fits v.minor) 13 (omega arith) in
    printed (print_int-Fits v.major) minor 24 (omega arith)

release_9x-Fits : (v : OsVersion) → Fits 36 (release_9x v)
unfolding release_9x
release_9x-Fits v =
    let build = printed dot-Fits (print_int-Fits (v.build % 2 ^ 16)) 12 (omega arith) in
    printed (release_3x-Fits v) build 36 (omega arith)

service_pack-Fits : (t : List ℕ) → length t < 128 → Fits 130 (codes " (" ++ (t ++ codes ")"))
unfolding codes
service_pack-Fits t small =
    let closed =
      printed (short 127 t (omega arith)) (short 1 (codes ")") (omega arith)) 128 (omega arith) in
    printed (short 2 (codes " (") (omega arith)) closed 130 (omega arith)

pub release_nt-Fits : (v : OsVersion) → length v.csd_version < 128 → Fits 165 (release_nt v)
unfolding release_nt
release_nt-Fits v small =
    let build = printed dot-Fits (print_int-Fits v.build) 12 (omega arith) in
    let tens = printed (print_int-Fits (v.minor * 10 % 2 ^ 32)) build 23 (omega arith) in
    let numbers =
      printed (print_int-Fits v.major) (printed dot-Fits tens 24 (omega arith)) 35 (omega arith) in
    elim (Bool-cases (ltb 0 (length v.csd_version))) [
      | inl serviced ↦
          rw serviced (printed numbers (service_pack-Fits v.csd_version small) 165 (omega arith))
      | inr plain ↦ rw plain (short 165 _ (omega (arith, numbers.at_most)))
    ]

pub sprintf_s-Fits : (t : List ℕ) → (n : ℕ) → Fits n t → n < 255 → sprintf_s t ≡ some t
sprintf_s-Fits t n fits room = rw (lt→ltb (length t) 255 (omega (arith, fits.at_most))) refl

length-sysname_9x : (v : OsVersion) → length (sysname_9x v) ≤ 255
unfolding sysname_9x codes
length-sysname_9x v = ground arith

length-machine_name : (a : ℕ) → length (machine_name a) ≤ 255
unfolding machine_name codes
length-machine_name a = ground arith

length-sysname_five : (w : Windows) → length (sysname_five w) ≤ 255
unfolding sysname_five codes
length-sysname_five w = ground arith

length-sysname_by_kernel : (w : Windows) (v : OsVersion) → length (sysname_by_kernel w v) ≤ 255
unfolding sysname_by_kernel codes
length-sysname_by_kernel w v = ground arith

-- What holds behind two steps that both give a result.
pub bind_Returns :
    {A B : Type 0} {P : A → Type 0} (Q : B → Type 0) (o : Option A) (f : A → Option B)
    → Returns P o
    → ((a : A) → P a → Returns Q (f a))
    → Returns Q (o >>= f)
bind_Returns Q none f held h = held
bind_Returns Q (some a) f held h = h a held

-- Both texts of a result fit, with a NUL, in arrays of 256.
BothFit : List ℕ × List ℕ → Type 0
BothFit q = (length q.0 ≤ 255) × (length q.1 ≤ 255)

-- kernel32.dll changes the numbers of the version and not the service pack.
pub kernel_version_keeps :
    (w : Windows)
    → length w.version.csd_version < 128
    → Meets (λ v. length v.csd_version < 128) (kernel_version w)
unfolding kernel_version
kernel_version_keeps w small =
    if_both (Meets (λ v. length v.csd_version < 128)) (ltb 0 w.version_size && w.version_room) _ _
      (elim_both (Meets (λ v. length v.csd_version < 128)) w.file_version none _ tt (λ f. small)) tt

-- A text that is printed again fits too.
again-BothFit :
    (w : Windows) (v : OsVersion)
    → length v.csd_version < 128
    → Returns BothFit (sprintf_s (release_nt v) >>= λ again. some (sysname_by_kernel w v, again))
unfolding BothFit
again-BothFit w v small =
    let fits = release_nt-Fits v small in
    rw (sprintf_s-Fits (release_nt v) 165 fits (omega arith))
      (length-sysname_by_kernel w v, omega (arith, fits.at_most))

module _ (w : Windows) (small : length w.version.csd_version < 128) (release : List ℕ)
    (kept : length release ≤ 255) where
  named_six-BothFit : Returns BothFit (named_six w release)
  unfolding named_six BothFit codes
  named_six-BothFit =
      if_both (Returns BothFit) (w.version.minor == 0) _ _ (ground arith, kept)
        (if_both (Returns BothFit) (w.version.minor == 1) _ _ (ground arith, kept)
          (if_both (Returns BothFit) (w.version.minor == 2) _ _
            (elim_option (Returns BothFit) (kernel_version w) _ _ (kernel_version_keeps w small)
              (length-sysname_by_kernel w w.version, kept) (λ v held. again-BothFit w v held))
            (omega arith, kept)))

  named_nt-BothFit : Returns BothFit (named_nt w release)
  unfolding named_nt BothFit codes
  named_nt-BothFit =
      if_both (Returns BothFit) (ltb w.version.major 5) _ _ (omega arith, kept)
        (if_both (Returns BothFit) (w.version.major == 5) _ _ (length-sysname_five w, kept)
          (if_both (Returns BothFit) (w.version.major == 6) _ _ named_six-BothFit
            (omega arith, kept)))

-- The packet is one that the server's peer accepts.
IsGreeting : AaruPacketHello → Type 0
IsGreeting p = (length (encode_hello p) ≡ hello_size) × IsHello (encode_hello p)

texts-IsGreeting :
    (sysname release machine : List ℕ)
    → length sysname ≤ 255
    → length release ≤ 255
    → length machine ≤ 255
    → IsGreeting (server_hello sysname release machine)
unfolding IsGreeting
texts-IsGreeting sysname release machine a b c =
    server_hello-IsHello sysname release machine (omega arith) (omega arith) (omega arith)

module _ (w : Windows) (small : length w.version.csd_version < 128) where
  nt-IsGreeting : Returns IsGreeting (
      named_nt w (release_nt w.version) >>= λ q.
      some (server_hello q.0 q.1 (machine_name w.architecture)))
  unfolding BothFit
  nt-IsGreeting =
      let fits = release_nt-Fits w.version small in
      bind_Returns IsGreeting (named_nt w (release_nt w.version)) _
        (named_nt-BothFit w small (release_nt w.version) (omega (arith, fits.at_most)))
        (λ q held. texts-IsGreeting q.0 q.1 _ held.0 held.1 (length-machine_name w.architecture))

  fill_windows-IsGreeting : Returns IsGreeting (fill_windows w)
  unfolding fill_windows codes
  fill_windows-IsGreeting =
      let old = release_3x-Fits w.version in
      let newer = release_9x-Fits w.version in
      let nt = release_nt-Fits w.version small in
      if_both (Returns IsGreeting) (w.version.platform_id == 0) _ _
        (rw (sprintf_s-Fits (release_3x w.version) 24 old (omega arith))
          (texts-IsGreeting _ _ _ (omega arith) (omega (arith, old.at_most)) (omega arith)))
        (if_both (Returns IsGreeting) (w.version.platform_id == 1) _ _
          (rw (sprintf_s-Fits (release_9x w.version) 36 newer (omega arith)) (
            texts-IsGreeting _ _ _ (length-sysname_9x w.version) (omega (arith, newer.at_most))
              (omega arith)))
          (rw (sprintf_s-Fits (release_nt w.version) 165 nt (omega arith)) nt-IsGreeting))

-- Whatever Windows tells of itself, with a service pack of fewer than 128 characters, if there is
-- room for the packet: GetHello of win32/hello.c never prints more than its 255 bytes, so that no
-- sprintf_s ends the program, and gives a packet that has hello_size bytes and meets IsHello.
pub windows_hello-IsHello :
    (w : Windows)
    → length w.version.csd_version < 128
    → (p : AaruPacketHello) × (windows_hello w true ≡ greeted p)
      × (length (encode_hello p) ≡ hello_size)
      × IsHello (encode_hello p)
unfolding IsGreeting windows_hello
windows_hello-IsHello w small = elim (Option-cases (fill_windows w)) [
  | inl e ↦ absurd (subst (Returns IsGreeting) e (fill_windows-IsGreeting w small))
  | inr (p, e) ↦
      let (size, hello) = subst (Returns IsGreeting) e (fill_windows-IsGreeting w small) in
      (p, rw (windows_hello, e) refl, size, hello)
]
