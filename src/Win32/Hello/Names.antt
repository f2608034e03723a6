-- ===== src/Win32/Hello/Names.antt =====
-- win32/hello.c: the name of the system against the names under which the versions of Windows were
-- sold.
use aaruremote.Common.{
  ℕ, ◌<◌, ◌≡◌, refl, Bool, true, false, not, some, List, if◌then◌else◌, arith, length, Returns,
  Meets, subst,
}
use aaruremote.Common.Bytes.{codes}
use aaruremote.Win32.Hello.{
  OsVersion, Windows, is_workstation, kernel_version, sysname_by_kernel, named_six, named_nt,
  release_nt, fill_windows,
}
use aaruremote.Win32.Hello.Packet.{
  bind_Returns, release_nt-Fits, sprintf_s-Fits, kernel_version_keeps,
}
use aaruremote.Hello.{server_hello}

-- The versions of Windows from Vista on.
pub data Edition : Type 0 where
  vista seven eight eight_one ten : Edition

-- Under which name a version was sold, for a workstation and for a server.
unfoldable pub sold_as : Edition → Bool → List ℕ
unfolding codes
sold_as vista true = codes "Windows Vista"
sold_as vista false = codes "Windows Server 2008"
sold_as seven true = codes "Windows 7"
sold_as seven false = codes "Windows Server 2008 R2"
sold_as eight true = codes "Windows 8"
sold_as eight false = codes "Windows Server 2012"
sold_as eight_one true = codes "Windows 8.1"
sold_as eight_one false = codes "Windows Server 2012 R2"
sold_as ten true = codes "Windows 10"
sold_as ten false = codes "Windows Server 2016"

-- The versions whose kernel32.dll has to be asked, since GetVersionEx tells 6.2 for all of them.
unfoldable pub is_asked : Edition → Bool
is_asked vista = false
is_asked seven = false
is_asked eight = true
is_asked eight_one = true
is_asked ten = true

-- The version that kernel32.dll has.
unfoldable pub Holds : Edition → OsVersion → Type 0
Holds vista v = ⊥
Holds seven v = ⊥
Holds eight v = (v.major ≡ 6) × (v.minor ≡ 2)
Holds eight_one v = (v.major ≡ 6) × (v.minor ≡ 3)
Holds ten v = v.major ≡ 10

unfoldable pub AskedTells : Edition → Windows → Type 0
AskedTells e w = (w.version.minor ≡ 2) × ((v : OsVersion) × (kernel_version w ≡ some v) × Holds e v)

-- What GetVersionEx tells of a version to a program without a manifest, beside the major version 6,
-- and what kernel32.dll holds then.
unfoldable pub Tells : Edition → Windows → Type 0
unfolding AskedTells
Tells vista w = w.version.minor ≡ 0
Tells seven w = w.version.minor ≡ 1
Tells eight w = AskedTells eight w
Tells eight_one w = AskedTells eight_one w
Tells ten w = AskedTells ten w

-- The flag under which the code looks a name up: the product type, and its opposite behind the look
-- at kernel32.dll.
unfoldable pub code_flag : Edition → Bool → Bool
unfolding is_asked
code_flag e workstation = if is_asked e then not workstation else workstation

Named : Edition → Windows → List ℕ → Type 0
Named e w name = name ≡ sold_as e (code_flag e (is_workstation w))

by_flag :
    (b : Bool) (x y : List ℕ) (f : Bool → List ℕ)
    → x ≡ f true
    → y ≡ f false
    → (if b then x else y) ≡ f b
by_flag true x y f p q = p
by_flag false x y f p q = q

module _ (w : Windows) where
  by_kernel-Named : (e : Edition) (v : OsVersion) → Holds e v → Named e w (sysname_by_kernel w v)
  unfolding sysname_by_kernel sold_as code_flag is_asked Holds Named codes
  by_kernel-Named vista v none_holds = absurd none_holds
  by_kernel-Named seven v none_holds = absurd none_holds
  by_kernel-Named eight v (major, minor) =
      rw (major, minor) (by_flag (is_workstation w) _ _ (λ b. sold_as eight (not b)) refl refl)
  by_kernel-Named eight_one v (major, minor) =
      rw (major, minor) (by_flag (is_workstation w) _ _ (λ b. sold_as eight_one (not b)) refl refl)
  by_kernel-Named ten v major =
      rw major (by_flag (is_workstation w) _ _ (λ b. sold_as ten (not b)) refl refl)

  asked-Named :
      (e : Edition) (release : List ℕ)
      → AskedTells e w
      → length w.version.csd_version < 128
      → Returns (λ q. Named e w q.0) (named_six w release)
  unfolding named_six AskedTells Named
  asked-Named e release (two, (v, read, holds)) small =
      let kept =
        subst (Meets (λ u. length u.csd_version < 128)) read (kernel_version_keeps w small) in
      rw (two, read, sprintf_s-Fits (release_nt v) 165 (release_nt-Fits v kept) (omega arith))
        (by_kernel-Named e v holds)

  named_six-Named :
      (e : Edition) (release : List ℕ)
      → Tells e w
      → length w.version.csd_version < 128
      → Returns (λ q. Named e w q.0) (named_six w release)
  unfolding named_six Named Tells sold_as code_flag is_asked codes
  named_six-Named vista release tells small =
      rw tells (by_flag (is_workstation w) _ _ (sold_as vista) refl refl)
  named_six-Named seven release tells small =
      rw tells (by_flag (is_workstation w) _ _ (sold_as seven) refl refl)
  named_six-Named eight release tells small = asked-Named eight release tells small
  named_six-Named eight_one release tells small = asked-Named eight_one release tells small
  named_six-Named ten release tells small = asked-Named ten release tells small

  named_nt_of_six :
      (release : List ℕ) → w.version.major ≡ 6 → named_nt w release ≡ named_six w release
  unfolding named_nt
  named_nt_of_six release six = simp six refl

  -- On a system of platform 2 and major version 6 that tells what an edition of Windows from Vista
  -- on tells of itself, with a service pack of fewer than 128 characters: GetHello gives the
  -- packet, and its name of the system is one under which the edition was sold: for Vista and 7 the
  -- one for the product type, workstation or server, and for 8, 8.1 and 10 the one for the opposite
  -- product type.
  pub fill_windows-Named :
      (e : Edition)
      → w.version.platform_id ≡ 2
      → w.version.major ≡ 6
      → Tells e w
      → length w.version.csd_version < 128
      → Returns (λ p. p.sysname ≡ sold_as e (code_flag e (is_workstation w))) (fill_windows w)
  unfolding fill_windows server_hello Named
  fill_windows-Named e nt six tells small =
      rw
        (
          nt,
          sprintf_s-Fits (release_nt w.version) 165 (release_nt-Fits w.version small) (omega arith),
          named_nt_of_six (release_nt w.version) six,
        )
        (bind_Returns (λ p. p.sysname ≡ sold_as e (code_flag e (is_workstation w)))
          (named_six w (release_nt w.version)) _
          (named_six-Named e (release_nt w.version) tells small) (λ q held. held))
