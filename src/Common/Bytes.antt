-- ===== src/Common/Bytes.antt =====
-- Buffers as lists of bytes: little-endian fields (the `htole`, `letoh` macros of endian.h on a
-- little-endian host), bounded reads, and the memory functions that the source calls.
use Prim.Native.Nat.{ℕ, zero, suc, ◌+◌, ◌*◌, ◌/◌, ◌%◌, ◌^◌, ◌≤◌, ◌<◌}
use mathlib.Core.Path.{◌≡◌, refl, ap}
use mathlib.Core.Option.{Option, none, some}
use mathlib.Core.List.{List, [], ◌∷◌, ◌++◌}
use native.Mathlib.Omega.{arith}
use Prim.Native.Char.{code}
use Prim.Native.String.{String}
use aaruremote.Common.Tests.{leb, le→leb, if◌then◌else◌}
use aaruremote.Common.Lists.{
  length, take, drop, All, length-append, length-take, length-drop, take-append_exact,
  drop-append_exact,
}

abbrev pub IsByte : ℕ → Type 0
IsByte b = b < 256

-- The `k` bytes of `v`, lowest first: how a little-endian host stores an unsigned integer.
abbrev pub le_bytes : ℕ → ℕ → List ℕ
le_bytes zero v = []
le_bytes (suc k) v = v % 256 ∷ le_bytes k (v / 256)

-- The unsigned integer that a little-endian host loads from these bytes.
abbrev pub le_value : List ℕ → ℕ
le_value [] = 0
le_value (b ∷ bs) = b + 256 * le_value bs

-- `n` bytes at offset `off`; `none` when the access leaves the buffer.
abbrev pub read_at : List ℕ → ℕ → ℕ → Option (List ℕ)
read_at buf off n = if leb (off + n) (length buf) then some (take n (drop off buf)) else none

-- What is in a buffer after `got` was written at its start.
abbrev pub overwrite : List ℕ → List ℕ → List ℕ
overwrite raw got = got ++ drop (length got) raw

pub length-le_bytes : (k v : ℕ) → length (le_bytes k v) ≡ k
length-le_bytes zero v = refl
length-le_bytes (suc k) v = ap suc (length-le_bytes k (v / 256))

pub le_value-le_bytes2 : (v : ℕ) → v < 2 ^ 16 → le_value (le_bytes 2 v) ≡ v
le_value-le_bytes2 v h = omega arith

pub le_value-le_bytes4 : (v : ℕ) → v < 2 ^ 32 → le_value (le_bytes 4 v) ≡ v
le_value-le_bytes4 v h = omega arith

pub le_value-le_bytes8 : (v : ℕ) → v < 2 ^ 64 → le_value (le_bytes 8 v) ≡ v
le_value-le_bytes8 v h = omega arith

pub le_bytes-IsByte : (k v : ℕ) → All IsByte (le_bytes k v)
le_bytes-IsByte zero v = tt
le_bytes-IsByte (suc k) v = (omega arith, le_bytes-IsByte k (v / 256))

pub read_at-append :
    (front xs back : List ℕ) (off n : ℕ)
    → length front ≡ off
    → length xs ≡ n
    → read_at (front ++ (xs ++ back)) off n ≡ some xs
read_at-append front xs back off n hf hx = rw (
  le→leb (off + n) (length (front ++ (xs ++ back)))
      (omega (arith, length-append front (xs ++ back), length-append xs back)),
  drop-append_exact off front (xs ++ back) hf,
  take-append_exact n xs back hx,
)

pub length-overwrite :
    (raw got : List ℕ) → length got ≤ length raw → length (overwrite raw got) ≡ length raw
length-overwrite raw got h =
    omega (arith, length-append got (drop (length got) raw), length-drop (length got) raw)

-- The characters of a literal.
unfoldable pub codes : String → List ℕ
codes String.[] = []
codes (String.◌∷◌ c s) = code c ∷ codes s

-- A read inside the buffer succeeds.
pub read_at_inside :
    (b : List ℕ) (off n : ℕ) → off + n ≤ length b → read_at b off n ≡ some (take n (drop off b))
read_at_inside b off n h = rw (le→leb (off + n) (length b) h)

pub length-take-drop :
    (b : List ℕ) (off n : ℕ) → off + n ≤ length b → length (take n (drop off b)) ≡ n
length-take-drop b off n h = omega (arith, length-take n (drop off b), length-drop off b)
