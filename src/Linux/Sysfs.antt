-- ===== src/Linux/Sysfs.antt =====
-- linux/: what the device functions read of the file system, and the walk up a sysfs path that
-- usb.c, ieee1394.c and pcmcia.c share. A path is a text without its NUL.
pub mod Walk
use aaruremote.Common.{
  ℕ, zero, suc, ◌-◌, ◌+◌, ◌*◌, ◌%◌, ◌^◌, Bool, true, false, ◌&&◌, ◌||◌, not, Option, none, some,
  List, [], ◌∷◌, ◌++◌, take, drop, leb, ◌==◌, if◌then◌else◌, length,
}
use aaruremote.Common.Bytes.{codes}
use aaruremote.Common.Text.{starts_with, before_last}
use aaruremote.Hex.{hexchr2bin}

-- The state of the file system, which none of the calls changes.
pub record Files : Type 0 where
  -- `access(path, R_OK) == 0` and `access(path, F_OK) == 0`.
  pub readable : List ℕ → Bool
  pub present : List ℕ → Bool
  -- `stat(path, &sb) == 0 && S_ISDIR(sb.st_mode)`
  pub is_directory : List ℕ → Bool
  -- The target of a link, of fewer than 4096 bytes; `none` is the result -1.
  pub readlink : List ℕ → Option (List ℕ)
  -- The bytes of a file; `none` if `fopen` fails.
  pub open_file : List ℕ → Option (List ℕ)
  -- The names in a directory, and which of them are directories; `none` if `opendir` fails.
  pub open_directory : List ℕ → Option (List (List ℕ × Bool))

-- `snprintf(path, 4096, …)`: what is longer is cut.
abbrev pub path_4096 : List ℕ → List ℕ
path_4096 text = take 4095 text

-- `snprintf(tmp_path, 4096, "%s/name", dir)`
abbrev pub child : List ℕ → List ℕ → List ℕ
child dir name = path_4096 (dir ++ b'/' ∷ name)

-- `fread(buffer, size, 1, file)`: the bytes stored, and the number of items read, which is 1 only
-- when all `size` bytes are there.
abbrev pub fread_one : ℕ → List ℕ → List ℕ × ℕ
fread_one size content = (take size content, if leb size (length content) then 1 else 0)

-- White space, which `fscanf` skips.
abbrev is_space : ℕ → Bool
is_space c = c == 32 || (leb 9 c && leb c 13)

abbrev skip_space : List ℕ → List ℕ
skip_space [] = []
skip_space (c ∷ cs) = let rest = skip_space cs in if is_space c then rest else c ∷ cs

-- At most `width` hexadecimal digits.
abbrev pub hex_number : ℕ → ℕ → List ℕ → ℕ
hex_number zero value text = value
hex_number (suc width) value [] = value
hex_number (suc width) value (c ∷ cs) = elim (hexchr2bin c) [
  | none ↦ value
  | some d ↦ hex_number width (value * 16 + d) cs
]

-- The digits, if the first character is one.
unfoldable pub hex_digits : ℕ → List ℕ → Option ℕ
hex_digits zero text = none
hex_digits (suc width) [] = none
hex_digits (suc width) (c ∷ cs) = elim (hexchr2bin c) [
  | none ↦ none
  | some d ↦ some (hex_number width d cs)
]

-- An optional `0x`, which counts towards the width.
unfoldable pub hex_prefixed : ℕ → List ℕ → Option ℕ
unfolding hex_digits
hex_prefixed width text =
    if leb 3 width && (starts_with (codes "0x") text || starts_with (codes "0X") text)
    then hex_digits (width - 2) (drop 2 text)
    else hex_digits width text

-- `fscanf(file, "%<width>x", &value)` into an unsigned variable of `bits` bits: `none` if nothing is
-- stored. A sign counts towards the width too.
unfoldable pub scan_hex : ℕ → ℕ → List ℕ → Option ℕ
unfolding hex_prefixed
scan_hex bits width content =
    let text = skip_space content in
    if starts_with (codes "-") text
    then elim (hex_prefixed (width - 1) (drop 1 text)) [
      | none ↦ none
      | some v ↦ some ((2 ^ bits - v % 2 ^ bits) % 2 ^ bits)
    ]
    else if starts_with (codes "+") text
    then elim (hex_prefixed (width - 1) (drop 1 text)) [
      | none ↦ none
      | some v ↦ some (v % 2 ^ bits)
    ]
    else elim (hex_prefixed width text) [ none ↦ none | some v ↦ some (v % 2 ^ bits) ]

-- What the loop over the ancestors of a path does with one of them: `continue`, or leave the loop.
pub data Visit (A : Type 0) : Type 0 where
  go_on : Visit A
  leave : A → Visit A

-- `while(test(path)) { cut the path at its last '/'; … }`, which `break`s when there is no '/' or
-- nothing in front of it. `none` when the fuel is used up.
unfoldable pub walk_up :
    {A : Type 0} → (List ℕ → Bool) → (List ℕ → Visit A) → A → ℕ → List ℕ → Option A
walk_up test visit default zero path = none
walk_up test visit default (suc fuel) path = elim (test path) [
  | false ↦ some default
  | true ↦ elim (before_last b'/' path) [
    | none ↦ some default
    | some [] ↦ some default
    | some (c ∷ cs) ↦ elim (visit (c ∷ cs)) [
      | leave a ↦ some a
      | go_on ↦ walk_up test visit default fuel (c ∷ cs)
    ]
  ]
]

-- The sysfs directory of a block device; `none` where the three functions return before the loop.
-- The link's first two characters are dropped, and of a failed `readlink` zeros are left.
unfoldable pub block_directory : Files → List ℕ → Option (List ℕ)
block_directory files device_path =
    if starts_with (codes "/dev/sd") device_path
      || (starts_with (codes "/dev/sr") device_path || starts_with (codes "/dev/st") device_path)
    then (let link_path = path_4096 (codes "/sys/block/" ++ drop 5 device_path) in
        if files.is_directory link_path
        then elim (files.readlink link_path) [
          | none ↦ some (codes "/sys")
          | some [] ↦ none
          | some (c ∷ cs) ↦ some (path_4096 (codes "/sys" ++ drop 2 (c ∷ cs)))
        ]
        else none)
    else none
