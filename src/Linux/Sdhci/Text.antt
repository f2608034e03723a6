-- ===== src/Linux/Sdhci/Text.antt =====
-- linux/sdhci.c: the registers that GetSdhciRegisters returns.
use aaruremote.Common.{
  ℕ, ◌≤◌, ◌≡◌, refl, ap, ◌∙◌, true, false, Option, none, some, List, [], ◌∷◌, ◌++◌, length, ltb,
  ◌-◌, drop, Bool-cases, inl, inr, arith, Returns, length-append, if_both, elim_both, Meets,
  bind-Meets, Bool, ◌||◌, ◌<◌,
}
use aaruremote.Common.Bytes.{codes, overwrite}
use aaruremote.Common.Text.{starts_with, before_first}
use aaruremote.Hex.{hexs2bin}
use aaruremote.Hex.Decode.{hexs2bin_newline}
use aaruremote.Worker.Transfers.Parts.{Holds, AllHold}
use aaruremote.Linux.Sysfs.{Files}
use aaruremote.Linux.Sdhci.{
  Register, TmpString, first_line, decode_register, until_nul, overflows, opened_register,
  register_path, read_register, read_registers, get_sdhci_registers,
}

-- The block has the length that is announced with it.
abbrev RegisterHolds : Register → Type 0
RegisterHolds r = Holds r.0 r.1

decoded-Holds :
    (bin : List ℕ)
    → RegisterHolds (elim bin [ [] ↦ (none, 0) | b ∷ bs ↦ (some (b ∷ bs), length (b ∷ bs)) ])
decoded-Holds [] = tt
decoded-Holds (b ∷ bs) = omega arith

decode_register-Holds : (text : List ℕ) → RegisterHolds (decode_register text)
unfolding decode_register
decode_register-Holds text = decoded-Holds (hexs2bin text)

opened_register-Holds :
    (tmp : TmpString) (file : Option (List ℕ))
    → Meets (λ r. RegisterHolds r.0) (opened_register tmp file)
unfolding opened_register
opened_register-Holds tmp none = tt
opened_register-Holds tmp (some []) = decode_register-Holds tmp.text
opened_register-Holds tmp (some (c ∷ cs)) =
    if_both (Meets (λ r. RegisterHolds r.0)) (overflows tmp.grown (length (first_line (c ∷ cs))))
      none _ tt (decode_register-Holds (until_nul (first_line (c ∷ cs))))

read_register-Holds :
    (files : Files) (path : List ℕ) (tmp : TmpString)
    → Meets (λ r. RegisterHolds r.0) (read_register files path tmp)
unfolding read_register
read_register-Holds files path tmp =
    if_both (Meets (λ r. RegisterHolds r.0)) (files.readable path)
      (opened_register tmp (files.open_file path)) (some ((none, 0), tmp))
      (opened_register-Holds tmp (files.open_file path)) tt

read_registers-Holds :
    (files : Files) (size : ℕ) (name : List ℕ) → Meets AllHold (read_registers files size name)
unfolding read_registers
read_registers-Holds files size name =
    let holds : Register × TmpString → Type 0 = λ r. RegisterHolds r.0 in
    bind-Meets holds AllHold _ _ (read_register-Holds files _ _) λ csd held1.
      bind-Meets holds AllHold _ _ (read_register-Holds files _ csd.1) λ cid held2.
        bind-Meets holds AllHold _ _ (read_register-Holds files _ cid.1) λ scr held3.
          bind-Meets holds AllHold _ _ (read_register-Holds files _ scr.1)
            λ ocr held4. (held1, held2, held4, held3)

-- The first line has fewer than 1023 bytes, none of them 0, and then a newline.
abbrev pub IsShortLine : List ℕ → Type 0
IsShortLine content =
    (text : List ℕ) × (first_line content ≡ text ++ 10 ∷ [])
    × (before_first 0 (first_line content) ≡ none)
    × (length text < 1023)

-- The files that can be opened start with such a line.
abbrev pub OfLines : Files → Type 0
OfLines files = (path content : List ℕ) → files.open_file path ≡ some content → IsShortLine content

newline_register : (text : List ℕ) → decode_register (text ++ 10 ∷ []) ≡ (none, 0)
unfolding decode_register
newline_register text = rw (decode_register, hexs2bin_newline text) refl

short_line_fits : (grown : Bool) (size : ℕ) → size ≤ 1023 → overflows grown size ≡ false
unfolding overflows
short_line_fits grown size short = ground arith

until_nul_whole : (line : List ℕ) → before_first 0 line ≡ none → until_nul line ≡ line
unfolding until_nul
until_nul_whole line e = rw (until_nul, e) refl

opened_register_of_line :
    (tmp : TmpString) (file : Option (List ℕ))
    → ((content : List ℕ) → file ≡ some content → IsShortLine content)
    → (tmp' : TmpString) × (opened_register tmp file ≡ some ((none, 0), tmp'))
unfolding opened_register first_line
opened_register_of_line tmp none lines = (tmp, refl)
opened_register_of_line tmp (some []) lines =
    let (text, ends, no_nul, short) = lines [] refl in
    absurd (omega (arith, ap length ends, length-append text (10 ∷ [])))
opened_register_of_line tmp (some (c ∷ cs)) lines =
    let (text, ends, no_nul, short) = lines (c ∷ cs) refl in
    let line = first_line (c ∷ cs) in
    let small : length line ≤ 1023 =
      omega (arith, ap length ends, length-append text (10 ∷ []), short) in
    let empty : decode_register line ≡ (none, 0) =
      ap decode_register ends ∙ newline_register text in
    (
      record { text = line; grown = tmp.grown || ltb 1025 (length line) },
      rw (short_line_fits tmp.grown (length line) small, until_nul_whole line no_nul, empty) refl,
    )

read_register_of_line :
    (files : Files)
    → OfLines files
    → (path : List ℕ) (tmp : TmpString)
    → (tmp' : TmpString) × (read_register files path tmp ≡ some ((none, 0), tmp'))
unfolding read_register
read_register_of_line files lines path tmp = elim (Bool-cases (files.readable path)) [
  | inl can ↦
      let (tmp', e) = opened_register_of_line tmp (files.open_file path) (lines path) in
      (tmp', rw can e)
  | inr cannot ↦ (tmp, rw cannot refl)
]

read_registers-OfLines :
    (files : Files)
    → OfLines files
    → (size : ℕ) (name : List ℕ)
    → Returns
        (λ r. (r.is_sdhci ≡ 1) × (r.csd ≡ none) × (r.cid ≡ none) × (r.ocr ≡ none) × (r.scr ≡ none))
        (read_registers files size name)
unfolding read_registers
read_registers-OfLines files lines size name =
    let path = register_path size name in
    let read = read_register_of_line files lines in
    let (t1, e1) = read (path (codes "csd")) record { text = name; grown = false } in
    let (t2, e2) = read (path (codes "cid")) t1 in
    let (t3, e3) = read (path (codes "scr")) t2 in
    let (t4, e4) = read (path (codes "ocr")) t3 in
    rw (e1, e2, e3, e4) (refl, refl, refl, refl, refl)

-- If every file that can be opened starts with a line of fewer than 1023 bytes without a NUL and
-- then a newline, the blocks are allocated, the path of the device is that of a card and has 1029
-- bytes or less, and its name is found with a NUL behind it in the block that it is copied to:
-- GetSdhciRegisters of Linux returns 1 and none of the four registers.
pub get_sdhci_registers-OfLines :
    (raw : List ℕ) (files : Files) (device_path name : List ℕ)
    → OfLines files
    → starts_with (codes "/dev/mmcblk") device_path ≡ true
    → length device_path ≤ 1029
    → before_first 0 (overwrite raw (drop 5 device_path)) ≡ some name
    → Returns
        (λ r. (r.is_sdhci ≡ 1) × (r.csd ≡ none) × (r.cid ≡ none) × (r.ocr ≡ none) × (r.scr ≡ none))
        (get_sdhci_registers (some raw) files (some device_path))
unfolding get_sdhci_registers
get_sdhci_registers-OfLines raw files device_path name lines card short ended =
    let fits : ltb 1024 (length device_path - 5) ≡ false = ground arith in
    rw (card, fits, ended) (read_registers-OfLines files lines (length device_path) name)

-- Whenever GetSdhciRegisters of Linux returns, the blocks have the lengths that are announced.
pub get_sdhci_registers-AllHold :
    (raw : Option (List ℕ)) (files : Files) (path : Option (List ℕ))
    → Meets AllHold (get_sdhci_registers raw files path)
unfolding get_sdhci_registers
get_sdhci_registers-AllHold raw files none = (tt, tt, tt, tt)
get_sdhci_registers-AllHold raw files (some path) =
    if_both (Meets AllHold) (starts_with (codes "/dev/mmcblk") path) _ _
      (elim_both (Meets AllHold) raw _ _ (tt, tt, tt, tt)
        λ block. if_both (Meets AllHold) (ltb 1024 (length path - 5)) none _ tt (
          elim_both (Meets AllHold) (before_first 0 (overwrite block (drop 5 path))) none
            (λ name. read_registers files (length path) name) tt
            λ name. read_registers-Holds files (length path) name))
      (tt, tt, tt, tt)
