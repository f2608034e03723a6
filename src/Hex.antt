-- ===== src/Hex.antt =====
-- hex2bin.c: hexadecimal text to bytes. A character is its code; the terminating NUL of a C string
-- is the end of the list, and a list that stands for one holds no 0.
pub mod Decode
use aaruremote.Common.{
  ℕ, ◌+◌, ◌-◌, ◌*◌, ◌/◌, ◌%◌, Bool, ◌&&◌, Option, none, some, List, [], ◌∷◌, length, leb, ◌==◌,
  bit_or, if◌then◌else◌, arith,
}

-- `Hexchr2Bin`: the digit's value; `none` is the result 0, on which `*out` is not written.
-- `char` may be signed: a code from 128 on is then negative, and fails the same tests.
unfoldable pub hexchr2bin : ℕ → Option ℕ
hexchr2bin hex =
    if leb b'0' hex && leb hex b'9'
    then some (hex - b'0')
    else if leb b'A' hex && leb hex b'F'
    then some (hex - b'A' + 10)
    else if leb b'a' hex && leb hex b'f'
    then some (hex - b'a' + 10)
    else none

-- One round of the loop in `Hexs2Bin`: `none` is the early `return 0`, otherwise the byte
-- `(b1 << 4) | b2` as it is stored in an `unsigned char`.
unfoldable pub hex_byte : ℕ → ℕ → Option ℕ
hex_byte c d = elim (hexchr2bin c) [
  | none ↦ none
  | some b1 ↦ elim (hexchr2bin d) [ none ↦ none | some b2 ↦ some (bit_or (b1 * 16) b2 % 256) ]
]

-- The loop, over the characters that are left.
unfoldable pub hex_pairs : List ℕ → Option (List ℕ)
hex_pairs [] = some []
hex_pairs (c ∷ []) = none
hex_pairs (c ∷ d ∷ cs) =
    let rest = hex_pairs cs in
    elim (hex_byte c d) [
      | none ↦ none
      | some b ↦ elim rest [ none ↦ none | some bs ↦ some (b ∷ bs) ]
    ]

-- `Hexs2Bin`: the bytes at `*out`; an empty list is the result 0.
unfoldable pub hexs2bin : List ℕ → List ℕ
unfolding hex_pairs
hexs2bin hex = if length hex % 2 == 0 then elim (hex_pairs hex) [ none ↦ [] | some bs ↦ bs ] else []
