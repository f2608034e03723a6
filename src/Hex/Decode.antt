-- ===== src/Hex/Decode.antt =====
-- hex2bin.c: what `Hexs2Bin` accepts and returns, against a printer of hexadecimal digits.
use aaruremote.Common.{
  ℕ, suc, ◌+◌, ◌-◌, ◌*◌, ◌/◌, ◌%◌, ◌<◌, ◌≡◌, refl, ◌≢◌, ◌⊎◌, inl, inr, Bool, true, ◌&&◌, none, some,
  List, [], ◌∷◌, length, All, ltb, ◌==◌, ==→eq, eq→==, zero, ◌++◌, Bool-cases, bit_or,
  if◌then◌else◌, arith, Option-cases,
}
use aaruremote.Common.Bytes.{IsByte}
use aaruremote.Hex.{hexchr2bin, hex_byte, hex_pairs, hexs2bin}

-- The lower-case digit of a value below 16.
unfoldable pub hex_digit : ℕ → ℕ
hex_digit n = if ltb n 10 then n + b'0' else n - 10 + b'a'

abbrev pub to_hex : List ℕ → List ℕ
to_hex [] = []
to_hex (b ∷ bs) = hex_digit (b / 16) ∷ hex_digit (b % 16) ∷ to_hex bs

-- The characters that stand for a digit.
unfoldable pub IsHex : ℕ → Type 0
IsHex c = hexchr2bin c ≢ none

hexchr2bin-hex_digit : (n : ℕ) → n < 16 → hexchr2bin (hex_digit n) ≡ some n
unfolding hexchr2bin hex_digit
hexchr2bin-hex_digit n h = ground arith

-- Every row of a table of `n` rows, by evaluation.
all_below : ℕ → (ℕ → Bool) → Bool
all_below zero p = true
all_below (suc n) p = p n && all_below n p

all_below→ : (n : ℕ) (p : ℕ → Bool) (x : ℕ) → all_below n p ≡ true → x < n → p x ≡ true
unfolding all_below
all_below→ zero p x h lt = absurd (omega arith)
all_below→ (suc n) p x h lt = ground (arith, all_below→ n p x)

join_table : all_below 256 (λ b. bit_or (b / 16 * 16) (b % 16) % 256 == b) ≡ true
unfolding all_below
join_table = refl

join_nibbles : (b : ℕ) → b < 256 → bit_or (b / 16 * 16) (b % 16) % 256 ≡ b
join_nibbles b h = ==→eq _ b (all_below→ 256 _ b join_table h)

length-to_hex : (bs : List ℕ) → length (to_hex bs) ≡ 2 * length bs
length-to_hex [] = omega arith
length-to_hex (b ∷ bs) = omega (arith, length-to_hex bs)

hex_byte-hex_digit : (b : ℕ) → b < 256 → hex_byte (hex_digit (b / 16)) (hex_digit (b % 16)) ≡ some b
unfolding hex_byte
hex_byte-hex_digit b h = ground (
  arith,
  hexchr2bin-hex_digit (b / 16) (omega arith),
  hexchr2bin-hex_digit (b % 16) (omega arith),
  join_nibbles b h,
)

hex_pairs-to_hex : (bs : List ℕ) → All IsByte bs → hex_pairs (to_hex bs) ≡ some bs
unfolding hex_pairs
hex_pairs-to_hex [] h = refl
hex_pairs-to_hex (b ∷ bs) (hb, hbs) =
    ground (arith, hex_byte-hex_digit b hb, hex_pairs-to_hex bs hbs)

-- Decoding the two-digit lower-case hexadecimal text of any bytes returns those bytes.
pub hexs2bin-to_hex : (bs : List ℕ) → All IsByte bs → hexs2bin (to_hex bs) ≡ bs
unfolding hexs2bin
hexs2bin-to_hex bs h =
    rw (eq→== (length (to_hex bs) % 2) 0 (omega (arith, length-to_hex bs)), hex_pairs-to_hex bs h)

list_cases {ℓ} : {A : Type ℓ} (xs : List A) → (xs ≡ []) ⊎ (xs ≢ [])
list_cases [] = inl refl
list_cases (x ∷ xs) = inr (λ e. cc)

hex_byte_shape : (c d b : ℕ) → hex_byte c d ≡ some b → IsByte b × IsHex c × IsHex d
unfolding hex_byte IsHex
hex_byte_shape c d b h = ground arith

hex_pairs_round :
    (c d b : ℕ) (cs bs : List ℕ)
    → hex_pairs (c ∷ d ∷ cs) ≡ some (b ∷ bs)
    → (hex_byte c d ≡ some b) × (hex_pairs cs ≡ some bs)
unfolding hex_pairs
hex_pairs_round c d b cs bs h = ground arith

hex_pairs_shape :
    (cs bs : List ℕ)
    → hex_pairs cs ≡ some bs
    → (length cs ≡ 2 * length bs) × All IsByte bs × All IsHex cs
unfolding hex_pairs
hex_pairs_shape [] [] h = ground arith
hex_pairs_shape [] (b ∷ bs) h = cc
hex_pairs_shape (c ∷ []) bs h = cc
hex_pairs_shape (c ∷ d ∷ cs) [] h = ground arith
hex_pairs_shape (c ∷ d ∷ cs) (b ∷ bs) h =
    let (eb, er) = hex_pairs_round c d b cs bs h in
    let (hb, hc, hd) = hex_byte_shape c d b eb in
    let (len, bytes, digits) = hex_pairs_shape cs bs er in
    (omega arith, (hb, bytes), (hc, (hd, digits)))

-- A text that decodes to at least one byte has two digits for each byte, only hexadecimal digits,
-- and the result is bytes.
pub hexs2bin_accepts :
    (hex : List ℕ)
    → hexs2bin hex ≢ []
    → (length hex ≡ 2 * length (hexs2bin hex)) × All IsByte (hexs2bin hex) × All IsHex hex
unfolding hexs2bin
hexs2bin_accepts hex h = elim (Option-cases (hex_pairs hex)) [
  | inl e ↦ absurd (h (ground arith))
  | inr (bs, e) ↦ elim (Bool-cases (length hex % 2 == 0)) [
    | inl even ↦ rw (even, e) (hex_pairs_shape hex bs e)
    | inr odd ↦ absurd (h (rw odd))
  ]
]

not-All-IsHex-newline : (xs : List ℕ) → ¬ All IsHex (xs ++ 10 ∷ [])
not-All-IsHex-newline [] h = unfold hexchr2bin IsHex in h.0 refl
not-All-IsHex-newline (x ∷ xs) h = not-All-IsHex-newline xs h.1

-- A text that ends in a newline decodes to nothing.
pub hexs2bin_newline : (hex : List ℕ) → hexs2bin (hex ++ 10 ∷ []) ≡ []
hexs2bin_newline hex = elim (list_cases (hexs2bin (hex ++ 10 ∷ []))) [
  | inl e ↦ e
  | inr ne ↦ absurd (not-All-IsHex-newline hex (hexs2bin_accepts (hex ++ 10 ∷ []) ne).2)
]
