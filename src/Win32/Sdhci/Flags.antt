-- ===== src/Win32/Sdhci/Flags.antt =====
-- win32/sdhci.c: the response type that the card's driver is asked for.
use Prim.Native.Nat.{digits, bit_or-bitwise, max}
use aaruremote.Common.{ℕ, zero, suc, ◌/◌, ◌≤◌, ◌≡◌, List, refl, true, arith, bit_or, bit_and}
use aaruremote.Worker.Platform.{SdhciCall}
use aaruremote.Win32.Sdhci.{r6, present_crc_opcode, is_set, response_type, sff_command}

or_digits : (n a b : ℕ) → b ≤ digits (λ b. b) max n a b
or_digits zero a b = omega arith
or_digits (suc n) zero b = omega arith
or_digits (suc n) (suc a) b = omega (arith, or_digits n (suc a / 2) (b / 2))

le-bit_or : (a b : ℕ) → b ≤ bit_or a b
le-bit_or a b = omega (arith, or_digits a a b, bit_or-bitwise a b)

always_set : (flags : ℕ) → is_set (present_crc_opcode flags) ≡ true
unfolding is_set present_crc_opcode
always_set flags = ground (arith, le-bit_or (bit_or (bit_and flags 1) 4) 16)

-- Whatever the flags and the data are, SendSdhciCommand of Windows asks for the response type of
-- R6.
pub sff_command_asks_r6 :
    (c : SdhciCall) (data_buf : List ℕ) → (sff_command c data_buf).response_type ≡ r6
unfolding sff_command response_type
sff_command_asks_r6 c data_buf = rw (always_set c.flags) refl
