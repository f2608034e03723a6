-- ===== src/Win32/Sdhci/Registers/Holding.antt =====
-- win32/sdhci.c: GetSdhciRegisters against what the worker relies on.
use aaruremote.Common.{ℕ, ◌≡◌, Option, List, length, Meets}

-- Where malloc gives a block, it has the size that was asked for.
abbrev pub Sized : (ℕ → Option (List ℕ)) → Type 0
Sized malloc = (n : ℕ) → Meets (λ b. length b ≡ n) (malloc n)
