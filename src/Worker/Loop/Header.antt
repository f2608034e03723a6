-- ===== src/Worker/Loop/Header.antt =====
-- worker.c: the header that the loop peeks.
use aaruremote.Common.{ℕ, ◌≤◌, ◌≡◌, refl, List, ◌∷◌, ◌++◌, length, take, arith}
use aaruremote.Protocol.Header.{load_header}

-- A header is loaded from the first 16 bytes, whatever follows.
pub load_header-take :
    (p x rest : List ℕ) → 16 ≤ length p → load_header (take 16 (p ++ rest) ++ x) ≡ load_header p
unfolding load_header
load_header-take (a ∷ b ∷ c ∷ d ∷ e ∷ f ∷ g ∷ h ∷ i ∷ j ∷ k ∷ l ∷ m ∷ n ∷ o ∷ q ∷ p) x rest long =
    refl
load_header-take _ x rest long = absurd (omega arith)

pub load_header-append : (p x : List ℕ) → 16 ≤ length p → load_header (p ++ x) ≡ load_header p
unfolding load_header
load_header-append (a ∷ b ∷ c ∷ d ∷ e ∷ f ∷ g ∷ h ∷ i ∷ j ∷ k ∷ l ∷ m ∷ n ∷ o ∷ q ∷ p) x long = refl
load_header-append _ x long = absurd (omega arith)
