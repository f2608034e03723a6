-- ===== src/Common/Text.antt =====
-- The functions of string.h that the source calls, on texts without their terminating NUL.
use Prim.Native.Nat.{ℕ, ◌<◌}
use mathlib.Core.Path.{◌≡◌, refl, ap}
use mathlib.Core.Logic.{inl, inr}
use mathlib.Core.Bool.{Bool, true, false, ◌&&◌, ◌||◌}
use mathlib.Core.Option.{Option, none, some}
use mathlib.Core.List.{List, [], ◌∷◌, ◌++◌}
use native.Mathlib.Omega.{arith}
use aaruremote.Common.Tests.{◌==◌, if◌then◌else◌, Bool-cases, Option-cases}
use aaruremote.Common.Lists.{length}

-- `strncmp(text, prefix, strlen(prefix)) == 0`
abbrev pub starts_with : List ℕ → List ℕ → Bool
starts_with [] text = true
starts_with (p ∷ ps) [] = false
starts_with (p ∷ ps) (c ∷ cs) = p == c && starts_with ps cs

-- `strstr(text, part) != NULL`
abbrev pub contains : List ℕ → List ℕ → Bool
contains part [] = starts_with part []
contains part (c ∷ cs) = starts_with part (c ∷ cs) || contains part cs

-- The text in front of the first occurrence of a character, found by `strchr`.
abbrev pub before_first : ℕ → List ℕ → Option (List ℕ)
before_first k [] = none
before_first k (c ∷ cs) =
    let rest = before_first k cs in
    if c == k then some [] else elim rest [ none ↦ none | some t ↦ some (c ∷ t) ]

-- The text in front of the last occurrence of a character, found by `strrchr`.
abbrev pub before_last : ℕ → List ℕ → Option (List ℕ)
before_last k [] = none
before_last k (c ∷ cs) = elim (before_last k cs) [
  | some t ↦ some (c ∷ t)
  | none ↦ if c == k then some [] else none
]

-- The text behind that occurrence.
abbrev pub after_last : ℕ → List ℕ → Option (List ℕ)
after_last k [] = none
after_last k (c ∷ cs) = elim (after_last k cs) [
  | some t ↦ some t
  | none ↦ if c == k then some cs else none
]

abbrev value : Option (List ℕ) → List ℕ
value none = []
value (some t) = t

-- What is in front of the last occurrence is a proper initial part of the text.
pub before_last-append :
    (k : ℕ) (text front : List ℕ)
    → before_last k text ≡ some front
    → (back : List ℕ) × (text ≡ front ++ back) × (length front < length text)
before_last-append k [] front e = absurd (ground (arith, e))
before_last-append k (c ∷ cs) front e = elim (Option-cases (before_last k cs)) [
  | inl last ↦ elim (Bool-cases (c == k)) [
    | inl here ↦
        let cut : [] ≡ front = ap value (rw (last, here) at e) in
        (c ∷ cs, rw (← cut) refl, rw (← cut) (omega arith))
    | inr other ↦ absurd (ground (arith, rw (last, other) at e))
  ]
  | inr (t, later) ↦
      let (back, whole, shorter) = before_last-append k cs t later in
      let cut : c ∷ t ≡ front = ap value (rw later at e) in
      (back, rw (← cut) (ap (λ q. c ∷ q) whole), rw (← cut) (omega arith))
]
